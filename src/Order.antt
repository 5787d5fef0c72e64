-- ===== src/Order.antt =====
-- The Order Service: order/service.py and order/routes.py over the tables of order/models.py.
pub mod Service
pub mod Routes
pub mod Atomicity
pub mod Responses
pub mod Reading
pub mod Middleware
pub mod Tracing
pub mod Validation
pub mod Prices
pub mod Accepted
pub mod Lifespan
pub mod Listing
