-- ===== src/Examples.antt =====
-- Runs of the services at concrete inputs.
mod Notation
mod Setting
mod RelayRuns
mod OrderRuns
mod BodyRuns
mod ConsumerRuns
mod NotificationRuns
mod Journal
mod Answering
mod BootstrapRuns
mod SettingsRuns
mod LogRuns
mod ClusterRuns
mod FanoutRuns
mod AnnouncedRuns
