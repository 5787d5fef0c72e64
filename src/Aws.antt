-- ===== src/Aws.antt =====
-- shared/aws.py: the ARN of a topic, and the URL and the ARN of a queue.
use outbox_fanout.Prelude.{String}
use outbox_fanout.Cloud.{Script, create_topic, get_queue_url, get_queue_arn, call, ask}

-- topic_arn creates the topic if it is absent.
unfoldable pub topic_arn : String → Script String
topic_arn name = call (create_topic name)

-- queue_url does not create the queue.
unfoldable pub queue_url : String → Script String
queue_url name = ask (get_queue_url name)

unfoldable pub queue_arn : String → Script String
queue_arn url = ask (get_queue_arn url)
