-- ===== src/Client.antt =====
-- KafkaClient, KafkaConsumer and KafkaProducer of src/KafkaClient.h and .cpp.
pub mod State
pub mod Connect
pub mod Produce
pub mod Received
pub mod Routing
pub mod Made
pub mod Attempts
pub mod Queues
pub mod Runs
pub mod Balance
pub mod Conserved
pub mod Sending
