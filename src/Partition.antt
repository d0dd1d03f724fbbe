-- ===== src/Partition.antt =====
-- KafkaPartition of src/KafkaEndpointMP.h and .cpp.
pub mod State
pub mod Requests
pub mod Transfer
pub mod Writing
pub mod Ending
pub mod Offsets
pub mod Responses
pub mod Failures
pub mod Stored
pub mod Fetching
pub mod Reading
pub mod Frames
pub mod Lifecycle
pub mod Calls
pub mod Batches
pub mod Produce
pub mod Closing
pub mod Steady
pub mod Stable
pub mod Events
pub mod Kept
pub mod Queue
pub mod Carried
pub mod Launch
pub mod Runs
pub mod Timers
pub mod Adding
pub mod Restarts
pub mod Delivery
pub mod Once
pub mod Watched
pub mod Along
pub mod Leaks
pub mod Pending
pub mod Serving
pub mod Progress
pub mod Rounds
pub mod Addresses
pub mod Leaders
pub mod Starting
