-- ===== src/Partition/Lifecycle.antt =====
-- The constructor of KafkaPartition, init, startFetch, startProduce, pauseFetch and resumeFetch of
-- src/KafkaEndpointMP.h and .cpp, and the callbacks that they bind to the event sources.
use libasynckafkaclient.Prelude.{ℕ, ◌+◌, ◌*◌, ◌/◌, Bool, true, false, if◌then◌else◌}
use libasynckafkaclient.Outcome.{Outcome, ok, exited, ◌>>=◌}
use libasynckafkaclient.Os.{Os, msg_queued}
use libasynckafkaclient.Wakeup
use libasynckafkaclient.Wakeup.{WakeupEventSource}
use libasynckafkaclient.Periodic
use libasynckafkaclient.Periodic.{PeriodicEventSource, nsec_per_sec}
use libasynckafkaclient.Asio.{Asio}
use libasynckafkaclient.Partition.State.{
  KafkaPartition, Sys, with_part, act, register, wake, wake_if_consumer, is_consumer,
}
use libasynckafkaclient.Partition.Requests.{
  create_produce_request, create_fetch_request, create_metadata_request, create_offset_request,
}
use libasynckafkaclient.Partition.Transfer.{connect_leader, on_write_ready}
use libasynckafkaclient.Partition.Reading.{on_read_ready}
use libasynckafkaclient.Partition.Offsets.{get_kafka_offset, commit_kafka_offset}

-- The event sources of a partition.
pub data Source : Type 0 where
  produce_source produce_msg_q_source fetch_source : Source
  md_timer_source oc_timer_source p_req_timer_source : Source

-- Where a source's EventData stands behind that of the socket.
abbrev pub source_offset : Source → ℕ
source_offset produce_source = 1
source_offset produce_msg_q_source = 2
source_offset fetch_source = 3
source_offset md_timer_source = 4
source_offset oc_timer_source = 5
source_offset p_req_timer_source = 6

-- init of a wakeup source with a callback, and its registration.
abbrev pub start_wakeup :
    Os → Source → WakeupEventSource → (WakeupEventSource → KafkaPartition) → Sys → Outcome Sys
start_wakeup os source old put s = do
  (src, w) ← Wakeup.init os true old s.world
  register os src.wakeup_fd (s.part.event_data + source_offset source) src.event_flags false
      (record s { part = put src; world = w })

-- The same for a timer; an interval is divided by 1000, which leaves whole seconds.
abbrev pub interval_ns : ℕ → ℕ
interval_ns ms = ms / 1000 * nsec_per_sec

abbrev pub start_timer :
    Os
    → Source
    → ℕ
    → PeriodicEventSource
    → (PeriodicEventSource → KafkaPartition)
    → Sys
    → Outcome Sys
start_timer os source ms old put s = do
  (src, w) ← Periodic.init os (interval_ns ms) true old s.world
  register os src.timer_fd (s.part.event_data + source_offset source) src.event_flags false
      (record s { part = put src; world = w })

unfoldable pub pause_fetch : KafkaPartition → KafkaPartition
pause_fetch p = record p { fetch_paused = true }

unfoldable pub resume_fetch : Os → Sys → Outcome Sys
unfolding Wakeup.wakeup
resume_fetch os s =
    if s.part.fetch_paused
    then wake os s.part.fetch_event (with_part (record (s.part) { fetch_paused = false }) s)
    else ok s

unfoldable pub start_fetch : Os → Sys → Outcome Sys
start_fetch os s = do
  s1 ←
      start_wakeup os fetch_source s.part.fetch_event (λ src. record (s.part) { fetch_event = src })
        s
  s2 ←
      start_timer os oc_timer_source s1.part.config.c_auto_commit_interval_ms s1.part.oc_timer_event
        (λ src. record (s1.part) { oc_timer_event = src }) s1
  wake_if_consumer os s2

unfoldable pub start_produce : Os → Sys → Outcome Sys
start_produce os s = do
  s1 ←
      start_wakeup os produce_source s.part.produce_event
        (λ src. record (s.part) { produce_event = src }) s
  s2 ←
      start_wakeup os produce_msg_q_source s1.part.produce_msg_q_event
        (λ src. record (s1.part) { produce_msg_q_event = src }) s1
  s3 ←
      start_timer os p_req_timer_source s2.part.config.p_max_batch_wait_time_ms
        s2.part.p_req_timer_event (λ src. record (s2.part) { p_req_timer_event = src }) s2
  wake os s3.part.produce_msg_q_event s3

-- notifyProduceMsgQ.
unfoldable pub notify_produce_msg_q : Sys → Sys
notify_produce_msg_q s = if s.part.on_msg_queued then act msg_queued s else s

module _ (a : Asio) (os : Os) where
  -- The method that is bound to each source.
  unfoldable pub fire : Source → Sys → Outcome Sys
  unfolding create_produce_request create_fetch_request create_metadata_request commit_kafka_offset
      notify_produce_msg_q
  fire produce_source s = create_produce_request a os s
  fire produce_msg_q_source s = ok (notify_produce_msg_q s)
  fire fetch_source s = create_fetch_request a os s
  fire md_timer_source s = create_metadata_request a os s
  fire oc_timer_source s = ok (commit_kafka_offset s)
  fire p_req_timer_source s = create_produce_request a os s

  -- Write a request and read the response to it, as init does twice.
  abbrev pub round_trip : ℕ → Sys → Outcome Sys
  round_trip fuel s = on_write_ready a os fuel s >>= on_read_ready a os fuel

  -- init. A failure to connect ends the process.
  unfoldable pub init_connected : ℕ → Bool × Sys → Outcome Sys
  unfolding create_metadata_request create_offset_request on_write_ready on_read_ready Periodic.init
      register
  init_connected fuel (false, s) = exited
  init_connected fuel (true, s) = do
    s1 ← create_metadata_request a os s
    s2 ← round_trip fuel s1
    s3 ← create_offset_request a os s2
    s4 ← round_trip fuel s3
    start_timer os md_timer_source s4.part.config.m_refresh_interval_ms s4.part.md_timer_event
        (λ src. record (s4.part) { md_timer_event = src }) s4

  unfoldable pub init : ℕ → Sys → Outcome Sys
  unfolding connect_leader init_connected
  init fuel s = connect_leader os s >>= init_connected fuel

  -- The body of the constructor.
  unfoldable pub construct : ℕ → Sys → Outcome Sys
  unfolding get_kafka_offset init
  construct fuel s =
      (if is_consumer s.part.partition_type then get_kafka_offset os s else ok s) >>= init fuel
