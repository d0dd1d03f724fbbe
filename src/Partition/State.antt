-- ===== src/Partition/State.antt =====
-- The members of KafkaPartition (src/KafkaEndpointMP.h), with the reactor and the world that its
-- methods work on, and the calls of the reactor that they make.
use libasynckafkaclient.Prelude.{ℕ, ◌+◌, suc, Bool, true, false, List, [], if◌then◌else◌}
use libasynckafkaclient.Prelude.Int.{ℤ, pos, minus_one}
use libasynckafkaclient.Config.{
  Str, KafkaBroker, KafkaClientConfig, KafkaPartitionType, consumer_p, producer_p,
}
use libasynckafkaclient.Outcome.{Outcome, ok, ◌>>=◌}
use libasynckafkaclient.Os.{Os, World, tock, log, closed, Action}
use libasynckafkaclient.Reactor.{
  Reactor, register_fd_callback, unregister_fd_callback, aeventin, aeventout,
}
use libasynckafkaclient.Wakeup.{WakeupEventSource, wakeup, new_wakeup}
use libasynckafkaclient.Periodic.{PeriodicEventSource, new_periodic}

pub record KafkaPartition : Type 0 where
  pub produce_event : WakeupEventSource
  pub produce_msg_q_event : WakeupEventSource
  pub fetch_event : WakeupEventSource
  pub md_timer_event : PeriodicEventSource
  pub oc_timer_event : PeriodicEventSource
  pub p_req_timer_event : PeriodicEventSource
  pub stored_offset_file_name : Str
  pub next_fetch_offset : ℤ
  pub msg_cnt : ℕ
  pub fetch_paused : Bool
  -- Queues and deques have their front at the head.
  pub q_msgs : List (List ℕ)
  pub dq_write_buffers : List (ℕ × List ℕ)
  pub q_in_transit_produce_request : List (List ℕ)
  pub event_flags : ℕ
  pub brokers : List KafkaBroker
  pub leader : KafkaBroker
  pub topic : Str
  pub partition : ℤ
  pub sock_fd : ℤ
  pub config : KafkaClientConfig
  pub partition_type : KafkaPartitionType
  -- Which callbacks hold a function.
  pub on_received_data : Bool
  pub on_produce_response : Bool
  pub on_msg_queued : Bool
  -- The number of m_eventData; those of the six event sources follow it.
  pub event_data : ℕ

-- The state before the body of the constructor.
abbrev pub new_partition :
    KafkaPartitionType
    → Str
    → ℤ
    → List KafkaBroker
    → KafkaBroker
    → KafkaClientConfig
    → ℕ
    → KafkaPartition
new_partition partition_type topic partition brokers leader config event_data = record {
  produce_event = new_wakeup;
  produce_msg_q_event = new_wakeup;
  fetch_event = new_wakeup;
  md_timer_event = new_periodic;
  oc_timer_event = new_periodic;
  p_req_timer_event = new_periodic;
  stored_offset_file_name = [];
  next_fetch_offset = pos 0;
  msg_cnt = 0;
  fetch_paused = false;
  q_msgs = [];
  dq_write_buffers = [];
  q_in_transit_produce_request = [];
  event_flags = aeventin + aeventout;
  brokers = brokers;
  leader = leader;
  topic = topic;
  partition = partition;
  sock_fd = minus_one;
  config = config;
  partition_type = partition_type;
  on_received_data = false;
  on_produce_response = false;
  on_msg_queued = false;
  event_data = event_data;
}

-- A partition with what its methods act on.
pub record Sys : Type 0 where
  pub part : KafkaPartition
  pub reactor : Reactor
  pub world : World

abbrev pub with_part : KafkaPartition → Sys → Sys
with_part p s = record s { part = p }

abbrev pub act : Action → Sys → Sys
act e s = record s { world = log e s.world }

abbrev pub is_consumer : KafkaPartitionType → Bool
is_consumer consumer_p = true
is_consumer producer_p = false

-- m_reactor.registerFdCallback with the answers that libevent gives now.
unfoldable pub register : Os → ℤ → ℕ → ℕ → Bool → Sys → Outcome Sys
register os fd data_id flags modify s = do
  r ←
      register_fd_callback (os.event_new s.world.tick) (os.event_add (suc s.world.tick)) fd data_id
        flags false modify s.reactor
  ok (record s { reactor = r; world = tock (tock s.world) })

-- registerFdCallback(selectFd(), eventData(), flags, false, modify).
abbrev pub watch_socket : Os → ℕ → Bool → Sys → Outcome Sys
watch_socket os flags modify s = register os s.part.sock_fd s.part.event_data flags modify s

abbrev pub wake : Os → WakeupEventSource → Sys → Outcome Sys
wake os source s = do w ← wakeup os source s.world; ok (record s { world = w })

-- `if (m_partitionType == CONSUMER_P) m_fetchEvent.wakeup()`.
unfoldable pub wake_if_consumer : Os → Sys → Outcome Sys
unfolding wakeup
wake_if_consumer os s =
    if is_consumer s.part.partition_type then wake os s.part.fetch_event s else ok s

-- Unregister and close the socket.
unfoldable pub drop_socket : Sys → Sys
unfolding unregister_fd_callback
drop_socket s = record s {
  part = record (s.part) { sock_fd = minus_one };
  reactor = unregister_fd_callback s.part.sock_fd s.reactor;
  world = log (closed s.part.sock_fd) s.world;
}
