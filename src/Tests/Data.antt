-- ===== src/Tests/Data.antt =====
-- A system whose calls succeed, a stand-in for libkafka-asio, a producer and a consumer.
use libasynckafkaclient.Prelude.{
  ℕ, zero, suc, ◌+◌, refl, true, false, none, some, List, [], ◌∷◌, ◌++◌,
}
use libasynckafkaclient.Prelude.Int.{pos}
use libasynckafkaclient.Config.{
  codes, KafkaBroker, KafkaClientConfig, default_init, producer_p, consumer_p,
}
use libasynckafkaclient.Os.{Os, World, bytes, wrote, counter}
use libasynckafkaclient.Reactor.{Reactor}
use libasynckafkaclient.Asio.{Asio, ProduceHeader, ProduceValue, MessageAndOffset}
use libasynckafkaclient.Partition.Calls.{WritesDone}
use libasynckafkaclient.Partition.State.{KafkaPartition, Sys, new_partition}

-- Two pieces of a length prefix of 5, and two pieces of a frame with the correlation id 1.
abbrev pub arriving : ℕ → List ℕ
arriving zero = 0 ∷ 0 ∷ []
arriving (suc zero) = 0 ∷ 5 ∷ []
arriving (suc (suc zero)) = 0 ∷ 0 ∷ 0 ∷ 1 ∷ []
arriving (suc (suc (suc t))) = 42 ∷ []

abbrev pub calm : Os
calm = record {
  socket = λ t. pos 7;
  connects = λ t. true;
  write = λ t. wrote 1000;
  read = λ t n. bytes (arriving t);
  read_counter = λ t. counter 1;
  eventfd = λ t. pos (20 + t);
  timerfd = λ t. pos (20 + t);
  timer_set = λ t. true;
  event_new = λ t. true;
  event_add = λ t. true;
  gethostbyname = λ host. some (codes "10.0.0.1" ∷ []);
  is_dir = λ path. false;
}

pub calm-WritesDone : WritesDone calm
calm-WritesDone t = (1000, refl)

abbrev pub message : ℕ → List ℕ → MessageAndOffset
message offset value = record { offset = pos offset; value = some value }

-- A produce request is its header with its messages, and a frame of it their bytes.
abbrev pub bytes_of : List ProduceValue → List ℕ
bytes_of [] = []
bytes_of (v ∷ l) = v.value ++ bytes_of l

abbrev pub asio : Asio
asio = record {
  ProduceRequest = ProduceHeader × List ProduceValue;
  new_produce_request = λ h. (h, []);
  add_value = λ v r. (r.0, r.1 ++ v ∷ []);
  clear = λ r. (r.0, []);
  write_produce = λ r client. 0 ∷ bytes_of r.1;
  values = λ r. r.1;
  header = λ r. r.0;
  values-new_produce_request = λ h. refl;
  values-add_value = λ v r. refl;
  values-clear = λ r. refl;
  header-new_produce_request = λ h. refl;
  header-add_value = λ v r. refl;
  header-clear = λ r. refl;
  write_fetch = λ wait min topic partition offset max client. 1 ∷ [];
  write_metadata = λ topic client. 3 ∷ [];
  write_offset = λ topic partition time client. 2 ∷ [];
  read_produce = λ frame topic partition. (pos 7, none);
  read_fetch =
      λ frame. (pos 0, message 4 (104 ∷ []) ∷ message 5 (105 ∷ []) ∷ message 6 (106 ∷ []) ∷ []);
  read_metadata = λ frame. (pos 0, record { brokers = []; topics = [] });
  find_topic = λ response name. none;
  partition_leader = λ response topic partition. none;
  read_offset = λ frame topic partition. (pos 0, some (pos 3 ∷ []));
}

abbrev pub broker : KafkaBroker
broker = record { id = pos 1; host = codes "kafka"; ip = codes "10.0.0.1"; port = pos 9092 }

abbrev pub small_batches : KafkaClientConfig
small_batches = record default_init { p_batch_num_msgs = pos 2 }

abbrev pub world : World
world = record { tick = 0; trace = []; files = λ name. none }

-- A producer on descriptor 7 that has one message queued, counted, and one request to write.
abbrev pub producer : KafkaPartition
producer =
    record (new_partition producer_p (codes "logs") (pos 0) (broker ∷ []) broker small_batches 0) {
      sock_fd = pos 7;
      msg_cnt = 1;
      q_msgs = (97 ∷ []) ∷ [];
      dq_write_buffers = (3, 3 ∷ []) ∷ [];
    }

-- A consumer that goes on fetching from offset 5.
abbrev pub consumer : KafkaPartition
consumer =
    record (new_partition consumer_p (codes "logs") (pos 0) (broker ∷ []) broker default_init 0) {
      sock_fd = pos 7;
      next_fetch_offset = pos 5;
      on_received_data = true;
      stored_offset_file_name = codes "KafkaClient-logs-0-start-offset";
    }

-- A reactor with its event_base and no event.
abbrev pub reactor : Reactor
reactor = record { base = true; events = []; live = []; next_id = 0; loop_exit = false }

abbrev pub sys : KafkaPartition → Sys
sys p = record { part = p; reactor = reactor; world = world }
