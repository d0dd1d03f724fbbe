-- ===== src/Tests/Programs.antt =====
-- Runs of the programs of examples/.
use libasynckafkaclient.Prelude.{ℕ, ◌≡◌, ◌≢◌, refl, true, false, List, [], ◌∷◌, arith, inl}
use libasynckafkaclient.Prelude.Int.{pos, negsuc, minus_one, ◌-ℤ◌, leb_ℤ}
use libasynckafkaclient.Config.{Str, codes}
use libasynckafkaclient.Outcome.{ok, undefined, ◌>>=◌, Keeps}
use libasynckafkaclient.Os.{printed}
use libasynckafkaclient.Decimal.{read_digits, show_ℕ, decimal}
use libasynckafkaclient.Partition.State.{KafkaPartition}
use libasynckafkaclient.Partition.Responses.{c_str}
use libasynckafkaclient.Client.Received.{Received, JustWoken}
use libasynckafkaclient.Examples.Arguments.{Answer, Setup, no_arguments, atoi, parse, loopexit}
use libasynckafkaclient.Examples.Consumer00
use libasynckafkaclient.Examples.Consumer00.{Printed, on_all, on_all-Printed, concat}
use libasynckafkaclient.Examples.Producer00
use libasynckafkaclient.Examples.Producer00.{message}
use libasynckafkaclient.Examples.Numbering.{
  Ready, queue_events, messages_after, queue_events-numbered,
}
use libasynckafkaclient.Examples.Performance00
use libasynckafkaclient.Examples.Performance00.{on_produce_response, replicate, rates}
use libasynckafkaclient.Examples.Measuring
use libasynckafkaclient.Examples.Measuring.{
  on_responses, on_responses_ends_at, second_partition_overcounts,
}
use libasynckafkaclient.Examples.Performance01
use libasynckafkaclient.Examples.Counting.{on_deliveries}
use libasynckafkaclient.Examples.Options.{IsReturned}
use libasynckafkaclient.Examples.Ports.{start_main-IsReturned}
use libasynckafkaclient.Tests.Data.{asio, calm, calm-WritesDone, producer, world}
use libasynckafkaclient.Tests.Clients.{s0}

atoi_number : atoi (codes " -42x") ≡ ok (negsuc 41)
unfolding atoi read_digits
atoi_number = refl

atoi_too_large : atoi (codes "2147483648") ≡ undefined
unfolding atoi read_digits
atoi_too_large = refl

abbrev answers : List Answer
answers = (b't', codes "logs") ∷ (b'p', codes "65535") ∷ []

-- A partition number is cut to 16 bits.
options_parsed :
    parse Consumer00.on_option answers no_arguments
    ≡ ok (true, record no_arguments { topic = codes "logs"; partition_id = minus_one })
unfolding parse Consumer00.on_option atoi read_digits
options_parsed = refl

message_text : message 12 ≡ codes "The mssage number is : 12"
unfolding show_ℕ decimal
message_text = refl

abbrev reader : Consumer00.Program
reader = record { client = s0; num_mesgs_consumed = 3 }

abbrev deliveries : List (List Str)
deliveries = ((104 ∷ 0 ∷ 105 ∷ []) ∷ []) ∷ [] ∷ ((106 ∷ []) ∷ (107 ∷ []) ∷ []) ∷ []

printed_lines :
    (on_all deliveries reader).client.world.trace
    ≡ printed (codes "k\n") ∷ printed (codes "j\n") ∷ printed (codes "h\n") ∷ []
unfolding Consumer00.on_fetched_data c_str
printed_lines = refl

abbrev told : KafkaPartition
told = record producer { on_msg_queued = true }

abbrev writer : Producer00.Program
writer = record {
  producer = record s0 { client = record (s0.client) { partitions = told ∷ producer ∷ [] } };
  num_mesgs = 4;
}

writer-Ready : Ready 0 told writer.producer
writer-Ready = record {
  chosen = inl (refl, refl, refl);
  within = omega arith;
  here = refl;
  notified = refl;
  bound = refl;
}

queue_events-numbered_example :
    (p' : Producer00.Program) × (queue_events asio calm 0 2 writer ≡ ok p')
    × (p'.num_mesgs ≡ 6)
    × ((part' : KafkaPartition) × Ready 0 part' p'.producer
        × Received (messages_after 4 2) told part')
    × (◌≢◌ {A = ℕ} 2 0 → JustWoken told.produce_msg_q_event p'.producer.world)
queue_events-numbered_example =
    queue_events-numbered asio calm 0 2 told writer calm-WritesDone writer-Ready

abbrev measuring : Performance00.Program
measuring = record {
  producer = s0;
  msg_size = pos 100;
  num_msgs = pos 50;
  num_msgs_delivered = pos 0;
  part_last_offset = replicate 100 (pos 0);
  first_rsp = true;
  num_sent_msgs = 0;
  start_time = pos 1000;
  end_time = pos 0;
}

measuring-Fresh : Measuring.Fresh measuring
measuring-Fresh = record { no_response = refl; none_delivered = refl; offsets = refl; runs = refl }

on_responses_ends_at_example :
    (p' : Performance00.Program) × (on_responses 2
        ((pos 1001, pos 7) ∷ (pos 1002, pos 30) ∷ (pos 1003, pos 57) ∷ [])
        measuring
      ≡ ok p')
    × (p'.num_msgs_delivered ≡ pos 57 -ℤ pos 7)
    × (Measuring.has_stopped p' ≡ leb_ℤ (pos 50) (pos 57 -ℤ pos 7))
on_responses_ends_at_example =
    on_responses_ends_at 2 (pos 1001) (pos 7) ((pos 1002, pos 30) ∷ []) (pos 1003) (pos 57)
      measuring (omega arith) measuring-Fresh (refl, tt)

second_partition_overcounts_example :
    (p' : Performance00.Program) × ((on_produce_response (pos 1001) (pos 0) (pos 7) measuring
        >>= on_produce_response (pos 1002) (pos 1) (pos 900))
      ≡ ok p')
    × (p'.num_msgs_delivered ≡ pos 900)
    × (Measuring.has_stopped p' ≡ leb_ℤ (pos 50) (pos 900))
second_partition_overcounts_example =
    second_partition_overcounts (pos 1001) (pos 1002) 0 1 (pos 7) (pos 900) measuring (omega arith)
      (omega arith) (λ e. omega arith) measuring-Fresh

-- An interrupt before the end leaves a negative time, and one at the start a division by 0.
rates_interrupted : rates measuring ≡ ok (negsuc 49, negsuc 4999)
unfolding rates
rates_interrupted = refl

rates_at_once : rates (record measuring { end_time = pos 1000 }) ≡ undefined
unfolding rates
rates_at_once = refl

abbrev counting : Performance01.Program
counting = record {
  consumer = s0;
  num_msgs = pos 3;
  num_msgs_consumed = pos 0;
  start_time = pos 1000;
  end_time = pos 0;
}

-- The program stops at the delivery with which there are enough messages.
counted :
    on_deliveries ((pos 1001, (1 ∷ []) ∷ (2 ∷ []) ∷ []) ∷ (pos 1002, (3 ∷ []) ∷ []) ∷ []) counting
    ≡ record counting { num_msgs_consumed = pos 3; end_time = pos 1002; consumer = loopexit s0 }
unfolding Performance01.on_received_data
counted = refl

abbrev setup : Setup
setup = record { base = true; signal_event = true; signal_added = true }

start_main-IsReturned_example :
    Keeps IsReturned (Consumer00.start_main asio calm 1 1 false setup answers world)
    × Keeps IsReturned (Producer00.start_main asio calm 1 1 false setup answers world)
    × Keeps IsReturned (Performance00.start_main asio calm 1 1 (pos 1000) false setup answers world)
    × Keeps IsReturned (Performance01.start_main asio calm 1 1 (pos 1000) false setup answers world)
start_main-IsReturned_example =
    start_main-IsReturned asio calm 1 1 (pos 1000) false setup answers world (refl, (refl, tt))
