-- ===== src/Tests/Sessions.antt =====
-- A run of a client of two partitions.
use libasynckafkaclient.Prelude.{
  ℕ, ◌+◌, ◌==◌, ◌≡◌, ◌≢◌, refl, get_elem?, arith, inl, none, some, List, [], ◌∷◌, map, str_eq,
  if◌then◌else◌,
}
use libasynckafkaclient.Prelude.Int.{pos}
use libasynckafkaclient.Outcome.{Outcome, ok, ◌>>=◌, Keeps}
use libasynckafkaclient.Reactor.{aeventout, register_fd_callback}
use libasynckafkaclient.Partition.Lifecycle.{produce_source, fire}
use libasynckafkaclient.Partition.Reading.{handle_event}
use libasynckafkaclient.Partition.State.{register}
use libasynckafkaclient.Partition.Transfer.{on_write_ready}
use libasynckafkaclient.Client.Produce.{producer_produce, producer_produce_msgs}
use libasynckafkaclient.Client.Runs.{
  Input, Log, socket, source, message, messages, run, started, Logged,
}
use libasynckafkaclient.Client.Balance.{Balanced}
use libasynckafkaclient.Client.Conserved.{run-Balanced}
use libasynckafkaclient.Config.{codes}
use libasynckafkaclient.Os.{Os, World, bytes, sent, slept_ms}
use libasynckafkaclient.Asio.{Asio, ProduceValue, MetadataResponse, MetadataTopic}
use libasynckafkaclient.Client.State.{ClientSys}
use libasynckafkaclient.Client.Connect.{ask_metadata, attempts, add_partitions, broker_of}
use libasynckafkaclient.Client.Attempts.{
  attempts_end, informed, again, at_first, no_partitions, partitions_named, with_more,
}
use libasynckafkaclient.Partition.Batches.{all_values}
use libasynckafkaclient.Partition.Requests.{produce_batches}
use libasynckafkaclient.Client.Produce.{at_partition}
use libasynckafkaclient.Client.Received.{produce_each}
use libasynckafkaclient.Client.Sending.{produce_each-SentAt, SentAt, flush, with_msgs}
use libasynckafkaclient.Tests.Sending.{calm-EventsAdded, calm-WritesUpTo}
use libasynckafkaclient.Tests.Data.{asio, calm, calm-WritesDone, producer}
use libasynckafkaclient.Tests.Clients.{s0}

-- Two messages in one call and one in another, with an event of each partition and of a socket.
abbrev inputs : List Input
inputs =
    messages ((98 ∷ []) ∷ (99 ∷ []) ∷ [])
    ∷ source 0 produce_source
    ∷ source 1 produce_source
    ∷ socket 0 (pos 7) aeventout
    ∷ message (100 ∷ [])
    ∷ []

run-Balanced_example :
    Keeps
      (λ l. Balanced asio s0 l.all_given l.all_requested l.client)
      (run asio calm 1 inputs (started s0))
run-Balanced_example = run-Balanced asio calm 1 inputs s0

abbrev logged : Outcome Logged → Outcome (Log × Log)
logged m = m >>= λ l. ok (l.all_given, l.all_requested)

logged-run :
    logged (run asio calm 1 inputs (started s0))
    ≡ ok (
      (0, (98 ∷ []) ∷ (99 ∷ []) ∷ []) ∷ (0, (100 ∷ []) ∷ []) ∷ [],
      (0, (0 ∷ 97 ∷ 98 ∷ 99 ∷ []) ∷ []) ∷ (1, (0 ∷ 97 ∷ []) ∷ []) ∷ [],
    )
unfolding producer_produce_msgs producer_produce fire handle_event register register_fd_callback
    on_write_ready
logged-run = refl

-- Each answer of the broker has one byte, the number of the read that gets it.
abbrev numbered : Os
numbered = record calm { read = λ t n. bytes (if n == 4 then 0 ∷ 0 ∷ 0 ∷ 1 ∷ [] else t ∷ []) }

abbrev one_partition : MetadataTopic
one_partition = record {
  topic_name = codes "logs";
  partitions = record { error_code = pos 0; partition = pos 2; leader = pos 1 } ∷ [];
}

-- The topic has no partition in the first answer and one in the later ones.
abbrev creating : Asio
creating = record asio {
  read_metadata = λ frame. (
    pos 0,
    record {
      brokers = record { node_id = pos 1; host = codes "kafka"; port = pos 9092 } ∷ [];
      topics =
          (if str_eq frame (2 ∷ [])
            then record one_partition { partitions = [] }
            else one_partition)
          ∷ [];
    },
  );
  find_topic = λ r name. elim r.topics [ [] ↦ none | topic ∷ topics ↦ some topic ];
}

abbrev exchange : World → World
exchange w = record w { tick = w.tick + 3; trace = sent (pos 7) (3 ∷ []) ∷ slept_ms 100 ∷ w.trace }

abbrev first_answer : MetadataResponse
first_answer = (creating.read_metadata (2 ∷ [])).1

abbrev second_answer : MetadataResponse
second_answer = (creating.read_metadata (5 ∷ [])).1

abbrev waiting : ClientSys
waiting = record s0 { world = exchange s0.world }

abbrev told_nothing : ClientSys
told_nothing = informed numbered first_answer waiting

abbrev told_again : ClientSys
told_again = record told_nothing { world = exchange told_nothing.world }

asked_once : ask_metadata creating numbered 1 (pos 7) s0 ≡ ok (first_answer, waiting)
unfolding ask_metadata
asked_once = refl

asked_twice : ask_metadata creating numbered 1 (pos 7) told_nothing ≡ ok (second_answer, told_again)
unfolding ask_metadata
asked_twice = refl

attempts_end_example :
    (attempts creating numbered 1 2 (pos 7) s0
      ≡ add_partitions creating numbered 1 one_partition.partitions
          (informed numbered second_answer told_again))
    × (told_again.client ≡ with_more (map (broker_of numbered) first_answer.brokers) s0.client)
attempts_end_example =
    attempts_end creating numbered 1 0 (pos 7)
      (again at_first asked_once (no_partitions refl refl refl)) asked_twice
      (partitions_named refl refl refl)

abbrev two_msgs : List (List ℕ)
two_msgs = (98 ∷ []) ∷ (99 ∷ []) ∷ []

abbrev sent_now : List (ℕ × List ℕ)
sent_now = (3, 3 ∷ []) ∷ (0, 0 ∷ 97 ∷ 98 ∷ 99 ∷ []) ∷ []

produce_each-SentAt_example :
    (s' u : ClientSys) × (produce_each calm two_msgs s0 ≡ ok s')
    × (at_partition 0 (flush asio calm 1 2) s' ≡ ok u)
    × SentAt 0 producer sent_now s' u
    × (map
          (λ (v : ProduceValue). v.value)
          (all_values asio (produce_batches asio (with_msgs two_msgs producer)))
        ≡ (97 ∷ []) ∷ two_msgs)
    × ((j : ℕ) → j ≢ 0 → get_elem? u.client.partitions j ≡ get_elem? s0.client.partitions j)
unfolding produce_batches
produce_each-SentAt_example =
    produce_each-SentAt asio calm 1 0 1000 two_msgs s0 producer calm-WritesDone calm-EventsAdded
      calm-WritesUpTo (inl (refl, refl, refl)) (omega arith) refl (ground arith) (omega arith)
