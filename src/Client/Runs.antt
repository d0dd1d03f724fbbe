-- ===== src/Client/Runs.antt =====
-- Runs of the event loop over all the partitions of a client (src/KafkaClient.cpp with
-- src/KafkaEndpointMP.cpp): what the reactor reports and what the application calls, in any order.
use libasynckafkaclient.Prelude.{
  ℕ, List, [], ◌∷◌, ◌++◌, get_elem?, drop, length, ◌==◌, if◌then◌else◌, none, some,
}
use libasynckafkaclient.Prelude.Int.{ℤ, ◌==ℤ◌}
use libasynckafkaclient.Config.{round_robin, partition_function, kafka_all_partitions}
use libasynckafkaclient.Outcome.{Outcome, ok, ◌>>=◌}
use libasynckafkaclient.Os.{Os}
use libasynckafkaclient.Asio.{Asio}
use libasynckafkaclient.Partition.Reading.{handle_event}
use libasynckafkaclient.Partition.Lifecycle.{Source, fire}
use libasynckafkaclient.Partition.Carried.{produce_frames}
use libasynckafkaclient.Client.State.{
  ClientSys, consumer_start_fetch, consumer_pause_fetch, consumer_resume_fetch,
  producer_start_produce,
}
use libasynckafkaclient.Client.Produce.{at_partition, producer_produce, producer_produce_msgs}

-- An event of a partition's socket or of one of its sources, or a call of the application.
pub data Input : Type 0 where
  socket : ℕ → ℤ → ℕ → Input
  source : ℕ → Source → Input
  message : List ℕ → Input
  messages : List (List ℕ) → Input
  starts_fetch pauses_fetch resumes_fetch starts_produce : Input

-- Messages or frames with the number of a partition.
abbrev pub Log : Type 0
Log = List (ℕ × List (List ℕ))

-- Those of one partition.
abbrev pub of_partition : ℕ → Log → List (List ℕ)
of_partition j [] = []
of_partition j ((i, msgs) ∷ log) = if j == i then msgs ++ of_partition j log else of_partition j log

-- Where produce puts messages; they are dropped where the application was to choose.
abbrev pub routed : List (List ℕ) → ClientSys → Log
routed msgs s =
    if s.client.partition ==ℤ kafka_all_partitions
    then elim s.client.config.p_partitioning_method [
      | round_robin ↦ (s.curr_partition, msgs) ∷ []
      | partition_function ↦ []
    ]
    else (0, msgs) ∷ []

abbrev pub given : Input → ClientSys → Log
given (message msg) s = routed (msg ∷ []) s
given (messages msgs) s = routed msgs s
given _ s = []

-- A client with the messages that its partitions have been given and the frames of produce requests that
-- they have been put into.
pub record Logged : Type 0 where
  pub client : ClientSys
  pub all_given : Log
  pub all_requested : Log

abbrev pub started : ClientSys → Logged
started s = record { client = s; all_given = []; all_requested = [] }

-- The frames of produce requests in the write buffers of a partition.
abbrev pub frames_of : ℕ → ClientSys → List (List ℕ)
frames_of i s = elim (get_elem? s.client.partitions i) [
  | none ↦ []
  | some p ↦ produce_frames p.dq_write_buffers
]

-- The frames of produce requests that an event of a source has appended, between s and u.
abbrev pub requested : Input → ClientSys → ClientSys → Log
requested (source i src) s u = (i, drop (length (frames_of i s)) (frames_of i u)) ∷ []
requested _ s u = []

module _ (a : Asio) (os : Os) (fuel : ℕ) where
  abbrev pub step : Input → ClientSys → Outcome ClientSys
  step (socket i fd flags) = at_partition i (handle_event a os fuel fd flags)
  step (source i src) = at_partition i (fire a os src)
  step (message msg) = producer_produce os msg
  step (messages msgs) = producer_produce_msgs os msgs
  step starts_fetch = consumer_start_fetch os
  step pauses_fetch = λ s. ok (consumer_pause_fetch s)
  step resumes_fetch = consumer_resume_fetch os
  step starts_produce = producer_start_produce os

  abbrev pub run : List Input → Logged → Outcome Logged
  run [] l = ok l
  run (x ∷ xs) l = step x l.client >>= λ u. run xs (record {
    client = u;
    all_given = l.all_given ++ given x l.client;
    all_requested = l.all_requested ++ requested x l.client u;
  })
