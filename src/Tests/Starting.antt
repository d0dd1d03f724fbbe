-- ===== src/Tests/Starting.antt =====
-- A consumer that is started against a broker that answers.
use libasynckafkaclient.Prelude.{
  ℕ, suc, ◌≡◌, refl, Option, none, some, List, [], ◌∷◌, get_elem?, arith,
}
use libasynckafkaclient.Prelude.Int.{pos}
use libasynckafkaclient.Config.{codes, from_stored}
use libasynckafkaclient.Outcome.{Outcome, ok}
use libasynckafkaclient.Os.{Os, bytes}
use libasynckafkaclient.Net.{hostname_to_ip, read_data}
use libasynckafkaclient.Reactor.{register_fd_callback}
use libasynckafkaclient.Asio.{
  Asio, MetadataBroker, MetadataPartition, api_key_metadata, api_key_offset,
}
use libasynckafkaclient.Partition.State.{Sys}
use libasynckafkaclient.Partition.Calls.{EventsAdded}
use libasynckafkaclient.Partition.Frames.{Arrives}
use libasynckafkaclient.Partition.Lifecycle.{init}
use libasynckafkaclient.Partition.Responses.{
  start_offset, handle_metadata_response, handle_offset_response,
}
use libasynckafkaclient.Partition.Reading.{on_size, read_body, on_body, on_frame, dispatch}
use libasynckafkaclient.Partition.Rounds.{Connects, SameLeader}
use libasynckafkaclient.Partition.Starting.{init-start_offset}
use libasynckafkaclient.Partition.Timers.{Opens}
use libasynckafkaclient.Partition.Writing.{WritesUpTo}
use libasynckafkaclient.Client.State.{ClientSys}
use libasynckafkaclient.Client.Connect.{add_partition, add_partitions}
use libasynckafkaclient.Client.Made.{Made, add_partitions-Made}
use libasynckafkaclient.Tests.Clients.{s0}
use libasynckafkaclient.Tests.Data.{calm, asio, consumer, sys}

-- What read() gives at the calls from number 7 on: two frames of four bytes.
abbrev script : List (List ℕ)
script =
    (0 ∷ 0 ∷ 0 ∷ 4 ∷ [])
    ∷ (0 ∷ 0 ∷ 0 ∷ 3 ∷ [])
    ∷ []
    ∷ []
    ∷ []
    ∷ (0 ∷ 0 ∷ 0 ∷ 4 ∷ [])
    ∷ (0 ∷ 0 ∷ 0 ∷ 2 ∷ [])
    ∷ []

abbrev or_empty : Option (List ℕ) → List ℕ
or_empty none = []
or_empty (some l) = l

abbrev after_seven : ℕ → List ℕ
after_seven (suc (suc (suc (suc (suc (suc (suc t))))))) = or_empty (get_elem? script t)
after_seven _ = []

abbrev answering : Os
answering = record calm { read = λ t n. bytes (after_seven t) }

abbrev leader : MetadataBroker
leader = record { node_id = pos 1; host = codes "kafka"; port = pos 9092 }

abbrev led : Asio
led = record asio { partition_leader = λ response topic partition. some leader }

answering-Connects : Connects answering
answering-Connects = (λ t. refl, λ t. refl)

answering-Opens : Opens answering
answering-Opens = (λ t. ground arith, λ t. ground arith, λ t. refl)

answering-EventsAdded : EventsAdded answering
answering-EventsAdded t = refl

answering-WritesUpTo : WritesUpTo 1000 answering
answering-WritesUpTo t = (1000, refl, omega arith)

abbrev prefix : List (List ℕ)
prefix = (0 ∷ 0 ∷ 0 ∷ 4 ∷ []) ∷ []

metadata-Arrives : Arrives answering 7 prefix ((0 ∷ 0 ∷ 0 ∷ 3 ∷ []) ∷ []) api_key_metadata
metadata-Arrives = record {
  prefix = refl;
  size = refl;
  positive = omega arith;
  fits = omega arith;
  head_comes = (λ n h. refl, omega arith, tt);
  body_comes = (λ n h. refl, omega arith, tt);
  correlation = refl;
  valid_id = λ e. omega (arith, e);
}

offset-Arrives : Arrives answering 12 prefix ((0 ∷ 0 ∷ 0 ∷ 2 ∷ []) ∷ []) api_key_offset
offset-Arrives = record {
  prefix = refl;
  size = refl;
  positive = omega arith;
  fits = omega arith;
  head_comes = (λ n h. refl, omega arith, tt);
  body_comes = (λ n h. refl, omega arith, tt);
  correlation = refl;
  valid_id = λ e. omega (arith, e);
}

consumer-SameLeader : SameLeader led answering (0 ∷ 0 ∷ 0 ∷ 3 ∷ []) consumer
unfolding hostname_to_ip
consumer-SameLeader = record {
  response = record { brokers = []; topics = [] };
  leader = leader;
  ip = codes "10.0.0.1";
  fine = refl;
  named = refl;
  found = refl;
  same = refl;
}

init-start_offset_example :
    (s' : Sys) × (init led answering 1 (sys consumer) ≡ ok s')
    × (s'.part.dq_write_buffers ≡ [])
    × (s'.part.sock_fd ≡ pos 7)
    × (s'.part.next_fetch_offset ≡ start_offset from_stored (pos 5) (pos 3))
init-start_offset_example =
    init-start_offset led answering 0 1000 prefix ((0 ∷ 0 ∷ 0 ∷ 3 ∷ []) ∷ []) prefix
      ((0 ∷ 0 ∷ 0 ∷ 2 ∷ []) ∷ []) (sys consumer) (pos 3) [] refl answering-Connects answering-Opens
      answering-EventsAdded answering-WritesUpTo (omega arith) (omega arith) metadata-Arrives
      consumer-SameLeader offset-Arrives refl

-- One more partition in a metadata response, led by the broker that is known.
abbrev answered : List MetadataPartition
answered = record { error_code = pos 0; partition = pos 2; leader = pos 1 } ∷ []

abbrev reached : Outcome ClientSys → ClientSys
reached (ok u) = u
reached _ = s0

abbrev with_one_more : ClientSys
with_one_more = reached (add_partitions led answering 1 answered s0)

one_more : add_partitions led answering 1 answered s0 ≡ ok with_one_more
unfolding add_partitions add_partition register_fd_callback on_size read_data read_body on_body
    on_frame dispatch handle_metadata_response handle_offset_response
one_more = refl

add_partitions-Made_example : Made (pos 2 ∷ []) s0 with_one_more
add_partitions-Made_example = add_partitions-Made led answering 1 answered s0 one_more
