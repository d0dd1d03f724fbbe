-- ===== src/Tests/Leaders.antt =====
-- A partition whose leader moves twice.
use libasynckafkaclient.Prelude.{ℕ, ◌≡◌, refl, none, some, List, [], ◌∷◌, map}
use libasynckafkaclient.Prelude.Int.{pos}
use libasynckafkaclient.Config.{codes}
use libasynckafkaclient.Os.{Os}
use libasynckafkaclient.Asio.{Asio}
use libasynckafkaclient.Partition.Addresses.{Address, address_of, changes}
use libasynckafkaclient.Tests.Data.{asio, calm, consumer}

-- A host's name is its address, and a frame of metadata the name of the leader's host.
abbrev resolving : Os
resolving = record calm { gethostbyname = λ host. some (host ∷ []) }

abbrev naming : Asio
naming = record asio {
  read_metadata = λ frame. (
    pos 0,
    record {
      brokers = record { node_id = pos 1; host = frame; port = pos 9092 } ∷ [];
      topics = [];
    },
  );
  partition_leader = λ response topic partition. elim response.brokers [
    | [] ↦ none
    | broker ∷ brokers ↦ some broker
  ];
}

abbrev named : List ℕ → List ℕ × Address
named host = (host, (host, pos 9092))

abbrev answers : List (List ℕ × Address)
answers = named (codes "a") ∷ named (codes "a") ∷ named (codes "b") ∷ []

moves : changes (address_of consumer) (map (λ x. x.1) answers) ≡ 2
moves = refl
