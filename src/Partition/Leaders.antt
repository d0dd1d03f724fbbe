-- ===== src/Partition/Leaders.antt =====
-- The leader of a partition over a sequence of metadata responses: handleMetadataResponse of
-- src/KafkaEndpointMP.cpp.
use libasynckafkaclient.Prelude.{ℕ, ◌+◌, ◌≡◌, none, some, List, [], ◌∷◌}
use libasynckafkaclient.Prelude.Int.{ℤ, pos, int16_of_ℤ}
use libasynckafkaclient.Config.{Str}
use libasynckafkaclient.Outcome.{Outcome, ok, ◌>>=◌}
use libasynckafkaclient.Os.{Os}
use libasynckafkaclient.Net.{hostname_to_ip}
use libasynckafkaclient.Asio.{Asio, MetadataBroker, MetadataResponse}
use libasynckafkaclient.Partition.State.{Sys}
use libasynckafkaclient.Partition.Responses.{handle_metadata_response}
use libasynckafkaclient.Partition.Addresses.{Address, address_of, closes}

-- The metadata, without error, name a leader at this address, whose port fits an int16_t.
pub record NamesLeader (a : Asio) (os : Os) (topic : Str) (partition : ℤ) (x : List ℕ × Address)
    : Type 0 where
  pub response : MetadataResponse
  pub leader : MetadataBroker
  pub fine : a.read_metadata x.0 ≡ (pos 0, response)
  pub named : a.partition_leader response topic partition ≡ some leader
  pub found : (hostname_to_ip os leader.host none).1 ≡ some x.1.0
  pub port : leader.port ≡ x.1.1
  pub fits : int16_of_ℤ leader.port ≡ leader.port

-- handleMetadataResponse for one frame after the other.
abbrev pub handle_all : Asio → Os → ℕ → List (List ℕ × Address) → Sys → Outcome Sys
handle_all a os fuel [] s = ok s
handle_all a os fuel (x ∷ xs) s =
    handle_metadata_response a os fuel x.0 s >>= handle_all a os fuel xs

-- t is s, moved to the address by closing n descriptors.
pub record MovedTo (at : Address) (n : ℕ) (s t : Sys) : Type 0 where
  pub led : address_of t.part ≡ at
  pub kept : t.part ≡ record (s.part) { leader = t.part.leader; sock_fd = t.part.sock_fd }
  pub counted : closes t.world.trace ≡ closes s.world.trace + n
