-- ===== src/Partition/Addresses.antt =====
-- The addresses of leaders, for src/KafkaEndpointMP.cpp.
use libasynckafkaclient.Prelude.{
  ℕ, suc, Bool, true, false, ◌&&◌, List, [], ◌∷◌, str_eq, if◌then◌else◌,
}
use libasynckafkaclient.Prelude.Int.{ℤ, ◌==ℤ◌}
use libasynckafkaclient.Config.{Str}
use libasynckafkaclient.Os.{Action, closed}
use libasynckafkaclient.Partition.State.{KafkaPartition}

-- An address to connect to, and a frame of metadata.
abbrev pub Address : Type 0
Address = Str × ℤ

abbrev pub address_of : KafkaPartition → Address
address_of p = (p.leader.ip, p.leader.port)

abbrev pub same_address : Address → Address → Bool
same_address x y = str_eq x.0 y.0 && (x.1 ==ℤ y.1)

-- How often the address changes along a list, and the last one.
abbrev pub changes : Address → List Address → ℕ
changes at [] = 0
changes at (x ∷ xs) = if same_address x at then changes x xs else suc (changes x xs)

abbrev pub last_address : Address → List Address → Address
last_address at [] = at
last_address at (x ∷ xs) = last_address x xs

-- How many descriptors have been closed.
abbrev pub is_closed : Action → Bool
is_closed (closed fd) = true
is_closed _ = false

abbrev pub closes : List Action → ℕ
closes [] = 0
closes (x ∷ trace) = if is_closed x then suc (closes trace) else closes trace
