-- ===== src/Client/Produce.antt =====
-- KafkaProducer::produce, for a message and for a list of messages (src/KafkaClient.cpp).
-- `currPartition = currPartition++` is read by the order of evaluation that C++17 fixes: the right
-- side is evaluated first, with its side effect, and its value is the old one. The Makefiles build with
-- -std=c++11, where the statement is undefined.
use libasynckafkaclient.Prelude.{
  ℕ, ◌+◌, ◌%◌, none, some, List, get_elem?, set, length, if◌then◌else◌,
}
use libasynckafkaclient.Prelude.Int.{◌==ℤ◌}
use libasynckafkaclient.Config.{round_robin, partition_function, kafka_all_partitions}
use libasynckafkaclient.Outcome.{Outcome, ok, undefined, ◌>>=◌}
use libasynckafkaclient.Os.{Os}
use libasynckafkaclient.Partition.State.{Sys}
use libasynckafkaclient.Partition.Requests.{produce, produce_msgs}
use libasynckafkaclient.Client.State.{ClientSys, sys_of, with_partitions, back_to}

-- A method of m_partitions[i], at the partition that is there; the access is undefined outside.
unfoldable pub at_partition : ℕ → (Sys → Outcome Sys) → ClientSys → Outcome ClientSys
at_partition i op s = elim (get_elem? s.client.partitions i) [
  | none ↦ undefined
  | some p ↦ (do
    t ← op (sys_of p s)
    ok (with_partitions (set s.client.partitions i t.part) (back_to s t)))
]

-- `x = x++`: the value and the variable after the increment, and then the assignment of the value.
abbrev pub post_increment : ℕ → ℕ × ℕ
post_increment x = (x, x + 1)

abbrev pub assign_post_increment : ℕ → ℕ
assign_post_increment x = (post_increment x).0

-- The two statements on currPartition.
abbrev pub advance : ClientSys → ClientSys
advance s = record s {
  curr_partition = assign_post_increment s.curr_partition % length s.client.partitions;
}

-- The choice of the partition, the same in both methods.
unfoldable pub route : (Sys → Outcome Sys) → ClientSys → Outcome ClientSys
unfolding at_partition
route op s =
    if s.client.partition ==ℤ kafka_all_partitions
    then elim s.client.config.p_partitioning_method [
      | round_robin ↦ (at_partition s.curr_partition op s >>= λ s1. ok (advance s1))
      | partition_function ↦ ok s
    ]
    else at_partition 0 op s

unfoldable pub producer_produce : Os → List ℕ → ClientSys → Outcome ClientSys
unfolding route produce
producer_produce os msg = route (produce os msg)

-- The return code of the partition's method is dropped.
abbrev pub produce_list : Os → List (List ℕ) → Sys → Outcome Sys
produce_list os msgs s = produce_msgs os msgs s >>= λ r. ok r.1

unfoldable pub producer_produce_msgs : Os → List (List ℕ) → ClientSys → Outcome ClientSys
unfolding route produce_msgs
producer_produce_msgs os msgs = route (produce_list os msgs)
