-- ===== src/Client/Received.antt =====
-- What produce does at one partition of a client (src/KafkaClient.cpp).
use libasynckafkaclient.Prelude.{
  ℕ, ◌≡◌, ◌≢◌, refl, some, List, [], ◌∷◌, ◌++◌, get_elem?, set, get_elem?-set, get_elem?-set_other,
  get_elem?-lt, length-set, length, Bool-cases, inl, inr,
}
use libasynckafkaclient.Outcome.{Outcome, ok, ◌>>=◌}
use libasynckafkaclient.Os.{Os, World, Action, woke}
use libasynckafkaclient.Wakeup.{WakeupEventSource}
use libasynckafkaclient.Partition.Calls.{WritesDone, after_wake, wake-ok}
use libasynckafkaclient.Partition.State.{KafkaPartition, Sys, with_part}
use libasynckafkaclient.Partition.Requests.{enqueue, push_msg, batch_is_full, produce}
use libasynckafkaclient.Client.State.{ClientSys, sys_of, with_partitions, back_to}
use libasynckafkaclient.Client.Produce.{at_partition, producer_produce}

-- p' is p with these messages behind the others.
abbrev pub Received : List (List ℕ) → KafkaPartition → KafkaPartition → Type 0
Received msgs p p' = p' ≡ record p { q_msgs = p.q_msgs ++ msgs; msg_cnt = p'.msg_cnt }

-- The last thing that has happened is a wake-up of the source's event.
abbrev pub JustWoken : WakeupEventSource → World → Type 0
JustWoken source w = (rest : List Action) × (w.trace ≡ woke source.wakeup_fd ∷ rest)

-- produce puts the message behind the others.
produce-ok :
    (os : Os) (msg : List ℕ) (s : Sys)
    → WritesDone os
    → (s' : Sys) × (produce os msg s ≡ ok s')
      × Received (msg ∷ []) s.part s'.part
      × JustWoken s.part.produce_msg_q_event s'.world
unfolding produce enqueue
produce-ok os msg s writes = elim (Bool-cases (batch_is_full s.part)) [
  | inl full ↦
      let woken = after_wake s.part.produce_event s in
      let s1 = push_msg msg (with_part (record (s.part) { msg_cnt = 0 }) woken) in
      (
        after_wake s1.part.produce_msg_q_event s1,
        rw (full, wake-ok os s.part.produce_event s writes)
            (wake-ok os s1.part.produce_msg_q_event s1 writes),
        refl,
        (s1.world.trace, refl),
      )
  | inr room ↦
      let s1 = push_msg msg s in
      (
        after_wake s1.part.produce_msg_q_event s1,
        rw room (wake-ok os s1.part.produce_msg_q_event s1 writes),
        refl,
        (s1.world.trace, refl),
      )
]

-- produce, called for one message after the other.
abbrev pub produce_each : Os → List (List ℕ) → ClientSys → Outcome ClientSys
produce_each os [] s = ok s
produce_each os (msg ∷ msgs) s = producer_produce os msg s >>= produce_each os msgs

-- s' is s after messages have been queued at the partition `i` and nowhere else.
pub record RoutedTo (i : ℕ) (msgs : List (List ℕ)) (p : KafkaPartition) (s s' : ClientSys)
    : Type 0 where
  pub receiver :
      (p' : KafkaPartition) × (get_elem? s'.client.partitions i ≡ some p') × Received msgs p p'
  pub woken : msgs ≢ [] → JustWoken p.produce_msg_q_event s'.world
  pub others : (j : ℕ) → j ≢ i → get_elem? s'.client.partitions j ≡ get_elem? s.client.partitions j
  pub same_count : length s'.client.partitions ≡ length s.client.partitions
  pub same_cursor : s'.curr_partition ≡ s.curr_partition
  pub same_choice : s'.client.partition ≡ s.client.partition
  pub same_config : s'.client.config ≡ s.client.config
  pub same_callback : s'.client.on_msg_queued ≡ s.client.on_msg_queued

pub at_partition-ok :
    (i : ℕ) (op : Sys → Outcome Sys) (s : ClientSys) (p : KafkaPartition) (t : Sys)
    → get_elem? s.client.partitions i ≡ some p
    → op (sys_of p s) ≡ ok t
    → at_partition i op s ≡ ok (with_partitions (set s.client.partitions i t.part) (back_to s t))
unfolding at_partition
at_partition-ok i op s p t here e = rw (at_partition, here) (rw e refl)

pub at_partition-RoutedTo :
    (os : Os) (i : ℕ) (msg : List ℕ) (s : ClientSys) (p : KafkaPartition)
    → WritesDone os
    → get_elem? s.client.partitions i ≡ some p
    → (s' : ClientSys) × (at_partition i (produce os msg) s ≡ ok s') × RoutedTo i (msg ∷ []) p s s'
at_partition-RoutedTo os i msg s p writes here =
    let (t, e, q, w) = produce-ok os msg (sys_of p s) writes in
    (
      with_partitions (set s.client.partitions i t.part) (back_to s t),
      at_partition-ok i (produce os msg) s p t here e,
      record {
        receiver = (
          t.part,
          get_elem?-set s.client.partitions i t.part (get_elem?-lt s.client.partitions i p here),
          q,
        );
        woken = λ some_msg. w;
        others = λ j ne. get_elem?-set_other s.client.partitions i j t.part ne;
        same_count = length-set s.client.partitions i t.part;
        same_cursor = refl;
        same_choice = refl;
        same_config = refl;
        same_callback = refl;
      },
    )
