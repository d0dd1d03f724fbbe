-- ===== src/Client/Routing.antt =====
-- Where KafkaProducer::produce of src/KafkaClient.cpp puts the messages, with all partitions and with
-- one.
use libasynckafkaclient.Prelude.{
  ℕ, ◌<◌, ◌≡◌, ◌≢◌, refl, sym, ap, ◌∙◌, ◌⊎◌, subst, false, some, List, [], ◌∷◌, ◌++◌, get_elem?,
  length, arith, inl, inr, append_assoc, append-nil,
}
use native.Mathlib.Nat.{mod-eq_of_lt}
use libasynckafkaclient.Prelude.Int.{◌==ℤ◌}
use libasynckafkaclient.Config.{round_robin, kafka_all_partitions}
use libasynckafkaclient.Outcome.{Outcome, ok, ok_inj}
use libasynckafkaclient.Os.{Os, woke}
use libasynckafkaclient.Partition.Calls.{WritesDone}
use libasynckafkaclient.Partition.State.{KafkaPartition, Sys}
use libasynckafkaclient.Partition.Requests.{produce}
use libasynckafkaclient.Client.State.{ClientSys}
use libasynckafkaclient.Client.Produce.{at_partition, route, producer_produce, advance}
use libasynckafkaclient.Client.Received.{
  Received, JustWoken, produce_each, RoutedTo, at_partition-RoutedTo,
}

route_all :
    (op : Sys → Outcome Sys) (s s1 : ClientSys)
    → s.client.partition ≡ kafka_all_partitions
    → s.client.config.p_partitioning_method ≡ round_robin
    → at_partition s.curr_partition op s ≡ ok s1
    → route op s ≡ ok (advance s1)
unfolding route
route_all op s s1 all method e = rw (route, all, method, e) refl

route_one :
    (op : Sys → Outcome Sys) (s s1 : ClientSys)
    → (s.client.partition ==ℤ kafka_all_partitions) ≡ false
    → at_partition 0 op s ≡ ok s1
    → route op s ≡ ok s1
unfolding route
route_one op s s1 one e = rw (route, one, e) refl

-- The partition i is the one of `curr_partition`, with all partitions and round robin, or the first,
-- with a single one.
abbrev pub Chosen : ℕ → ClientSys → Type 0
Chosen i s =
    ((s.client.partition ≡ kafka_all_partitions)
      × (s.client.config.p_partitioning_method ≡ round_robin)
      × (i ≡ s.curr_partition))
    ⊎ (((s.client.partition ==ℤ kafka_all_partitions) ≡ false) × (i ≡ 0))

advance-RoutedTo :
    (i : ℕ) (msgs : List (List ℕ)) (p : KafkaPartition) (s s1 : ClientSys)
    → s.curr_partition < length s.client.partitions
    → RoutedTo i msgs p s s1
    → RoutedTo i msgs p s (advance s1)
advance-RoutedTo i msgs p s s1 within r = record {
  receiver = r.receiver;
  woken = r.woken;
  others = r.others;
  same_count = r.same_count;
  same_cursor = rw (r.same_cursor, r.same_count) (mod-eq_of_lt within);
  same_choice = r.same_choice;
  same_config = r.same_config;
  same_callback = r.same_callback;
}

route-RoutedTo :
    (os : Os) (i : ℕ) (msg : List ℕ) (s : ClientSys) (p : KafkaPartition)
    → WritesDone os
    → Chosen i s
    → s.curr_partition < length s.client.partitions
    → get_elem? s.client.partitions i ≡ some p
    → (s' : ClientSys) × (producer_produce os msg s ≡ ok s') × RoutedTo i (msg ∷ []) p s s'
unfolding producer_produce
route-RoutedTo os i msg s p writes (inl (all, method, cursor)) within here =
    let (s1, e, r) = at_partition-RoutedTo os i msg s p writes here in
    (
      advance s1,
      route_all (produce os msg) s s1 all method
          (subst (λ k. at_partition k (produce os msg) s ≡ ok s1) cursor e),
      advance-RoutedTo i (msg ∷ []) p s s1 within r,
    )
route-RoutedTo os i msg s p writes (inr (one, first)) within here =
    let (s1, e, r) = at_partition-RoutedTo os i msg s p writes here in
    (
      s1,
      route_one (produce os msg) s s1 one
          (subst (λ k. at_partition k (produce os msg) s ≡ ok s1) first e),
      r,
    )

pub Chosen-RoutedTo :
    (i : ℕ) (msgs : List (List ℕ)) (p : KafkaPartition) (s s1 : ClientSys)
    → RoutedTo i msgs p s s1
    → Chosen i s
    → Chosen i s1
Chosen-RoutedTo i msgs p s s1 r (inl (all, method, cursor)) = inl (
  r.same_choice ∙ all,
  ap (λ c. c.p_partitioning_method) r.same_config ∙ method,
  cursor ∙ sym r.same_cursor,
)
Chosen-RoutedTo i msgs p s s1 r (inr (one, first)) =
    inr (ap (λ n. n ==ℤ kafka_all_partitions) r.same_choice ∙ one, first)

pub Received-trans :
    (ms ns : List (List ℕ)) (p q r : KafkaPartition)
    → Received ms p q
    → Received ns q r
    → Received (ms ++ ns) p r
Received-trans ms ns p q r h k =
    k
    ∙ ap (λ (x : KafkaPartition). record x { q_msgs = x.q_msgs ++ ns; msg_cnt = r.msg_cnt }) h
    ∙ ap (λ l. record p { q_msgs = l; msg_cnt = r.msg_cnt }) (append_assoc p.q_msgs ms ns)

pub cons≢[] : {x : List ℕ} {l : List (List ℕ)} → x ∷ l ≢ []
cons≢[] e = ground arith

-- The wake-up of the first message is the last one if there are no more.
last_woken :
    (os : Os) (msgs : List (List ℕ)) {i : ℕ} (m : List ℕ) (p p1 : KafkaPartition)
    (s1 s2 : ClientSys)
    → Received (m ∷ []) p p1
    → JustWoken p.produce_msg_q_event s1.world
    → produce_each os msgs s1 ≡ ok s2
    → RoutedTo i msgs p1 s1 s2
    → JustWoken p.produce_msg_q_event s2.world
last_woken os [] m p p1 s1 s2 q w e r =
    subst (λ (s : ClientSys). JustWoken p.produce_msg_q_event s.world) (ok_inj e) w
last_woken os (msg ∷ msgs) m p p1 s1 s2 q w e r =
    let (rest, h) = r.woken cons≢[] in
    (rest, h ∙ ap (λ (x : KafkaPartition). woke x.produce_msg_q_event.wakeup_fd ∷ rest) q)

-- If every wake-up is written and the chosen partition exists, produce called for one message after
-- the other puts all of them, in their order, behind those of that one partition, changes nothing else
-- of it but its counter and nothing of any other partition, and, unless there was no message, ends
-- with a wake-up of the event of its message queue. The choice is the first partition for a client of a single partition, and the one of
-- `currPartition`, which is in range and never moves, for all partitions and round robin.
pub produce_each-RoutedTo :
    (os : Os) (i : ℕ) (msgs : List (List ℕ)) (s : ClientSys) (p : KafkaPartition)
    → WritesDone os
    → Chosen i s
    → s.curr_partition < length s.client.partitions
    → get_elem? s.client.partitions i ≡ some p
    → (s' : ClientSys) × (produce_each os msgs s ≡ ok s') × RoutedTo i msgs p s s'
produce_each-RoutedTo os i [] s p writes c within here = (
  s,
  refl,
  record {
    receiver = (
      p,
      here,
      ap (λ l. record p { q_msgs = l; msg_cnt = p.msg_cnt }) (sym (append-nil p.q_msgs)),
    );
    woken = λ some_msg. absurd (some_msg refl);
    others = λ j ne. refl;
    same_count = refl;
    same_cursor = refl;
    same_choice = refl;
    same_config = refl;
    same_callback = refl;
  },
)
produce_each-RoutedTo os i (msg ∷ msgs) s p writes c within here =
    let (s1, e, r) = route-RoutedTo os i msg s p writes c within here in
    let (p1, here1, q1) = r.receiver in
    let (s2, e2, r2) =
      produce_each-RoutedTo os i msgs s1 p1 writes (Chosen-RoutedTo i (msg ∷ []) p s s1 r c)
        (omega (arith, r.same_cursor, r.same_count)) here1 in
    let (p2, here2, q2) = r2.receiver in
    (
      s2,
      rw e e2,
      record {
        receiver = (p2, here2, Received-trans (msg ∷ []) msgs p p1 p2 q1 q2);
        woken = λ some_msg. last_woken os msgs msg p p1 s1 s2 q1 (r.woken cons≢[]) e2 r2;
        others = λ j ne. r2.others j ne ∙ r.others j ne;
        same_count = r2.same_count ∙ r.same_count;
        same_cursor = r2.same_cursor ∙ r.same_cursor;
        same_choice = r2.same_choice ∙ r.same_choice;
        same_config = r2.same_config ∙ r.same_config;
        same_callback = r2.same_callback ∙ r.same_callback;
      },
    )
