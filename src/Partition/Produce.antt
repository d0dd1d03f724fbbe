-- ===== src/Partition/Produce.antt =====
-- What the produce methods of src/KafkaEndpointMP.cpp do to the message queue and its counter.
use libasynckafkaclient.Prelude.{
  ℕ, zero, suc, ◌+◌, ◌*◌, ◌≤◌, ◌<◌, ◌≡◌, ◌≢◌, refl, sym, ap, ◌∙◌, List, [], ◌∷◌, ◌++◌, length,
  length-append, arith, Bool-cases, inl, inr, if◌then◌else◌, append_assoc, append-nil,
}
use libasynckafkaclient.Prelude.Int.{ℤ, pos}
use libasynckafkaclient.Config.{producer_p}
use libasynckafkaclient.Outcome.{Outcome, ok, ◌>>=◌, >>=-ok, >>=_assoc}
use libasynckafkaclient.Os.{Os, Action, woke}
use libasynckafkaclient.Wakeup.{WakeupEventSource}
use libasynckafkaclient.Partition.Calls.{WritesDone, after_wake, wake-ok}
use libasynckafkaclient.Partition.State.{KafkaPartition, Sys, with_part}
use libasynckafkaclient.Partition.Requests.{
  enqueue, enqueue_next, enqueue_all, produce, produce_msgs, batch_is_full, push_msg,
}

-- A trace after k wake-ups of the event source with this descriptor.
abbrev pub woken_times : ℕ → ℤ → List Action → List Action
woken_times zero fd trace = trace
woken_times (suc k) fd trace = woke fd ∷ woken_times k fd trace

woken_times-+ :
    (j k : ℕ) (fd : ℤ) (trace : List Action)
    → woken_times j fd (woken_times k fd trace) ≡ woken_times (j + k) fd trace
woken_times-+ zero k fd trace = ap (λ i. woken_times i fd trace) (omega arith)
woken_times-+ (suc j) k fd trace =
    let same : suc (j + k) ≡ suc j + k = omega arith in
    ap (λ l. woke fd ∷ l) (woken_times-+ j k fd trace) ∙ ap (λ i. woken_times i fd trace) same

-- A producer's partition with a positive batch length, whose counter is within it.
pub record IsBatching (n : ℕ) (p : KafkaPartition) : Type 0 where
  pub producer : p.partition_type ≡ producer_p
  pub batch_length : p.config.p_batch_num_msgs ≡ pos n
  pub positive : 0 < n
  pub within : p.msg_cnt ≤ n

-- s' is s after messages have been queued, with k wake-ups of the produce event for full batches.
-- Of the partition only the queue and the counter have changed.
pub record Queued (n : ℕ) (msgs : List (List ℕ)) (k : ℕ) (s s' : Sys) : Type 0 where
  pub batching : IsBatching n s'.part
  pub in_order : s'.part.q_msgs ≡ s.part.q_msgs ++ msgs
  pub same_buffers : s'.part.dq_write_buffers ≡ s.part.dq_write_buffers
  pub counted : n * k + s'.part.msg_cnt ≡ s.part.msg_cnt + length msgs
  pub kept : s'.part ≡ record (s.part) { q_msgs = s.part.q_msgs ++ msgs; msg_cnt = s'.part.msg_cnt }
  pub woken : s'.world.trace ≡ woken_times k s.part.produce_event.wakeup_fd s.world.trace

enqueue_next-Queued :
    (os : Os) (n : ℕ) (msg : List ℕ) (s : Sys)
    → WritesDone os
    → IsBatching n s.part
    → (k : ℕ) × (s' : Sys) × (enqueue_next os msg s ≡ ok s') × Queued n (msg ∷ []) k s s'
unfolding enqueue_next
enqueue_next-Queued os n msg s writes b = elim (Bool-cases (batch_is_full s.part)) [
  | inl full ↦ (
    1,
    push_msg msg (with_part (record (s.part) { msg_cnt = 0 }) (after_wake s.part.produce_event s)),
    rw full (rw (wake-ok os s.part.produce_event s writes) refl),
    record {
      batching = ground arith;
      in_order = refl;
      same_buffers = refl;
      counted = ground arith;
      kept = refl;
      woken = refl;
    },
  )
  | inr room ↦ (
    0,
    push_msg msg s,
    rw room refl,
    record {
      batching = ground arith;
      in_order = refl;
      same_buffers = refl;
      counted = omega arith;
      kept = refl;
      woken = refl;
    },
  )
]

-- Queueing goes on where it stopped.
Queued-append :
    (n : ℕ) (msgs given : List (List ℕ)) (k j : ℕ) (s s1 s2 : Sys)
    → Queued n msgs k s s1
    → Queued n given j s1 s2
    → Queued n (msgs ++ given) (j + k) s s2
Queued-append n msgs given k j s s1 s2 q q' =
    let order : s2.part.q_msgs ≡ s.part.q_msgs ++ (msgs ++ given) =
      q'.in_order ∙ ap (λ l. l ++ given) q.in_order ∙ append_assoc s.part.q_msgs msgs given in
    let event : s1.part.produce_event ≡ s.part.produce_event =
      ap (λ (p : KafkaPartition). p.produce_event) q.kept in
    record {
      batching = q'.batching;
      in_order = order;
      same_buffers = q'.same_buffers ∙ q.same_buffers;
      counted = grind (arith, length-append msgs given, q.counted, q'.counted);
      kept =
          q'.kept
          ∙ ap
              (λ (p : KafkaPartition). record p {
                q_msgs = p.q_msgs ++ given;
                msg_cnt = s2.part.msg_cnt;
              })
              q.kept
          ∙ ap (λ l. record (s.part) { q_msgs = l; msg_cnt = s2.part.msg_cnt })
              (append_assoc s.part.q_msgs msgs given);
      woken =
          q'.woken
          ∙ ap (λ (e : WakeupEventSource). woken_times j e.wakeup_fd s1.world.trace) event
          ∙ ap (woken_times j s.part.produce_event.wakeup_fd) q.woken
          ∙ woken_times-+ j k s.part.produce_event.wakeup_fd s.world.trace;
    }

enqueue_all-Queued :
    (os : Os) (n : ℕ) (msgs : List (List ℕ)) (s : Sys)
    → WritesDone os
    → IsBatching n s.part
    → (k : ℕ) × (s' : Sys) × (enqueue_all os msgs s ≡ ok s') × Queued n msgs k s s'
unfolding enqueue_all
enqueue_all-Queued os n [] s writes b = (
  0,
  s,
  refl,
  record {
    batching = b;
    in_order = simp append-nil;
    same_buffers = refl;
    counted = omega arith;
    kept = ap (λ l. record (s.part) { q_msgs = l }) (sym (append-nil s.part.q_msgs));
    woken = refl;
  },
)
enqueue_all-Queued os n (msg ∷ msgs) s writes b =
    let (k, s1, e, q) = enqueue_next-Queued os n msg s writes b in
    let (j, s2, e', q') = enqueue_all-Queued os n msgs s1 writes q.batching in
    (j + k, s2, rw e e', Queued-append n (msg ∷ []) msgs k j s s1 s2 q q')

-- If every wake-up is written, produce of a list of messages that is not empty, to a producer's
-- partition whose counter is within its positive batch length, answers 0, puts the messages at the
-- end of the queue in their order, keeps the counter within the batch length and changes nothing
-- else in the partition, so that the write buffers are left alone. It wakes the produce event, and
-- no other, once for each batch that filled up, so that the counter is what is left over. Then it
-- wakes the message queue's event once.
pub produce_msgs-Queued :
    (os : Os) (n : ℕ) (msgs : List (List ℕ)) (s : Sys)
    → msgs ≢ []
    → WritesDone os
    → IsBatching n s.part
    → (k : ℕ) × (s1 : Sys) × (produce_msgs os msgs s
        ≡ ok (0, after_wake s1.part.produce_msg_q_event s1))
      × Queued n msgs k s s1
unfolding produce_msgs
produce_msgs-Queued os n [] s some_msg writes b = absurd (some_msg refl)
produce_msgs-Queued os n (msg ∷ msgs) s some_msg writes b =
    let (k, s1, e, q) = enqueue_all-Queued os n (msg ∷ msgs) s writes b in
    (k, s1, rw (e, wake-ok os s1.part.produce_msg_q_event s1 writes) refl, q)

-- produce of one message after another.
abbrev pub produce_one_by_one : Os → List (List ℕ) → Sys → Outcome Sys
produce_one_by_one os [] s = ok s
produce_one_by_one os (msg ∷ msgs) s = do s1 ← produce os msg s; produce_one_by_one os msgs s1

-- The two bodies that queue one message do the same.
enqueue_next-enqueue : (os : Os) (msg : List ℕ) (s : Sys) → enqueue_next os msg s ≡ enqueue os msg s
unfolding enqueue_next enqueue
enqueue_next-enqueue os msg s = refl

one_message :
    (os : Os) (msg : List ℕ) (s : Sys)
    → produce_msgs os (msg ∷ []) s ≡ (produce os msg s >>= λ s'. ok (0, s'))
unfolding produce_msgs produce enqueue_all
one_message os msg s =
    rw (enqueue_next-enqueue os msg s, >>=-ok) (sym (>>=_assoc (enqueue os msg s) _ _))

-- The partition after it has been given a message.
abbrev given : List ℕ → KafkaPartition → KafkaPartition
given msg p = record p {
  q_msgs = p.q_msgs ++ msg ∷ [];
  msg_cnt = (if batch_is_full p then 0 else p.msg_cnt) + 1;
}

enqueue_next-given :
    (os : Os) (msg : List ℕ) (s : Sys)
    → WritesDone os
    → (s' : Sys) × (enqueue_next os msg s ≡ ok s') × (s'.part ≡ given msg s.part)
unfolding enqueue_next
enqueue_next-given os msg s writes = elim (Bool-cases (batch_is_full s.part)) [
  | inl full ↦ (
    push_msg msg (with_part (record (s.part) { msg_cnt = 0 }) (after_wake s.part.produce_event s)),
    rw full (rw (wake-ok os s.part.produce_event s writes) refl),
    rw full refl,
  )
  | inr room ↦ (push_msg msg s, rw room refl, rw room refl)
]

produce-given :
    (os : Os) (msg : List ℕ) (s : Sys)
    → WritesDone os
    → (s' : Sys) × (produce os msg s ≡ ok s') × (s'.part ≡ given msg s.part)
unfolding produce
produce-given os msg s writes =
    let (s1, e, h) = enqueue_next-given os msg s writes in
    (
      after_wake s1.part.produce_msg_q_event s1,
      rw (sym (enqueue_next-enqueue os msg s), e)
          (wake-ok os s1.part.produce_msg_q_event s1 writes),
      h,
    )

enqueue_all-produce_one_by_one :
    (os : Os) (msgs : List (List ℕ)) (s t : Sys)
    → WritesDone os
    → s.part ≡ t.part
    → (s' t' : Sys) × (enqueue_all os msgs s ≡ ok s')
      × (produce_one_by_one os msgs t ≡ ok t')
      × (s'.part ≡ t'.part)
unfolding enqueue_all
enqueue_all-produce_one_by_one os [] s t writes same = (s, t, refl, refl, same)
enqueue_all-produce_one_by_one os (msg ∷ msgs) s t writes same =
    let (s1, e, h) = enqueue_next-given os msg s writes in
    let (t1, e', h') = produce-given os msg t writes in
    let (s2, t2, f, f', same') =
      enqueue_all-produce_one_by_one os msgs s1 t1 writes (h ∙ ap (given msg) same ∙ sym h') in
    (s2, t2, rw e f, rw e' f', same')

-- The two produce methods agree. If every wake-up is written, producing a list of messages that is
-- not empty answers 0 and leaves the partition as producing its messages one after another does,
-- with the same queue, counter and all else. For a list of one message the whole outcomes are the
-- same, with the wake-ups that they write.
pub produce_msgs-produce :
    (os : Os) (msg : List ℕ) (msgs : List (List ℕ)) (s : Sys)
    → WritesDone os
    → (s1 s2 : Sys) × (produce_msgs os (msg ∷ msgs) s ≡ ok (0, s1))
      × (produce_one_by_one os (msg ∷ msgs) s ≡ ok s2)
      × (s1.part ≡ s2.part)
      × (produce_msgs os (msg ∷ []) s ≡ (produce os msg s >>= λ s'. ok (0, s')))
unfolding produce_msgs
produce_msgs-produce os msg msgs s writes =
    let (s1, s2, e, f, same) = enqueue_all-produce_one_by_one os (msg ∷ msgs) s s writes refl in
    (
      after_wake s1.part.produce_msg_q_event s1,
      s2,
      rw (e, wake-ok os s1.part.produce_msg_q_event s1 writes) refl,
      f,
      same,
      one_message os msg s,
    )
