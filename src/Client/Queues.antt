-- ===== src/Client/Queues.antt =====
-- The message queues of a client's partitions (src/KafkaClient.cpp), under a method of one partition and
-- under a loop over all of them.
use libasynckafkaclient.Prelude.{
  subst, ℕ, zero, suc, ◌≡◌, ◌≢◌, refl, sym, ap, ◌∙◌, Option, none, some, List, [], ◌∷◌, ◌++◌, map,
  get_elem?, set, get_elem?-lt, get_elem?-set, append-nil, arith, Option-cases, inl, inr,
}
use libasynckafkaclient.Outcome.{Outcome, ok, ◌>>=◌, Keeps, Keeps-bind, Keeps-mono}
use libasynckafkaclient.Partition.State.{KafkaPartition, Sys}
use libasynckafkaclient.Partition.Lifecycle.{pause_fetch}
use libasynckafkaclient.Partition.Queue.{Leaves}
use libasynckafkaclient.Client.State.{
  ClientSys, sys_of, with_partitions, back_to, for_each, over_partitions, consumer_pause_fetch,
}
use libasynckafkaclient.Client.Produce.{at_partition}

-- The queue with this number; there is nothing in one that does not exist.
abbrev pub item : List (List (List ℕ)) → ℕ → List (List ℕ)
item [] j = []
item (q ∷ l) zero = q
item (q ∷ l) (suc j) = item l j

abbrev pub queues_of : List KafkaPartition → List (List (List ℕ))
queues_of = map (λ (p : KafkaPartition). p.q_msgs)

abbrev pub queue : ℕ → ClientSys → List (List ℕ)
queue j s = item (queues_of s.client.partitions) j

item-set_other :
    (ps : List KafkaPartition) (i j : ℕ) (p : KafkaPartition)
    → j ≢ i
    → item (queues_of (set ps i p)) j ≡ item (queues_of ps) j
item-set_other [] i j p h = refl
item-set_other (x ∷ ps) zero zero p h = absurd (h refl)
item-set_other (x ∷ ps) zero (suc j) p h = refl
item-set_other (x ∷ ps) (suc i) zero p h = refl
item-set_other (x ∷ ps) (suc i) (suc j) p h = item-set_other ps i j p (λ e. h (ap suc e))

replaced :
    (done ps : List KafkaPartition) (p q : KafkaPartition)
    → q.q_msgs ≡ p.q_msgs
    → queues_of ((done ++ q ∷ []) ++ ps) ≡ queues_of (done ++ p ∷ ps)
replaced [] ps p q e = ap (λ l. l ∷ queues_of ps) e
replaced (x ∷ done) ps p q e = ap (◌∷◌ x.q_msgs) (replaced done ps p q e)

pub item-here :
    (ps : List KafkaPartition) (i : ℕ) (p : KafkaPartition)
    → get_elem? ps i ≡ some p
    → item (queues_of ps) i ≡ p.q_msgs
item-here [] i p h = ground arith
item-here (x ∷ ps) zero p h =
    ap (λ (o : Option KafkaPartition). elim o [ none ↦ [] | some y ↦ y.q_msgs ]) h
item-here (x ∷ ps) (suc i) p h = item-here ps i p h

-- u is s after a call at partition i that relates it to what it was; the other queues are the same.
pub record ChangedAt (i : ℕ) (P : KafkaPartition → KafkaPartition → Type 0) (s u : ClientSys)
    : Type 0 where
  pub before : KafkaPartition
  pub after : KafkaPartition
  pub was : get_elem? s.client.partitions i ≡ some before
  pub becomes : get_elem? u.client.partitions i ≡ some after
  pub related : P before after
  pub others : (j : ℕ) → j ≢ i → queue j u ≡ queue j s

chosen :
    (i : ℕ) (op : Sys → Outcome Sys) (s : ClientSys) (p : KafkaPartition)
    → get_elem? s.client.partitions i ≡ some p
    → at_partition i op s ≡ (
        op (sys_of p s) >>= λ t.
        ok (with_partitions (set s.client.partitions i t.part) (back_to s t)))
unfolding at_partition
chosen i op s p here = rw (at_partition, here) refl

pub at_partition-ChangedAt :
    (i : ℕ) (op : Sys → Outcome Sys) (P : KafkaPartition → KafkaPartition → Type 0) (s : ClientSys)
    → ((p : KafkaPartition) → Keeps (λ t. P p t.part) (op (sys_of p s)))
    → Keeps (ChangedAt i P s) (at_partition i op s)
unfolding at_partition
at_partition-ChangedAt i op P s h = elim (Option-cases (get_elem? s.client.partitions i)) [
  | inl missing ↦ rw (at_partition, missing) tt
  | inr (p, here) ↦ subst (Keeps (ChangedAt i P s)) (sym (chosen i op s p here)) (
      Keeps-bind (λ t. P p t.part) (ChangedAt i P s) (op (sys_of p s)) _ (h p)
        (λ t r. record {
          before = p;
          after = t.part;
          was = here;
          becomes =
              get_elem?-set s.client.partitions i t.part
                (get_elem?-lt s.client.partitions i p here);
          related = r;
          others = λ j ne. item-set_other s.client.partitions i j t.part ne;
        }))
]

-- The queues are the same, one by one.
abbrev pub SameQueues : List KafkaPartition → ClientSys → Type 0
SameQueues ps u = queues_of u.client.partitions ≡ queues_of ps

for_each-SameQueues :
    (op : Sys → Outcome Sys)
    → ((s : Sys) → Leaves s.part.q_msgs (op s))
    → (done ps : List KafkaPartition) (s : ClientSys)
    → Keeps (SameQueues (done ++ ps)) (for_each op done ps s)
unfolding for_each
for_each-SameQueues op h done [] s = ap queues_of (sym (append-nil done))
for_each-SameQueues op h done (p ∷ ps) s =
    Keeps-bind (λ t. t.part.q_msgs ≡ p.q_msgs) (SameQueues (done ++ p ∷ ps)) (op (sys_of p s)) _
      (h (sys_of p s))
      (λ t e.
        Keeps-mono (SameQueues ((done ++ t.part ∷ []) ++ ps)) (SameQueues (done ++ p ∷ ps)) _
          (λ u same. same ∙ replaced done ps p t.part e)
          (for_each-SameQueues op h (done ++ t.part ∷ []) ps (back_to s t)))

pub over_partitions-SameQueues :
    (op : Sys → Outcome Sys) (s : ClientSys)
    → ((t : Sys) → Leaves t.part.q_msgs (op t))
    → Keeps (SameQueues s.client.partitions) (over_partitions op s)
unfolding over_partitions
over_partitions-SameQueues op s h = for_each-SameQueues op h [] s.client.partitions s

paused_queues : (ps : List KafkaPartition) → queues_of (map pause_fetch ps) ≡ queues_of ps
unfolding pause_fetch
paused_queues [] = refl
paused_queues (p ∷ ps) = ap (◌∷◌ p.q_msgs) (paused_queues ps)

pub consumer_pause_fetch-SameQueues :
    (s : ClientSys) → SameQueues s.client.partitions (consumer_pause_fetch s)
unfolding consumer_pause_fetch
consumer_pause_fetch-SameQueues s = paused_queues s.client.partitions
