-- ===== src/Client/Balance.antt =====
-- That no message is lost between the calls of a client and the requests of its partitions
-- (src/KafkaClient.cpp with src/KafkaEndpointMP.cpp).
use libasynckafkaclient.Prelude.{
  ℕ, ◌≡◌, ◌≢◌, refl, sym, ap, ◌∙◌, List, [], ◌∷◌, ◌++◌, ◌==◌, append_assoc, append-nil, arith, inl,
  inr, Bool-cases, subst, ==_iff, if-true,
}
use libasynckafkaclient.Asio.{Asio}
use libasynckafkaclient.Partition.State.{KafkaPartition}
use libasynckafkaclient.Partition.Carried.{Carry, no_frame, Carry-append}
use libasynckafkaclient.Client.State.{ClientSys}
use libasynckafkaclient.Client.Queues.{queue, item, item-here, ChangedAt, SameQueues}
use libasynckafkaclient.Client.Runs.{Log, of_partition}

of_partition-append :
    (j : ℕ) (l m : Log) → of_partition j (l ++ m) ≡ of_partition j l ++ of_partition j m
of_partition-append j [] m = refl
of_partition-append j ((i, msgs) ∷ l) m = elim (Bool-cases (j == i)) [
  | inl same ↦
      rw (same, of_partition-append j l m)
        (sym (append_assoc msgs (of_partition j l) (of_partition j m)))
  | inr other ↦ rw other (of_partition-append j l m)
]

-- A log of one partition alone.
pub record Only (i : ℕ) (msgs : List (List ℕ)) (log : Log) : Type 0 where
  pub here : of_partition i log ≡ msgs
  pub others : (j : ℕ) → j ≢ i → of_partition j log ≡ []

pub Only-none : (i : ℕ) → Only i [] []
Only-none i = record { here = refl; others = λ j ne. refl }

pub Only-one : (i : ℕ) (msgs : List (List ℕ)) → Only i msgs ((i, msgs) ∷ [])
Only-one i msgs = record {
  here = if-true (i == i) (msgs ++ []) [] ((==_iff i i).1 refl) ∙ append-nil msgs;
  others = λ j ne. ground arith;
}

module _ (a : Asio) where
  -- For each partition, the frames hold messages, in order, which followed by those that are queued in t
  -- are those that were queued in s, followed by those that the partition has been given.
  abbrev pub Balanced : ClientSys → Log → Log → ClientSys → Type 0
  Balanced s given requested t =
      (j : ℕ)
      → (msgs : List (List ℕ)) × Carry a (of_partition j requested) msgs
        × (queue j s ++ of_partition j given ≡ msgs ++ queue j t)

  pub Balanced-trans :
      (s t u : ClientSys) (g g' r r' : Log)
      → Balanced s g r t
      → Balanced t g' r' u
      → Balanced s (g ++ g') (r ++ r') u
  Balanced-trans s t u g g' r r' h k j =
      let (m, carry, e) = h j in
      let (n, later, f) = k j in
      (
        m ++ n,
        subst (λ l. Carry a l (m ++ n)) (sym (of_partition-append j r r'))
            (Carry-append a carry later),
        ap (◌++◌ (queue j s)) (of_partition-append j g g')
            ∙ sym (append_assoc (queue j s) (of_partition j g) (of_partition j g'))
            ∙ ap (λ l. l ++ of_partition j g') e
            ∙ append_assoc m (queue j t) (of_partition j g')
            ∙ ap (◌++◌ m) f
            ∙ sym (append_assoc m n (queue j u)),
      )

  pub SameQueues-Balanced :
      (s u : ClientSys) → SameQueues s.client.partitions u → Balanced s [] [] u
  SameQueues-Balanced s u same j =
      ([], no_frame, append-nil (queue j s) ∙ ap (λ l. item l j) (sym same))

  pub ChangedAt-Balanced :
      (i : ℕ) (P : KafkaPartition → KafkaPartition → Type 0) (g r : List (List ℕ)) (gs rs : Log)
      (s u : ClientSys) (c : ChangedAt i P s u)
      → Only i g gs
      → Only i r rs
      → ((msgs : List (List ℕ)) × Carry a r msgs × (c.before.q_msgs ++ g ≡ msgs ++ c.after.q_msgs))
      → Balanced s gs rs u
  ChangedAt-Balanced i P g r gs rs s u c og or (m, carry, e) j = elim (Bool-cases (j == i)) [
    | inl same ↦
        subst
          (λ k.
            (msgs : List (List ℕ)) × Carry a (of_partition k rs) msgs
            × (queue k s ++ of_partition k gs ≡ msgs ++ queue k u))
          (sym ((==_iff j i).0 same))
          (
            m,
            subst (λ l. Carry a l m) (sym or.here) carry,
            rw
                (
                  item-here s.client.partitions i c.before c.was,
                  item-here u.client.partitions i c.after c.becomes,
                  og.here,
                )
                e,
          )
    | inr other ↦
        let ne : j ≢ i = λ x. ground arith in
        (
          [],
          subst (λ l. Carry a l []) (sym (or.others j ne)) no_frame,
          rw (og.others j ne, c.others j ne) (append-nil (queue j s)),
        )
  ]
