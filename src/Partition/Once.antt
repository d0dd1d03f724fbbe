-- ===== src/Partition/Once.antt =====
-- That a consumer is handed each message of the broker's log once: handleFetchResponse of
-- src/KafkaEndpointMP.cpp, for one response after the other.
use libasynckafkaclient.Prelude.{
  ℕ, ◌≡◌, refl, sym, ap, ◌∙◌, subst, true, false, none, some, List, [], ◌∷◌, ◌++◌, All, arith,
  append-nil, append_assoc, Bool-cases, inl, inr, Option,
}
use libasynckafkaclient.Prelude.Int.{ℤ, pos, ◌+ℤ◌, ◌≤ℤ◌, ◌<ℤ◌, leb_ℤ}
use libasynckafkaclient.Config.{consumer_p}
use libasynckafkaclient.Outcome.{Outcome, ok, ◌>>=◌}
use libasynckafkaclient.Os.{Os, Action, received_data}
use libasynckafkaclient.Asio.{Asio, MessageAndOffset}
use libasynckafkaclient.Partition.State.{KafkaPartition, Sys}
use libasynckafkaclient.Partition.Calls.{WritesDone}
use libasynckafkaclient.Partition.Responses.{keep_value, take_messages, handle_fetch_response}
use libasynckafkaclient.Partition.Fetching.{
  Rising, Rising-mono, values_from, values_from_low, take_messages-le, take_messages_above,
}
use libasynckafkaclient.Partition.Delivery.{handed, handle_fetch_response-next}

keep_value-append :
    (v : Option (List ℕ)) (xs ys : List (List ℕ)) → keep_value v (xs ++ ys) ≡ keep_value v xs ++ ys
keep_value-append none xs ys = refl
keep_value-append (some x) xs ys = refl

values_from-append :
    (next : ℤ) (xs ys : List MessageAndOffset)
    → values_from next (xs ++ ys) ≡ values_from next xs ++ values_from next ys
values_from-append next [] ys = refl
values_from-append next (m ∷ xs) ys = elim (Bool-cases (leb_ℤ next m.offset)) [
  | inl fresh ↦ rw fresh (
      ap (keep_value m.value) (values_from-append next xs ys)
      ∙ keep_value-append m.value (values_from next xs) (values_from next ys))
  | inr stale ↦ rw stale (values_from-append next xs ys)
]

values_from_below :
    (next : ℤ) (xs : List MessageAndOffset)
    → All (λ m. m.offset <ℤ next) xs
    → values_from next xs ≡ []
values_from_below next [] h = refl
values_from_below next (m ∷ xs) h =
    let stale : leb_ℤ next m.offset ≡ false = ground arith in
    rw stale (values_from_below next xs h.1)

below_mono :
    (a b : ℤ) (xs : List MessageAndOffset)
    → a ≤ℤ b
    → All (λ m. m.offset <ℤ a) xs
    → All (λ m. m.offset <ℤ b) xs
below_mono a b [] h all = tt
below_mono a b (m ∷ xs) h all = (omega (arith, h, all.0), below_mono a b xs h all.1)

-- The end and the start of a rising list rise.
Rising-end : (low : ℤ) (xs ys : List MessageAndOffset) → Rising low (xs ++ ys) → Rising low ys
Rising-end low [] ys r = r
Rising-end low (m ∷ xs) ys r =
    Rising-mono low (m.offset +ℤ pos 1) ys (ground arith) (Rising-end (m.offset +ℤ pos 1) xs ys r.1)

Rising-start : (low : ℤ) (xs ys : List MessageAndOffset) → Rising low (xs ++ ys) → Rising low xs
Rising-start low [] ys r = tt
Rising-start low (m ∷ xs) ys r = (r.0, Rising-start (m.offset +ℤ pos 1) xs ys r.1)

-- Behind a response, its new next offset gives the messages that the old one gives.
take_messages-rest :
    (next low : ℤ) (ms post : List MessageAndOffset)
    → Rising low (ms ++ post)
    → values_from next post ≡ values_from (take_messages next ms).0 post
unfolding take_messages
take_messages-rest next low [] post r = refl
take_messages-rest next low (m ∷ ms) post r = elim (Bool-cases (leb_ℤ next m.offset)) [
  | inl fresh ↦
      let step : (take_messages next (m ∷ ms)).0 ≡ (take_messages (m.offset +ℤ pos 1) ms).0 =
        rw fresh refl in
      subst (λ n. values_from next post ≡ values_from n post) (sym step)
        (values_from_low next (m.offset +ℤ pos 1) post (ground arith)
            (Rising-end (m.offset +ℤ pos 1) ms post r.1)
          ∙ take_messages-rest (m.offset +ℤ pos 1) (m.offset +ℤ pos 1) ms post r.1)
  | inr stale ↦
      let step : (take_messages next (m ∷ ms)).0 ≡ (take_messages next ms).0 = rw stale refl in
      subst (λ n. values_from next post ≡ values_from n post) (sym step)
        (take_messages-rest next (m.offset +ℤ pos 1) ms post r.1)
]

-- A part of the log, before which all messages lie below the next offset.
pub record PartOf (log : List MessageAndOffset) (next : ℤ) (ms : List MessageAndOffset)
    : Type 0 where
  pub before : List MessageAndOffset
  pub after : List MessageAndOffset
  pub split : log ≡ before ++ (ms ++ after)
  pub below : All (λ m. m.offset <ℤ next) before

-- What is left of the log falls to the response and to what is left afterwards.
values_from-PartOf :
    (low next : ℤ) (log ms : List MessageAndOffset)
    → Rising low log
    → PartOf log next ms
    → values_from next log ≡ values_from next ms ++ values_from (take_messages next ms).0 log
values_from-PartOf low next log ms rising p =
    let next' = (take_messages next ms).0 in
    let le : next ≤ℤ next' = take_messages-le next ms in
    let rest = Rising-end low p.before (ms ++ p.after) (subst (Rising low) p.split rising) in
    let old : values_from next log ≡ values_from next ms ++ values_from next p.after =
      ap (values_from next) p.split
      ∙ values_from-append next p.before (ms ++ p.after)
      ∙ ap (λ l. l ++ values_from next (ms ++ p.after)) (values_from_below next p.before p.below)
      ∙ values_from-append next ms p.after in
    let new : values_from next' log ≡ values_from next' p.after =
      ap (values_from next') p.split
      ∙ values_from-append next' p.before (ms ++ p.after)
      ∙ ap (λ l. l ++ values_from next' (ms ++ p.after))
          (values_from_below next' p.before (below_mono next next' p.before le p.below))
      ∙ values_from-append next' ms p.after
      ∙ ap (λ l. l ++ values_from next' p.after)
          (values_from_below next' ms (take_messages_above next ms)) in
    old ∙ ap (◌++◌ (values_from next ms)) (take_messages-rest next low ms p.after rest ∙ sym new)

-- The messages that the application has been handed, in order; the trace has the newest call first.
abbrev pub received : List Action → List (List ℕ)
received [] = []
received (received_data msgs ∷ trace) = received trace ++ msgs
received (_ ∷ trace) = received trace

received-handed :
    (msgs : List (List ℕ)) (trace : List Action)
    → received (handed msgs trace) ≡ received trace ++ msgs
received-handed [] trace = sym (append-nil (received trace))
received-handed (m ∷ msgs) trace = refl

module _ (a : Asio) (os : Os) (fuel : ℕ) where
  -- handleFetchResponse for one frame after the other.
  abbrev pub fetch_all : List (List ℕ) → Sys → Outcome Sys
  fetch_all [] s = ok s
  fetch_all (frame ∷ frames) s = handle_fetch_response a os fuel frame s >>= fetch_all frames

  -- Each frame, without an error, is a part of the log that leaves no gap behind the frames before it.
  abbrev pub FromLog : List MessageAndOffset → ℤ → List (List ℕ) → Type 0
  FromLog log next [] = Unit {0}
  FromLog log next (frame ∷ frames) =
      ((a.read_fetch frame).0 ≡ pos 0)
      × PartOf log next (a.read_fetch frame).1
      × FromLog log (take_messages next (a.read_fetch frame).1).0 frames

  -- Let the broker's log have rising offsets, and let each of a sequence of fetch responses, without an
  -- error, be a part of it that starts at or before the next offset of the consumer and ends anywhere.
  -- Then at a consumer whose data callback is set, if every wake-up is written, handleFetchResponse for
  -- one after the other ends without an error, and what the application has been handed, followed by the
  -- values that the log has from the new next offset on, is what it had been handed before, followed by
  -- the values that the log has from the old next offset on: each value is handed on once, in the order
  -- of the log, with none left out. Only the next offset of the partition has changed.
  pub fetch_all-received :
      (log : List MessageAndOffset) (low : ℤ) (frames : List (List ℕ)) (s : Sys)
      → Rising low log
      → FromLog log s.part.next_fetch_offset frames
      → s.part.partition_type ≡ consumer_p
      → s.part.on_received_data ≡ true
      → WritesDone os
      → (s' : Sys) × (fetch_all frames s ≡ ok s')
        × (s'.part ≡ record (s.part) { next_fetch_offset = s'.part.next_fetch_offset })
        × (received s'.world.trace ++ values_from s'.part.next_fetch_offset log
            ≡ received s.world.trace ++ values_from s.part.next_fetch_offset log)
  fetch_all-received log low [] s rising from consumer set writes = (s, refl, refl, refl)
  fetch_all-received log low (frame ∷ frames) s rising (fine, part, from) consumer set writes =
      let next = s.part.next_fetch_offset in
      let ms = (a.read_fetch frame).1 in
      let (s1, e1, kept1, next1, trace1) =
        handle_fetch_response-next a os fuel frame low s fine
          (Rising-start low ms part.after
            (Rising-end low part.before (ms ++ part.after) (subst (Rising low) part.split rising)))
          consumer set writes in
      let (s2, e2, kept2, balanced) =
        fetch_all-received log low frames s1 rising
          (subst (λ n. FromLog log n frames) (sym next1) from)
          (ap (λ (p : KafkaPartition). p.partition_type) kept1 ∙ consumer)
          (ap (λ (p : KafkaPartition). p.on_received_data) kept1 ∙ set) writes in
      let left = values_from s1.part.next_fetch_offset log in
      (
        s2,
        rw e1 e2,
        kept2
            ∙ ap
                (λ (p : KafkaPartition). record p { next_fetch_offset = s2.part.next_fetch_offset })
                kept1,
        balanced
            ∙ ap (λ t. received t ++ left) trace1
            ∙ ap (λ l. l ++ left) (received-handed (values_from next ms) s.world.trace)
            ∙ append_assoc (received s.world.trace) (values_from next ms) left
            ∙ ap (◌++◌ (received s.world.trace)) (
                ap (λ n. values_from next ms ++ values_from n log) next1
                ∙ sym (values_from-PartOf low next log ms rising part)),
      )
