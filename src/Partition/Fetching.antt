-- ===== src/Partition/Fetching.antt =====
-- Which messages of a fetch response handleFetchResponse of src/KafkaEndpointMP.cpp hands on, and
-- where it goes on fetching.
use libasynckafkaclient.Prelude.{
  ℕ, ◌≡◌, refl, sym, subst, ap, ◌∙◌, true, false, List, [], ◌∷◌, if◌then◌else◌, arith, Bool-cases,
  inl, inr, All,
}
use libasynckafkaclient.Prelude.Int.{ℤ, pos, ◌+ℤ◌, ◌≤ℤ◌, ◌<ℤ◌, leb_ℤ}
use libasynckafkaclient.Asio.{MessageAndOffset}
use libasynckafkaclient.Partition.Responses.{keep_value, take_messages}

-- The next offset never goes back, whatever the response holds.
pub take_messages-le : (next : ℤ) (ms : List MessageAndOffset) → next ≤ℤ (take_messages next ms).0
unfolding take_messages
take_messages-le next [] = omega arith
take_messages-le next (m ∷ ms) = elim (Bool-cases (leb_ℤ next m.offset)) [
  | inl fresh ↦ rw fresh (ground (arith, take_messages-le (m.offset +ℤ pos 1) ms))
  | inr stale ↦ rw stale (take_messages-le next ms)
]

-- Every offset of the response lies below the next offset afterwards.
pub take_messages_above :
    (next : ℤ) (ms : List MessageAndOffset) → All (λ m. m.offset <ℤ (take_messages next ms).0) ms
unfolding take_messages
take_messages_above next [] = tt
take_messages_above next (m ∷ ms) = elim (Bool-cases (leb_ℤ next m.offset)) [
  | inl fresh ↦
      let step : (take_messages next (m ∷ ms)).0 ≡ (take_messages (m.offset +ℤ pos 1) ms).0 =
        rw fresh refl in
      subst (λ n. All (λ x. x.offset <ℤ n) (m ∷ ms)) (sym step)
        (
          ground (arith, take_messages-le (m.offset +ℤ pos 1) ms),
          take_messages_above (m.offset +ℤ pos 1) ms,
        )
  | inr stale ↦
      let step : (take_messages next (m ∷ ms)).0 ≡ (take_messages next ms).0 = rw stale refl in
      subst (λ n. All (λ x. x.offset <ℤ n) (m ∷ ms)) (sym step)
        (ground (arith, take_messages-le next ms), take_messages_above next ms)
]

-- A response below the next offset hands nothing on.
take_messages_stale :
    (next : ℤ) (ms : List MessageAndOffset)
    → All (λ m. m.offset <ℤ next) ms
    → take_messages next ms ≡ (next, [])
unfolding take_messages
take_messages_stale next [] h = refl
take_messages_stale next (m ∷ ms) h =
    let stale : leb_ℤ next m.offset ≡ false = ground arith in
    rw (stale, take_messages_stale next ms h.1) refl

-- No message is handed on twice: the same response once more hands nothing on and leaves the next
-- offset where it is.
pub take_messages_again :
    (next : ℤ) (ms : List MessageAndOffset)
    → take_messages (take_messages next ms).0 ms ≡ ((take_messages next ms).0, [])
take_messages_again next ms =
    take_messages_stale (take_messages next ms).0 ms (take_messages_above next ms)

-- Offsets that rise along the list, all of them at least `low`.
abbrev pub Rising : ℤ → List MessageAndOffset → Type 0
Rising low [] = Unit {0}
Rising low (m ∷ ms) = (low ≤ℤ m.offset) × Rising (m.offset +ℤ pos 1) ms

-- The values of the messages from offset `next` on.
abbrev pub values_from : ℤ → List MessageAndOffset → List (List ℕ)
values_from next [] = []
values_from next (m ∷ ms) =
    let rest = values_from next ms in if leb_ℤ next m.offset then keep_value m.value rest else rest

pub Rising-mono : (a b : ℤ) (ms : List MessageAndOffset) → a ≤ℤ b → Rising b ms → Rising a ms
Rising-mono a b [] h r = tt
Rising-mono a b (m ∷ ms) h r = (omega arith, r.1)

-- Below the offsets of a rising list it does not matter where one starts.
pub values_from_low :
    (a b : ℤ) (ms : List MessageAndOffset)
    → a ≤ℤ b
    → Rising b ms
    → values_from a ms ≡ values_from b ms
values_from_low a b [] h r = refl
values_from_low a b (m ∷ ms) h r =
    let from_a : leb_ℤ a m.offset ≡ true = ground arith in
    let from_b : leb_ℤ b m.offset ≡ true = ground arith in
    rw (from_a, from_b)
      (ap (keep_value m.value)
        (values_from_low a b ms h (Rising-mono b (m.offset +ℤ pos 1) ms (ground arith) r.1)))

-- For a response whose offsets rise, as a broker's do, the application is handed exactly the values
-- of the messages from the next offset on, in their order.
pub take_messages-values_from :
    (next low : ℤ) (ms : List MessageAndOffset)
    → Rising low ms
    → (take_messages next ms).1 ≡ values_from next ms
unfolding take_messages
take_messages-values_from next low [] r = refl
take_messages-values_from next low (m ∷ ms) r = elim (Bool-cases (leb_ℤ next m.offset)) [
  | inl fresh ↦ rw fresh (
      ap (keep_value m.value) (
        take_messages-values_from (m.offset +ℤ pos 1) (m.offset +ℤ pos 1) ms r.1
        ∙ sym (values_from_low next (m.offset +ℤ pos 1) ms (ground arith) r.1)))
  | inr stale ↦ rw stale (take_messages-values_from next (m.offset +ℤ pos 1) ms r.1)
]
