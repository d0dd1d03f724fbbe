-- ===== src/Examples/Counting.antt =====
-- When the loop of examples/performance-01.cpp ends, and what has been counted then.
use libasynckafkaclient.Prelude.{
  ℕ, ◌+◌, ◌≡◌, refl, sym, ap, ◌∙◌, Bool, true, false, List, [], ◌∷◌, length, arith, if◌then◌else◌,
}
use libasynckafkaclient.Prelude.Int.{ℤ, pos, ◌+ℤ◌, leb_ℤ}
use libasynckafkaclient.Config.{Str}
use libasynckafkaclient.Reactor.{shutdown}
use libasynckafkaclient.Examples.Arguments.{loopexit}
use libasynckafkaclient.Examples.Performance01.{Program, on_received_data}

-- The loop has been told to stop.
abbrev pub has_stopped : Program → Bool
has_stopped p = p.consumer.reactor.loop_exit

-- The deliveries, each with the time at which it comes.
abbrev pub on_deliveries : List (ℤ × List Str) → Program → Program
on_deliveries [] p = p
on_deliveries ((now, msgs) ∷ l) p = on_deliveries l (on_received_data now msgs p)

abbrev pub total : List (ℤ × List Str) → ℕ
total [] = 0
total ((now, msgs) ∷ l) = length msgs + total l

-- p' is p after n more messages: the loop has been told to stop exactly if there are enough.
pub record Counted (n : ℕ) (k : ℕ) (p p' : Program) : Type 0 where
  pub consumed : p'.num_msgs_consumed ≡ pos (k + n)
  pub stopped : has_stopped p' ≡ leb_ℤ p.num_msgs (pos (k + n))
  pub same_target : p'.num_msgs ≡ p.num_msgs

-- More messages are enough where fewer were.
enough : (target : ℤ) (k n : ℕ) → leb_ℤ target (pos (k + n)) ≡ false → leb_ℤ target (pos k) ≡ false
enough target k n h = ground arith

delivered-if :
    (b : Bool) (now d : ℤ) (p : Program)
    → (b ≡ false → has_stopped p ≡ false)
    → let counted = record p { num_msgs_consumed = d } in
      let next =
        if b then record counted { end_time = now; consumer = loopexit p.consumer } else counted in
      (next.num_msgs_consumed ≡ d) × (has_stopped next ≡ b) × (next.num_msgs ≡ p.num_msgs)
unfolding shutdown
delivered-if true now d p before = (refl, refl, refl)
delivered-if false now d p before = (refl, before refl, refl)

add_pos : (k n : ℕ) → pos k +ℤ pos n ≡ pos (k + n)
add_pos k n = ground arith

on_received_data-Counted :
    (now : ℤ) (msgs : List Str) (k : ℕ) (p : Program)
    → p.num_msgs_consumed ≡ pos k
    → (leb_ℤ p.num_msgs (pos (k + length msgs)) ≡ false → has_stopped p ≡ false)
    → Counted (length msgs) k p (on_received_data now msgs p)
unfolding on_received_data
on_received_data-Counted now msgs k p count before =
    let consumed : p.num_msgs_consumed +ℤ pos (length msgs) ≡ pos (k + length msgs) =
      ap (λ c. c +ℤ pos (length msgs)) count ∙ add_pos k (length msgs) in
    let next =
      delivered-if (leb_ℤ p.num_msgs (p.num_msgs_consumed +ℤ pos (length msgs))) now
        (p.num_msgs_consumed +ℤ pos (length msgs)) p
        (λ short. before (sym (ap (leb_ℤ p.num_msgs) consumed) ∙ short)) in
    record {
      consumed = next.0 ∙ consumed;
      stopped = next.1 ∙ ap (leb_ℤ p.num_msgs) consumed;
      same_target = next.2;
    }

on_deliveries-Counted :
    (l : List (ℤ × List Str)) (k : ℕ) (p : Program)
    → p.num_msgs_consumed ≡ pos k
    → has_stopped p ≡ leb_ℤ p.num_msgs (pos k)
    → Counted (total l) k p (on_deliveries l p)
on_deliveries-Counted [] k p count stopped =
    let same : k + 0 ≡ k = omega arith in
    record {
      consumed = count ∙ ap pos (sym same);
      stopped = stopped ∙ ap (λ n. leb_ℤ p.num_msgs (pos n)) (sym same);
      same_target = refl;
    }
on_deliveries-Counted ((now, msgs) ∷ l) k p count stopped =
    let first =
      on_received_data-Counted now msgs k p count
        (λ short. stopped ∙ enough p.num_msgs k (length msgs) short) in
    let p1 = on_received_data now msgs p in
    let rest =
      on_deliveries-Counted l (k + length msgs) p1 first.consumed
        (first.stopped ∙ ap (λ m. leb_ℤ m (pos (k + length msgs))) (sym first.same_target)) in
    let same : k + length msgs + total l ≡ k + (length msgs + total l) = omega arith in
    record {
      consumed = rest.consumed ∙ ap pos same;
      stopped =
          rest.stopped
          ∙ ap (λ m. leb_ℤ m (pos (k + length msgs + total l))) first.same_target
          ∙ ap (λ n. leb_ℤ p.num_msgs (pos n)) same;
      same_target = rest.same_target ∙ first.same_target;
    }

-- performance-01, from its start with a loop that runs: after one delivery and any others it has
-- counted every message of them, and the loop has been told to stop exactly if these are numMsgs or
-- more.
pub on_deliveries_ends_at :
    (now : ℤ) (msgs : List Str) (l : List (ℤ × List Str)) (p : Program)
    → p.num_msgs_consumed ≡ pos 0
    → has_stopped p ≡ false
    → ((on_deliveries ((now, msgs) ∷ l) p).num_msgs_consumed ≡ pos (total ((now, msgs) ∷ l)))
      × (has_stopped (on_deliveries ((now, msgs) ∷ l) p)
          ≡ leb_ℤ p.num_msgs (pos (total ((now, msgs) ∷ l))))
on_deliveries_ends_at now msgs l p none_yet runs =
    let first = on_received_data-Counted now msgs 0 p none_yet (λ short. runs) in
    let rest =
      on_deliveries-Counted l (0 + length msgs) (on_received_data now msgs p) first.consumed
        (first.stopped ∙ ap (λ m. leb_ℤ m (pos (0 + length msgs))) (sym first.same_target)) in
    let same : 0 + length msgs + total l ≡ length msgs + total l = omega arith in
    (
      rest.consumed ∙ ap pos same,
      rest.stopped
          ∙ ap (λ m. leb_ℤ m (pos (0 + length msgs + total l))) first.same_target
          ∙ ap (λ n. leb_ℤ p.num_msgs (pos n)) same,
    )
