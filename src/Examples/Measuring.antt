-- ===== src/Examples/Measuring.antt =====
-- When the loop of examples/performance-00.cpp ends, and what has been counted then.
use libasynckafkaclient.Prelude.{
  ℕ, zero, suc, ◌<◌, ◌≡◌, ◌≢◌, refl, sym, ap, ◌∙◌, subst, Bool, true, false, some, List, [], ◌∷◌,
  ◌++◌, get_elem?, get_elem?-set, get_elem?-set_other, get_elem?-lt, All, arith, if◌then◌else◌,
  if-true, if-false,
}
use libasynckafkaclient.Prelude.Int.{ℤ, pos, ◌+ℤ◌, ◌-ℤ◌, leb_ℤ}
use libasynckafkaclient.Outcome.{Outcome, ok, ◌>>=◌}
use libasynckafkaclient.Reactor.{shutdown}
use libasynckafkaclient.Examples.Arguments.{loopexit}
use libasynckafkaclient.Examples.Performance00
use libasynckafkaclient.Examples.Performance00.{
  on_produce_response, later_response, last_offset, with_last_offset, replicate,
}

-- The way from a to b and on to c.
telescope : (a b c : ℤ) → (b -ℤ a) +ℤ (c -ℤ b) ≡ c -ℤ a
telescope a b c = ground arith

-- The program has had a response of partition n at offset `last`, and one at `first` before all others.
record Counting (n : ℕ) (first last : ℤ) (p : Performance00.Program) : Type 0 where
  delivered : p.num_msgs_delivered ≡ last -ℤ first
  here : get_elem? p.part_last_offset n ≡ some last
  later : p.first_rsp ≡ false

on_produce_response-later :
    (now : ℤ) (n : ℕ) (offset last : ℤ) (p : Performance00.Program)
    → get_elem? p.part_last_offset n ≡ some last
    → p.first_rsp ≡ false
    → on_produce_response now (pos n) offset p ≡ ok (later_response now (pos n) offset last p)
unfolding on_produce_response
on_produce_response-later now n offset last p here later =
    rw (last_offset, here) (ap ok (if-false p.first_rsp _ _ later))

on_produce_response-first :
    (now : ℤ) (n : ℕ) (offset last : ℤ) (p : Performance00.Program)
    → get_elem? p.part_last_offset n ≡ some last
    → p.first_rsp ≡ true
    → on_produce_response now (pos n) offset p
      ≡ ok (with_last_offset (pos n) offset (record p { first_rsp = false }))
unfolding on_produce_response
on_produce_response-first now n offset last p here first =
    rw (last_offset, here) (ap ok (if-true p.first_rsp _ _ first))

-- The responses of partition n, each with the time at which it comes.
abbrev pub on_responses : ℕ → List (ℤ × ℤ) → Performance00.Program → Outcome Performance00.Program
on_responses n [] p = ok p
on_responses n ((now, offset) ∷ l) p = on_produce_response now (pos n) offset p >>= on_responses n l

-- The loop has been told to stop.
abbrev pub has_stopped : Performance00.Program → Bool
has_stopped p = p.producer.reactor.loop_exit

-- The response at this offset does not complete the messages that are counted from `first`.
abbrev pub Short : ℤ → ℤ → ℤ × ℤ → Type 0
Short num_msgs first (now, offset) = leb_ℤ num_msgs (offset -ℤ first) ≡ false

later_response-short :
    (now : ℤ) (n : ℕ) (first offset last : ℤ) (p : Performance00.Program)
    → Counting n first last p
    → leb_ℤ p.num_msgs (offset -ℤ first) ≡ false
    → (p' : Performance00.Program) × (later_response now (pos n) offset last p ≡ p')
      × Counting n first offset p'
      × (p'.num_msgs ≡ p.num_msgs)
      × (has_stopped p' ≡ has_stopped p)
unfolding later_response
later_response-short now n first offset last p c short =
    let delivered = ap (λ d. d +ℤ (offset -ℤ last)) c.delivered ∙ telescope first last offset in
    (
      with_last_offset (pos n) offset
          (record p { num_msgs_delivered = p.num_msgs_delivered +ℤ (offset -ℤ last) }),
      if-false (leb_ℤ p.num_msgs (p.num_msgs_delivered +ℤ (offset -ℤ last))) _ _
          (ap (leb_ℤ p.num_msgs) delivered ∙ short),
      record {
        delivered = delivered;
        here =
            get_elem?-set p.part_last_offset n offset
              (get_elem?-lt p.part_last_offset n last c.here);
        later = c.later;
      },
      refl,
      refl,
    )

ends-if :
    (b : Bool) (now : ℤ) (n : ℕ) (offset d : ℤ) (p : Performance00.Program)
    → has_stopped p ≡ false
    → let counted = record p { num_msgs_delivered = d } in
      let next =
        if b
        then record counted { end_time = now; producer = loopexit p.producer }
        else with_last_offset (pos n) offset counted in
      (next.num_msgs_delivered ≡ d) × (has_stopped next ≡ b)
unfolding shutdown
ends-if true now n offset d p runs = (refl, refl)
ends-if false now n offset d p runs = (refl, runs)

later_response-ends :
    (now : ℤ) (n : ℕ) (first offset last : ℤ) (p : Performance00.Program)
    → Counting n first last p
    → has_stopped p ≡ false
    → ((later_response now (pos n) offset last p).num_msgs_delivered ≡ offset -ℤ first)
      × (has_stopped (later_response now (pos n) offset last p)
          ≡ leb_ℤ p.num_msgs (offset -ℤ first))
unfolding later_response
later_response-ends now n first offset last p c runs =
    let delivered = ap (λ d. d +ℤ (offset -ℤ last)) c.delivered ∙ telescope first last offset in
    let ends =
      ends-if (leb_ℤ p.num_msgs (p.num_msgs_delivered +ℤ (offset -ℤ last))) now n offset
        (p.num_msgs_delivered +ℤ (offset -ℤ last)) p runs in
    (ends.0 ∙ delivered, ends.1 ∙ ap (leb_ℤ p.num_msgs) delivered)

on_responses-ends :
    (n : ℕ) (first last : ℤ) (l : List (ℤ × ℤ)) (now offset : ℤ) (p : Performance00.Program)
    → Counting n first last p
    → All (Short p.num_msgs first) l
    → has_stopped p ≡ false
    → (p' : Performance00.Program) × (on_responses n (l ++ (now, offset) ∷ []) p ≡ ok p')
      × (p'.num_msgs_delivered ≡ offset -ℤ first)
      × (has_stopped p' ≡ leb_ℤ p.num_msgs (offset -ℤ first))
on_responses-ends n first last [] now offset p c short runs =
    let (delivered, stopped) = later_response-ends now n first offset last p c runs in
    (
      later_response now (pos n) offset last p,
      rw (on_produce_response-later now n offset last p c.here c.later) refl,
      delivered,
      stopped,
    )
on_responses-ends n first last ((t, o) ∷ l) now offset p c short runs =
    let (p1, e1, c1, same, still) = later_response-short t n first o last p c short.0 in
    let (p2, e2, delivered, stopped) =
      on_responses-ends n first o l now offset p1 c1
        (subst (λ m. All (Short m first) l) (sym same) short.1) (still ∙ runs) in
    (
      p2,
      rw (on_produce_response-later t n o last p c.here c.later, e1) e2,
      delivered,
      stopped ∙ ap (λ m. leb_ℤ m (offset -ℤ first)) same,
    )

-- The program as main starts it, its loop not told to stop.
pub record Fresh (p : Performance00.Program) : Type 0 where
  pub no_response : p.first_rsp ≡ true
  pub none_delivered : p.num_msgs_delivered ≡ pos 0
  pub offsets : p.part_last_offset ≡ replicate 100 (pos 0)
  pub runs : has_stopped p ≡ false

get_elem?-replicate : (n k : ℕ) (x : ℤ) → n < k → get_elem? (replicate k x) n ≡ some x
get_elem?-replicate n zero x h = absurd (omega arith)
get_elem?-replicate zero (suc k) x h = refl
get_elem?-replicate (suc n) (suc k) x h = get_elem?-replicate n k x (omega arith)

first_response :
    (now : ℤ) (n : ℕ) (first : ℤ) (p : Performance00.Program)
    → n < 100
    → Fresh p
    → let p1 = with_last_offset (pos n) first (record p { first_rsp = false }) in
      (on_produce_response now (pos n) first p ≡ ok p1) × Counting n first first p1
first_response now n first p h fresh =
    let here : get_elem? p.part_last_offset n ≡ some (pos 0) =
      ap (λ l. get_elem? l n) fresh.offsets ∙ get_elem?-replicate n 100 (pos 0) h in
    (
      on_produce_response-first now n first (pos 0) p here fresh.no_response,
      record {
        delivered = fresh.none_delivered ∙ zero_way first;
        here =
            get_elem?-set p.part_last_offset n first
              (get_elem?-lt p.part_last_offset n (pos 0) here);
        later = refl;
      },
    )
  where
    zero_way : (a : ℤ) → pos 0 ≡ a -ℤ a
    zero_way a = ground arith

-- performance-00, started and answered on a single partition below 100: as long as no response is
-- numMsgs or more above the first one, the loop goes on, and numMsgsDelivered is the distance from the
-- first offset to the last; the response that ends it is the first one that is so far above.
pub on_responses_ends_at :
    (n : ℕ) (t first : ℤ) (l : List (ℤ × ℤ)) (now offset : ℤ) (p : Performance00.Program)
    → n < 100
    → Fresh p
    → All (Short p.num_msgs first) l
    → (p' : Performance00.Program) × (on_responses n ((t, first) ∷ l ++ (now, offset) ∷ []) p
        ≡ ok p')
      × (p'.num_msgs_delivered ≡ offset -ℤ first)
      × (has_stopped p' ≡ leb_ℤ p.num_msgs (offset -ℤ first))
on_responses_ends_at n t first l now offset p h fresh short =
    let (e1, c1) = first_response t n first p h fresh in
    let (p', e, delivered, stopped) =
      on_responses-ends n first first l now offset
        (with_last_offset (pos n) first (record p { first_rsp = false })) c1 short fresh.runs in
    (p', rw e1 e, delivered, stopped)

-- performance-00 over two partitions: the first response of a second partition counts as many
-- messages as its offset says, whatever was stored there before the program started; so one at numMsgs
-- or above ends the loop at once.
pub second_partition_overcounts :
    (t now : ℤ) (i j : ℕ) (first offset : ℤ) (p : Performance00.Program)
    → i < 100
    → j < 100
    → j ≢ i
    → Fresh p
    → (p' : Performance00.Program) × ((on_produce_response t (pos i) first p
          >>= on_produce_response now (pos j) offset)
        ≡ ok p')
      × (p'.num_msgs_delivered ≡ offset)
      × (has_stopped p' ≡ leb_ℤ p.num_msgs offset)
second_partition_overcounts t now i j first offset p hi hj ne fresh =
    let (e1, c1) = first_response t i first p hi fresh in
    let p1 = with_last_offset (pos i) first (record p { first_rsp = false }) in
    let here : get_elem? p1.part_last_offset j ≡ some (pos 0) =
      get_elem?-set_other p.part_last_offset i j first ne
      ∙ ap (λ l. get_elem? l j) fresh.offsets
      ∙ get_elem?-replicate j 100 (pos 0) hj in
    let c : Counting j (pos 0) (pos 0) p1 = record {
      delivered = fresh.none_delivered;
      here = here;
      later = refl;
    } in
    let (delivered, stopped) = later_response-ends now j (pos 0) offset (pos 0) p1 c fresh.runs in
    (
      later_response now (pos j) offset (pos 0) p1,
      rw e1 (on_produce_response-later now j offset (pos 0) p1 here refl),
      delivered ∙ minus_zero offset,
      stopped ∙ ap (leb_ℤ p.num_msgs) (minus_zero offset),
    )
  where
    minus_zero : (a : ℤ) → a -ℤ pos 0 ≡ a
    minus_zero a = ground arith
