-- ===== src/Wakeup/Loop.antt =====
-- The read loop of WakeupEventSource::handleEvent.
use libasynckafkaclient.Prelude.{
  ℕ, zero, suc, ◌≤◌, ◌<◌, ◌≡◌, refl, Bool, true, Option, none, some, arith, ◌⊎◌, inl, inr,
  Bool-cases,
}
use libasynckafkaclient.Outcome.{Outcome, ok, aborted}
use libasynckafkaclient.Reactor.{has_in}
use libasynckafkaclient.Os.{
  tocks, Os, World, tock, CounterAnswer, counter, counter_failed, eintr, eagain, econnreset,
  other_errno, short_read,
}
use libasynckafkaclient.Wakeup.{WakeupEventSource, on_counter, read_counter_loop, handle_event}

-- read() is interrupted k times, from call number t on, and then answers a.
abbrev pub AfterEintr : Os → ℕ → ℕ → CounterAnswer → Type 0
AfterEintr os t zero a = os.read_counter t ≡ a
AfterEintr os t (suc k) a = (os.read_counter t ≡ counter_failed eintr) × AfterEintr os (suc t) k a

-- The answers that end the loop when a callback is set, and with what.
abbrev pub Answered : CounterAnswer → Outcome (Option ℕ × World) → World → Type 0
Answered (counter n) r w = r ≡ ok (some n, w)
Answered (short_read n) r w = r ≡ ok (none, w)
Answered (counter_failed eagain) r w = r ≡ ok (none, w)
Answered (counter_failed eintr) r w = Unit {0}
Answered (counter_failed econnreset) r w = r ≡ aborted
Answered (counter_failed other_errno) r w = r ≡ aborted

on_counter-Answered :
    (a : CounterAnswer) (next : Outcome (Option ℕ × World)) (w : World)
    → Answered a (on_counter true a next w) w
unfolding on_counter
on_counter-Answered (counter n) next w = refl
on_counter-Answered (short_read n) next w = refl
on_counter-Answered (counter_failed eagain) next w = refl
on_counter-Answered (counter_failed eintr) next w = tt
on_counter-Answered (counter_failed econnreset) next w = refl
on_counter-Answered (counter_failed other_errno) next w = refl

loop-Answered :
    (os : Os) (k fuel : ℕ) (a : CounterAnswer) (w : World)
    → k < fuel
    → AfterEintr os w.tick k a
    → Answered a (read_counter_loop os fuel true w) (tocks (suc k) w)
unfolding read_counter_loop on_counter
loop-Answered os zero zero a w h e = absurd (omega arith)
loop-Answered os (suc k) zero a w h e = absurd (omega arith)
loop-Answered os zero (suc fuel) a w h e = rw e (on_counter-Answered a _ (tock w))
loop-Answered os (suc k) (suc fuel) a w h e =
    rw e.0 (loop-Answered os k fuel a (tock w) (omega arith) e.1)

-- With a callback set, an interrupted read() is repeated until it answers a. Then handleEvent calls
-- the callback once with a counter that was read whole, does nothing on EAGAIN or a short read, and
-- aborts on any other error. Fuel above the number of interruptions is enough.
pub handle_event-Answered :
    (os : Os) (s : WakeupEventSource) (k fuel event : ℕ) (a : CounterAnswer) (w : World)
    → s.fun_on_wakeup ≡ true
    → has_in event ≡ true
    → k < fuel
    → AfterEintr os w.tick k a
    → Answered a (handle_event os fuel s event w) (tocks (suc k) w)
unfolding handle_event
handle_event-Answered os s k fuel event a w set readable h e =
    rw (set, readable) (loop-Answered os k fuel a w h e)

on_counter_fires :
    (set : Bool) (a : CounterAnswer) (next : Outcome (Option ℕ × World)) (w : World) (n : ℕ)
    (w' : World)
    → on_counter set a next w ≡ ok (some n, w')
    → ((set ≡ true) × (a ≡ counter n)) ⊎ (next ≡ ok (some n, w'))
unfolding on_counter
on_counter_fires set a next w n w' h = ground arith

read_counter_loop_fires :
    (os : Os) (fuel : ℕ) (set : Bool) (n : ℕ) (w w' : World)
    → read_counter_loop os fuel set w ≡ ok (some n, w')
    → (set ≡ true) × ((t : ℕ) × (w.tick ≤ t) × (os.read_counter t ≡ counter n))
unfolding read_counter_loop
read_counter_loop_fires os zero set n w w' h = cc
read_counter_loop_fires os (suc fuel) set n w w' h =
    elim (on_counter_fires set (os.read_counter w.tick) (read_counter_loop os fuel set (tock w))
      (tock w) n w' h) [
        | inl (on, read) ↦ (on, (w.tick, omega arith, read))
        | inr later ↦
            let (on, (t, le, read)) = read_counter_loop_fires os fuel set n (tock w) w' later in
            (on, (t, omega arith, read))
      ]

-- Whatever is read, the callback is called only for a readable descriptor, with a callback set, and
-- with a counter that read() has answered.
pub handle_event_fires :
    (os : Os) (s : WakeupEventSource) (fuel event n : ℕ) (w w' : World)
    → handle_event os fuel s event w ≡ ok (some n, w')
    → (has_in event ≡ true)
      × (s.fun_on_wakeup ≡ true)
      × ((t : ℕ) × (w.tick ≤ t) × (os.read_counter t ≡ counter n))
unfolding handle_event
handle_event_fires os s fuel event n w w' h = elim (Bool-cases (has_in event)) [
  | inl readable ↦
      let (on, at_tick) =
        read_counter_loop_fires os fuel s.fun_on_wakeup n w w' (rw (readable, handle_event) at h) in
      (readable, on, at_tick)
  | inr other ↦ absurd (ground arith)
]
