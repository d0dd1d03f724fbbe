-- ===== src/Wakeup.antt =====
-- WakeupEventSource of src/WakeupEventSource.h and .cpp: an eventfd and the callback behind it.
pub mod Loop
use libasynckafkaclient.Prelude.{ℕ, zero, suc, Bool, true, false, Option, none, some, if◌then◌else◌}
use libasynckafkaclient.Prelude.Int.{ℤ, minus_one, ◌==ℤ◌}
use libasynckafkaclient.Outcome.{Outcome, ok, aborted, no_fuel}
use libasynckafkaclient.Reactor.{aeventin, has_in}
use libasynckafkaclient.Os.{
  Os, World, tock, log, woke, closed, Errno, eintr, eagain, econnreset, other_errno, CounterAnswer,
  counter, short_read, counter_failed, WriteAnswer, wrote, write_failed,
}

pub record WakeupEventSource : Type 0 where
  pub wakeup_fd : ℤ
  pub event_flags : ℕ
  -- m_funOnWakeup holds a function.
  pub fun_on_wakeup : Bool
  -- m_eventData.fd, and whether m_eventData.cb has been bound.
  pub data_fd : ℤ
  pub data_cb : Bool

abbrev pub new_wakeup : WakeupEventSource
new_wakeup = record {
  wakeup_fd = minus_one;
  event_flags = aeventin;
  fun_on_wakeup = false;
  data_fd = minus_one;
  data_cb = false;
}

unfoldable pub init : Os → Bool → WakeupEventSource → World → Outcome (WakeupEventSource × World)
init os on_wakeup s w =
    let fd = os.eventfd w.tick in
    if fd ==ℤ minus_one
    then aborted
    else ok (
      record s { wakeup_fd = fd; fun_on_wakeup = on_wakeup; data_fd = fd; data_cb = true },
      tock w,
    )

-- A write of another length than eight is only logged.
abbrev pub after_wakeup : WriteAnswer → ℤ → World → Outcome World
after_wakeup (wrote n) fd w = ok (log (woke fd) (tock w))
after_wakeup (write_failed e) fd w = aborted

unfoldable pub wakeup : Os → WakeupEventSource → World → Outcome World
wakeup os s w = after_wakeup (os.write w.tick) s.wakeup_fd w

-- One answer of read() in the loop of handleEvent. The result `some n` says that m_funOnWakeup is
-- called with n, after which the loop ends; `next` is the next round.
unfoldable pub on_counter :
    Bool → CounterAnswer → Outcome (Option ℕ × World) → World → Outcome (Option ℕ × World)
on_counter set (counter_failed eintr) next w = next
on_counter set (counter_failed eagain) next w = ok (none, w)
on_counter set (counter_failed econnreset) next w = aborted
on_counter set (counter_failed other_errno) next w = aborted
on_counter set (short_read n) next w = ok (none, w)
on_counter true (counter n) next w = ok (some n, w)
on_counter false (counter n) next w = next

unfoldable pub read_counter_loop : Os → ℕ → Bool → World → Outcome (Option ℕ × World)
read_counter_loop os zero set w = no_fuel
read_counter_loop os (suc fuel) set w =
    let next = read_counter_loop os fuel set (tock w) in
    on_counter set (os.read_counter w.tick) next (tock w)

unfoldable pub handle_event : Os → ℕ → WakeupEventSource → ℕ → World → Outcome (Option ℕ × World)
unfolding read_counter_loop on_counter
handle_event os fuel s event w =
    if has_in event then read_counter_loop os fuel s.fun_on_wakeup w else ok (none, w)

-- The destructor.
unfoldable pub destroy : WakeupEventSource → World → World
destroy s w = log (closed s.wakeup_fd) w
