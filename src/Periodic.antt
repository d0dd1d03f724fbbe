-- ===== src/Periodic.antt =====
-- PeriodicEventSource of src/PeriodicEventSource.h and .cpp: a timerfd and the callback behind it.
-- The `double` of seconds is a number of nanoseconds, which every caller's whole seconds are.
pub mod Timer
use libasynckafkaclient.Prelude.{
  ℕ, zero, suc, ◌*◌, ◌/◌, ◌%◌, Bool, true, false, Option, none, some, if◌then◌else◌, not,
}
use libasynckafkaclient.Prelude.Int.{ℤ, minus_one, ◌==ℤ◌}
use libasynckafkaclient.Outcome.{Outcome, ok, aborted, no_fuel}
use libasynckafkaclient.Reactor.{aeventin, has_in}
use libasynckafkaclient.Os.{
  Os, World, tock, log, closed, Errno, eintr, eagain, econnreset, other_errno, CounterAnswer,
  counter, short_read, counter_failed,
}

-- Both it_value and it_interval of the timer.
pub record TimerSpec : Type 0 where
  pub tv_sec : ℕ
  pub tv_nsec : ℕ

pub record PeriodicEventSource : Type 0 where
  pub timer_fd : ℤ
  pub event_flags : ℕ
  pub time_period_ns : ℕ
  pub fun_on_timeout : Bool
  pub data_fd : ℤ
  pub data_cb : Bool
  -- What timerfd_settime has set.
  pub spec : TimerSpec

abbrev pub nsec_per_sec : ℕ
nsec_per_sec = 1_000_000_000

abbrev pub new_periodic : PeriodicEventSource
new_periodic = record {
  timer_fd = minus_one;
  event_flags = aeventin;
  time_period_ns = 0;
  fun_on_timeout = false;
  data_fd = minus_one;
  data_cb = false;
  spec = record { tv_sec = 0; tv_nsec = 0 };
}

-- The split into whole seconds and nanoseconds that init and update_timer make.
unfoldable pub split_period : ℕ → TimerSpec
split_period period = record { tv_sec = period / nsec_per_sec; tv_nsec = period % nsec_per_sec }

unfoldable pub init :
    Os → ℕ → Bool → PeriodicEventSource → World → Outcome (PeriodicEventSource × World)
unfolding split_period
init os period on_timeout s w =
    let fd = os.timerfd w.tick in
    let w1 = tock w in
    if fd ==ℤ minus_one
    then aborted
    else if not (os.timer_set w1.tick)
    then aborted
    else ok (
      record {
        timer_fd = fd;
        event_flags = s.event_flags;
        time_period_ns = period;
        fun_on_timeout = on_timeout;
        data_fd = fd;
        data_cb = true;
        spec = split_period period;
      },
      tock w1,
    )

unfoldable pub update_timer :
    Os → ℕ → PeriodicEventSource → World → Outcome (PeriodicEventSource × World)
unfolding split_period
update_timer os period s w =
    if not (os.timer_set w.tick)
    then aborted
    else ok (record s { spec = split_period period }, tock w)

-- One answer of read() in the loop of handleEvent, as in the wakeup source.
unfoldable pub on_counter :
    Bool → CounterAnswer → Outcome (Option ℕ × World) → World → Outcome (Option ℕ × World)
on_counter set (counter_failed eintr) next w = next
on_counter set (counter_failed eagain) next w = ok (none, w)
on_counter set (counter_failed econnreset) next w = aborted
on_counter set (counter_failed other_errno) next w = aborted
on_counter set (short_read n) next w = ok (none, w)
on_counter true (counter n) next w = ok (some n, w)
on_counter false (counter n) next w = next

unfoldable pub read_counter_loop : Os → ℕ → Bool → World → Outcome (Option ℕ × World)
read_counter_loop os zero set w = no_fuel
read_counter_loop os (suc fuel) set w =
    let next = read_counter_loop os fuel set (tock w) in
    on_counter set (os.read_counter w.tick) next (tock w)

unfoldable pub handle_event : Os → ℕ → PeriodicEventSource → ℕ → World → Outcome (Option ℕ × World)
unfolding read_counter_loop on_counter
handle_event os fuel s event w =
    if has_in event then read_counter_loop os fuel s.fun_on_timeout w else ok (none, w)

unfoldable pub destroy : PeriodicEventSource → World → World
destroy s w = log (closed s.timer_fd) w
