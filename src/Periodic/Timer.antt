-- ===== src/Periodic/Timer.antt =====
-- The timer of PeriodicEventSource.
use libasynckafkaclient.Prelude.{ℕ, ◌+◌, ◌*◌, ◌<◌, ◌≡◌, ◌↔◌, arith}
use libasynckafkaclient.Periodic.{TimerSpec, nsec_per_sec, split_period}

-- A timer with a zero it_value is disarmed (timerfd_settime(2)).
abbrev pub IsArmed : TimerSpec → Type 0
IsArmed s = 0 < s.tv_sec + s.tv_nsec

-- The two fields that are handed to the kernel stand for the period, and the nanoseconds are in the
-- range that timerfd_settime accepts, whatever the period.
pub split_period_exact :
    (period : ℕ)
    → let s = split_period period in
      (s.tv_sec * nsec_per_sec + s.tv_nsec ≡ period)
      × (s.tv_nsec < nsec_per_sec)
      × (IsArmed s ↔ (0 < period))
unfolding split_period
split_period_exact period = (omega arith, omega arith, (λ h. omega arith, λ h. omega arith))
