-- ===== src/Partition/Timers.antt =====
-- startFetch and startProduce of src/KafkaEndpointMP.cpp: which events they register, and whether the
-- timers of a partition run.
use libasynckafkaclient.Prelude.{
  ℕ, suc, ◌+◌, ◌≤◌, ◌≡◌, ◌↔◌, refl, true, false, arith, Bool-cases, inl, inr,
}
use libasynckafkaclient.Prelude.Int.{minus_one, ◌==ℤ◌}
use libasynckafkaclient.Outcome.{ok}
use libasynckafkaclient.Os.{Os, tock}
use libasynckafkaclient.Wakeup
use libasynckafkaclient.Wakeup.{WakeupEventSource}
use libasynckafkaclient.Periodic
use libasynckafkaclient.Periodic.{PeriodicEventSource, split_period, nsec_per_sec}
use libasynckafkaclient.Periodic.Timer.{IsArmed}
use libasynckafkaclient.Partition.State.{KafkaPartition, Sys, wake_if_consumer, is_consumer}
use libasynckafkaclient.Partition.Calls.{
  EventsAdded, register-ok, after_register, WritesDone, wake-ok, after_wake,
}
use libasynckafkaclient.Partition.Lifecycle.{
  Source, source_offset, produce_source, produce_msg_q_source, fetch_source, oc_timer_source,
  p_req_timer_source, start_wakeup, start_timer, interval_ns, start_produce, start_fetch,
}

-- eventfd(), timerfd_create() and timerfd_settime() succeed.
abbrev pub Opens : Os → Type 0
Opens os =
    ((t : ℕ) → (os.eventfd t ==ℤ minus_one) ≡ false)
    × ((t : ℕ) → (os.timerfd t ==ℤ minus_one) ≡ false)
    × ((t : ℕ) → os.timer_set t ≡ true)

-- A timer's interval is cut to whole seconds before it is set.
pub interval_ns-IsArmed : (ms : ℕ) → IsArmed (split_period (interval_ns ms)) ↔ (1000 ≤ ms)
unfolding split_period
interval_ns-IsArmed ms = (λ h. omega arith, λ h. omega arith)

start_wakeup-ok :
    (os : Os) (source : Source) (old : WakeupEventSource) (put : WakeupEventSource → KafkaPartition)
    (s : Sys)
    → Opens os
    → EventsAdded os
    → (src : WakeupEventSource) × (s' : Sys) × (start_wakeup os source old put s ≡ ok s')
      × (s'.part ≡ put src)
unfolding Wakeup.init
start_wakeup-ok os source old put s opens adds =
    let fd = os.eventfd s.world.tick in
    let src = record old { wakeup_fd = fd; fun_on_wakeup = true; data_fd = fd; data_cb = true } in
    let s1 = record s { part = put src; world = tock s.world } in
    let (r, e) =
      register-ok os fd (s.part.event_data + source_offset source) old.event_flags false s1 adds in
    (src, after_register r s1, rw (opens.0 s.world.tick) e, refl)

pub start_timer-ok :
    (os : Os) (source : Source) (ms : ℕ) (old : PeriodicEventSource)
    (put : PeriodicEventSource → KafkaPartition) (s : Sys)
    → Opens os
    → EventsAdded os
    → (src : PeriodicEventSource) × (s' : Sys) × (start_timer os source ms old put s ≡ ok s')
      × (s'.part ≡ put src)
      × (src.spec ≡ split_period (interval_ns ms))
unfolding Periodic.init
start_timer-ok os source ms old put s opens adds =
    let fd = os.timerfd s.world.tick in
    let src : PeriodicEventSource = record {
      timer_fd = fd;
      event_flags = old.event_flags;
      time_period_ns = interval_ns ms;
      fun_on_timeout = true;
      data_fd = fd;
      data_cb = true;
      spec = split_period (interval_ns ms);
    } in
    let s1 = record s { part = put src; world = tock (tock s.world) } in
    let (r, e) =
      register-ok os fd (s.part.event_data + source_offset source) old.event_flags false s1 adds in
    (src, after_register r s1, rw (opens.1 s.world.tick, opens.2 (suc s.world.tick)) e, refl, refl)

wake_if_consumer-ok :
    (os : Os) (s : Sys)
    → WritesDone os
    → (s' : Sys) × (wake_if_consumer os s ≡ ok s') × (s'.part ≡ s.part)
unfolding wake_if_consumer
wake_if_consumer-ok os s writes = elim (Bool-cases (is_consumer s.part.partition_type)) [
  | inl consumer ↦
      (after_wake s.part.fetch_event s, rw consumer (wake-ok os s.part.fetch_event s writes), refl)
  | inr producer ↦ (s, rw producer refl, refl)
]

-- If the system calls succeed, startProduce succeeds and leaves the queues alone, and the timer
-- that makes requests of a batch that does not fill up runs exactly if pMaxBatchWaitTimeMs is at
-- least 1000.
pub start_produce-IsArmed :
    (os : Os) (s : Sys)
    → Opens os
    → EventsAdded os
    → WritesDone os
    → (s' : Sys) × (start_produce os s ≡ ok s')
      × (IsArmed s'.part.p_req_timer_event.spec ↔ (1000 ≤ s.part.config.p_max_batch_wait_time_ms))
      × (s'.part.q_msgs ≡ s.part.q_msgs)
      × (s'.part.dq_write_buffers ≡ s.part.dq_write_buffers)
unfolding start_produce
start_produce-IsArmed os s opens adds writes =
    let (e1, s1, ok1, p1) =
      start_wakeup-ok os produce_source s.part.produce_event
        (λ src. record (s.part) { produce_event = src }) s opens adds in
    let (e2, s2, ok2, p2) =
      start_wakeup-ok os produce_msg_q_source s1.part.produce_msg_q_event
        (λ src. record (s1.part) { produce_msg_q_event = src }) s1 opens adds in
    let (e3, s3, ok3, p3, spec) =
      start_timer-ok os p_req_timer_source s2.part.config.p_max_batch_wait_time_ms
        s2.part.p_req_timer_event (λ src. record (s2.part) { p_req_timer_event = src }) s2 opens
        adds in
    let same_ms : s2.part.config.p_max_batch_wait_time_ms ≡ s.part.config.p_max_batch_wait_time_ms =
      rw (p2, p1) refl in
    (
      after_wake s3.part.produce_msg_q_event s3,
      rw (ok1, ok2, ok3) (wake-ok os s3.part.produce_msg_q_event s3 writes),
      rw (p3, spec, same_ms) (interval_ns-IsArmed s.part.config.p_max_batch_wait_time_ms),
      rw (p3, p2, p1) refl,
      rw (p3, p2, p1) refl,
    )

-- If the system calls succeed, startFetch succeeds, and the timer that commits the offset runs exactly
-- if cAutoCommitIntervalMs is at least 1000, whatever cAutoCommitEnable says.
pub start_fetch-IsArmed :
    (os : Os) (s : Sys)
    → Opens os
    → EventsAdded os
    → WritesDone os
    → (s' : Sys) × (start_fetch os s ≡ ok s')
      × (IsArmed s'.part.oc_timer_event.spec ↔ (1000 ≤ s.part.config.c_auto_commit_interval_ms))
unfolding start_fetch
start_fetch-IsArmed os s opens adds writes =
    let (e1, s1, ok1, p1) =
      start_wakeup-ok os fetch_source s.part.fetch_event
        (λ src. record (s.part) { fetch_event = src }) s opens adds in
    let (e2, s2, ok2, p2, spec) =
      start_timer-ok os oc_timer_source s1.part.config.c_auto_commit_interval_ms
        s1.part.oc_timer_event (λ src. record (s1.part) { oc_timer_event = src }) s1 opens adds in
    let (s3, ok3, p3) = wake_if_consumer-ok os s2 writes in
    let same_ms : s1.part.config.c_auto_commit_interval_ms
        ≡ s.part.config.c_auto_commit_interval_ms =
      rw p1 refl in
    (
      s3,
      rw (ok1, ok2) ok3,
      rw (p3, p2, spec, same_ms) (interval_ns-IsArmed s.part.config.c_auto_commit_interval_ms),
    )
