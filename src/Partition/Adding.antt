-- ===== src/Partition/Adding.antt =====
-- What the start of an event source of a partition (src/KafkaEndpointMP.cpp) adds to the reactor.
use libasynckafkaclient.Prelude.{
  ℕ, suc, ◌+◌, ◌≡◌, refl, sym, ap, ◌∙◌, true, false, not, none, some, List, arith, if-false,
  Option-cases, Bool-cases, inl, inr,
}
use libasynckafkaclient.Prelude.Int.{ℤ, ◌==ℤ◌, ==ℤ-refl, ==ℤ→≡}
use libasynckafkaclient.Outcome.{ok, ◌>>=◌}
use libasynckafkaclient.Os.{Os, tock}
use libasynckafkaclient.Reactor.{
  Event, find_fd, insert_fd, new_event, add_event, register_fd_callback,
}
use libasynckafkaclient.Wakeup
use libasynckafkaclient.Wakeup.{WakeupEventSource}
use libasynckafkaclient.Periodic
use libasynckafkaclient.Periodic.{PeriodicEventSource, split_period}
use libasynckafkaclient.Partition.State.{KafkaPartition, Sys, register}
use libasynckafkaclient.Partition.Calls.{EventsAdded}
use libasynckafkaclient.Partition.Pending.{EventsMade}
use libasynckafkaclient.Partition.Timers.{Opens}
use libasynckafkaclient.Partition.Lifecycle.{
  Source, source_offset, start_wakeup, start_timer, interval_ns,
}

-- s' is s after n system calls and the registration of a descriptor without modify: no entry is lost or
-- changed, and a descriptor that had none has one with this EventData.
pub record Adds (fd : ℤ) (d n : ℕ) (s s' : Sys) : Type 0 where
  pub based : s'.reactor.base ≡ true
  pub kept :
      (k : ℤ) (ev : Event)
      → find_fd k s.reactor.events ≡ some ev
      → find_fd k s'.reactor.events ≡ some ev
  pub others :
      (k : ℤ) → (fd ==ℤ k) ≡ false → find_fd k s'.reactor.events ≡ find_fd k s.reactor.events
  pub added :
      find_fd fd s.reactor.events ≡ none
      → (ev : Event) × (find_fd fd s'.reactor.events ≡ some ev) × (ev.event_data ≡ d)
  pub ticks : s'.world.tick ≡ n + s.world.tick
  pub same_trace : s'.world.trace ≡ s.world.trace

insert-kept :
    (fd k : ℤ) (ev e : Event) (m : List (ℤ × Event))
    → find_fd k m ≡ some e
    → find_fd k (insert_fd fd ev m) ≡ some e
unfolding insert_fd find_fd
insert-kept fd k ev e m found = elim (Option-cases (find_fd fd m)) [
  | inl absent ↦ elim (Bool-cases (fd ==ℤ k)) [
    | inl same ↦ absurd (none≢some (sym absent ∙ ap (λ j. find_fd j m) (==ℤ→≡ fd k same) ∙ found))
    | inr differs ↦ rw (absent, insert_fd, differs) found
  ]
  | inr (old, present) ↦ rw (present, insert_fd) found
]
  where
    none≢some : ¬ (none ≡ some e)
    none≢some h = ground arith

insert-others :
    (fd k : ℤ) (ev : Event) (m : List (ℤ × Event))
    → (fd ==ℤ k) ≡ false
    → find_fd k (insert_fd fd ev m) ≡ find_fd k m
unfolding insert_fd find_fd
insert-others fd k ev m differs = elim (Option-cases (find_fd fd m)) [
  | inl absent ↦ rw (absent, insert_fd, differs) refl
  | inr (old, present) ↦ rw (present, insert_fd) refl
]

insert-added :
    (fd : ℤ) (ev : Event) (m : List (ℤ × Event))
    → find_fd fd m ≡ none
    → find_fd fd (insert_fd fd ev m) ≡ some ev
unfolding insert_fd find_fd
insert-added fd ev m absent = rw (absent, insert_fd, ==ℤ-refl fd) refl

register-Adds :
    (os : Os) (fd : ℤ) (d flags : ℕ) (s : Sys)
    → EventsAdded os
    → EventsMade os
    → s.reactor.base ≡ true
    → (s' : Sys) × (register os fd d flags false s ≡ ok s') × (s'.part ≡ s.part) × Adds fd d 2 s s'
unfolding register register_fd_callback
register-Adds os fd d flags s adds makes based =
    let ev = new_event s.reactor fd d flags false in
    (
      record s { reactor = add_event fd ev s.reactor; world = tock (tock s.world) },
      rw (makes s.world.tick, adds (suc s.world.tick))
          (ap (λ m. m >>= λ r. ok (record s { reactor = r; world = tock (tock s.world) }))
            (if-false (not s.reactor.base) _ _ (ap not based))),
      refl,
      record {
        based = based;
        kept = λ k e found. insert-kept fd k ev e s.reactor.events found;
        others = λ k differs. insert-others fd k ev s.reactor.events differs;
        added = λ absent. (ev, insert-added fd ev s.reactor.events absent, refl);
        ticks = omega arith;
        same_trace = refl;
      },
    )

module _ (os : Os) (opens : Opens os) (adds : EventsAdded os) (makes : EventsMade os) where
  pub start_wakeup-Adds :
      (source : Source) (old : WakeupEventSource) (put : WakeupEventSource → KafkaPartition)
      (s : Sys)
      → s.reactor.base ≡ true
      → (src : WakeupEventSource) × (s' : Sys) × (start_wakeup os source old put s ≡ ok s')
        × (s'.part ≡ put src)
        × (src.wakeup_fd ≡ os.eventfd s.world.tick)
        × Adds (os.eventfd s.world.tick) (s.part.event_data + source_offset source) 3 s s'
  unfolding Wakeup.init
  start_wakeup-Adds source old put s based =
      let fd = os.eventfd s.world.tick in
      let src = record old { wakeup_fd = fd; fun_on_wakeup = true; data_fd = fd; data_cb = true } in
      let s1 = record s { part = put src; world = tock s.world } in
      let (s', e, p, h) =
        register-Adds os fd (s.part.event_data + source_offset source) old.event_flags s1 adds makes
          based in
      (
        src,
        s',
        rw (opens.0 s.world.tick) e,
        p,
        refl,
        record {
          based = h.based;
          kept = h.kept;
          others = h.others;
          added = h.added;
          ticks = omega (arith, h.ticks);
          same_trace = h.same_trace;
        },
      )

  pub start_timer-Adds :
      (source : Source) (ms : ℕ) (old : PeriodicEventSource)
      (put : PeriodicEventSource → KafkaPartition) (s : Sys)
      → s.reactor.base ≡ true
      → (src : PeriodicEventSource) × (s' : Sys) × (start_timer os source ms old put s ≡ ok s')
        × (s'.part ≡ put src)
        × Adds (os.timerfd s.world.tick) (s.part.event_data + source_offset source) 4 s s'
  unfolding Periodic.init
  start_timer-Adds source ms old put s based =
      let fd = os.timerfd s.world.tick in
      let src : PeriodicEventSource = record {
        timer_fd = fd;
        event_flags = old.event_flags;
        time_period_ns = interval_ns ms;
        fun_on_timeout = true;
        data_fd = fd;
        data_cb = true;
        spec = split_period (interval_ns ms);
      } in
      let s1 = record s { part = put src; world = tock (tock s.world) } in
      let (s', e, p, h) =
        register-Adds os fd (s.part.event_data + source_offset source) old.event_flags s1 adds makes
          based in
      (
        src,
        s',
        rw (opens.1 s.world.tick, opens.2 (suc s.world.tick)) e,
        p,
        record {
          based = h.based;
          kept = h.kept;
          others = h.others;
          added = h.added;
          ticks = omega (arith, h.ticks);
          same_trace = h.same_trace;
        },
      )
