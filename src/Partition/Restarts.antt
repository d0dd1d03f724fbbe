-- ===== src/Partition/Restarts.antt =====
-- startProduce of src/KafkaEndpointMP.cpp called twice, as the constructor of KafkaProducer
-- (src/KafkaClient.cpp) and every program of examples/ that produces do.
use libasynckafkaclient.Prelude.{
  ℕ, ◌+◌, ◌≡◌, ◌≢◌, sym, ap, ◌∙◌, true, false, none, some, ◌∷◌, arith,
}
use libasynckafkaclient.Prelude.Int.{ℤ, ◌==ℤ◌}
use libasynckafkaclient.Outcome.{ok}
use libasynckafkaclient.Os.{Os, woke}
use libasynckafkaclient.Reactor.{Event, find_fd}
use libasynckafkaclient.Wakeup.{WakeupEventSource}
use libasynckafkaclient.Periodic.{PeriodicEventSource}
use libasynckafkaclient.Partition.State.{KafkaPartition, Sys}
use libasynckafkaclient.Partition.Calls.{EventsAdded, WritesDone, wake-ok, after_wake}
use libasynckafkaclient.Partition.Pending.{EventsMade}
use libasynckafkaclient.Partition.Timers.{Opens}
use libasynckafkaclient.Partition.Lifecycle.{
  source_offset, produce_source, produce_msg_q_source, p_req_timer_source, start_produce,
}
use libasynckafkaclient.Partition.Adding.{Adds, start_wakeup-Adds, start_timer-Adds}

-- The descriptor that startProduce gets for the event of the message queue, three system calls on.
abbrev pub queue_fd : Os → Sys → ℤ
queue_fd os s = os.eventfd (3 + s.world.tick)

-- s' is s after startProduce: nothing that was registered is lost, the event of the message queue has a
-- new descriptor, which is registered if it was not before, and that descriptor has been woken.
pub record Begun (os : Os) (s s' : Sys) : Type 0 where
  pub based : s'.reactor.base ≡ true
  pub kept :
      (k : ℤ) (ev : Event)
      → find_fd k s.reactor.events ≡ some ev
      → find_fd k s'.reactor.events ≡ some ev
  pub ticks : s'.world.tick ≡ 11 + s.world.tick
  pub descriptor : s'.part.produce_msg_q_event.wakeup_fd ≡ queue_fd os s
  pub registered :
      (os.eventfd s.world.tick ==ℤ queue_fd os s) ≡ false
      → find_fd (queue_fd os s) s.reactor.events ≡ none
      → (ev : Event) × (find_fd (queue_fd os s) s'.reactor.events ≡ some ev)
        × (ev.event_data ≡ s.part.event_data + source_offset produce_msg_q_source)
  pub woken : s'.world.trace ≡ woke (queue_fd os s) ∷ s.world.trace

-- The three starts and the wake-up, put together.
start-Begun :
    (os : Os) (s s1 s2 s3 : Sys) (src1 src2 : WakeupEventSource) (src3 : PeriodicEventSource)
    → s1.part ≡ record (s.part) { produce_event = src1 }
    → Adds (os.eventfd s.world.tick) (s.part.event_data + source_offset produce_source) 3 s s1
    → s2.part ≡ record (s1.part) { produce_msg_q_event = src2 }
    → src2.wakeup_fd ≡ os.eventfd s1.world.tick
    → Adds
        (os.eventfd s1.world.tick)
        (s1.part.event_data + source_offset produce_msg_q_source)
        3
        s1
        s2
    → s3.part ≡ record (s2.part) { p_req_timer_event = src3 }
    → Adds
        (os.timerfd s2.world.tick)
        (s2.part.event_data + source_offset p_req_timer_source)
        4
        s2
        s3
    → Begun os s (after_wake s3.part.produce_msg_q_event s3)
start-Begun os s s1 s2 s3 src1 src2 src3 p1 h1 p2 f2 h2 p3 h3 =
    let at : os.eventfd s1.world.tick ≡ queue_fd os s = ap os.eventfd h1.ticks in
    let same_fd : s3.part.produce_msg_q_event.wakeup_fd ≡ queue_fd os s =
      ap (λ (p : KafkaPartition). p.produce_msg_q_event.wakeup_fd) p3
      ∙ ap (λ (p : KafkaPartition). p.produce_msg_q_event.wakeup_fd) p2
      ∙ f2
      ∙ at in
    let number : s1.part.event_data ≡ s.part.event_data =
      ap (λ (p : KafkaPartition). p.event_data) p1 in
    record {
      based = h3.based;
      kept = λ k ev found. h3.kept k ev (h2.kept k ev (h1.kept k ev found));
      ticks = omega (arith, h1.ticks, h2.ticks, h3.ticks);
      descriptor = same_fd;
      registered = λ differs absent.
          let (ev, found, data_id) = h2.added (
            ap (λ k. find_fd k s1.reactor.events) at
            ∙ h1.others (queue_fd os s) differs
            ∙ absent) in
          (
            ev,
            h3.kept (queue_fd os s) ev (sym (ap (λ k. find_fd k s2.reactor.events) at) ∙ found),
            data_id ∙ ap (λ n. n + source_offset produce_msg_q_source) number,
          );
      woken =
          ap (λ k. woke k ∷ s3.world.trace) same_fd
          ∙ ap (◌∷◌ (woke (queue_fd os s))) (h3.same_trace ∙ h2.same_trace ∙ h1.same_trace);
    }

start_produce-Begun :
    (os : Os) (s : Sys)
    → Opens os
    → EventsAdded os
    → EventsMade os
    → WritesDone os
    → s.reactor.base ≡ true
    → (s' : Sys) × (start_produce os s ≡ ok s') × Begun os s s'
unfolding start_produce
start_produce-Begun os s opens adds makes writes based =
    let (src1, s1, ok1, p1, f1, h1) =
      start_wakeup-Adds os opens adds makes produce_source s.part.produce_event
        (λ src. record (s.part) { produce_event = src }) s based in
    let (src2, s2, ok2, p2, f2, h2) =
      start_wakeup-Adds os opens adds makes produce_msg_q_source s1.part.produce_msg_q_event
        (λ src. record (s1.part) { produce_msg_q_event = src }) s1 h1.based in
    let (src3, s3, ok3, p3, h3) =
      start_timer-Adds os opens adds makes p_req_timer_source
        s2.part.config.p_max_batch_wait_time_ms s2.part.p_req_timer_event
        (λ src. record (s2.part) { p_req_timer_event = src }) s2 h2.based in
    (
      after_wake s3.part.produce_msg_q_event s3,
      rw (ok1, ok2, ok3) (wake-ok os s3.part.produce_msg_q_event s3 writes),
      start-Begun os s s1 s2 s3 src1 src2 src3 p1 h1 p2 f2 h2 p3 h3,
    )

-- Suppose the reactor has an event base, the calls that open event sources and set timers succeed,
-- libevent makes and takes every event and every wake-up is written. If eventfd() never answers a
-- descriptor twice and the one that the first call of startProduce gets for the message queue is not
-- registered before, then both calls succeed and the second gives the event another descriptor. The
-- first one has been woken and is not closed; it stays registered for the same event source, which
-- from now on reads only the second one.
pub start_produce_twice :
    (os : Os) (s : Sys)
    → Opens os
    → EventsAdded os
    → EventsMade os
    → WritesDone os
    → ((t u : ℕ) → t ≢ u → (os.eventfd t ==ℤ os.eventfd u) ≡ false)
    → s.reactor.base ≡ true
    → find_fd (queue_fd os s) s.reactor.events ≡ none
    → (s1 s2 : Sys) × (start_produce os s ≡ ok s1)
      × (start_produce os s1 ≡ ok s2)
      × (s1.part.produce_msg_q_event.wakeup_fd ≡ queue_fd os s)
      × ((s2.part.produce_msg_q_event.wakeup_fd ==ℤ queue_fd os s) ≡ false)
      × ((ev : Event) × (find_fd (queue_fd os s) s2.reactor.events ≡ some ev)
          × (ev.event_data ≡ s.part.event_data + source_offset produce_msg_q_source))
      × (s2.world.trace ≡ woke (queue_fd os s1) ∷ woke (queue_fd os s) ∷ s.world.trace)
start_produce_twice os s opens adds makes writes distinct based absent =
    let (s1, e1, b1) = start_produce-Begun os s opens adds makes writes based in
    let (s2, e2, b2) = start_produce-Begun os s1 opens adds makes writes b1.based in
    let (ev, found, data_id) =
      b1.registered (distinct s.world.tick (3 + s.world.tick) (λ e. omega arith)) absent in
    (
      s1,
      s2,
      e1,
      e2,
      b1.descriptor,
      ap (λ k. k ==ℤ queue_fd os s) b2.descriptor
          ∙ distinct (3 + s1.world.tick) (3 + s.world.tick) (λ e. omega (arith, b1.ticks)),
      (ev, b2.kept (queue_fd os s) ev found, data_id),
      b2.woken ∙ ap (◌∷◌ (woke (queue_fd os s1))) b1.woken,
    )
