-- ===== src/Partition/Launch.antt =====
-- What startFetch and startProduce of src/KafkaEndpointMP.cpp do to the message queue: nothing.
use libasynckafkaclient.Prelude.{ℕ, ◌+◌, true, false, ◌≡◌, refl, subst, List}
use libasynckafkaclient.Prelude.Int.{ℤ}
use libasynckafkaclient.Outcome.{Keeps-bind, any-Keeps}
use libasynckafkaclient.Os.{Os}
use libasynckafkaclient.Wakeup
use libasynckafkaclient.Wakeup.{WakeupEventSource}
use libasynckafkaclient.Periodic
use libasynckafkaclient.Periodic.{PeriodicEventSource}
use libasynckafkaclient.Partition.State.{
  KafkaPartition, Sys, register, wake_if_consumer, is_consumer,
}
use libasynckafkaclient.Partition.Lifecycle.{
  Source, source_offset, start_wakeup, start_timer, start_fetch, start_produce, interval_ns,
  fetch_source, produce_source, produce_msg_q_source, oc_timer_source, p_req_timer_source,
}
use libasynckafkaclient.Partition.Queue.{
  Leaves, Leaves-bind, register-Leaves, wake_after, if-Leaves,
}

register_after :
    (os : Os) (fd : ℤ) (d f : ℕ) (q : List (List ℕ)) (s : Sys)
    → s.part.q_msgs ≡ q
    → Leaves q (register os fd d f false s)
register_after os fd d f q s h =
    subst (λ l. Leaves l (register os fd d f false s)) h (register-Leaves os fd d f false s)

module _ (os : Os) (source : Source) where
  start_wakeup-Leaves :
      (old : WakeupEventSource) (put : WakeupEventSource → KafkaPartition) (s : Sys)
      (q : List (List ℕ))
      → ((src : WakeupEventSource) → (put src).q_msgs ≡ q)
      → Leaves q (start_wakeup os source old put s)
  start_wakeup-Leaves old put s q h =
      Keeps-bind _ _ (Wakeup.init os true old s.world) _
        (any-Keeps (Wakeup.init os true old s.world))
        (λ r any.
          register_after os r.0.wakeup_fd (s.part.event_data + source_offset source) r.0.event_flags
            q (record s { part = put r.0; world = r.1 }) (h r.0))

  start_timer-Leaves :
      (ms : ℕ) (old : PeriodicEventSource) (put : PeriodicEventSource → KafkaPartition) (s : Sys)
      (q : List (List ℕ))
      → ((src : PeriodicEventSource) → (put src).q_msgs ≡ q)
      → Leaves q (start_timer os source ms old put s)
  start_timer-Leaves ms old put s q h =
      Keeps-bind _ _ (Periodic.init os (interval_ns ms) true old s.world) _
        (any-Keeps (Periodic.init os (interval_ns ms) true old s.world))
        (λ r any.
          register_after os r.0.timer_fd (s.part.event_data + source_offset source) r.0.event_flags
            q (record s { part = put r.0; world = r.1 }) (h r.0))

pub start_fetch-Leaves : (os : Os) (s : Sys) → Leaves s.part.q_msgs (start_fetch os s)
unfolding start_fetch wake_if_consumer
start_fetch-Leaves os s =
    let q = s.part.q_msgs in
    Leaves-bind q q (start_wakeup os fetch_source s.part.fetch_event _ s) _
      (start_wakeup-Leaves os fetch_source s.part.fetch_event _ s q (λ src. refl))
      (λ s1 h1.
        Leaves-bind q q (start_timer os oc_timer_source _ s1.part.oc_timer_event _ s1) _
          (start_timer-Leaves os oc_timer_source _ s1.part.oc_timer_event _ s1 q (λ src. h1))
          (λ s2 h2.
            if-Leaves q (is_consumer s2.part.partition_type) _ _
              (wake_after os (λ (t : Sys). t.part.fetch_event) q s2 h2) h2))

pub start_produce-Leaves : (os : Os) (s : Sys) → Leaves s.part.q_msgs (start_produce os s)
unfolding start_produce
start_produce-Leaves os s =
    let q = s.part.q_msgs in
    Leaves-bind q q (start_wakeup os produce_source s.part.produce_event _ s) _
      (start_wakeup-Leaves os produce_source s.part.produce_event _ s q (λ src. refl))
      (λ s1 h1.
        Leaves-bind q q (start_wakeup os produce_msg_q_source s1.part.produce_msg_q_event _ s1) _
          (start_wakeup-Leaves os produce_msg_q_source s1.part.produce_msg_q_event _ s1 q
            (λ src. h1))
          (λ s2 h2.
            Leaves-bind q q (start_timer os p_req_timer_source _ s2.part.p_req_timer_event _ s2) _
              (start_timer-Leaves os p_req_timer_source _ s2.part.p_req_timer_event _ s2 q
                (λ src. h2))
              (wake_after os (λ (t : Sys). t.part.produce_msg_q_event) q)))
