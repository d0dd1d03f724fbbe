-- ===== src/Partition/Along.antt =====
-- Predicates on a partition with its reactor and world that hold along every run
-- (src/KafkaEndpointMP.cpp): what they have to stand, and the induction on the run.
use libasynckafkaclient.Prelude.{ℕ, ◌≡◌, refl, subst, true, List, [], ◌∷◌}
use libasynckafkaclient.Prelude.Int.{ℤ}
use libasynckafkaclient.Outcome.{Keeps, Keeps-bind, call-Keeps, if-Keeps, if-holds, Outcome, ok}
use libasynckafkaclient.Os.{Os}
use libasynckafkaclient.Wakeup.{wakeup, WakeupEventSource}
use libasynckafkaclient.Asio.{Asio}
use libasynckafkaclient.Partition.State.{Sys, wake, with_part, watch_socket}
use libasynckafkaclient.Partition.Requests.{
  produce, enqueue, enqueue_next, enqueue_all, produce_msgs, create_produce_request,
  create_fetch_request, create_metadata_request, batch_is_full,
}
use libasynckafkaclient.Partition.Lifecycle.{
  Source, produce_source, produce_msg_q_source, fetch_source, md_timer_source, oc_timer_source,
  p_req_timer_source, fire, pause_fetch, resume_fetch, notify_produce_msg_q,
}
use libasynckafkaclient.Partition.Offsets.{commit_kafka_offset}
use libasynckafkaclient.Partition.Runs.{
  Run, start, on_socket, on_source, on_produce, on_produce_msgs, on_pause, on_resume,
}
use libasynckafkaclient.Partition.Reading.{handle_event}

-- t is s after calls of the application that make no request: with other queued messages, and in another
-- world.
abbrev pub Untouched : Sys → Sys → Type 0
Untouched s t =
    (t.reactor ≡ s.reactor)
    × (t.part ≡ record (s.part) {
      q_msgs = t.part.q_msgs;
      msg_cnt = t.part.msg_cnt;
      fetch_paused = t.part.fetch_paused;
    })

-- The requests and the messages that wait are replaced, and the socket is registered.
abbrev pub requested : Os → List (List ℕ) → List (ℕ × List ℕ) → Sys → Outcome Sys
requested os q buffers s =
    watch_socket os s.part.event_flags true
      (with_part (record (s.part) { q_msgs = q; dq_write_buffers = buffers }) s)

module _ (Q : Sys → Type 0) (same : (s t : Sys) → Untouched s t → Q s → Q t) where
  wake-Along : (os : Os) (source : WakeupEventSource) (s : Sys) → Q s → Keeps Q (wake os source s)
  wake-Along os source s h =
      call-Keeps Q (wakeup os source s.world) _ (λ w. same s _ (refl, refl) h)

  enqueue-Along : (os : Os) (msg : List ℕ) (s : Sys) → Q s → Keeps Q (enqueue os msg s)
  unfolding enqueue
  enqueue-Along os msg s h =
      if-Keeps Q (batch_is_full s.part) _ _
        (Keeps-bind Q Q (wake os s.part.produce_event s) _ (wake-Along os s.part.produce_event s h)
          (λ s1 h1. same s1 _ (refl, refl) h1))
        (same s _ (refl, refl) h)

  enqueue_next-Along : (os : Os) (msg : List ℕ) (s : Sys) → Q s → Keeps Q (enqueue_next os msg s)
  unfolding enqueue_next
  enqueue_next-Along os msg s h =
      if-Keeps Q (batch_is_full s.part) _ _
        (Keeps-bind Q Q (wake os s.part.produce_event s) _ (wake-Along os s.part.produce_event s h)
          (λ s1 h1. same s1 _ (refl, refl) h1))
        (same s _ (refl, refl) h)

  enqueue_all-Along :
      (os : Os) (msgs : List (List ℕ)) (s : Sys) → Q s → Keeps Q (enqueue_all os msgs s)
  unfolding enqueue_all
  enqueue_all-Along os [] s h = h
  enqueue_all-Along os (msg ∷ msgs) s h =
      Keeps-bind Q Q (enqueue_next os msg s) _ (enqueue_next-Along os msg s h)
        (λ s1 h1. enqueue_all-Along os msgs s1 h1)

  produce-Along : (os : Os) (msg : List ℕ) (s : Sys) → Q s → Keeps Q (produce os msg s)
  unfolding produce
  produce-Along os msg s h =
      Keeps-bind Q Q (enqueue os msg s) _ (enqueue-Along os msg s h)
        (λ s1 h1. wake-Along os s1.part.produce_msg_q_event s1 h1)

  produce_msgs-Along :
      (os : Os) (msgs : List (List ℕ)) (s : Sys)
      → Q s
      → Keeps (λ (r : ℕ × Sys). Q r.1) (produce_msgs os msgs s)
  unfolding produce_msgs
  produce_msgs-Along os [] s h = h
  produce_msgs-Along os (msg ∷ msgs) s h =
      let R : ℕ × Sys → Type 0 = λ r. Q r.1 in
      Keeps-bind Q R (enqueue_all os (msg ∷ msgs) s) _ (enqueue_all-Along os (msg ∷ msgs) s h)
        (λ s1 h1.
          Keeps-bind Q R (wake os s1.part.produce_msg_q_event s1) _
            (wake-Along os s1.part.produce_msg_q_event s1 h1) (λ s2 h2. h2))

  resume_fetch-Along : (os : Os) (s : Sys) → Q s → Keeps Q (resume_fetch os s)
  unfolding resume_fetch
  resume_fetch-Along os s h =
      if-Keeps Q s.part.fetch_paused _ _
        (wake-Along os s.part.fetch_event _ (same s _ (refl, refl) h)) h

module _ (a : Asio) (os : Os) (fuel : ℕ) (Q : Sys → Type 0)
    (same : (s t : Sys) → Untouched s t → Q s → Q t)
    (request : (s : Sys) (q : List (List ℕ)) (buffers : List (ℕ × List ℕ))
      → Q s
      → Keeps Q (requested os q buffers s))
    (event : (fd : ℤ) (flags : ℕ) (s : Sys)
      → Q s
      → Keeps Q (handle_event a os fuel fd flags s)) where
  fire-Along : (source : Source) (s : Sys) → Q s → Keeps Q (fire a os source s)
  unfolding fire create_produce_request create_fetch_request create_metadata_request
      notify_produce_msg_q commit_kafka_offset
  fire-Along produce_source s h = request s _ _ h
  fire-Along p_req_timer_source s h = request s _ _ h
  fire-Along fetch_source s h = if-Keeps Q s.part.fetch_paused _ _ h (request s _ _ h)
  fire-Along md_timer_source s h = request s _ _ h
  fire-Along oc_timer_source s h = same s _ (refl, refl) h
  fire-Along produce_msg_q_source s h =
      if-holds Q s.part.on_msg_queued _ s (same s _ (refl, refl) h) h

  kept : {u : Sys} (m : Outcome Sys) → Keeps Q m → m ≡ ok u → Q u
  kept m h e = subst (Keeps Q) e h

  pub Run-Along :
      {s t : Sys} {given requested : List (List ℕ)} → Q s → Run a os fuel s given requested t → Q t
  unfolding pause_fetch
  Run-Along h start = h
  Run-Along h (on_socket {t = t} fd flags run e) = kept _ (event fd flags t (Run-Along h run)) e
  Run-Along h (on_source {t = t} source run e) = kept _ (fire-Along source t (Run-Along h run)) e
  Run-Along h (on_produce {t = t} msg run e) =
      kept _ (produce-Along Q same os msg t (Run-Along h run)) e
  Run-Along h (on_produce_msgs {t = t} msgs run e) =
      kept _
        (Keeps-bind (λ (r : ℕ × Sys). Q r.1) Q (produce_msgs os msgs t) _
          (produce_msgs-Along Q same os msgs t (Run-Along h run)) (λ r h1. h1))
        e
  Run-Along h (on_pause {t = t} run) = same t _ (refl, refl) (Run-Along h run)
  Run-Along h (on_resume {t = t} run e) =
      kept _ (resume_fetch-Along Q same os t (Run-Along h run)) e
