-- ===== src/Partition/Runs.antt =====
-- Runs of the event loop over one partition (src/KafkaEndpointMP.cpp): socket events, events of its
-- sources and calls of produce, pauseFetch and resumeFetch, in any order.
use libasynckafkaclient.Prelude.{
  ℕ, ◌≡◌, sym, ap, ◌∙◌, subst, List, [], ◌∷◌, ◌++◌, append_assoc, append-nil,
}
use libasynckafkaclient.Prelude.Int.{ℤ}
use libasynckafkaclient.Outcome.{Outcome, ok, Keeps}
use libasynckafkaclient.Os.{Os}
use libasynckafkaclient.Asio.{Asio}
use libasynckafkaclient.Partition.State.{Sys, with_part}
use libasynckafkaclient.Partition.Requests.{produce}
use libasynckafkaclient.Partition.Reading.{handle_event}
use libasynckafkaclient.Partition.Lifecycle.{Source, fire, pause_fetch, resume_fetch}
use libasynckafkaclient.Partition.Kept.{handle_event-Keeps}
use libasynckafkaclient.Partition.Queue.{
  Leaves, Keeps-Leaves, produce-Leaves, produced_msgs, produced_msgs-Leaves, resume_fetch-Leaves,
}
use libasynckafkaclient.Partition.Carried.{
  added, Carry, no_frame, Carry-append, Passed, fire-Passed,
}

module _ (a : Asio) (os : Os) (fuel : ℕ) where
  -- A run from s to t, in which the application has produced the messages `given` and the events of the
  -- sources have appended the frames `requested` of produce requests to the write buffers, both in the
  -- order in which it happened.
  pub data Run (s : Sys) : List (List ℕ) → List (List ℕ) → Sys → Type 0 where
    start : Run s [] [] s
    on_socket :
        {given requested : List (List ℕ)} {t u : Sys} (fd : ℤ) (event : ℕ)
        → Run s given requested t
        → handle_event a os fuel fd event t ≡ ok u
        → Run s given requested u
    on_source :
        {given requested : List (List ℕ)} {t u : Sys} (source : Source)
        → Run s given requested t
        → fire a os source t ≡ ok u
        → Run s given (requested ++ added t.part u.part) u
    on_produce :
        {given requested : List (List ℕ)} {t u : Sys} (msg : List ℕ)
        → Run s given requested t
        → produce os msg t ≡ ok u
        → Run s (given ++ msg ∷ []) requested u
    on_produce_msgs :
        {given requested : List (List ℕ)} {t u : Sys} (msgs : List (List ℕ))
        → Run s given requested t
        → produced_msgs os msgs t ≡ ok u
        → Run s (given ++ msgs) requested u
    on_pause :
        {given requested : List (List ℕ)} {t : Sys}
        → Run s given requested t
        → Run s given requested (with_part (pause_fetch t.part) t)
    on_resume :
        {given requested : List (List ℕ)} {t u : Sys}
        → Run s given requested t
        → resume_fetch os t ≡ ok u
        → Run s given requested u

  leaves :
      {q : List (List ℕ)} {u : Sys} (m : Outcome Sys) → Leaves q m → m ≡ ok u → u.part.q_msgs ≡ q
  leaves {q} {u} m h e = subst (Leaves q) e h

  -- Behind other messages.
  with_more : (q g m u msgs : List (List ℕ)) → q ++ g ≡ m ++ u → q ++ (g ++ msgs) ≡ m ++ (u ++ msgs)
  with_more q g m u msgs e =
      sym (append_assoc q g msgs) ∙ ap (λ l. l ++ msgs) e ∙ append_assoc m u msgs

  -- In every run, the frames of produce requests that the events of the sources have appended to the
  -- write buffers, read off the buffers before and after each event, hold messages, in order, which
  -- followed by those that are still queued are those that were queued at the start, followed by those
  -- that the application has produced: whatever the network and the system calls answer, and in whatever
  -- order the events come, no message is lost, doubled or overtaken between produce and the requests.
  pub Run-q_msgs :
      {s t : Sys} {given requested : List (List ℕ)}
      → Run s given requested t
      → (msgs : List (List ℕ)) × Carry a requested msgs
        × (s.part.q_msgs ++ given ≡ msgs ++ t.part.q_msgs)
  unfolding pause_fetch
  Run-q_msgs {s} start = ([], no_frame, append-nil s.part.q_msgs)
  Run-q_msgs (on_socket {t = t} fd event run e) =
      let (m, carry, h) = Run-q_msgs run in
      let same = leaves _ (Keeps-Leaves t.part _ (handle_event-Keeps a os fuel fd event t)) e in
      (m, carry, h ∙ ap (◌++◌ m) (sym same))
  Run-q_msgs (on_source {t = t} {u} source run e) =
      let (m, carry, h) = Run-q_msgs run in
      let (n, later, k) =
        subst (Keeps (λ (x : Sys). Passed a t.part x.part)) e (fire-Passed a os source t) in
      (m ++ n, Carry-append a carry later, h ∙ ap (◌++◌ m) k ∙ sym (append_assoc m n u.part.q_msgs))
  Run-q_msgs {s} (on_produce {given = g} {t = t} msg run e) =
      let (m, carry, h) = Run-q_msgs run in
      (
        m,
        carry,
        with_more s.part.q_msgs g m t.part.q_msgs (msg ∷ []) h
            ∙ ap (◌++◌ m) (sym (leaves _ (produce-Leaves os msg t) e)),
      )
  Run-q_msgs {s} (on_produce_msgs {given = g} {t = t} msgs run e) =
      let (m, carry, h) = Run-q_msgs run in
      (
        m,
        carry,
        with_more s.part.q_msgs g m t.part.q_msgs msgs h
            ∙ ap (◌++◌ m) (sym (leaves _ (produced_msgs-Leaves os msgs t) e)),
      )
  Run-q_msgs (on_pause run) = Run-q_msgs run
  Run-q_msgs (on_resume {t = t} run e) =
      let (m, carry, h) = Run-q_msgs run in
      (m, carry, h ∙ ap (◌++◌ m) (sym (leaves _ (resume_fetch-Leaves os t) e)))
