-- ===== src/Partition/Progress.antt =====
-- What has been produced is sent in the end (src/KafkaEndpointMP.cpp): the produce event makes requests of
-- the messages, and each event of a writable socket sends one request.
use libasynckafkaclient.Prelude.{
  ℕ, zero, suc, ◌≤◌, ◌<◌, ◌≡◌, refl, sym, ap, ◌∙◌, subst, List, [], ◌∷◌, ◌++◌, length, All, arith,
  append-nil,
}
use libasynckafkaclient.Prelude.Int.{==ℤ-refl}
use libasynckafkaclient.Outcome.{Outcome, ok, ◌>>=◌}
use libasynckafkaclient.Os.{Os}
use libasynckafkaclient.Reactor.{aeventout}
use libasynckafkaclient.Asio.{Asio}
use libasynckafkaclient.Partition.State.{Sys}
use libasynckafkaclient.Partition.Transfer.{on_write_ready}
use libasynckafkaclient.Partition.Reading.{handle_event}
use libasynckafkaclient.Partition.Lifecycle.{fire, produce_source}
use libasynckafkaclient.Partition.Calls.{EventsAdded}
use libasynckafkaclient.Partition.Batches.{appended, create_produce_request-ok}
use libasynckafkaclient.Partition.Writing.{
  WritesUpTo, sent_all, produced, sent_one, sent_one-part, on_write_ready-sent_one,
}
use libasynckafkaclient.Partition.Carried.{added, Carry}
use libasynckafkaclient.Partition.Runs.{Run, on_socket, on_source, Run-q_msgs}

module _ (a : Asio) (os : Os) (fuel : ℕ) where
  -- n events that report the socket writable, one after the other.
  abbrev pub writable : ℕ → Sys → Outcome Sys
  writable zero s = ok s
  writable (suc n) s = handle_event a os fuel s.part.sock_fd aeventout s >>= writable n

  handle_event-writable :
      (s : Sys) → handle_event a os fuel s.part.sock_fd aeventout s ≡ on_write_ready a os fuel s
  unfolding handle_event
  handle_event-writable s = simp (==ℤ-refl s.part.sock_fd) refl

  writable-sent_all :
      {s0 : Sys} {given requested : List (List ℕ)} (m : ℕ) (q : List (ℕ × List ℕ)) (s : Sys)
      → Run a os fuel s0 given requested s
      → s.part.dq_write_buffers ≡ q
      → WritesUpTo m os
      → All (λ e. length e.1 ≤ m) q
      → 0 < fuel
      → (s' : Sys) × (writable (length q) s ≡ ok s')
        × Run a os fuel s0 given requested s'
        × (s'.part ≡ record (s.part) {
          dq_write_buffers = [];
          q_in_transit_produce_request = s.part.q_in_transit_produce_request ++ produced q;
        })
        × (s'.world.trace ≡ sent_all s.part.sock_fd q s.world.trace)
  writable-sent_all m [] s run e writes fits h =
      (s, refl, run, ground (arith, append-nil s.part.q_in_transit_produce_request), refl)
  writable-sent_all m ((key, req) ∷ q) s run e writes fits h =
      let one =
        handle_event-writable s
        ∙ on_write_ready-sent_one a os fuel m key req q s e writes fits.0 h in
      let (s', done, run', part, trace) =
        writable-sent_all m q (sent_one key req q s) (on_socket s.part.sock_fd aeventout run one)
          refl writes fits.1 h in
      (s', rw one done, run', sent_one-part key req q s s'.part part, trace)

  fire-produce_source :
      (s : Sys)
      → EventsAdded os
      → (s' : Sys) × (fire a os produce_source s ≡ ok s')
        × (s'.part ≡ record (s.part) {
          q_msgs = [];
          dq_write_buffers = s.part.dq_write_buffers ++ appended a s.part;
        })
        × (s'.world.trace ≡ s.world.trace)
  unfolding fire
  fire-produce_source s adds = create_produce_request-ok a os s adds

  -- Suppose libevent takes every registration and every write() takes at least m bytes, and let t be any
  -- state that a run from s has reached, with no request, waiting or made of the queued messages,
  -- longer than m bytes. Then the produce event and as many events of the writable socket as there are
  -- requests end in a state t' of the run in which nothing waits, neither a message nor a request: the
  -- frames of produce requests that the run has appended to the write buffers hold every message that
  -- was queued at the start or produced since, in order, and the requests that waited and the new ones
  -- have been sent whole, in order, each once.
  pub Run-flushes :
      {s t : Sys} {given requested : List (List ℕ)} (m : ℕ)
      → Run a os fuel s given requested t
      → EventsAdded os
      → WritesUpTo m os
      → All (λ e. length e.1 ≤ m) (t.part.dq_write_buffers ++ appended a t.part)
      → 0 < fuel
      → (t' : Sys) × ((fire a os produce_source t
            >>= writable (length (t.part.dq_write_buffers ++ appended a t.part)))
          ≡ ok t')
        × ((frames : List (List ℕ)) × Run a os fuel s given frames t'
            × Carry a frames (s.part.q_msgs ++ given))
        × (t'.part.q_msgs ≡ [])
        × (t'.part.dq_write_buffers ≡ [])
        × (t'.world.trace
            ≡ sent_all t.part.sock_fd (t.part.dq_write_buffers ++ appended a t.part) t.world.trace)
  Run-flushes {s} {t} {given} {requested} m run adds writes fits h =
      let (t1, made, part1, trace1) = fire-produce_source t adds in
      let run1 = on_source produce_source run made in
      let (t', sent, run', part', trace') =
        writable-sent_all m (t.part.dq_write_buffers ++ appended a t.part) t1 run1
          (ap (λ p. p.dq_write_buffers) part1) writes fits h in
      let none_left : t'.part.q_msgs ≡ [] = ap (λ p. p.q_msgs) part' ∙ ap (λ p. p.q_msgs) part1 in
      let (msgs, carry, all) = Run-q_msgs a os fuel run' in
      let whole : s.part.q_msgs ++ given ≡ msgs =
        all ∙ ap (◌++◌ msgs) none_left ∙ append-nil msgs in
      (
        t',
        rw made sent,
        (requested ++ added t.part t1.part, run', subst (Carry a _) (sym whole) carry),
        none_left,
        ap (λ p. p.dq_write_buffers) part',
        rw (trace', ap (λ p. p.sock_fd) part1, trace1) refl,
      )
