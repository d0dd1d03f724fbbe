-- ===== src/Partition/Serving.antt =====
-- That what waits is written when the socket can take it, over whole runs of a partition
-- (src/KafkaEndpointMP.cpp with src/LibeventReactor.cpp), and where it is not.
use libasynckafkaclient.Prelude.{
  ℕ, ◌≡◌, ◌≢◌, refl, ap, ◌∙◌, true, false, some, List, [], ◌∷◌, ◌++◌, inl, arith,
}
use libasynckafkaclient.Prelude.Int.{ℤ, pos, ◌==ℤ◌}
use libasynckafkaclient.Config.{Str}
use libasynckafkaclient.Outcome.{ok}
use libasynckafkaclient.Os.{Os}
use libasynckafkaclient.Reactor.{Event, find_fd}
use libasynckafkaclient.Asio.{Asio, api_key_produce}
use libasynckafkaclient.Partition.State.{KafkaPartition, Sys}
use libasynckafkaclient.Partition.Responses.{handle_produce_response}
use libasynckafkaclient.Partition.Failures.{Handled, handle_produce_response_resends}
use libasynckafkaclient.Partition.Steady.{sent_again}
use libasynckafkaclient.Partition.Events.{handle_event-Steady}
use libasynckafkaclient.Partition.Runs.{Run}
use libasynckafkaclient.Partition.Along.{Untouched, Run-Along}
use libasynckafkaclient.Partition.Watched.{Fresh}
use libasynckafkaclient.Partition.Pending.{
  Serving, Served, stopped, nothing_waits, watched_for_write, EventsMade, same-Served,
  watch-Serving, Serving-Steady,
}

-- The broker accepts every produce request.
abbrev pub Accepts : Asio → Type 0
Accepts a =
    (frame : List ℕ) (topic : Str) (partition : ℤ)
    → (a.read_produce frame topic partition).0 ≡ pos 0

module _ (a : Asio) (os : Os) (fuel : ℕ) (S : ℤ → Type 0) (fresh : Fresh S os)
    (made : EventsMade os) (accepts : Accepts a) where
  same-Serving : (s t : Sys) → Untouched s t → Serving S s → Serving S t
  same-Serving s t (r, p) h = record {
    watched = record {
      well_formed = rw r h.watched.well_formed;
      known = rw (r, ap (λ (p : KafkaPartition). p.sock_fd) p) h.watched.known;
    };
    based = ap (λ q. q.base) r ∙ h.based;
    outward = rw (ap (λ (p : KafkaPartition). p.event_flags) p) h.outward;
    served =
        same-Served os S fresh made s t r (ap (λ (p : KafkaPartition). p.sock_fd) p)
          (λ e. ap (λ (p : KafkaPartition). p.dq_write_buffers) p ∙ e) h.served;
  }

  pub Run-Serving :
      {s t : Sys} {given requested : List (List ℕ)}
      → Serving S s
      → Run a os fuel s given requested t
      → Serving S t
  Run-Serving =
      Run-Along a os fuel (Serving S) same-Serving
        (λ s q buffers h.
          watch-Serving os S fresh made s.part.event_flags true _ (inl h.outward)
            h.watched.well_formed h.based h.outward (inl refl) h.watched.known)
        (λ fd flags s h.
          handle_event-Steady a os fuel (Serving S) (Serving-Steady os S fresh made) (inl accepts)
            fd flags s h)

-- Suppose the broker accepts every produce request, event_new never fails and socket() never answers a
-- descriptor of a given set S. Take a run that starts where the reactor is well formed, has an event
-- base and watches only the partition's socket and descriptors of S, the partition's event flags
-- include writing and, if a request waits to be written, the socket is registered for writing or the
-- event loop has been told to stop. Then, whatever else the network and the system
-- calls answer and however often the partition reconnects, in every state that the run reaches: if a
-- request waits to be written, the socket is registered for writing, or the event loop has been told
-- to stop.
pub Run-Served :
    (a : Asio) (os : Os) (fuel : ℕ) (S : ℤ → Type 0) {s t : Sys} {given requested : List (List ℕ)}
    → Fresh S os
    → EventsMade os
    → Accepts a
    → Serving S s
    → Run a os fuel s given requested t
    → Served t
Run-Served a os fuel S fresh made accepts h run =
    (Run-Serving a os fuel S fresh made accepts h run).served

append≢[] : (l : List (ℕ × List ℕ)) (x : ℕ × List ℕ) → l ++ x ∷ [] ≢ []
append≢[] [] x e = ground arith
append≢[] (y ∷ l) x e = ground arith

not-Served :
    (s : Sys) (ev : Event)
    → s.reactor.loop_exit ≡ false
    → s.part.dq_write_buffers ≢ []
    → find_fd s.part.sock_fd s.reactor.events ≡ some ev
    → ev.ev_write ≡ false
    → ¬ Served s
not-Served s ev runs waits found reads (stopped h) = cc
not-Served s ev runs waits found reads (nothing_waits h) = waits h
not-Served s ev runs waits found reads (watched_for_write (ev', found', out)) = cc

-- Where the broker answers a produce request with an error that handleKafkaError only logs, while the
-- loop runs and the socket is registered for reading alone, a request is put to the write buffers and
-- nothing watches for the socket to take it.
pub handle_produce_response_unwatched :
    (a : Asio) (os : Os) (fuel : ℕ) (frame : List ℕ) (s : Sys) (req : List ℕ) (rest : List (List ℕ))
    (ev : Event)
    → s.part.q_in_transit_produce_request ≡ req ∷ rest
    → ((a.read_produce frame s.part.topic s.part.partition).0 ==ℤ pos 0) ≡ false
    → ¬ Handled (a.read_produce frame s.part.topic s.part.partition).0
    → s.reactor.loop_exit ≡ false
    → find_fd s.part.sock_fd s.reactor.events ≡ some ev
    → ev.ev_write ≡ false
    → (s' : Sys) × (handle_produce_response a os fuel frame s ≡ ok s')
      × (s'.part.dq_write_buffers ≢ [])
      × ¬ Served s'
handle_produce_response_unwatched a os fuel frame s req rest ev transit failed logged runs found
      reads =
    let (again, e, iff) =
      handle_produce_response_resends a os fuel frame s req rest transit failed logged in
    let s' = sent_again again rest s in
    let waits : s'.part.dq_write_buffers ≢ [] =
      append≢[] s.part.dq_write_buffers (api_key_produce, again) in
    (s', e, waits, not-Served s' ev runs waits found reads)
