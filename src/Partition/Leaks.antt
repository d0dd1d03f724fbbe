-- ===== src/Partition/Leaks.antt =====
-- The reactor over whole runs of a partition (src/KafkaEndpointMP.cpp with src/LibeventReactor.cpp).
use libasynckafkaclient.Prelude.{ℕ, ◌≡◌, refl, ap, true, List, [], inl}
use libasynckafkaclient.Prelude.Int.{ℤ}
use libasynckafkaclient.Os.{Os}
use libasynckafkaclient.Reactor
use libasynckafkaclient.Reactor.Invariant.{destroy-live}
use libasynckafkaclient.Asio.{Asio}
use libasynckafkaclient.Partition.State.{KafkaPartition, Sys}
use libasynckafkaclient.Partition.Runs.{Run}
use libasynckafkaclient.Partition.Along.{Untouched, Run-Along}
use libasynckafkaclient.Partition.Watched.{Watched, Fresh, register-Watched, handle_event-Watched}

module _ (a : Asio) (os : Os) (fuel : ℕ) (S : ℤ → Type 0) (fresh : Fresh S os) where
  -- Only the reactor and the socket matter.
  same-Watched : (s t : Sys) → Untouched s t → Watched S s → Watched S t
  same-Watched s t (r, p) h = record {
    well_formed = rw r h.well_formed;
    known = rw (r, ap (λ (p : KafkaPartition). p.sock_fd) p) h.known;
  }

  Run-Watched :
      {s t : Sys} {given requested : List (List ℕ)}
      → Watched S s
      → Run a os fuel s given requested t
      → Watched S t
  Run-Watched =
      Run-Along a os fuel (Watched S) same-Watched
        (λ s q buffers h.
          register-Watched os S fresh s.part.event_flags true _ h.well_formed (inl refl) h.known)
        (λ fd flags s h. handle_event-Watched a os fuel S fd flags s fresh h)

-- A run that starts with a well-formed reactor, which watches, besides the socket, only descriptors
-- that socket() never answers, ends with one, whatever the network and the system calls answer and
-- however often the partition reconnects; when the reactor is then destroyed, no event is left
-- allocated.
pub Run-destroy-live :
    (a : Asio) (os : Os) (fuel : ℕ) (S : ℤ → Type 0) {s t : Sys} {given requested : List (List ℕ)}
    → Fresh S os
    → Watched S s
    → Run a os fuel s given requested t
    → Watched S t × ((Reactor.destroy t.reactor).live ≡ [])
Run-destroy-live a os fuel S {t = t} fresh h run =
    let w = Run-Watched a os fuel S fresh h run in (w, destroy-live t.reactor w.well_formed)
