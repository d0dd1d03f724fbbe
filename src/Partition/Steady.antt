-- ===== src/Partition/Steady.antt =====
-- Predicates on a partition with its reactor and world that its network side (onWriteReady,
-- onReadReady and the handlers of the responses in src/KafkaEndpointMP.cpp) keeps up.
use libasynckafkaclient.Prelude.{
  ℕ, zero, suc, Bool, true, false, ◌≡◌, refl, ◌⊎◌, if◌then◌else◌, List, [], ◌∷◌, Option-cases, inl,
  inr,
}
use libasynckafkaclient.Prelude.Int.{ℤ, pos}
use libasynckafkaclient.Config.{Str, KafkaBroker}
use libasynckafkaclient.Outcome.{Keeps, Keeps-bind, call-Keeps, if-Keeps, Outcome}
use libasynckafkaclient.Os.{
  Os, World, WriteAnswer, wrote, write_failed, econnreset, eintr, eagain, other_errno, tock,
}
use libasynckafkaclient.Reactor.{aeventin}
use libasynckafkaclient.Wakeup.{wakeup}
use libasynckafkaclient.Asio.{Asio, api_key_produce}
use libasynckafkaclient.Partition.State.{
  Sys, with_part, watch_socket, wake_if_consumer, drop_socket, is_consumer,
}
use libasynckafkaclient.Partition.Requests.{
  create_metadata_request, create_offset_request, push_front, push_back, watch_for_write,
}
use libasynckafkaclient.Partition.Transfer.{
  connect_leader, other_broker, after_connect, reconnect, after_write, take_request, write_first,
  on_write_ready, stop_loop,
}

-- s with other request queues and another next offset, in another world.
abbrev pub updated : Sys → ℤ → List (ℕ × List ℕ) → List (List ℕ) → World → Sys
updated s next buffers transit w = record s {
  part = record (s.part) {
    next_fetch_offset = next;
    dq_write_buffers = buffers;
    q_in_transit_produce_request = transit;
  };
  world = w;
}

-- s after the socket has been dropped, with another leader.
abbrev pub moved : Sys → KafkaBroker → Sys
moved s leader = with_part (record ((drop_socket s).part) { leader = leader }) (drop_socket s)

-- A connection that has been made, or the stop of the loop where it has failed.
abbrev pub settled : Bool × Sys → Sys
settled (connected, s) = if connected then s else stop_loop s

-- What a predicate has to stand: a change of the next offset, the requests in transit and the world;
-- the first request being taken off the queue; a request put in front of the queue, with the
-- registration of the socket that goes with it; the registration for reading alone when nothing waits;
-- and the move to another leader.
pub record Steady (os : Os) (Q : Sys → Type 0) : Type 0 where
  pub change :
      (s : Sys) (next : ℤ) (transit : List (List ℕ)) (w : World)
      → Q s
      → Q (updated s next s.part.dq_write_buffers transit w)
  pub pop :
      (s : Sys) (entry : ℕ × List ℕ) (rest : List (ℕ × List ℕ)) (transit : List (List ℕ))
      (w : World)
      → s.part.dq_write_buffers ≡ entry ∷ rest
      → Q s
      → Q (updated s s.part.next_fetch_offset rest transit w)
  pub ask :
      (s : Sys) (key : ℕ) (req : List ℕ) → Q s → Keeps Q (watch_for_write os (push_front key req s))
  pub idle :
      (s : Sys) → s.part.dq_write_buffers ≡ [] → Q s → Keeps Q (watch_socket os aeventin true s)
  pub move :
      (s : Sys) (leader : KafkaBroker)
      → Q s
      → Keeps (λ (r : Bool × Sys). Q (settled r)) (connect_leader os (moved s leader))

-- The request in transit is put behind what waits to be written.
abbrev pub sent_again : List ℕ → List (List ℕ) → Sys → Sys
sent_again req rest s =
    push_back api_key_produce req
      (with_part (record (s.part) { q_in_transit_produce_request = rest }) s)

-- The broker accepts every produce request, or Q stands a produce request that is sent again.
abbrev pub Resends : Asio → (Sys → Type 0) → Type 0
Resends a Q =
    ((frame : List ℕ) (topic : Str) (partition : ℤ)
      → (a.read_produce frame topic partition).0 ≡ pos 0)
    ⊎ ((s : Sys) (req : List ℕ) (rest : List (List ℕ)) → Q s → Q (sent_again req rest s))

module _ (os : Os) (Q : Sys → Type 0) (steady : Steady os Q) where
  open steady use {change, pop, ask, idle, move}

  -- A change of the world only.
  pub world-Steady : (s : Sys) (w : World) → Q s → Q (record s { world = w })
  world-Steady s w h = change s s.part.next_fetch_offset s.part.q_in_transit_produce_request w h

  pub wake-Steady : (s : Sys) → Q s → Keeps Q (wake_if_consumer os s)
  unfolding wake_if_consumer
  wake-Steady s h =
      if-Keeps Q (is_consumer s.part.partition_type) _ _
        (call-Keeps Q (wakeup os s.part.fetch_event s.world) _ (λ w. world-Steady s w h)) h

  module _ (a : Asio) where
    pub metadata-Steady : (s : Sys) → Q s → Keeps Q (create_metadata_request a os s)
    unfolding create_metadata_request
    metadata-Steady s h = ask s _ _ h

    pub offset-Steady : (s : Sys) → Q s → Keeps Q (create_offset_request a os s)
    unfolding create_offset_request
    offset-Steady s h = ask s _ _ h

    after_connect-Steady :
        (write_ready : Sys → Outcome Sys)
        → ((s : Sys) → Q s → Keeps Q (write_ready s))
        → (r : Bool × Sys) → Q (settled r)
        → Keeps Q (after_connect a os write_ready r)
    unfolding after_connect
    after_connect-Steady write_ready k (false, s) h = h
    after_connect-Steady write_ready k (true, s) h =
        Keeps-bind Q Q _ _ (metadata-Steady s h) (λ s1 h1. Keeps-bind Q Q _ _ (k s1 h1) wake-Steady)

    pub reconnect-Steady :
        (write_ready : Sys → Outcome Sys)
        → ((s : Sys) → Q s → Keeps Q (write_ready s))
        → (s : Sys) → Q s
        → Keeps Q (reconnect a os write_ready s)
    unfolding reconnect drop_socket
    reconnect-Steady write_ready k s h = elim (Option-cases (other_broker (drop_socket s).part)) [
      | inl nobody ↦ rw (nobody, reconnect) tt
      | inr (broker, found) ↦
          rw (found, reconnect)
            (Keeps-bind (λ (r : Bool × Sys). Q (settled r)) Q (connect_leader os (moved s broker))
              (after_connect a os write_ready) (move s broker h)
              (after_connect-Steady write_ready k))
    ]

    after_write-Steady :
        (write_ready : Sys → Outcome Sys) (answer : WriteAnswer) (req : List ℕ)
        → ((s : Sys) → Q s → Keeps Q (write_ready s))
        → (s : Sys) → Q s
        → Keeps Q (after_write a os write_ready answer req s)
    unfolding after_write
    after_write-Steady write_ready (wrote n) req k s h = world-Steady s _ h
    after_write-Steady write_ready (write_failed econnreset) req k s h =
        reconnect-Steady write_ready k s h
    after_write-Steady write_ready (write_failed eintr) req k s h = h
    after_write-Steady write_ready (write_failed eagain) req k s h = h
    after_write-Steady write_ready (write_failed other_errno) req k s h = h

    write_first-Steady :
        (write_ready : Sys → Outcome Sys) (q : List (ℕ × List ℕ)) (s : Sys)
        → ((s : Sys) → Q s → Keeps Q (write_ready s))
        → s.part.dq_write_buffers ≡ q
        → Q s
        → Keeps Q (write_first a os write_ready q s)
    unfolding write_first
    write_first-Steady write_ready [] s k e h = idle s e h
    write_first-Steady write_ready ((key, req) ∷ q) s k e h =
        after_write-Steady write_ready (os.write s.world.tick) req k (take_request key req q s) (
          pop s (key, req) q (take_request key req q s).part.q_in_transit_produce_request
            (tock s.world) e h)

    pub on_write_ready-Steady : (fuel : ℕ) (s : Sys) → Q s → Keeps Q (on_write_ready a os fuel s)
    unfolding on_write_ready
    on_write_ready-Steady zero s h = tt
    on_write_ready-Steady (suc fuel) s h =
        write_first-Steady (on_write_ready a os fuel) s.part.dq_write_buffers s
          (on_write_ready-Steady fuel) refl h
