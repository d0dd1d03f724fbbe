-- ===== src/Partition/Stable.antt =====
-- Predicates on a partition with its reactor and world that stand every change of its request queues and
-- every registration of its socket: the network side of src/KafkaEndpointMP.cpp keeps them up.
use libasynckafkaclient.Prelude.{ℕ, Bool, true, List, inr}
use libasynckafkaclient.Prelude.Int.{ℤ}
use libasynckafkaclient.Config.{KafkaBroker}
use libasynckafkaclient.Outcome.{Keeps, Keeps-mono, if-holds}
use libasynckafkaclient.Os.{Os, World}
use libasynckafkaclient.Reactor.{aeventin}
use libasynckafkaclient.Asio.{Asio}
use libasynckafkaclient.Partition.State.{Sys, watch_socket}
use libasynckafkaclient.Partition.Requests.{
  create_metadata_request, create_offset_request, push_front,
}
use libasynckafkaclient.Partition.Transfer.{connect_leader, on_write_ready, stop_loop}
use libasynckafkaclient.Partition.Reading.{on_read_ready, handle_event}
use libasynckafkaclient.Partition.Steady.{
  Steady, Resends, settled, updated, moved, metadata-Steady, offset-Steady, on_write_ready-Steady,
}
use libasynckafkaclient.Partition.Events.{on_read_ready-Steady, handle_event-Steady}

-- A change of the queues, the next offset and the world, another registration of the socket, the move
-- to another leader, and a stop of the event loop.
pub record Stable (os : Os) (Q : Sys → Type 0) : Type 0 where
  pub update :
      (s : Sys) (next : ℤ) (buffers : List (ℕ × List ℕ)) (transit : List (List ℕ)) (w : World)
      → Q s
      → Q (updated s next buffers transit w)
  pub watch : (s : Sys) (flags : ℕ) → Q s → Keeps Q (watch_socket os flags true s)
  pub move :
      (s : Sys) (leader : KafkaBroker)
      → Q s
      → Keeps (λ (r : Bool × Sys). Q r.1) (connect_leader os (moved s leader))
  pub stop : (s : Sys) → Q s → Q (stop_loop s)

module _ (os : Os) (Q : Sys → Type 0) (stable : Stable os Q) where
  open stable use {update, watch, move, stop}

  Stable-Steady : Steady os Q
  Stable-Steady = record {
    change = λ s next transit w h. update s next s.part.dq_write_buffers transit w h;
    pop = λ s entry rest transit w e h. update s s.part.next_fetch_offset rest transit w h;
    ask = λ s key req h. watch (push_front key req s) s.part.event_flags (
        update s s.part.next_fetch_offset (push_front key req s).part.dq_write_buffers
          s.part.q_in_transit_produce_request s.world h);
    idle = λ s e h. watch s aeventin h;
    move = λ s leader h.
        Keeps-mono (λ (r : Bool × Sys). Q r.1) (λ r. Q (settled r))
          (connect_leader os (moved s leader))
          (λ r h1. if-holds Q r.0 r.1 (stop_loop r.1) h1 (stop r.1 h1)) (move s leader h);
  }

  resends : (a : Asio) → Resends a Q
  resends a = inr (λ s req rest h. update s s.part.next_fetch_offset _ rest s.world h)

  module _ (a : Asio) where
    pub metadata-Stable : (s : Sys) → Q s → Keeps Q (create_metadata_request a os s)
    metadata-Stable = metadata-Steady os Q Stable-Steady a

    pub offset-Stable : (s : Sys) → Q s → Keeps Q (create_offset_request a os s)
    offset-Stable = offset-Steady os Q Stable-Steady a

    pub on_write_ready-Stable : (fuel : ℕ) (s : Sys) → Q s → Keeps Q (on_write_ready a os fuel s)
    on_write_ready-Stable = on_write_ready-Steady os Q Stable-Steady a

    pub on_read_ready-Stable : (fuel : ℕ) (s : Sys) → Q s → Keeps Q (on_read_ready a os fuel s)
    on_read_ready-Stable fuel = on_read_ready-Steady a os fuel Q Stable-Steady (resends a)

    pub handle_event-Stable :
        (fuel : ℕ) (fd : ℤ) (event : ℕ) (s : Sys)
        → Q s
        → Keeps Q (handle_event a os fuel fd event s)
    handle_event-Stable fuel = handle_event-Steady a os fuel Q Stable-Steady (resends a)
