-- ===== src/Partition/Pending.antt =====
-- The requests that wait in a partition (src/KafkaEndpointMP.cpp) and the registration of its socket for
-- writing (src/LibeventReactor.cpp): what waits is written when the socket can take it.
use libasynckafkaclient.Prelude.{
  ℕ, suc, ◌≡◌, refl, sym, ap, ◌∙◌, Bool, true, false, none, some, List, [], ◌∷◌, ◌⊎◌, inl, inr,
  Bool-cases, arith,
}
use libasynckafkaclient.Prelude.Int.{ℤ, pos, ltb_ℤ}
use libasynckafkaclient.Outcome.{ok, Keeps, Keeps-bind, Keeps-mono, both-Keeps}
use libasynckafkaclient.Os.{Os}
use libasynckafkaclient.Net.{connect_server}
use libasynckafkaclient.Reactor.{Event, find_fd, register_fd_callback, shutdown, has_out, aeventin}
use libasynckafkaclient.Reactor.Invariant.{Inv, unregister_fd_callback-Inv}
use libasynckafkaclient.Reactor.Watch.{unregister-base}
use libasynckafkaclient.Reactor.Registers.{Registers, register_fd_callback-Registers}
use libasynckafkaclient.Reactor.Known.{Known}
use libasynckafkaclient.Partition.State.{Sys, register, drop_socket, watch_socket}
use libasynckafkaclient.Partition.Requests.{push_front}
use libasynckafkaclient.Partition.Transfer.{connect_leader}
use libasynckafkaclient.Partition.Steady.{Steady, settled, moved}
use libasynckafkaclient.Partition.Watched.{
  Watched, Fresh, register-Watched, drop_socket-Known, not_watched, connected,
}

-- libevent calls the partition when its socket can be written.
abbrev pub WatchedForWrite : Sys → Type 0
WatchedForWrite s =
    (ev : Event) × (find_fd s.part.sock_fd s.reactor.events ≡ some ev) × (ev.ev_write ≡ true)

-- If a request waits, the socket is watched for writing, unless the loop has been told to stop.
pub data Served (s : Sys) : Type 0 where
  stopped : s.reactor.loop_exit ≡ true → Served s
  nothing_waits : s.part.dq_write_buffers ≡ [] → Served s
  watched_for_write : WatchedForWrite s → Served s

-- What holds between two events of the socket.
pub record Serving (S : ℤ → Type 0) (s : Sys) : Type 0 where
  pub watched : Watched S s
  pub based : s.reactor.base ≡ true
  pub outward : has_out s.part.event_flags ≡ true
  pub served : Served s

-- event_new never fails.
abbrev pub EventsMade : Os → Type 0
EventsMade os = (t : ℕ) → os.event_new t ≡ true

module _ (os : Os) (S : ℤ → Type 0) (fresh : Fresh S os) (made : EventsMade os) where
  watch-Registers :
      (flags : ℕ) (modify : Bool) (s : Sys)
      → Inv s.reactor
      → s.reactor.base ≡ true
      → (modify ≡ true) ⊎ (find_fd s.part.sock_fd s.reactor.events ≡ none)
      → Keeps
          (λ t. (t.part ≡ s.part) × Registers s.part.sock_fd flags t.reactor)
          (watch_socket os flags modify s)
  unfolding register
  watch-Registers flags modify s v based ready = rw (made s.world.tick) (
      Keeps-bind (Registers s.part.sock_fd flags) _
        (register_fd_callback true (os.event_add (suc s.world.tick)) s.part.sock_fd
          s.part.event_data flags false modify s.reactor)
        _
        (register_fd_callback-Registers (os.event_add (suc s.world.tick)) s.part.sock_fd
          s.part.event_data flags modify s.reactor v based ready)
        (λ r h. (refl, h)))

  -- A registration for writing serves what waits; one for reading alone does where nothing waits.
  pub watch-Serving :
      (flags : ℕ) (modify : Bool) (s : Sys)
      → (has_out flags ≡ true) ⊎ (s.part.dq_write_buffers ≡ [])
      → Inv s.reactor
      → s.reactor.base ≡ true
      → has_out s.part.event_flags ≡ true
      → (modify ≡ true) ⊎ (find_fd s.part.sock_fd s.reactor.events ≡ none)
      → Known (λ k. (k ≡ s.part.sock_fd) ⊎ S k) s.reactor
      → Keeps (Serving S) (watch_socket os flags modify s)
  watch-Serving flags modify s choice v based outward ready known =
      Keeps-mono (λ t. Watched S t × ((t.part ≡ s.part) × Registers s.part.sock_fd flags t.reactor))
        (Serving S) (watch_socket os flags modify s)
        (λ t h. record {
          watched = h.0;
          based = h.1.1.0;
          outward = ap (λ p. has_out p.event_flags) h.1.0 ∙ outward;
          served = elim choice [
            | inl writes ↦
                let (ev, found, out) = h.1.1.1 in
                watched_for_write
                  (ev, ap (λ p. find_fd p.sock_fd t.reactor.events) h.1.0 ∙ found, out ∙ writes)
            | inr empty ↦ nothing_waits (ap (λ p. p.dq_write_buffers) h.1.0 ∙ empty)
          ];
        })
        (both-Keeps (Watched S) (λ t. (t.part ≡ s.part) × Registers s.part.sock_fd flags t.reactor)
          (watch_socket os flags modify s)
          (register-Watched os S fresh flags modify s v ready known)
          (watch-Registers flags modify s v based ready))

  connect_leader-Serving :
      (s : Sys)
      → Inv s.reactor
      → s.reactor.base ≡ true
      → has_out s.part.event_flags ≡ true
      → Known S s.reactor
      → Keeps (λ (r : Bool × Sys). Serving S (settled r)) (connect_leader os s)
  unfolding connect_leader shutdown
  connect_leader-Serving s v based outward known =
      let (fd, w) = connect_server os s.world in
      elim (Bool-cases (ltb_ℤ (connect_server os s.world).0 (pos 0))) [
        | inl bad ↦ rw bad (record {
          watched = record {
            well_formed = record {
              tracked = v.tracked;
              fresh = v.fresh;
              distinct = v.distinct;
              filed = v.filed;
            };
            known = λ k ev found. inr (known k ev found);
          };
          based = based;
          outward = outward;
          served = stopped refl;
        })
        | inr good ↦ rw good (
            Keeps-bind (Serving S) (λ (r : Bool × Sys). Serving S (settled r)) _
              (λ s1. ok (true, s1))
              (watch-Serving s.part.event_flags false
                (record s { part = record (s.part) { sock_fd = fd }; world = w }) (inl outward) v
                based outward
                (inr (not_watched os S fresh s known fd (connected os S fresh s.world good)))
                (λ k ev found. inr (known k ev found)))
              (λ s1 h. h))
      ]

  -- The three parts that no registration touches.
  pub same-Served :
      (s t : Sys)
      → t.reactor ≡ s.reactor
      → t.part.sock_fd ≡ s.part.sock_fd
      → (s.part.dq_write_buffers ≡ [] → t.part.dq_write_buffers ≡ [])
      → Served s
      → Served t
  same-Served s t r f b (stopped h) = stopped (ap (λ q. q.loop_exit) r ∙ h)
  same-Served s t r f b (nothing_waits h) = nothing_waits (b h)
  same-Served s t r f b (watched_for_write (ev, found, out)) =
      watched_for_write (ev, rw (r, f) found, out)

  pub Serving-Steady : Steady os (Serving S)
  unfolding drop_socket
  Serving-Steady = record {
    change = λ s next transit w h. record {
      watched = record { well_formed = h.watched.well_formed; known = h.watched.known };
      based = h.based;
      outward = h.outward;
      served = same-Served s _ refl refl (λ e. e) h.served;
    };
    pop = λ s entry rest transit w e h. record {
      watched = record { well_formed = h.watched.well_formed; known = h.watched.known };
      based = h.based;
      outward = h.outward;
      served =
          same-Served s _ refl refl (λ none_waits. absurd (cons≢nil (sym e ∙ none_waits))) h.served;
    };
    ask = λ s key req h.
        watch-Serving s.part.event_flags true (push_front key req s) (inl h.outward)
          h.watched.well_formed h.based h.outward (inl refl) h.watched.known;
    idle = λ s e h.
        watch-Serving aeventin true s (inr e) h.watched.well_formed h.based h.outward (inl refl)
          h.watched.known;
    move = λ s leader h.
        connect_leader-Serving (moved s leader)
          (unregister_fd_callback-Inv s.part.sock_fd s.reactor h.watched.well_formed)
          (unregister-base s.part.sock_fd s.reactor ∙ h.based) h.outward
          (drop_socket-Known os S fresh s h.watched);
  }
    where
      cons≢nil : {x : ℕ × List ℕ} {l : List (ℕ × List ℕ)} → ¬ (x ∷ l ≡ [])
      cons≢nil e = ground arith
