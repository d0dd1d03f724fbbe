-- ===== src/Partition/Watched.antt =====
-- The registrations of a partition's socket over its events (handleEvent of src/KafkaEndpointMP.cpp
-- with src/LibeventReactor.cpp): reconnections included, no event of the reactor is lost.
use libasynckafkaclient.Prelude.{
  ℕ, suc, ◌≡◌, refl, sym, ◌∙◌, subst, Bool, true, false, none, ◌⊎◌, inl, inr, Bool-cases,
  Option-cases, arith,
}
use libasynckafkaclient.Prelude.Int.{ℤ, pos, ltb_ℤ, ==ℤ-refl}
use libasynckafkaclient.Outcome.{ok, Keeps, Keeps-bind, both-Keeps}
use libasynckafkaclient.Os.{Os, World}
use libasynckafkaclient.Net.{connect_server}
use libasynckafkaclient.Net.Backoff.{connect_server-any_from, any_from}
use libasynckafkaclient.Reactor.{find_fd, unregister_fd_callback, shutdown}
use libasynckafkaclient.Reactor.Invariant.{
  Inv, register_fd_callback-Inv, unregister_fd_callback-Inv,
}
use libasynckafkaclient.Reactor.Known.{Known, unregister-Known, register_fd_callback-Known}
use libasynckafkaclient.Asio.{Asio}
use libasynckafkaclient.Partition.State.{Sys, register, drop_socket, watch_socket}
use libasynckafkaclient.Partition.Transfer.{connect_leader}
use libasynckafkaclient.Partition.Reading.{handle_event}
use libasynckafkaclient.Partition.Stable.{Stable, handle_event-Stable}
use libasynckafkaclient.Partition.Steady.{moved}

-- The reactor is well formed, and watches the socket and the descriptors of S at most.
pub record Watched (S : ℤ → Type 0) (s : Sys) : Type 0 where
  pub well_formed : Inv s.reactor
  pub known : Known (λ k. (k ≡ s.part.sock_fd) ⊎ S k) s.reactor

-- socket() answers no descriptor of S.
abbrev pub Fresh : (ℤ → Type 0) → Os → Type 0
Fresh S os = (t : ℕ) → ¬ S (os.socket t)

module _ (os : Os) (S : ℤ → Type 0) (fresh : Fresh S os) where
  -- Both parts of the invariant after a registration of the socket.
  pub register-Watched :
      (flags : ℕ) (modify : Bool) (s : Sys)
      → Inv s.reactor
      → (modify ≡ true) ⊎ (find_fd s.part.sock_fd s.reactor.events ≡ none)
      → Known (λ k. (k ≡ s.part.sock_fd) ⊎ S k) s.reactor
      → Keeps (Watched S) (watch_socket os flags modify s)
  unfolding register
  register-Watched flags modify s v ready known =
      let D : ℤ → Type 0 = λ k. (k ≡ s.part.sock_fd) ⊎ S k in
      let new_ok = os.event_new s.world.tick in
      let add_ok = os.event_add (suc s.world.tick) in
      Keeps-bind (λ r. Inv r × Known D r) (Watched S) _ _
        (both-Keeps Inv (Known D) _
          (register_fd_callback-Inv new_ok add_ok s.part.sock_fd s.part.event_data flags false
            modify s.reactor ready v)
          (register_fd_callback-Known D new_ok add_ok s.part.sock_fd s.part.event_data flags false
            modify s.reactor v (inl refl) known))
        (λ r h. record { well_formed = h.0; known = h.1 })

  -- The descriptor of a new connection is one that socket() has answered.
  pub connected :
      (w : World)
      → ltb_ℤ (connect_server os w).0 (pos 0) ≡ false
      → (connect_server os w).0 ≡ os.socket w.tick
  connected w good =
      let answer = connect_server-any_from os w in
      elim (Bool-cases (ltb_ℤ (os.socket w.tick) (pos 0))) [
        | inl negative ↦ rw negative at answer
        | inr made ↦ elim (Bool-cases (any_from os.connects (suc w.tick) 5)) [
          | inl connects ↦ rw (made, connects) at answer
          | inr fails ↦ absurd (ground (arith, rw (made, fails) at answer, good))
        ]
      ]

  pub not_watched :
      (s : Sys)
      → Known S s.reactor
      → (fd : ℤ) → fd ≡ os.socket s.world.tick
      → find_fd fd s.reactor.events ≡ none
  not_watched s known fd e = elim (Option-cases (find_fd fd s.reactor.events)) [
    | inl absent ↦ absent
    | inr (ev, found) ↦ absurd (fresh s.world.tick (subst S e (known fd ev found)))
  ]

  connect_leader-Watched :
      (s : Sys)
      → Inv s.reactor
      → Known S s.reactor
      → Keeps (λ (r : Bool × Sys). Watched S r.1) (connect_leader os s)
  unfolding connect_leader
  connect_leader-Watched s v known =
      let (fd, w) = connect_server os s.world in
      elim (Bool-cases (ltb_ℤ (connect_server os s.world).0 (pos 0))) [
        | inl bad ↦
            rw bad (record { well_formed = v; known = λ k ev found. inr (known k ev found) })
        | inr good ↦ rw good (
            Keeps-bind (Watched S) (λ (r : Bool × Sys). Watched S r.1) _ (λ s1. ok (true, s1))
              (register-Watched s.part.event_flags false
                (record s { part = record (s.part) { sock_fd = fd }; world = w }) v
                (inr (not_watched s known fd (connected s.world good)))
                (λ k ev found. inr (known k ev found)))
              (λ s1 h. h))
      ]

  pub drop_socket-Known :
      (s : Sys) → Watched S s → Known S (unregister_fd_callback s.part.sock_fd s.reactor)
  drop_socket-Known s h =
      unregister-Known (λ k. (k ≡ s.part.sock_fd) ⊎ S k) S s.part.sock_fd s.reactor h.well_formed
        h.known
        λ k differs where_known. elim where_known [
          | inl same ↦ absurd (false≢true (sym (rw same at differs) ∙ ==ℤ-refl s.part.sock_fd))
          | inr there ↦ there
        ]
    where
      false≢true : ¬ (false ≡ true)
      false≢true e = ground arith

  Watched-Stable : Stable os (Watched S)
  unfolding drop_socket shutdown
  Watched-Stable = record {
    update = λ s next buffers transit w h. record { well_formed = h.well_formed; known = h.known };
    watch = λ s flags h. register-Watched flags true s h.well_formed (inl refl) h.known;
    move = λ s leader h.
        connect_leader-Watched (moved s leader)
          (unregister_fd_callback-Inv s.part.sock_fd s.reactor h.well_formed)
          (drop_socket-Known s h);
    stop = λ s h. record {
      well_formed = record {
        tracked = h.well_formed.tracked;
        fresh = h.well_formed.fresh;
        distinct = h.well_formed.distinct;
        filed = h.well_formed.filed;
      };
      known = h.known;
    };
  }

-- If the reactor is well formed and watches, besides the socket, only descriptors that socket() never
-- answers, then the same holds after every event of the socket, whatever the network does and however
-- often the partition reconnects: no event of libevent is leaked or freed twice.
pub handle_event-Watched :
    (a : Asio) (os : Os) (fuel : ℕ) (S : ℤ → Type 0) (fd : ℤ) (event : ℕ) (s : Sys)
    → Fresh S os
    → Watched S s
    → Keeps (Watched S) (handle_event a os fuel fd event s)
handle_event-Watched a os fuel S fd event s fresh h =
    handle_event-Stable os (Watched S) (Watched-Stable os S fresh) a fuel fd event s h
