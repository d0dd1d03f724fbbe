-- ===== src/Partition/Ending.antt =====
-- onWriteReady of src/KafkaEndpointMP.cpp calls itself when a connection is reset: it ends all the
-- same once the resets stop.
use libasynckafkaclient.Prelude.{
  ℕ, zero, suc, ◌+◌, ◌≤◌, ◌<◌, ◌≡◌, ◌≢◌, refl, Bool, true, false, List, [], ◌∷◌, arith, ltb, ltb→lt,
  Bool-cases, Option-cases, inl, inr,
}
use libasynckafkaclient.Prelude.Int.{ℤ, pos, ltb_ℤ}
use libasynckafkaclient.Outcome.{
  Outcome, ok, exited, aborted, thrown, undefined, no_fuel, ◌>>=◌, >>=_assoc,
}
use libasynckafkaclient.Os.{
  Os, WriteAnswer, wrote, write_failed, econnreset, eintr, eagain, other_errno,
}
use libasynckafkaclient.Reactor.{aeventin, register_fd_callback}
use libasynckafkaclient.Net.{connect_server}
use libasynckafkaclient.Net.Backoff.{connect_server-tick}
use libasynckafkaclient.Asio.{Asio}
use libasynckafkaclient.Partition.State.{Sys, register, drop_socket, wake_if_consumer}
use libasynckafkaclient.Partition.Requests.{create_metadata_request}
use libasynckafkaclient.Partition.Transfer.{
  connect_leader, other_broker, after_connect, reconnect, after_write, take_request, write_first,
  on_write_ready,
}

-- The call ends, and no earlier than call number t if it ends with a value.
abbrev pub Ends : ℕ → Outcome Sys → Type 0
Ends t (ok s) = t ≤ s.world.tick
Ends t no_fuel = ⊥
Ends t exited = Unit {0}
Ends t aborted = Unit {0}
Ends t thrown = Unit {0}
Ends t undefined = Unit {0}

Ends-bind :
    (t : ℕ) (m : Outcome Sys) (f : Sys → Outcome Sys)
    → Ends t m
    → ((s : Sys) → t ≤ s.world.tick → Ends t (f s))
    → Ends t (m >>= f)
Ends-bind t (ok s) f h k = k s h
Ends-bind t no_fuel f h k = h
Ends-bind t exited f h k = tt
Ends-bind t aborted f h k = tt
Ends-bind t thrown f h k = tt
Ends-bind t undefined f h k = tt

Ends-mono : (t u : ℕ) (m : Outcome Sys) → t ≤ u → Ends u m → Ends t m
Ends-mono t u (ok s) h e = omega arith
Ends-mono t u no_fuel h e = e
Ends-mono t u exited h e = tt
Ends-mono t u aborted h e = tt
Ends-mono t u thrown h e = tt
Ends-mono t u undefined h e = tt

register-Ends :
    (os : Os) (fd : ℤ) (d f : ℕ) (modify : Bool) (s : Sys)
    → Ends s.world.tick (register os fd d f modify s)
unfolding register register_fd_callback
register-Ends os fd d f modify s = ground arith

wake-Ends : (os : Os) (s : Sys) → Ends s.world.tick (wake_if_consumer os s)
unfolding wake_if_consumer
wake-Ends os s = ground arith

module _ (a : Asio) (os : Os) where
  metadata-Ends : (s : Sys) → Ends s.world.tick (create_metadata_request a os s)
  unfolding create_metadata_request
  metadata-Ends s =
      register-Ends os s.part.sock_fd s.part.event_data s.part.event_flags true
        (record s { part = record (s.part) { dq_write_buffers = _ } })

  after_connect-Ends :
      (t : ℕ) (write_ready : Sys → Outcome Sys)
      → ((s : Sys) → t ≤ s.world.tick → Ends t (write_ready s))
      → (r : Bool × Sys) → t ≤ r.1.world.tick
      → Ends t (after_connect a os write_ready r)
  unfolding after_connect
  after_connect-Ends t write_ready k (false, s) h = h
  after_connect-Ends t write_ready k (true, s) h =
      Ends-bind t _ _ (Ends-mono t s.world.tick _ h (metadata-Ends s)) (λ s1 h1.
        Ends-bind t _ _ (k s1 h1) (λ s2 h2. Ends-mono t s2.world.tick _ h2 (wake-Ends os s2)))

  connect_leader-Ends :
      (t : ℕ) (f : Bool × Sys → Outcome Sys)
      → ((r : Bool × Sys) → t ≤ r.1.world.tick → Ends t (f r))
      → (s : Sys) → t ≤ s.world.tick
      → Ends t (connect_leader os s >>= f)
  unfolding connect_leader
  connect_leader-Ends t f k s h =
      let (fd, w) = connect_server os s.world in
      let later : t ≤ w.tick = omega (arith, connect_server-tick os s.world) in
      elim (Bool-cases (ltb_ℤ (connect_server os s.world).0 (pos 0))) [
        | inl bad ↦ rw bad (k (false, record s { world = w }) later)
        | inr good ↦
            rw (good, >>=_assoc)
              (Ends-bind t _ _
                (Ends-mono t w.tick _ later
                  (register-Ends os fd s.part.event_data s.part.event_flags false _))
                (λ s1 h1. k (true, s1) h1))
      ]

  reconnect-Ends :
      (t : ℕ) (write_ready : Sys → Outcome Sys)
      → ((s : Sys) → t ≤ s.world.tick → Ends t (write_ready s))
      → (s : Sys) → t ≤ s.world.tick
      → Ends t (reconnect a os write_ready s)
  unfolding reconnect drop_socket
  reconnect-Ends t write_ready k s h = elim (Option-cases (other_broker (drop_socket s).part)) [
    | inl nobody ↦ rw (nobody, reconnect) tt
    | inr (broker, found) ↦
        rw (found, reconnect)
          (connect_leader-Ends t (after_connect a os write_ready)
            (after_connect-Ends t write_ready k) _ h)
  ]

  after_write-Ends :
      (t : ℕ) (write_ready : Sys → Outcome Sys) (answer : WriteAnswer) (req : List ℕ) (s : Sys)
      → t ≤ s.world.tick
      → (answer ≡ write_failed econnreset
          → (s' : Sys) → t ≤ s'.world.tick
          → Ends t (write_ready s'))
      → Ends t (after_write a os write_ready answer req s)
  unfolding after_write
  after_write-Ends t write_ready (wrote n) req s h k = h
  after_write-Ends t write_ready (write_failed econnreset) req s h k =
      reconnect-Ends t write_ready (k refl) s h
  after_write-Ends t write_ready (write_failed eintr) req s h k = h
  after_write-Ends t write_ready (write_failed eagain) req s h k = h
  after_write-Ends t write_ready (write_failed other_errno) req s h k = h

  write_first-Ends :
      (write_ready : Sys → Outcome Sys) (q : List (ℕ × List ℕ)) (s : Sys)
      → (os.write s.world.tick ≡ write_failed econnreset
          → (s' : Sys) → s.world.tick < s'.world.tick
          → Ends (suc s.world.tick) (write_ready s'))
      → Ends s.world.tick (write_first a os write_ready q s)
  unfolding write_first
  write_first-Ends write_ready [] s k =
      register-Ends os s.part.sock_fd s.part.event_data aeventin true s
  write_first-Ends write_ready ((key, req) ∷ q) s k =
      Ends-mono s.world.tick (suc s.world.tick) _ (omega arith) (
        after_write-Ends (suc s.world.tick) write_ready (os.write s.world.tick) req
          (take_request key req q s) (omega arith) k)

  -- If no write() from call number n on is answered by a reset, onWriteReady ends with fuel above
  -- the calls that are left before number n, and with some fuel in any case: it never runs out.
  pub on_write_ready-Ends :
      (n fuel : ℕ) (s : Sys)
      → ((t : ℕ) → n ≤ t → os.write t ≢ write_failed econnreset)
      → n < s.world.tick + fuel
      → 0 < fuel
      → Ends s.world.tick (on_write_ready a os fuel s)
  unfolding on_write_ready
  on_write_ready-Ends n zero s calm h p = absurd (omega arith)
  on_write_ready-Ends n (suc fuel) s calm h p =
      write_first-Ends (on_write_ready a os fuel) s.part.dq_write_buffers s λ reset s' later.
        elim (Bool-cases (ltb s.world.tick n)) [
          | inl early ↦ Ends-mono (suc s.world.tick) s'.world.tick _ later (
              on_write_ready-Ends n fuel s' calm (omega (arith, ltb→lt s.world.tick n early))
                (omega (arith, ltb→lt s.world.tick n early)))
          | inr over ↦ absurd (calm s.world.tick (ground arith) reset)
        ]
