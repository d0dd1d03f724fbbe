-- ===== src/Partition/Transfer.antt =====
-- connectLeader and onWriteReady of src/KafkaEndpointMP.cpp, and the reconnection to another broker
-- that onWriteReady and onReadReady share.
use libasynckafkaclient.Prelude.{
  ℕ, zero, suc, Bool, true, false, not, Option, none, some, List, [], ◌∷◌, ◌++◌, take, find_first,
  is_empty, ◌==◌, if◌then◌else◌,
}
use libasynckafkaclient.Prelude.Int.{pos, ltb_ℤ, ◌==ℤ◌}
use libasynckafkaclient.Config.{KafkaBroker}
use libasynckafkaclient.Outcome.{Outcome, ok, undefined, no_fuel, ◌>>=◌}
use libasynckafkaclient.Os.{
  Os, tock, sent, closed, slept_ms, WriteAnswer, wrote, write_failed, econnreset, eintr, eagain,
  other_errno,
}
use libasynckafkaclient.Net.{connect_server}
use libasynckafkaclient.Reactor.{shutdown, aeventin}
use libasynckafkaclient.Asio.{Asio, api_key_produce}
use libasynckafkaclient.Partition.State.{
  KafkaPartition, Sys, with_part, act, register, watch_socket, wake_if_consumer, drop_socket,
}
use libasynckafkaclient.Partition.Requests.{create_metadata_request, create_produce_request}

-- connectLeader, with its return value.
unfoldable pub connect_leader : Os → Sys → Outcome (Bool × Sys)
unfolding connect_server register
connect_leader os s =
    let (fd, w) = connect_server os s.world in
    if ltb_ℤ fd (pos 0) then ok (false, record s { world = w }) else (do
      s1 ←
          watch_socket os s.part.event_flags false
            (record s { part = record (s.part) { sock_fd = fd }; world = w })
      ok (true, s1))

-- m_reactor.shutdown(0).
abbrev pub stop_loop : Sys → Sys
stop_loop s = record s { reactor = shutdown s.reactor }

-- find_if over m_sBrokers: the first broker that is not the present leader.
abbrev pub other_broker : KafkaPartition → Option KafkaBroker
other_broker p = find_first (λ b. not (b.id ==ℤ p.leader.id)) p.brokers

-- Take the first request off the queue, and remember a produce request.
abbrev pub take_request : ℕ → List ℕ → List (ℕ × List ℕ) → Sys → Sys
take_request key req rest s = record s {
  part = record (s.part) {
    dq_write_buffers = rest;
    q_in_transit_produce_request =
        if key == api_key_produce
        then s.part.q_in_transit_produce_request ++ req ∷ []
        else s.part.q_in_transit_produce_request;
  };
  world = tock s.world;
}

module _ (a : Asio) (os : Os) where
  -- After connectLeader: shut down, or ask for the metadata, write it by `write_ready` and go on
  -- fetching.
  unfoldable pub after_connect : (Sys → Outcome Sys) → Bool × Sys → Outcome Sys
  unfolding create_metadata_request wake_if_consumer shutdown
  after_connect write_ready (false, s) = ok (stop_loop s)
  after_connect write_ready (true, s) = do
    s1 ← create_metadata_request a os s
    s2 ← write_ready s1
    wake_if_consumer os s2

  -- The connection is lost: drop the socket and connect to another broker. Without one the code
  -- dereferences the end of m_sBrokers.
  unfoldable pub reconnect : (Sys → Outcome Sys) → Sys → Outcome Sys
  unfolding after_connect connect_leader drop_socket
  reconnect write_ready s =
      let s1 = drop_socket s in
      elim (other_broker s1.part) [
        | none ↦ undefined
        | some broker ↦
            connect_leader os (with_part (record (s1.part) { leader = broker }) s1)
            >>= after_connect write_ready
      ]

  -- What the answer of write() makes of the request that was taken from the queue.
  unfoldable pub after_write : (Sys → Outcome Sys) → WriteAnswer → List ℕ → Sys → Outcome Sys
  unfolding reconnect
  after_write write_ready (wrote n) req s = ok (act (sent s.part.sock_fd (take n req)) s)
  after_write write_ready (write_failed econnreset) req s = reconnect write_ready s
  after_write write_ready (write_failed eintr) req s = ok s
  after_write write_ready (write_failed eagain) req s = ok s
  after_write write_ready (write_failed other_errno) req s = ok s

  -- The body of onWriteReady at the queue; `write_ready` is the recursive call.
  unfoldable pub write_first : (Sys → Outcome Sys) → List (ℕ × List ℕ) → Sys → Outcome Sys
  unfolding after_write register
  write_first write_ready [] s = watch_socket os aeventin true s
  write_first write_ready ((key, req) ∷ rest) s =
      after_write write_ready (os.write s.world.tick) req (take_request key req rest s)

  -- onWriteReady. It calls itself once for each connection that is reset.
  unfoldable pub on_write_ready : ℕ → Sys → Outcome Sys
  unfolding write_first
  on_write_ready zero s = no_fuel
  on_write_ready (suc fuel) s = write_first (on_write_ready fuel) s.part.dq_write_buffers s

  -- The destructor's loop `while (!m_dqWriteBuffers.empty()) onWriteReady()`, with fuel for its
  -- rounds and for each call.
  unfoldable pub drain : ℕ → ℕ → Sys → Outcome Sys
  unfolding on_write_ready
  drain zero inner s = no_fuel
  drain (suc fuel) inner s =
      let next = on_write_ready inner s >>= drain fuel inner in
      if is_empty s.part.dq_write_buffers then ok s else next

  -- The body of the destructor of KafkaPartition.
  unfoldable pub destroy : ℕ → ℕ → Sys → Outcome Sys
  destroy fuel inner s = do
    s1 ← create_produce_request a os s
    s2 ← drain fuel inner s1
    ok (act (closed s2.part.sock_fd) (act (slept_ms 10) s2))
