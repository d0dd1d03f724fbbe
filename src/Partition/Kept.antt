-- ===== src/Partition/Kept.antt =====
-- What an event of a partition's socket (handleEvent of src/KafkaEndpointMP.cpp) leaves alone in the
-- partition.
use libasynckafkaclient.Prelude.{ℕ, ◌≡◌, refl, ap, Bool, true, false, List, Bool-cases, inl, inr}
use libasynckafkaclient.Prelude.Int.{ℤ, pos, ltb_ℤ, minus_one}
use libasynckafkaclient.Config.{KafkaBroker}
use libasynckafkaclient.Outcome.{Keeps, Keeps-bind, call-Keeps, ok}
use libasynckafkaclient.Os.{Os}
use libasynckafkaclient.Reactor.{register_fd_callback}
use libasynckafkaclient.Net.{connect_server}
use libasynckafkaclient.Asio.{Asio}
use libasynckafkaclient.Partition.State.{KafkaPartition, Sys, register, drop_socket}
use libasynckafkaclient.Partition.Transfer.{connect_leader}
use libasynckafkaclient.Partition.Reading.{handle_event}
use libasynckafkaclient.Partition.Stable.{Stable, handle_event-Stable}
use libasynckafkaclient.Partition.Steady.{moved}

-- p' has the members of p, the message queue and its counter among them, all but the next offset,
-- the two queues of requests, the leader and the socket.
abbrev pub Kept : KafkaPartition → KafkaPartition → Type 0
Kept p p' = p' ≡ record p {
  next_fetch_offset = p'.next_fetch_offset;
  dq_write_buffers = p'.dq_write_buffers;
  q_in_transit_produce_request = p'.q_in_transit_produce_request;
  leader = p'.leader;
  sock_fd = p'.sock_fd;
}

Kept-update :
    (p q : KafkaPartition) (next : ℤ) (buffers : List (ℕ × List ℕ)) (transit : List (List ℕ))
    (leader : KafkaBroker) (fd : ℤ)
    → Kept p q
    → Kept p (record q {
      next_fetch_offset = next;
      dq_write_buffers = buffers;
      q_in_transit_produce_request = transit;
      leader = leader;
      sock_fd = fd;
    })
Kept-update p q next buffers transit leader fd h =
    ap
      (λ (r : KafkaPartition). record r {
        next_fetch_offset = next;
        dq_write_buffers = buffers;
        q_in_transit_produce_request = transit;
        leader = leader;
        sock_fd = fd;
      })
      h

-- A predicate on a partition that stands a change of those five members.
abbrev pub Closed : (KafkaPartition → Type 0) → Type 0
Closed R =
    (q : KafkaPartition) (next : ℤ) (buffers : List (ℕ × List ℕ)) (transit : List (List ℕ))
    (leader : KafkaBroker) (fd : ℤ)
    → R q
    → R (record q {
      next_fetch_offset = next;
      dq_write_buffers = buffers;
      q_in_transit_produce_request = transit;
      leader = leader;
      sock_fd = fd;
    })

module _ (os : Os) (R : KafkaPartition → Type 0) (closed : Closed R) where
  pub register-part :
      (fd : ℤ) (d f : ℕ) (modify : Bool) (s : Sys)
      → R s.part
      → Keeps (λ t. R t.part) (register os fd d f modify s)
  unfolding register
  register-part fd d f modify s h =
      call-Keeps (λ t. R t.part) (register_fd_callback _ _ fd d f false modify s.reactor) _ (λ r. h)

  pub connect_leader-part :
      (s : Sys) → R s.part → Keeps (λ (r : Bool × Sys). R r.1.part) (connect_leader os s)
  unfolding connect_leader
  connect_leader-part s h =
      let (fd, w) = connect_server os s.world in
      elim (Bool-cases (ltb_ℤ (connect_server os s.world).0 (pos 0))) [
        | inl bad ↦ rw bad h
        | inr good ↦ rw good (
            Keeps-bind (λ t. R t.part) (λ (r : Bool × Sys). R r.1.part) _ (λ s1. ok (true, s1))
              (register-part fd s.part.event_data s.part.event_flags false _ (
                closed s.part s.part.next_fetch_offset s.part.dq_write_buffers
                  s.part.q_in_transit_produce_request s.part.leader fd h))
              (λ s1 h1. h1))
      ]

  pub part-Stable : Stable os (λ s. R s.part)
  unfolding drop_socket
  part-Stable = record {
    update = λ s next buffers transit w h.
        closed s.part next buffers transit s.part.leader s.part.sock_fd h;
    watch = λ s flags h. register-part s.part.sock_fd s.part.event_data flags true s h;
    move = λ s leader h. connect_leader-part (moved s leader) (
        closed s.part s.part.next_fetch_offset s.part.dq_write_buffers
          s.part.q_in_transit_produce_request leader minus_one h);
    stop = λ s h. h;
  }

-- Whatever the network and the system calls answer, an event of the socket that ends with a partition
-- leaves everything in it alone but the next offset, the two queues of requests, the leader and the
-- socket: no queued message is lost or added, and the configuration, the broker list, the event
-- sources and the callbacks stay.
pub handle_event-Keeps :
    (a : Asio) (os : Os) (fuel : ℕ) (fd : ℤ) (event : ℕ) (s : Sys)
    → Keeps (λ t. Kept s.part t.part) (handle_event a os fuel fd event s)
handle_event-Keeps a os fuel fd event s =
    handle_event-Stable os (λ t. Kept s.part t.part)
      (part-Stable os (Kept s.part) (Kept-update s.part)) a fuel fd event s refl
