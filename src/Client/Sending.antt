-- ===== src/Client/Sending.antt =====
-- From produce of a client to the socket of a partition (src/KafkaClient.cpp with
-- src/KafkaEndpointMP.cpp).
use libasynckafkaclient.Prelude.{
  ℕ, ◌≤◌, ◌<◌, ◌≡◌, ◌≢◌, sym, ap, ◌∙◌, subst, some, List, [], ◌++◌, get_elem?, set, get_elem?-set,
  get_elem?-set_other, get_elem?-lt, length, All, map,
}
use libasynckafkaclient.Outcome.{Outcome, ok, ◌>>=◌}
use libasynckafkaclient.Os.{Os}
use libasynckafkaclient.Asio.{Asio}
use libasynckafkaclient.Partition.State.{KafkaPartition, Sys}
use libasynckafkaclient.Partition.Requests.{produce_batches}
use libasynckafkaclient.Partition.Lifecycle.{fire, produce_source}
use libasynckafkaclient.Partition.Calls.{EventsAdded, WritesDone}
use libasynckafkaclient.Partition.Batches.{appended, all_values}
use libasynckafkaclient.Partition.Carried.{produce_batches-msgs}
use libasynckafkaclient.Partition.Writing.{WritesUpTo, sent_all}
use libasynckafkaclient.Partition.Runs.{start}
use libasynckafkaclient.Partition.Progress.{writable, Run-flushes}
use libasynckafkaclient.Client.State.{ClientSys, with_partitions, back_to}
use libasynckafkaclient.Client.Produce.{at_partition}
use libasynckafkaclient.Client.Received.{Received, produce_each, at_partition-ok}
use libasynckafkaclient.Client.Routing.{Chosen, produce_each-RoutedTo}

-- The event of the partition's queue, and n events that report its socket writable.
abbrev pub flush : Asio → Os → ℕ → ℕ → Sys → Outcome Sys
flush a os fuel n t = fire a os produce_source t >>= writable a os fuel n

abbrev pub with_msgs : List (List ℕ) → KafkaPartition → KafkaPartition
with_msgs msgs p = record p { q_msgs = p.q_msgs ++ msgs }

-- The requests that wait at a partition and those that its messages will make.
abbrev pub requests : Asio → KafkaPartition → List (ℕ × List ℕ)
requests a p = p.dq_write_buffers ++ appended a p

requests-Received :
    (a : Asio) (msgs : List (List ℕ)) (p q : KafkaPartition)
    → Received msgs p q
    → requests a q ≡ requests a (with_msgs msgs p)
unfolding produce_batches
requests-Received a msgs p q h = ap (requests a) h

-- u is s after the partition p at index i has sent these requests.
pub record SentAt (i : ℕ) (p : KafkaPartition) (q : List (ℕ × List ℕ)) (s u : ClientSys)
    : Type 0 where
  pub emptied :
      (p' : KafkaPartition) × (get_elem? u.client.partitions i ≡ some p')
      × (p'.q_msgs ≡ [])
      × (p'.dq_write_buffers ≡ [])
  pub others : (j : ℕ) → j ≢ i → get_elem? u.client.partitions j ≡ get_elem? s.client.partitions j
  pub in_order : u.world.trace ≡ sent_all p.sock_fd q s.world.trace

flush-SentAt :
    (a : Asio) (os : Os) (fuel i m : ℕ) (s : ClientSys) (p : KafkaPartition)
    → EventsAdded os
    → WritesUpTo m os
    → get_elem? s.client.partitions i ≡ some p
    → All (λ e. length e.1 ≤ m) (requests a p)
    → 0 < fuel
    → (u : ClientSys) × (at_partition i (flush a os fuel (length (requests a p))) s ≡ ok u)
      × SentAt i p (requests a p) s u
flush-SentAt a os fuel i m s p adds writes here fits h =
    let (t, e, _, none_left, none_waits, trace) =
      Run-flushes a os fuel m start adds writes fits h in
    (
      with_partitions (set s.client.partitions i t.part) (back_to s t),
      at_partition-ok i (flush a os fuel (length (requests a p))) s p t here e,
      record {
        emptied = (
          t.part,
          get_elem?-set s.client.partitions i t.part (get_elem?-lt s.client.partitions i p here),
          none_left,
          none_waits,
        );
        others = λ j ne. get_elem?-set_other s.client.partitions i j t.part ne;
        in_order = trace;
      },
    )

-- Suppose that every wake-up is written, libevent takes every registration and every write() takes at
-- least m bytes; let p be the partition that produce chooses, with no request, waiting or made of its
-- messages and the new ones, longer than m bytes. Then produce called for one message after the other,
-- followed by the event of the partition's queue and as many events of its writable socket as there are
-- requests, ends without an error: no message and no request of that partition is left, on its socket
-- the requests that waited and those of the messages have been sent whole, in order, each once, the
-- values in those are the messages that were queued and the new ones, in order, and no other partition
-- has changed.
pub produce_each-SentAt :
    (a : Asio) (os : Os) (fuel i m : ℕ) (msgs : List (List ℕ)) (s : ClientSys) (p : KafkaPartition)
    → WritesDone os
    → EventsAdded os
    → WritesUpTo m os
    → Chosen i s
    → s.curr_partition < length s.client.partitions
    → get_elem? s.client.partitions i ≡ some p
    → All (λ e. length e.1 ≤ m) (requests a (with_msgs msgs p))
    → 0 < fuel
    → (s' u : ClientSys) × (produce_each os msgs s ≡ ok s')
      × (at_partition i (flush a os fuel (length (requests a (with_msgs msgs p)))) s' ≡ ok u)
      × SentAt i p (requests a (with_msgs msgs p)) s' u
      × (map (λ v. v.value) (all_values a (produce_batches a (with_msgs msgs p)))
          ≡ p.q_msgs ++ msgs)
      × ((j : ℕ) → j ≢ i → get_elem? u.client.partitions j ≡ get_elem? s.client.partitions j)
produce_each-SentAt a os fuel i m msgs s p done adds writes chosen within here fits h =
    let (s', e, routed) = produce_each-RoutedTo os i msgs s p done chosen within here in
    let (p', here', received) = routed.receiver in
    let same = requests-Received a msgs p p' received in
    let (u, flushed, sent) =
      flush-SentAt a os fuel i m s' p' adds writes here'
        (subst (All (λ e. length e.1 ≤ m)) (sym same) fits) h in
    let fd : p'.sock_fd ≡ p.sock_fd = ap (λ (x : KafkaPartition). x.sock_fd) received in
    (
      s',
      u,
      e,
      subst (λ q. at_partition i (flush a os fuel (length q)) s' ≡ ok u) same flushed,
      record {
        emptied = sent.emptied;
        others = sent.others;
        in_order =
            sent.in_order
            ∙ ap (λ x. sent_all x (requests a p') s'.world.trace) fd
            ∙ ap (λ q. sent_all p.sock_fd q s'.world.trace) same;
      },
      produce_batches-msgs a (with_msgs msgs p),
      λ j ne. sent.others j ne ∙ routed.others j ne,
    )
