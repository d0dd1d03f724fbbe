-- ===== src/Partition/Starting.antt =====
-- init of a partition (src/KafkaEndpointMP.cpp) against a broker that answers.
use libasynckafkaclient.Prelude.{
  ℕ, suc, ◌+◌, ◌≤◌, ◌≡◌, refl, subst, some, List, [], ◌∷◌, length, arith,
}
use libasynckafkaclient.Prelude.Int.{ℤ, pos}
use libasynckafkaclient.Outcome.{ok}
use libasynckafkaclient.Os.{Os}
use libasynckafkaclient.Asio.{Asio, api_key_metadata, api_key_offset}
use libasynckafkaclient.Partition.State.{Sys}
use libasynckafkaclient.Partition.Requests.{
  create_metadata_request, create_offset_request, offset_time,
}
use libasynckafkaclient.Partition.Calls.{EventsAdded}
use libasynckafkaclient.Partition.Writing.{WritesUpTo}
use libasynckafkaclient.Partition.Responses.{start_offset}
use libasynckafkaclient.Partition.Frames.{Arrives}
use libasynckafkaclient.Partition.Timers.{Opens, start_timer-ok}
use libasynckafkaclient.Partition.Lifecycle.{round_trip, init, init_connected, md_timer_source}
use libasynckafkaclient.Net.Framing.{joined}
use libasynckafkaclient.Partition.Rounds.{
  Connects, SameLeader, then_next, connect_leader-ok, metadata_round, offset_round,
}

module _ (a : Asio) (os : Os) (fuel : ℕ) where
  -- Against a broker that answers, the constructor's init ends without an error and leaves no request
  -- behind: if the system calls succeed and libevent takes the registrations, every write() takes the
  -- whole of its request, nothing waits to be written, and the socket delivers, in any pieces, first a
  -- metadata response without error that names the present leader and then an offset response without
  -- error whose first offset is n. The partition is then connected, and its next offset is the one that
  -- the offset response makes of the one before.
  pub init-start_offset :
      (m : ℕ) (head1 body1 head2 body2 : List (List ℕ)) (s : Sys) (n : ℤ) (ns : List ℤ)
      → s.part.dq_write_buffers ≡ []
      → Connects os
      → Opens os
      → EventsAdded os
      → WritesUpTo m os
      → length (a.write_metadata s.part.topic s.part.config.client_id) ≤ m
      → length (
          a.write_offset s.part.topic s.part.partition
            (offset_time a s.part.config.c_start_offset)
            s.part.config.client_id)
        ≤ m
      → Arrives os (s.world.tick + 7) head1 body1 api_key_metadata
      → SameLeader a os (joined body1) s.part
      → Arrives os (s.world.tick + 10 + length head1 + length body1) head2 body2 api_key_offset
      → a.read_offset (joined body2) s.part.topic s.part.partition ≡ (pos 0, some (n ∷ ns))
      → (s' : Sys) × (init a os (suc fuel) s ≡ ok s')
        × (s'.part.dq_write_buffers ≡ [])
        × (s'.part.sock_fd ≡ os.socket s.world.tick)
        × (s'.part.next_fetch_offset
            ≡ start_offset s.part.config.c_start_offset s.part.next_fetch_offset n)
  unfolding init init_connected
  init-start_offset m head1 body1 head2 body2 s n ns e c opens adds writes fits1 fits2 arrives1 l
        arrives2 answer =
      let (s1, ok1, part1, world1) = connect_leader-ok a os fuel s c adds in
      let seven : s.world.tick + 7 ≡ s1.world.tick + 3 = rw world1 (omega arith) in
      let same1 : SameLeader a os (joined body1) s1.part = rw part1 record {
        response = l.response;
        leader = l.leader;
        ip = l.ip;
        fine = l.fine;
        named = l.named;
        found = l.found;
        same = l.same;
      } in
      let (s2, ok2, part2, tick2) =
        metadata_round a os fuel m head1 body1 s1 (rw part1 e) adds writes (rw part1 fits1)
          (subst (λ t. Arrives os t head1 body1 api_key_metadata) seven arrives1) same1 in
      let ten : s.world.tick + 10 + length head1 + length body1 ≡ s2.world.tick + 3 =
        omega (arith, tick2, seven) in
      let (s3, ok3, part3) =
        offset_round a os fuel m head2 body2 s2 n ns (rw (part2, part1) e) adds writes
          (rw (part2, part1) fits2)
          (subst (λ t. Arrives os t head2 body2 api_key_offset) ten arrives2)
          (rw (part2, part1) answer) in
      let (src, s4, ok4, part4, spec) =
        start_timer-ok os md_timer_source s3.part.config.m_refresh_interval_ms
          s3.part.md_timer_event (λ src. record (s3.part) { md_timer_event = src }) s3 opens adds in
      (
        s4,
        rw ok1 (
            then_next (create_metadata_request a os s1) (round_trip a os (suc fuel)) _ s2 (ok s4)
              ok2
              (then_next (create_offset_request a os s2) (round_trip a os (suc fuel)) _ s3 (ok s4)
                ok3 ok4)),
        rw (part4, part3, part2, part1) e,
        rw (part4, part3, part2, part1) refl,
        rw (part4, part3, part2, part1) refl,
      )
