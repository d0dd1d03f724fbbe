-- ===== src/Partition/Rounds.antt =====
-- The requests for metadata and for offsets, each with its answer, in init of a partition
-- (src/KafkaEndpointMP.cpp).
use libasynckafkaclient.Prelude.{
  ℕ, suc, ◌+◌, ◌≤◌, ◌≡◌, refl, sym, ap, ◌∙◌, subst, true, false, none, some, List, [], ◌∷◌, length,
  arith,
}
use libasynckafkaclient.Prelude.Int.{ℤ, pos, ltb_ℤ}
use libasynckafkaclient.Config.{Str}
use libasynckafkaclient.Outcome.{Outcome, ok, ◌>>=◌, >>=_assoc}
use libasynckafkaclient.Os.{Os, World, tock, tocks, slept_ms}
use libasynckafkaclient.Net.{connect_server, hostname_to_ip}
use libasynckafkaclient.Asio.{
  Asio, MetadataBroker, MetadataResponse, api_key_metadata, api_key_offset,
}
use libasynckafkaclient.Partition.State.{KafkaPartition, Sys, act}
use libasynckafkaclient.Partition.Requests.{
  create_metadata_request, create_offset_request, offset_time, push_front,
}
use libasynckafkaclient.Partition.Transfer.{connect_leader}
use libasynckafkaclient.Partition.Calls.{EventsAdded, register-ok, after_register}
use libasynckafkaclient.Partition.Writing.{WritesUpTo, sent_one, on_write_ready-sent_one}
use libasynckafkaclient.Partition.Responses.{
  handle_metadata_response, handle_offset_response, report, on_leader, leader_moved, on_offsets,
  start_offset,
}
use libasynckafkaclient.Partition.Reading.{dispatch}
use libasynckafkaclient.Partition.Frames.{Arrives, on_read_ready-dispatch, tocks-tick}
use libasynckafkaclient.Partition.Lifecycle.{round_trip}
use libasynckafkaclient.Net.Framing.{joined}

-- socket() and connect() succeed.
abbrev pub Connects : Os → Type 0
Connects os = ((t : ℕ) → ltb_ℤ (os.socket t) (pos 0) ≡ false) × ((t : ℕ) → os.connects t ≡ true)

-- The state in which a frame is handled that has been asked for by the one request that waited.
abbrev pub asked : ℕ → List ℕ → List (List ℕ) → List (List ℕ) → Sys → Sys
asked key req head body s = record (sent_one key req [] s) {
  world =
      tocks (length body) (tocks (length head) (act (slept_ms 1) (sent_one key req [] s)).world);
}

-- The metadata name a leader that the partition is connected to already.
pub record SameLeader (a : Asio) (os : Os) (frame : List ℕ) (p : KafkaPartition) : Type 0 where
  pub response : MetadataResponse
  pub leader : MetadataBroker
  pub ip : Str
  pub fine : a.read_metadata frame ≡ (pos 0, response)
  pub named : a.partition_leader response p.topic p.partition ≡ some leader
  pub found : (hostname_to_ip os leader.host none).1 ≡ some ip
  pub same : leader_moved ip leader p ≡ false

connect_server-ok :
    (os : Os) (w : World) → Connects os → connect_server os w ≡ (os.socket w.tick, tock (tock w))
unfolding connect_server
connect_server-ok os w c = rw (c.0 w.tick, c.1 (suc w.tick)) refl

on_leader-SameLeader :
    (a : Asio) (os : Os) (frame : List ℕ) (s : Sys) (l : SameLeader a os frame s.part)
    → on_leader os (some l.leader) s ≡ ok s
unfolding on_leader
on_leader-SameLeader a os frame s l = rw (l.found, on_leader, l.same) refl

-- Two calls of which the outcome is known, before a third.
pub then_next :
    (m : Outcome Sys) (f g : Sys → Outcome Sys) (t : Sys) (r : Outcome Sys)
    → (m >>= f) ≡ ok t
    → g t ≡ r
    → (m >>= λ x. f x >>= g) ≡ r
then_next m f g t r e last = sym (>>=_assoc m f g) ∙ ap (λ o. o >>= g) e ∙ last

module _ (a : Asio) (os : Os) (fuel : ℕ) where
  dispatch-SameLeader :
      (frame : List ℕ) (s : Sys)
      → SameLeader a os frame s.part
      → dispatch a os fuel api_key_metadata frame s ≡ ok s
  unfolding dispatch handle_metadata_response report
  dispatch-SameLeader frame s l = simp (l.fine, l.named) (on_leader-SameLeader a os frame s l)

  dispatch-on_offsets :
      (frame : List ℕ) (s : Sys) (n : ℤ) (ns : List ℤ)
      → a.read_offset frame s.part.topic s.part.partition ≡ (pos 0, some (n ∷ ns))
      → dispatch a os fuel api_key_offset frame s ≡ ok (on_offsets (some (n ∷ ns)) s)
  unfolding dispatch handle_offset_response report
  dispatch-on_offsets frame s n ns e = simp e refl

module _ (a : Asio) (os : Os) (fuel : ℕ) where
  round_trip-dispatch :
      (m key : ℕ) (req : List ℕ) (head body : List (List ℕ)) (id : ℕ) (s : Sys)
      → s.part.dq_write_buffers ≡ (key, req) ∷ []
      → WritesUpTo m os
      → length req ≤ m
      → Arrives os (suc s.world.tick) head body id
      → round_trip a os (suc fuel) s
        ≡ dispatch a os (suc fuel) id (joined body) (asked key req head body s)
  round_trip-dispatch m key req head body id s e writes fits arrives =
      rw (on_write_ready-sent_one a os (suc fuel) m key req [] s e writes fits (omega arith))
        (on_read_ready-dispatch a os (suc fuel) head body id (sent_one key req [] s) arrives)

  pub connect_leader-ok :
      (s : Sys)
      → Connects os
      → EventsAdded os
      → (s1 : Sys) × (connect_leader os s ≡ ok (true, s1))
        × (s1.part ≡ record (s.part) { sock_fd = os.socket s.world.tick })
        × (s1.world ≡ tock (tock (tock (tock s.world))))
  unfolding connect_leader
  connect_leader-ok s c adds =
      let fd = os.socket s.world.tick in
      let s1 = record s { part = record (s.part) { sock_fd = fd }; world = tock (tock s.world) } in
      let (r, e) = register-ok os fd s.part.event_data s.part.event_flags false s1 adds in
      (
        after_register r s1,
        rw (connect_server-ok os s.world c, c.0 s.world.tick, e) refl,
        refl,
        refl,
      )

  -- A request is pushed, written and answered, from a partition without requests.
  pub metadata_round :
      (m : ℕ) (head body : List (List ℕ)) (s : Sys)
      → s.part.dq_write_buffers ≡ []
      → EventsAdded os
      → WritesUpTo m os
      → length (a.write_metadata s.part.topic s.part.config.client_id) ≤ m
      → Arrives os (s.world.tick + 3) head body api_key_metadata
      → SameLeader a os (joined body) s.part
      → (s1 : Sys) × ((create_metadata_request a os s >>= round_trip a os (suc fuel)) ≡ ok s1)
        × (s1.part ≡ s.part)
        × (s1.world.tick ≡ s.world.tick + 3 + length head + length body)
  unfolding create_metadata_request
  metadata_round m head body s e adds writes fits arrives l =
      let three : s.world.tick + 3 ≡ suc (suc (suc s.world.tick)) = omega arith in
      let arrived = subst (λ t. Arrives os t head body api_key_metadata) three arrives in
      let req = a.write_metadata s.part.topic s.part.config.client_id in
      let pushed = push_front api_key_metadata req s in
      let (r, ok1) =
        register-ok os s.part.sock_fd s.part.event_data s.part.event_flags true pushed adds in
      let s1 = after_register r pushed in
      let s2 = asked api_key_metadata req head body s1 in
      let one : pushed.part.dq_write_buffers ≡ (api_key_metadata, req) ∷ [] =
        ap (◌∷◌ (api_key_metadata, req)) e in
      let same : SameLeader a os (joined body) s2.part = record {
        response = l.response;
        leader = l.leader;
        ip = l.ip;
        fine = l.fine;
        named = l.named;
        found = l.found;
        same = l.same;
      } in
      let w1 = (act (slept_ms 1) (sent_one api_key_metadata req [] s1)).world in
      (
        s2,
        rw ok1 (
            round_trip-dispatch m api_key_metadata req head body api_key_metadata s1 one writes fits
              arrived
            ∙ dispatch-SameLeader a os (suc fuel) (joined body) s2 same),
        rw (← e) refl,
        omega
            (arith, tocks-tick (length head) w1, tocks-tick (length body) (tocks (length head) w1)),
      )

  pub offset_round :
      (m : ℕ) (head body : List (List ℕ)) (s : Sys) (n : ℤ) (ns : List ℤ)
      → s.part.dq_write_buffers ≡ []
      → EventsAdded os
      → WritesUpTo m os
      → length (
          a.write_offset s.part.topic s.part.partition
            (offset_time a s.part.config.c_start_offset)
            s.part.config.client_id)
        ≤ m
      → Arrives os (s.world.tick + 3) head body api_key_offset
      → a.read_offset (joined body) s.part.topic s.part.partition ≡ (pos 0, some (n ∷ ns))
      → (s1 : Sys) × ((create_offset_request a os s >>= round_trip a os (suc fuel)) ≡ ok s1)
        × (s1.part ≡ record (s.part) {
          next_fetch_offset = start_offset s.part.config.c_start_offset s.part.next_fetch_offset n;
        })
  unfolding create_offset_request on_offsets
  offset_round m head body s n ns e adds writes fits arrives answer =
      let three : s.world.tick + 3 ≡ suc (suc (suc s.world.tick)) = omega arith in
      let arrived = subst (λ t. Arrives os t head body api_key_offset) three arrives in
      let req =
        a.write_offset s.part.topic s.part.partition (offset_time a s.part.config.c_start_offset)
          s.part.config.client_id in
      let pushed = push_front api_key_offset req s in
      let (r, ok1) =
        register-ok os s.part.sock_fd s.part.event_data s.part.event_flags true pushed adds in
      let s1 = after_register r pushed in
      let s2 = asked api_key_offset req head body s1 in
      let one : pushed.part.dq_write_buffers ≡ (api_key_offset, req) ∷ [] =
        ap (◌∷◌ (api_key_offset, req)) e in
      (
        on_offsets (some (n ∷ ns)) s2,
        rw ok1 (
            round_trip-dispatch m api_key_offset req head body api_key_offset s1 one writes fits
              arrived
            ∙ dispatch-on_offsets a os (suc fuel) (joined body) s2 n ns answer),
        rw (← e) refl,
      )
