-- ===== src/Partition/Events.antt =====
-- handleEvent of a partition's socket (src/KafkaEndpointMP.cpp), with every handler that it reaches,
-- keeps up each predicate that stands what the network side does.
use libasynckafkaclient.Prelude.{
  ℕ, ap, ◌^◌, ◌-◌, Bool, not, ◌&&◌, ◌||◌, Option, none, some, List, [], ◌∷◌, Option-cases, inl, inr,
  ◌==◌, is_empty,
}
use libasynckafkaclient.Prelude.Int.{ℤ, pos, leb_ℤ, ◌==ℤ◌}
use libasynckafkaclient.Config.{Str}
use libasynckafkaclient.Os.{
  Os, log, produce_response, received_data, econnreset, eintr, eagain, other_errno,
}
use libasynckafkaclient.Reactor.{has_in, has_out}
use libasynckafkaclient.Net.{
  ReadData, complete, end_of_stream, failed, starved, res, read_data, hostname_to_ip,
}
use libasynckafkaclient.Asio.{Asio, MetadataBroker, MessageAndOffset}
use libasynckafkaclient.Outcome.{Keeps, Keeps-bind, if-Keeps, if-Keeps_true, if-holds}
use libasynckafkaclient.Partition.State.{Sys, drop_socket}
use libasynckafkaclient.Partition.Transfer.{on_write_ready, connect_leader}
use libasynckafkaclient.Partition.Responses.{
  handle_kafka_error, report, resend, acknowledge, handle_produce_response, deliver, take_messages,
  handle_fetch_response, handle_metadata_response, handle_offset_response, on_leader, change_leader,
  c_str, follow_leader, leader_moved, set_leader, on_offsets,
}
use libasynckafkaclient.Partition.Reading.{
  ntohl, read_error, dispatch, on_frame, on_body, read_body, on_size, on_read_ready, handle_event,
}
use libasynckafkaclient.Partition.Steady.{
  Steady, world-Steady, Resends, sent_again, settled, wake-Steady, metadata-Steady, offset-Steady,
  reconnect-Steady, on_write_ready-Steady,
}

module _ (a : Asio) (os : Os) (fuel : ℕ) (Q : Sys → Type 0) (steady : Steady os Q)
    (resends : Resends a Q) where
  open steady use {change, move}

  write-Steady : (s : Sys) → Q s → Keeps Q (on_write_ready a os fuel s)
  write-Steady = on_write_ready-Steady os Q steady a fuel

  handle_kafka_error-Steady : (ec : ℤ) (s : Sys) → Q s → Keeps Q (handle_kafka_error a os fuel ec s)
  unfolding handle_kafka_error
  handle_kafka_error-Steady ec s h =
      if-Keeps Q (ec ==ℤ pos 1) _ _
        (Keeps-bind Q Q _ _ (offset-Steady os Q steady a s h) write-Steady)
        (if-Keeps Q ((ec ==ℤ pos 5) || (ec ==ℤ pos 6)) _ _
          (Keeps-bind Q Q _ _ (metadata-Steady os Q steady a s h) write-Steady) h)

  report-Steady : (ec : ℤ) (s : Sys) → Q s → Keeps Q (report a os fuel ec s)
  unfolding report
  report-Steady ec s h = if-Keeps Q (ec ==ℤ pos 0) _ _ h (handle_kafka_error-Steady ec s h)

  resend-Steady :
      (again : (s : Sys) (req : List ℕ) (rest : List (List ℕ)) → Q s → Q (sent_again req rest s))
      (q : List (List ℕ)) (s : Sys)
      → Q s
      → Keeps Q (resend a os fuel q s)
  unfolding resend
  resend-Steady again [] s h = tt
  resend-Steady again (req ∷ rest) s h = again s (c_str req) rest h

  acknowledge-Steady :
      (q : List (List ℕ)) (offset : Option ℤ) (s : Sys)
      → Q s
      → Keeps Q (acknowledge a os fuel q offset s)
  unfolding acknowledge
  acknowledge-Steady [] offset s h = tt
  acknowledge-Steady (req ∷ rest) none s h = change s s.part.next_fetch_offset rest s.world h
  acknowledge-Steady (req ∷ rest) (some at) s h =
      if-holds Q s.part.on_produce_response _ _
        (change s s.part.next_fetch_offset rest
          (log (produce_response s.part.topic s.part.partition at) s.world) h)
        (change s s.part.next_fetch_offset rest s.world h)

  handle_produce_response-Steady :
      (frame : List ℕ) (s : Sys) → Q s → Keeps Q (handle_produce_response a os fuel frame s)
  unfolding handle_produce_response
  handle_produce_response-Steady frame s h =
      let (ec, offset) = a.read_produce frame s.part.topic s.part.partition in
      let acknowledged = acknowledge-Steady s.part.q_in_transit_produce_request offset s h in
      elim resends [
        | inl accepts ↦
            if-Keeps_true Q (ec ==ℤ pos 0) _ _
              (ap (λ n. n ==ℤ pos 0) (accepts frame s.part.topic s.part.partition)) acknowledged
        | inr again ↦ if-Keeps Q (ec ==ℤ pos 0) _ _ acknowledged (
            Keeps-bind Q Q _ _ (handle_kafka_error-Steady ec s h)
              (λ s1 h1. resend-Steady again s1.part.q_in_transit_produce_request s1 h1))
      ]

  deliver-Steady :
      (messages : List MessageAndOffset) (s : Sys) → Q s → Q (deliver a os fuel messages s)
  unfolding deliver
  deliver-Steady messages s h =
      let (next, msgs) = take_messages s.part.next_fetch_offset messages in
      if-holds Q (not (is_empty msgs) && s.part.on_received_data) _ _
        (change s next s.part.q_in_transit_produce_request (log (received_data msgs) s.world) h)
        (change s next s.part.q_in_transit_produce_request s.world h)

  handle_fetch_response-Steady :
      (frame : List ℕ) (s : Sys) → Q s → Keeps Q (handle_fetch_response a os fuel frame s)
  unfolding handle_fetch_response
  handle_fetch_response-Steady frame s h =
      let (ec, messages) = a.read_fetch frame in
      Keeps-bind Q Q _ _
        (if-Keeps Q (ec ==ℤ pos 0) _ _ (deliver-Steady messages s h)
          (handle_kafka_error-Steady ec s h))
        (wake-Steady os Q steady)

  change_leader-Steady :
      (leader : MetadataBroker) (ip : Str) (s : Sys) → Q s → Keeps Q (change_leader os leader ip s)
  unfolding change_leader follow_leader
  change_leader-Steady leader ip s h =
      Keeps-bind (λ (r : Bool × Sys). Q (settled r)) Q
        (connect_leader os (set_leader leader ip (drop_socket s))) (follow_leader os)
        (move s (set_leader leader ip (drop_socket s)).part.leader h)
        (λ r h1. wake-Steady os Q steady _ h1)

  on_leader-Steady :
      (leader : Option MetadataBroker) (s : Sys) → Q s → Keeps Q (on_leader os leader s)
  unfolding on_leader
  on_leader-Steady none s h = h
  on_leader-Steady (some leader) s h = elim (Option-cases (hostname_to_ip os leader.host none).1) [
    | inl unknown ↦ rw (unknown, on_leader) tt
    | inr (ip, found) ↦
        rw (found, on_leader)
          (if-Keeps Q (leader_moved ip leader s.part) _ _ (change_leader-Steady leader ip s h) h)
  ]

  handle_metadata_response-Steady :
      (frame : List ℕ) (s : Sys) → Q s → Keeps Q (handle_metadata_response a os fuel frame s)
  unfolding handle_metadata_response
  handle_metadata_response-Steady frame s h =
      Keeps-bind Q Q _ _ (report-Steady (a.read_metadata frame).0 s h) (on_leader-Steady _)

  on_offsets-Steady : (offsets : Option (List ℤ)) (s : Sys) → Q s → Q (on_offsets offsets s)
  unfolding on_offsets
  on_offsets-Steady none s h = h
  on_offsets-Steady (some []) s h = h
  on_offsets-Steady (some (n ∷ ns)) s h = change s _ s.part.q_in_transit_produce_request s.world h

  handle_offset_response-Steady :
      (frame : List ℕ) (s : Sys) → Q s → Keeps Q (handle_offset_response a os fuel frame s)
  unfolding handle_offset_response
  handle_offset_response-Steady frame s h =
      Keeps-bind Q Q _ _ (report-Steady (a.read_offset frame s.part.topic s.part.partition).0 s h)
        (λ s1 h1. on_offsets-Steady _ s1 h1)

  lost-Steady : (s : Sys) → Q s → Keeps Q (read_error a os fuel end_of_stream s)
  unfolding read_error
  lost-Steady = reconnect-Steady os Q steady a (on_write_ready a os fuel) write-Steady

  read_error-Steady : (r : ReadData) (s : Sys) → Q s → Keeps Q (read_error a os fuel r s)
  unfolding read_error
  read_error-Steady (complete buf) s h =
      if-Keeps Q (res (complete buf) ==ℤ pos 0) _ _ (lost-Steady s h) h
  read_error-Steady end_of_stream s h = lost-Steady s h
  read_error-Steady (failed econnreset) s h = lost-Steady s h
  read_error-Steady (failed eintr) s h = h
  read_error-Steady (failed eagain) s h = h
  read_error-Steady (failed other_errno) s h = h
  read_error-Steady starved s h = tt

  dispatch-Steady :
      (id : ℕ) (frame : List ℕ) (s : Sys) → Q s → Keeps Q (dispatch a os fuel id frame s)
  unfolding dispatch
  dispatch-Steady id frame s h =
      if-Keeps Q (id == 0) _ _ (handle_produce_response-Steady frame s h) (
        if-Keeps Q (id == 1) _ _ (handle_fetch_response-Steady frame s h) (
          if-Keeps Q (id == 3) _ _ (handle_metadata_response-Steady frame s h)
            (if-Keeps Q (id == 2) _ _ (handle_offset_response-Steady frame s h) h)))

  on_frame-Steady : (frame : List ℕ) (s : Sys) → Q s → Keeps Q (on_frame a os fuel frame s)
  unfolding on_frame
  on_frame-Steady frame s h = elim (Option-cases (ntohl frame)) [
    | inl short ↦ rw (short, on_frame) tt
    | inr (id, found) ↦
        rw (found, on_frame) (if-Keeps Q (id == 2 ^ 32 - 1) _ _ tt (dispatch-Steady id frame s h))
  ]

  on_body-Steady : (r : ReadData) (s : Sys) → Q s → Keeps Q (on_body a os fuel r s)
  unfolding on_body
  on_body-Steady (complete frame) s h =
      if-Keeps Q (leb_ℤ (res (complete frame)) (pos 0)) _ _ (read_error-Steady (complete frame) s h)
        (on_frame-Steady frame s h)
  on_body-Steady end_of_stream s h = read_error-Steady end_of_stream s h
  on_body-Steady (failed e) s h = read_error-Steady (failed e) s h
  on_body-Steady starved s h = tt

  on_size-Steady : (r : ReadData) (s : Sys) → Q s → Keeps Q (on_size a os fuel r s)
  unfolding on_size read_body
  on_size-Steady (complete size) s h = elim (Option-cases (ntohl size)) [
    | inl short ↦ rw (short, on_size) tt
    | inr (n, found) ↦
        rw (found, on_size)
          (on_body-Steady (read_data os n s.world).0 _ (world-Steady os Q steady s _ h))
  ]
  on_size-Steady end_of_stream s h = read_error-Steady end_of_stream s h
  on_size-Steady (failed e) s h = read_error-Steady (failed e) s h
  on_size-Steady starved s h = tt

  pub on_read_ready-Steady : (s : Sys) → Q s → Keeps Q (on_read_ready a os fuel s)
  unfolding on_read_ready
  on_read_ready-Steady s h = on_size-Steady _ _ (world-Steady os Q steady s _ h)

  pub handle_event-Steady :
      (fd : ℤ) (event : ℕ) (s : Sys) → Q s → Keeps Q (handle_event a os fuel fd event s)
  unfolding handle_event
  handle_event-Steady fd event s h = if-Keeps Q (not (fd ==ℤ s.part.sock_fd)) _ _ h (
      if-Keeps Q (has_in event) _ _ (on_read_ready-Steady s h)
        (if-Keeps Q (has_out event) _ _ (write-Steady s h) h))
