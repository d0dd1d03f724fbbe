-- ===== src/Partition/Responses.antt =====
-- The handlers of responses and errors in src/KafkaEndpointMP.cpp: handleKafkaError,
-- handleProduceResponse, handleFetchResponse, handleMetadataResponse and handleOffsetResponse.
use libasynckafkaclient.Prelude.{
  ℕ, Bool, not, ◌&&◌, ◌||◌, Option, none, some, List, [], ◌∷◌, ◌==◌, if◌then◌else◌, str_eq,
  is_empty,
}
use libasynckafkaclient.Prelude.Int.{ℤ, pos, minus_one, ◌==ℤ◌, ◌+ℤ◌, leb_ℤ, ltb_ℤ, int16_of_ℤ}
use libasynckafkaclient.Config.{Str, KafkaFetchOffset, from_beginning, from_end, from_stored}
use libasynckafkaclient.Outcome.{Outcome, ok, undefined, ◌>>=◌}
use libasynckafkaclient.Os.{Os, received_data, produce_response}
use libasynckafkaclient.Net.{hostname_to_ip}
use libasynckafkaclient.Asio.{Asio, MessageAndOffset, MetadataBroker, api_key_produce}
use libasynckafkaclient.Partition.State.{
  KafkaPartition, Sys, with_part, act, wake_if_consumer, drop_socket,
}
use libasynckafkaclient.Partition.Requests.{
  push_back, create_metadata_request, create_offset_request,
}
use libasynckafkaclient.Partition.Transfer.{connect_leader, stop_loop, on_write_ready}

-- KafkaErrorType: the codes of the server that the code names.
pub data KafkaErrorType : Type 0 where
  no_error unknown offset_out_of_range invalid_message unknown_topic_or_partition : KafkaErrorType
  invalid_message_size leader_not_available not_leader_for_partition : KafkaErrorType
  request_timed_out broker_not_available replica_not_available : KafkaErrorType
  message_size_too_large stale_controller_epoch_code offset_metadata_too_large_code : KafkaErrorType
  offset_load_in_progress_code consumer_coordinator_not_available_code : KafkaErrorType
  not_coordinator_for_consumer_code : KafkaErrorType

abbrev pub error_code : KafkaErrorType → ℤ
error_code no_error = pos 0
error_code unknown = minus_one
error_code offset_out_of_range = pos 1
error_code invalid_message = pos 2
error_code unknown_topic_or_partition = pos 3
error_code invalid_message_size = pos 4
error_code leader_not_available = pos 5
error_code not_leader_for_partition = pos 6
error_code request_timed_out = pos 7
error_code broker_not_available = pos 8
error_code replica_not_available = pos 9
error_code message_size_too_large = pos 10
error_code stale_controller_epoch_code = pos 11
error_code offset_metadata_too_large_code = pos 12
error_code offset_load_in_progress_code = pos 14
error_code consumer_coordinator_not_available_code = pos 15
error_code not_coordinator_for_consumer_code = pos 16

-- A std::string made of c_str(): it ends at the first zero byte.
unfoldable pub c_str : List ℕ → List ℕ
c_str [] = []
c_str (b ∷ bs) = if b == 0 then [] else b ∷ c_str bs

-- `if (bytes) recvMsgs.push_back(…)`.
abbrev pub keep_value : Option (List ℕ) → List (List ℕ) → List (List ℕ)
keep_value none msgs = msgs
keep_value (some value) msgs = value ∷ msgs

-- The loop over a fetch response: the next offset to fetch, and the messages for the application.
unfoldable pub take_messages : ℤ → List MessageAndOffset → ℤ × List (List ℕ)
take_messages next [] = (next, [])
take_messages next (m ∷ ms) =
    let fresh = leb_ℤ next m.offset in
    let (last, msgs) = take_messages (if fresh then m.offset +ℤ pos 1 else next) ms in
    (last, if fresh then keep_value m.value msgs else msgs)

-- The test of the leader in handleMetadataResponse; `leader->port` is an Int32, m_iPort an int16_t.
abbrev pub leader_moved : Str → MetadataBroker → KafkaPartition → Bool
leader_moved ip leader p = not (str_eq ip p.leader.ip) || not (leader.port ==ℤ p.leader.port)

abbrev pub set_leader : MetadataBroker → Str → Sys → Sys
set_leader leader ip s =
    with_part
      (record (s.part) {
        leader = record {
          id = leader.node_id;
          host = leader.host;
          ip = ip;
          port = int16_of_ℤ leader.port;
        };
      })
      s

-- After connectLeader in handleMetadataResponse: a failure shuts the loop down and goes on.
unfoldable pub follow_leader : Os → Bool × Sys → Outcome Sys
unfolding wake_if_consumer
follow_leader os (connected, s) = wake_if_consumer os (if connected then s else stop_loop s)

unfoldable pub change_leader : Os → MetadataBroker → Str → Sys → Outcome Sys
unfolding follow_leader connect_leader drop_socket
change_leader os leader ip s =
    connect_leader os (set_leader leader ip (drop_socket s)) >>= follow_leader os

-- The leader of a metadata response; the buffer `ip` is never initialised, so a failure of
-- hostnameToIp leaves it undefined.
unfoldable pub on_leader : Os → Option MetadataBroker → Sys → Outcome Sys
unfolding change_leader hostname_to_ip
on_leader os none s = ok s
on_leader os (some leader) s = elim (hostname_to_ip os leader.host none).1 [
  | none ↦ undefined
  | some ip ↦ if leader_moved ip leader s.part then change_leader os leader ip s else ok s
]

-- What an offset response makes of m_iNextFetchOffset.
unfoldable pub start_offset : KafkaFetchOffset → ℤ → ℤ → ℤ
start_offset from_end next new_start = new_start
start_offset from_beginning next new_start = if ltb_ℤ next new_start then new_start else next
start_offset from_stored next new_start = if ltb_ℤ next new_start then new_start else next

unfoldable pub on_offsets : Option (List ℤ) → Sys → Sys
unfolding start_offset
on_offsets none s = s
on_offsets (some []) s = s
on_offsets (some (new_start ∷ _)) s =
    with_part
      (record (s.part) {
        next_fetch_offset =
            start_offset s.part.config.c_start_offset s.part.next_fetch_offset new_start;
      })
      s

module _ (a : Asio) (os : Os) (fuel : ℕ) where
  -- handleKafkaError; the other codes are only logged.
  unfoldable pub handle_kafka_error : ℤ → Sys → Outcome Sys
  unfolding create_offset_request create_metadata_request on_write_ready
  handle_kafka_error ec s =
      if ec ==ℤ error_code offset_out_of_range
      then (create_offset_request a os s >>= on_write_ready a os fuel)
      else if (ec ==ℤ error_code leader_not_available)
          || (ec ==ℤ error_code not_leader_for_partition)
      then (create_metadata_request a os s >>= on_write_ready a os fuel)
      else ok s

  -- A handler that goes on after an error.
  unfoldable pub report : ℤ → Sys → Outcome Sys
  report ec s = if ec ==ℤ pos 0 then ok s else handle_kafka_error ec s

  -- front() and pop() of the in-transit queue. Both are undefined on an empty queue.
  unfoldable pub resend : List (List ℕ) → Sys → Outcome Sys
  unfolding c_str
  resend [] s = undefined
  resend (req ∷ rest) s = ok (
      push_back api_key_produce (c_str req)
        (with_part (record (s.part) { q_in_transit_produce_request = rest }) s))

  unfoldable pub acknowledge : List (List ℕ) → Option ℤ → Sys → Outcome Sys
  acknowledge [] offset s = undefined
  acknowledge (req ∷ rest) offset s =
      let s1 = with_part (record (s.part) { q_in_transit_produce_request = rest }) s in
      ok (elim offset [
        | none ↦ s1
        | some at ↦
            if s.part.on_produce_response
            then act (produce_response s.part.topic s.part.partition at) s1
            else s1
      ])

  unfoldable pub handle_produce_response : List ℕ → Sys → Outcome Sys
  unfolding resend acknowledge
  handle_produce_response frame s =
      let (ec, offset) = a.read_produce frame s.part.topic s.part.partition in
      if ec ==ℤ pos 0
      then acknowledge s.part.q_in_transit_produce_request offset s
      else (handle_kafka_error ec s >>= λ s1. resend s1.part.q_in_transit_produce_request s1)

  -- The messages are handed to onReceivedData if there are any and it is set.
  unfoldable pub deliver : List MessageAndOffset → Sys → Sys
  unfolding take_messages
  deliver messages s =
      let (next, msgs) = take_messages s.part.next_fetch_offset messages in
      let s1 = with_part (record (s.part) { next_fetch_offset = next }) s in
      if not (is_empty msgs) && s.part.on_received_data then act (received_data msgs) s1 else s1

  unfoldable pub handle_fetch_response : List ℕ → Sys → Outcome Sys
  unfolding deliver wake_if_consumer
  handle_fetch_response frame s =
      let (ec, messages) = a.read_fetch frame in
      (if ec ==ℤ pos 0 then ok (deliver messages s) else handle_kafka_error ec s)
      >>= wake_if_consumer os

  unfoldable pub handle_metadata_response : List ℕ → Sys → Outcome Sys
  unfolding report on_leader
  handle_metadata_response frame s =
      let (ec, response) = a.read_metadata frame in
      report ec s >>= on_leader os (a.partition_leader response s.part.topic s.part.partition)

  unfoldable pub handle_offset_response : List ℕ → Sys → Outcome Sys
  unfolding report on_offsets
  handle_offset_response frame s =
      let (ec, offsets) = a.read_offset frame s.part.topic s.part.partition in
      report ec s >>= λ s1. ok (on_offsets offsets s1)
