-- ===== src/Partition/Reading.antt =====
-- onReadReady and handleEvent of src/KafkaEndpointMP.cpp: a frame is read from the socket and given
-- to the handler that its correlation id names.
use libasynckafkaclient.Prelude.{
  ◌-◌, ℕ, ◌+◌, ◌*◌, ◌^◌, not, Option, none, some, List, [], ◌∷◌, ◌==◌, if◌then◌else◌,
}
use libasynckafkaclient.Prelude.Int.{ℤ, pos, ◌==ℤ◌, leb_ℤ}
use libasynckafkaclient.Outcome.{Outcome, ok, aborted, undefined, no_fuel}
use libasynckafkaclient.Os.{Os, slept_ms, econnreset, eintr, eagain, other_errno}
use libasynckafkaclient.Net.{ReadData, complete, end_of_stream, failed, starved, res, read_data}
use libasynckafkaclient.Reactor.{has_in, has_out}
use libasynckafkaclient.Asio.{
  Asio, api_key_produce, api_key_fetch, api_key_offset, api_key_metadata,
}
use libasynckafkaclient.Partition.State.{Sys, act}
use libasynckafkaclient.Partition.Transfer.{reconnect, on_write_ready}
use libasynckafkaclient.Partition.Responses.{
  handle_produce_response, handle_fetch_response, handle_metadata_response, handle_offset_response,
}

-- ntohl of the four bytes at the start of a buffer.
abbrev pub ntohl : List ℕ → Option ℕ
ntohl [] = none
ntohl (b0 ∷ []) = none
ntohl (b0 ∷ b1 ∷ []) = none
ntohl (b0 ∷ b1 ∷ b2 ∷ []) = none
ntohl (b0 ∷ b1 ∷ b2 ∷ b3 ∷ _) = some (b0 * 2 ^ 24 + b1 * 2 ^ 16 + b2 * 2 ^ 8 + b3)

module _ (a : Asio) (os : Os) (fuel : ℕ) where
  -- The λ readError, called for a result that is not positive. A frame of length 0 has the result 0.
  unfoldable pub read_error : ReadData → Sys → Outcome Sys
  unfolding reconnect on_write_ready
  read_error end_of_stream s = reconnect a os (on_write_ready a os fuel) s
  read_error (failed econnreset) s = reconnect a os (on_write_ready a os fuel) s
  read_error (failed eintr) s = ok s
  read_error (failed eagain) s = ok s
  read_error (failed other_errno) s = ok s
  read_error (complete buf) s =
      let again = reconnect a os (on_write_ready a os fuel) s in
      if res (complete buf) ==ℤ pos 0 then again else ok s
  read_error starved s = no_fuel

  -- The switch on the correlation id.
  unfoldable pub dispatch : ℕ → List ℕ → Sys → Outcome Sys
  dispatch correlation_id frame s =
      if correlation_id == api_key_produce
      then handle_produce_response a os fuel frame s
      else if correlation_id == api_key_fetch
      then handle_fetch_response a os fuel frame s
      else if correlation_id == api_key_metadata
      then handle_metadata_response a os fuel frame s
      else if correlation_id == api_key_offset
      then handle_offset_response a os fuel frame s
      else ok s

  -- memcpy of the correlation id reads past the end of a frame of less than four bytes.
  unfoldable pub on_frame : List ℕ → Sys → Outcome Sys
  on_frame frame s = elim (ntohl frame) [
    | none ↦ undefined
    | some correlation_id ↦
        if correlation_id == 2 ^ 32 - 1 then aborted else dispatch correlation_id frame s
  ]

  -- What the frame's bytes are read into, once the size is known.
  unfoldable pub on_body : ReadData → Sys → Outcome Sys
  on_body (complete frame) s =
      let bad = read_error (complete frame) s in
      if leb_ℤ (res (complete frame)) (pos 0) then bad else on_frame frame s
  on_body end_of_stream s = read_error end_of_stream s
  on_body (failed e) s = read_error (failed e) s
  on_body starved s = no_fuel

  unfoldable pub read_body : ℕ → Sys → Outcome Sys
  read_body size s =
      let (body, w) = read_data os size s.world in on_body body (record s { world = w })

  unfoldable pub on_size : ReadData → Sys → Outcome Sys
  on_size (complete size) s = elim (ntohl size) [ none ↦ undefined | some n ↦ read_body n s ]
  on_size end_of_stream s = read_error end_of_stream s
  on_size (failed e) s = read_error (failed e) s
  on_size starved s = no_fuel

  unfoldable pub on_read_ready : Sys → Outcome Sys
  on_read_ready s =
      let s1 = act (slept_ms 1) s in
      let (size, w) = read_data os 4 s1.world in on_size size (record s1 { world = w })

  -- handleEvent: reading goes before writing.
  unfoldable pub handle_event : ℤ → ℕ → Sys → Outcome Sys
  handle_event fd event s =
      if not (fd ==ℤ s.part.sock_fd)
      then ok s
      else if has_in event
      then on_read_ready s
      else if has_out event
      then on_write_ready a os fuel s
      else ok s
