-- ===== src/Partition/Delivery.antt =====
-- handleFetchResponse of src/KafkaEndpointMP.cpp as a whole, for a consumer.
use libasynckafkaclient.Prelude.{
  ℕ, ◌≡◌, refl, ap, Bool, true, false, not, ◌&&◌, List, [], ◌∷◌, if◌then◌else◌, is_empty, arith,
}
use libasynckafkaclient.Prelude.Int.{ℤ, pos, ◌≤ℤ◌}
use libasynckafkaclient.Config.{consumer_p}
use libasynckafkaclient.Outcome.{ok}
use libasynckafkaclient.Os.{Os, Action, woke, received_data}
use libasynckafkaclient.Asio.{Asio, MessageAndOffset}
use libasynckafkaclient.Partition.State.{Sys, act, with_part, is_consumer, wake_if_consumer}
use libasynckafkaclient.Partition.Calls.{WritesDone, after_wake, wake-ok}
use libasynckafkaclient.Partition.Responses.{take_messages, deliver, handle_fetch_response}
use libasynckafkaclient.Partition.Fetching.{
  Rising, values_from, take_messages-values_from, take_messages-le,
}

-- The trace after messages, if there are any, have been handed to the client.
abbrev pub handed : List (List ℕ) → List Action → List Action
handed [] trace = trace
handed (m ∷ ms) trace = received_data (m ∷ ms) ∷ trace

hand_on :
    (b : Bool) (msgs : List (List ℕ)) (s : Sys)
    → b ≡ true
    → let r = if not (is_empty msgs) && b then act (received_data msgs) s else s in
      (r.part ≡ s.part) × (r.world.trace ≡ handed msgs s.world.trace)
hand_on b [] s h = (refl, refl)
hand_on true (m ∷ ms) s h = (refl, refl)
hand_on false (m ∷ ms) s h = ground arith

wake_consumer :
    (os : Os) (s : Sys)
    → s.part.partition_type ≡ consumer_p
    → WritesDone os
    → wake_if_consumer os s ≡ ok (after_wake s.part.fetch_event s)
unfolding wake_if_consumer
wake_consumer os s consumer writes =
    let c : is_consumer s.part.partition_type ≡ true = ap is_consumer consumer in
    rw c (wake-ok os s.part.fetch_event s writes)

module _ (a : Asio) (os : Os) (fuel : ℕ) where
  deliver_lem :
      (ms : List MessageAndOffset) (s : Sys)
      → s.part.on_received_data ≡ true
      → ((deliver a os fuel ms s).part
          ≡ record (s.part) { next_fetch_offset = (take_messages s.part.next_fetch_offset ms).0 })
        × ((deliver a os fuel ms s).world.trace
            ≡ handed (take_messages s.part.next_fetch_offset ms).1 s.world.trace)
  unfolding deliver
  deliver_lem ms s set =
      hand_on s.part.on_received_data (take_messages s.part.next_fetch_offset ms).1
        (with_part
          (record (s.part) { next_fetch_offset = (take_messages s.part.next_fetch_offset ms).0 }) s)
        set

  pub handle_fetch_response-next :
      (frame : List ℕ) (low : ℤ) (s : Sys)
      → (a.read_fetch frame).0 ≡ pos 0
      → Rising low (a.read_fetch frame).1
      → s.part.partition_type ≡ consumer_p
      → s.part.on_received_data ≡ true
      → WritesDone os
      → (s' : Sys) × (handle_fetch_response a os fuel frame s ≡ ok s')
        × (s'.part ≡ record (s.part) { next_fetch_offset = s'.part.next_fetch_offset })
        × (s'.part.next_fetch_offset
            ≡ (take_messages s.part.next_fetch_offset (a.read_fetch frame).1).0)
        × (s'.world.trace
            ≡ woke s.part.fetch_event.wakeup_fd
              ∷ handed (values_from s.part.next_fetch_offset (a.read_fetch frame).1) s.world.trace)
  unfolding handle_fetch_response
  handle_fetch_response-next frame low s fine rising consumer set writes =
      let ms = (a.read_fetch frame).1 in
      let d = deliver a os fuel ms s in
      let (part, trace) = deliver_lem ms s set in
      let same_type : d.part.partition_type ≡ consumer_p = rw part consumer in
      let next : d.part.next_fetch_offset ≡ (take_messages s.part.next_fetch_offset ms).0 =
        rw part refl in
      (
        after_wake d.part.fetch_event d,
        rw (fine, handle_fetch_response) (wake_consumer os d same_type writes),
        rw part refl,
        next,
        rw (part, trace, take_messages-values_from s.part.next_fetch_offset low ms rising) refl,
      )

  -- A fetch response without an error whose offsets rise, at a consumer whose data callback is set:
  -- if the wake-up is written, the handler succeeds and hands on exactly the values of the messages
  -- from the next offset on, in their order and in one call, or calls nothing if there are none. It
  -- then wakes the fetch source. In the partition only the next offset changes, which never goes back.
  pub handle_fetch_response_lem :
      (frame : List ℕ) (low : ℤ) (s : Sys)
      → (a.read_fetch frame).0 ≡ pos 0
      → Rising low (a.read_fetch frame).1
      → s.part.partition_type ≡ consumer_p
      → s.part.on_received_data ≡ true
      → WritesDone os
      → (s' : Sys) × (handle_fetch_response a os fuel frame s ≡ ok s')
        × (s'.part ≡ record (s.part) { next_fetch_offset = s'.part.next_fetch_offset })
        × (s.part.next_fetch_offset ≤ℤ s'.part.next_fetch_offset)
        × (s'.world.trace
            ≡ woke s.part.fetch_event.wakeup_fd
              ∷ handed (values_from s.part.next_fetch_offset (a.read_fetch frame).1) s.world.trace)
  handle_fetch_response_lem frame low s fine rising consumer set writes =
      let (s', e, kept, next, trace) =
        handle_fetch_response-next frame low s fine rising consumer set writes in
      (
        s',
        e,
        kept,
        rw next (take_messages-le s.part.next_fetch_offset (a.read_fetch frame).1),
        trace,
      )
