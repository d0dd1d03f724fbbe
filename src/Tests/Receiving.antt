-- ===== src/Tests/Receiving.antt =====
-- A consumer and a producer that are handed frames, and the loss of their connection.
use libasynckafkaclient.Prelude.{◌↔◌, All, ℕ, ◌^◌, ◌≡◌, ◌≢◌, refl, leb, List, [], ◌∷◌, arith}
use libasynckafkaclient.Prelude.Int.{pos, ◌≤ℤ◌}
use libasynckafkaclient.Config.{codes}
use libasynckafkaclient.Outcome.{Keeps, ok, undefined}
use libasynckafkaclient.Os.{woke, received_data, slept_ms, tocks}
use libasynckafkaclient.Asio.{MetadataBroker, api_key_produce}
use libasynckafkaclient.Reactor.{aeventin}
use libasynckafkaclient.Partition.State.{Sys, KafkaPartition, act, with_part}
use libasynckafkaclient.Partition.Requests.{push_back}
use libasynckafkaclient.Partition.Responses.{
  handle_fetch_response, leader_moved, set_leader, handle_produce_response,
}
use libasynckafkaclient.Partition.Delivery.{handle_fetch_response_lem}
use libasynckafkaclient.Partition.Failures.{
  Handled, handle_produce_response_resends, reconnect_undefined, leader_moved-set_leader,
}
use libasynckafkaclient.Partition.Frames.{Arrives, on_read_ready-dispatch}
use libasynckafkaclient.Partition.Reading.{on_read_ready, dispatch, handle_event}
use libasynckafkaclient.Partition.Transfer.{reconnect}
use libasynckafkaclient.Partition.Kept.{Kept, handle_event-Keeps}
use libasynckafkaclient.Tests.Data.{calm-WritesDone, calm, asio, consumer, producer, sys}

handle_fetch_response_lem_example :
    (s' : Sys) × (handle_fetch_response asio calm 1 [] (sys consumer) ≡ ok s')
    × (s'.part ≡ record consumer { next_fetch_offset = s'.part.next_fetch_offset })
    × (pos 5 ≤ℤ s'.part.next_fetch_offset)
    × (s'.world.trace
        ≡ woke consumer.fetch_event.wakeup_fd ∷ received_data ((105 ∷ []) ∷ (106 ∷ []) ∷ []) ∷ [])
handle_fetch_response_lem_example =
    handle_fetch_response_lem asio calm 1 [] (pos 4) (sys consumer) refl (ground arith) refl refl
      calm-WritesDone

abbrev head : List (List ℕ)
head = (0 ∷ 0 ∷ []) ∷ (0 ∷ 5 ∷ []) ∷ []

abbrev body : List (List ℕ)
body = (0 ∷ 0 ∷ 0 ∷ 1 ∷ []) ∷ (42 ∷ []) ∷ []

frame-Arrives : Arrives calm 0 head body 1
frame-Arrives = record {
  prefix = refl;
  size = refl;
  positive = omega arith;
  fits = omega arith;
  head_comes = (λ n h. refl, omega arith, (λ n h. refl, omega arith, tt));
  body_comes = (λ n h. refl, omega arith, (λ n h. refl, omega arith, tt));
  correlation = refl;
  valid_id = λ e. omega (arith, e);
}

on_read_ready-dispatch_example :
    on_read_ready asio calm 1 (sys consumer)
    ≡ dispatch asio calm 1 1 (0 ∷ 0 ∷ 0 ∷ 1 ∷ 42 ∷ []) (record (sys consumer) {
      world = tocks 2 (tocks 2 (act (slept_ms 1) (sys consumer)).world);
    })
on_read_ready-dispatch_example =
    on_read_ready-dispatch asio calm 1 head body 1 (sys consumer) frame-Arrives

handle_event-Keeps_example :
    Keeps (λ t. Kept producer t.part) (handle_event asio calm 1 (pos 7) aeventin (sys producer))
handle_event-Keeps_example = handle_event-Keeps asio calm 1 (pos 7) aeventin (sys producer)

-- A producer that waits for the response to a request of three bytes.
abbrev waiting : KafkaPartition
waiting = record producer { q_in_transit_produce_request = (0 ∷ 0 ∷ 9 ∷ []) ∷ [] }

timed_out : ¬ Handled (pos 7)
timed_out h = ground arith

handle_produce_response_resends_example :
    (again : List ℕ) × (handle_produce_response asio calm 1 [] (sys waiting)
      ≡ ok (
          push_back api_key_produce again
            (with_part (record waiting { q_in_transit_produce_request = [] }) (sys waiting))))
    × ((again ≡ 0 ∷ 0 ∷ 9 ∷ []) ↔ All (λ (b : ℕ). b ≢ 0) (0 ∷ 0 ∷ 9 ∷ []))
handle_produce_response_resends_example =
    handle_produce_response_resends asio calm 1 [] (sys waiting) (0 ∷ 0 ∷ 9 ∷ []) [] refl refl
      timed_out

reconnect_undefined_example : reconnect asio calm (λ s. ok s) (sys producer) ≡ undefined
reconnect_undefined_example =
    reconnect_undefined asio calm (λ s. ok s) (sys producer) (ground arith)

abbrev high_port : MetadataBroker
high_port = record { node_id = pos 2; host = codes "kafka"; port = pos 40000 }

leader_moved-set_leader_example :
    leader_moved
      (codes "10.0.0.1")
      high_port
      (set_leader high_port (codes "10.0.0.1") (sys producer)).part
    ≡ leb (2 ^ 15) 40000
leader_moved-set_leader_example =
    leader_moved-set_leader high_port (codes "10.0.0.1") 40000 (sys producer) refl (omega arith)
