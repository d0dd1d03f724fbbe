-- ===== src/Tests/Serving.antt =====
-- A producer whose requests are written when its socket can take them, and one that starts twice.
use libasynckafkaclient.Prelude.{ℕ, ◌≡◌, ◌≢◌, refl, false, none, some, List, [], ◌∷◌, arith}
use libasynckafkaclient.Prelude.Int.{ℤ, pos, ◌==ℤ◌}
use libasynckafkaclient.Outcome.{ok, ◌>>=◌}
use libasynckafkaclient.Os.{woke}
use libasynckafkaclient.Wakeup.{wakeup}
use libasynckafkaclient.Reactor.{Event, Reactor, find_fd, new_event, aeventin}
use libasynckafkaclient.Reactor.Invariant.{Inv}
use libasynckafkaclient.Reactor.Refines.{Call, register, unregister, run, replay, view, run_refines}
use libasynckafkaclient.Asio.{Asio}
use libasynckafkaclient.Partition.State.{Sys}
use libasynckafkaclient.Partition.Requests.{produce, enqueue, push_msg, produce_batches}
use libasynckafkaclient.Partition.Responses.{handle_produce_response}
use libasynckafkaclient.Partition.Lifecycle.{fire, produce_source, start_produce}
use libasynckafkaclient.Partition.Calls.{after_wake}
use libasynckafkaclient.Partition.Writing.{sent_all}
use libasynckafkaclient.Partition.Carried.{Carry}
use libasynckafkaclient.Partition.Runs.{Run, start, on_produce}
use libasynckafkaclient.Partition.Pending.{Serving, Served, nothing_waits, EventsMade}
use libasynckafkaclient.Partition.Serving.{Accepts, Run-Served, handle_produce_response_unwatched}
use libasynckafkaclient.Partition.Progress.{writable, Run-flushes}
use libasynckafkaclient.Partition.Restarts.{queue_fd, start_produce_twice}
use libasynckafkaclient.Tests.Data.{asio, calm, calm-WritesDone, producer, reactor, sys, world}
use libasynckafkaclient.Tests.Sending.{
  OtherFd, calm-Fresh, s0-Watched, calm-WritesUpTo, calm-EventsAdded, calm-Opens,
}

calm-EventsMade : EventsMade calm
calm-EventsMade t = refl

-- A broker that accepts every produce request.
abbrev accepting : Asio
accepting = record asio { read_produce = λ frame topic partition. (pos 0, none) }

accepting-Accepts : Accepts accepting
accepting-Accepts frame topic partition = refl

abbrev idle : Sys
idle = sys (record producer { dq_write_buffers = [] })

idle-Serving : Serving OtherFd idle
idle-Serving = record {
  watched = record { well_formed = s0-Watched.well_formed; known = s0-Watched.known };
  based = refl;
  outward = refl;
  served = nothing_waits refl;
}

abbrev given : Sys
given = after_wake producer.produce_msg_q_event (push_msg (98 ∷ []) idle)

one_more : produce calm (98 ∷ []) idle ≡ ok given
unfolding produce enqueue wakeup
one_more = refl

Run-Served_example : Served given
Run-Served_example =
    Run-Served accepting calm 1 OtherFd calm-Fresh calm-EventsMade accepting-Accepts idle-Serving
      (on_produce (98 ∷ []) start one_more)

Run-flushes_example :
    (t' : Sys) × ((fire asio calm produce_source given >>= writable asio calm 1 1) ≡ ok t')
    × ((frames : List (List ℕ)) × Run asio calm 1 idle ((98 ∷ []) ∷ []) frames t'
        × Carry asio frames ((97 ∷ []) ∷ (98 ∷ []) ∷ []))
    × (t'.part.q_msgs ≡ [])
    × (t'.part.dq_write_buffers ≡ [])
    × (t'.world.trace ≡ sent_all (pos 7) ((0, 0 ∷ 97 ∷ 98 ∷ []) ∷ []) given.world.trace)
unfolding produce_batches
Run-flushes_example =
    Run-flushes asio calm 1 1000 (on_produce (98 ∷ []) start one_more) calm-EventsAdded
      calm-WritesUpTo (ground arith) (omega arith)

abbrev reading : Event
reading = new_event reactor (pos 7) 0 aeventin false

-- A producer with one request in transit, whose socket is watched for reading.
abbrev waiting : Sys
waiting = record {
  part = record (idle.part) { q_in_transit_produce_request = (1 ∷ 2 ∷ []) ∷ [] };
  reactor = record reactor { events = (pos 7, reading) ∷ []; live = reading ∷ []; next_id = 1 };
  world = world;
}

reading_found : find_fd (pos 7) waiting.reactor.events ≡ some reading
unfolding find_fd
reading_found = refl

handle_produce_response_unwatched_example :
    (s' : Sys) × (handle_produce_response asio calm 1 [] waiting ≡ ok s')
    × (s'.part.dq_write_buffers ≢ [])
    × ¬ Served s'
handle_produce_response_unwatched_example =
    handle_produce_response_unwatched asio calm 1 [] waiting (1 ∷ 2 ∷ []) [] reading refl refl
      (ground arith) refl reading_found refl

none_yet : find_fd (pos 23) reactor.events ≡ none
unfolding find_fd
none_yet = refl

start_produce_twice_example :
    (s1 s2 : Sys) × (start_produce calm idle ≡ ok s1)
    × (start_produce calm s1 ≡ ok s2)
    × (s1.part.produce_msg_q_event.wakeup_fd ≡ pos 23)
    × ((s2.part.produce_msg_q_event.wakeup_fd ==ℤ pos 23) ≡ false)
    × ((ev : Event) × (find_fd (pos 23) s2.reactor.events ≡ some ev) × (ev.event_data ≡ 2))
    × (s2.world.trace ≡ woke (queue_fd calm s1) ∷ woke (pos 23) ∷ [])
start_produce_twice_example =
    start_produce_twice calm idle calm-Opens calm-EventsAdded calm-EventsMade calm-WritesDone
      (λ t u ne. ground arith) refl none_yet

abbrev calls : List Call
calls = register (pos 7) 0 3 ∷ register (pos 8) 1 1 ∷ unregister (pos 7) ∷ []

run_refines_example :
    (r' : Reactor) × (run calls reactor ≡ ok r')
    × Inv r'
    × ((k : ℤ) → view r' k ≡ replay calls (view reactor) k)
run_refines_example = run_refines calls reactor s0-Watched.well_formed refl
