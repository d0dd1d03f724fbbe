-- ===== src/Tests/Sending.antt =====
-- A producer that is given messages, makes requests of them and is destroyed.
use libasynckafkaclient.Prelude.{ℕ, ◌+◌, ◌≤◌, ◌<◌, ◌≡◌, ◌↔◌, refl, List, [], ◌∷◌, ◌++◌, All, arith}
use libasynckafkaclient.Prelude.Int.{ℤ, pos}
use libasynckafkaclient.Config.{codes}
use libasynckafkaclient.Outcome.{Outcome, ok, ◌>>=◌}
use libasynckafkaclient.Os.{slept_ms, closed, woke}
use libasynckafkaclient.Wakeup.{wakeup}
use libasynckafkaclient.Reactor.{register_fd_callback, unregister_fd_callback, find_fd, insert_fd}
use libasynckafkaclient.Partition.State.{Sys, register}
use libasynckafkaclient.Partition.Calls.{EventsAdded, after_wake}
use libasynckafkaclient.Partition.Requests.{
  produce_msgs, produce, enqueue, enqueue_all, enqueue_next, push_msg, produce_batches, batch_limit,
  create_produce_request, produce_header,
}
use libasynckafkaclient.Partition.Batches.{
  all_values, tag, payload, AllButLast, produce_batches-values, produce_batches-bounded,
}
use libasynckafkaclient.Partition.Writing.{WritesUpTo, sent_all}
use libasynckafkaclient.Partition.Transfer.{destroy, on_write_ready}
use libasynckafkaclient.Partition.Closing.{destroy-sent_all}
use libasynckafkaclient.Partition.Produce.{
  IsBatching, Queued, produce_one_by_one, produce_msgs-Queued, produce_msgs-produce,
}
use libasynckafkaclient.Partition.Ending.{Ends, on_write_ready-Ends}
use libasynckafkaclient.Partition.Lifecycle.{fire, produce_source, start_produce, start_fetch}
use libasynckafkaclient.Partition.Carried.{Carry}
use libasynckafkaclient.Partition.Runs.{start, on_produce, on_source, Run-q_msgs}
use libasynckafkaclient.Reactor
use libasynckafkaclient.Partition.Watched.{Fresh, Watched}
use libasynckafkaclient.Partition.Leaks.{Run-destroy-live}
use libasynckafkaclient.Partition.Timers.{Opens, start_produce-IsArmed, start_fetch-IsArmed}
use libasynckafkaclient.Periodic.Timer.{IsArmed}
use libasynckafkaclient.Tests.Data.{calm-WritesDone, calm, asio, producer, consumer, sys}

abbrev pub s0 : Sys
s0 = sys producer

pub calm-WritesUpTo : WritesUpTo 1000 calm
calm-WritesUpTo t = (1000, refl, omega arith)

pub calm-EventsAdded : EventsAdded calm
calm-EventsAdded t = refl

pub calm-Opens : Opens calm
calm-Opens = (λ t. ground arith, λ t. ground arith, λ t. refl)

abbrev batching : IsBatching 2 producer
batching = record {
  producer = refl;
  batch_length = refl;
  positive = omega arith;
  within = omega arith;
}

-- The producer after one more message, and after the requests have been made.
abbrev s1 : Sys
s1 = after_wake producer.produce_msg_q_event (push_msg (98 ∷ []) s0)

abbrev reached : Outcome Sys → Sys
reached (ok s) = s
reached _ = s0

abbrev s2 : Sys
s2 = reached (create_produce_request asio calm s1)

one_more : produce calm (98 ∷ []) s0 ≡ ok s1
unfolding produce enqueue wakeup
one_more = refl

requests_made : fire asio calm produce_source s1 ≡ ok s2
unfolding fire create_produce_request register register_fd_callback unregister_fd_callback find_fd
    insert_fd
requests_made = refl

Run-q_msgs_example :
    (msgs : List (List ℕ)) × Carry asio ((0 ∷ 97 ∷ 98 ∷ []) ∷ []) msgs
    × ((97 ∷ []) ∷ (98 ∷ []) ∷ [] ≡ msgs ++ s2.part.q_msgs)
unfolding create_produce_request register register_fd_callback
Run-q_msgs_example =
    Run-q_msgs asio calm 1
      (on_source produce_source (on_produce (98 ∷ []) start one_more) requests_made)

-- A descriptor that socket() never answers.
abbrev pub OtherFd : ℤ → Type 0
OtherFd k = k ≡ pos 99

pub calm-Fresh : Fresh OtherFd calm
calm-Fresh t e = ground arith

pub s0-Watched : Watched OtherFd s0
unfolding find_fd
s0-Watched = record {
  well_formed = record { tracked = refl; fresh = tt; distinct = tt; filed = tt };
  known = λ k ev found. absurd (ground arith);
}

Run-destroy-live_example : Watched OtherFd s2 × ((Reactor.destroy s2.reactor).live ≡ [])
Run-destroy-live_example =
    Run-destroy-live asio calm 1 OtherFd calm-Fresh s0-Watched
      (on_source produce_source (on_produce (98 ∷ []) start one_more) requests_made)

destroy-sent_all_example :
    (s' : Sys) × (destroy asio calm 3 1 s0 ≡ ok s')
    × (s'.part.q_msgs ≡ [])
    × (s'.part.dq_write_buffers ≡ [])
    × (s'.world.trace
        ≡ closed (pos 7) ∷ slept_ms 10 ∷ sent_all (pos 7) ((3, 3 ∷ []) ∷ (0, 0 ∷ 97 ∷ []) ∷ []) [])
unfolding produce_batches
destroy-sent_all_example =
    destroy-sent_all asio calm 1000 3 1 s0 calm-EventsAdded calm-WritesUpTo (ground arith)
      (omega arith) (omega arith)

on_write_ready-Ends_example : Ends 0 (on_write_ready asio calm 1 s0)
on_write_ready-Ends_example =
    on_write_ready-Ends asio calm 0 1 s0 (λ t h e. cc) (omega arith) (omega arith)

produce_batches-values_example :
    (all_values asio (produce_batches asio producer) ≡ tag (codes "logs") (pos 0) (97 ∷ []) ∷ [])
    × All (λ r. r.0 ≡ produce_header asio producer.config) (produce_batches asio producer)
produce_batches-values_example = produce_batches-values asio producer

produce_batches-bounded_example :
    All (λ r. payload r.1 < batch_limit producer.config + 1 + 10) (produce_batches asio producer)
    × AllButLast (λ r. batch_limit producer.config ≤ payload r.1) (produce_batches asio producer)
produce_batches-bounded_example =
    produce_batches-bounded asio producer 1 (omega arith) (ground arith)

abbrev two_msgs : List (List ℕ)
two_msgs = (98 ∷ []) ∷ (99 ∷ []) ∷ []

-- A producer whose event sources have been opened.
abbrev opened : Sys
opened = sys (record producer {
  produce_event = record (producer.produce_event) { wakeup_fd = pos 8 };
  produce_msg_q_event = record (producer.produce_msg_q_event) { wakeup_fd = pos 9 };
})

abbrev opened-batching : IsBatching 2 opened.part
opened-batching = record {
  producer = batching.producer;
  batch_length = batching.batch_length;
  positive = batching.positive;
  within = batching.within;
}

-- The second message finds the batch full.
one_batch :
    (produce_msgs calm two_msgs opened >>= λ r. ok r.1.world.trace)
    ≡ ok (woke (pos 9) ∷ woke (pos 8) ∷ [])
unfolding produce_msgs enqueue_all enqueue_next wakeup
one_batch = refl

produce_msgs-Queued_example :
    (k : ℕ) × (s1 : Sys) × (produce_msgs calm two_msgs opened
      ≡ ok (0, after_wake s1.part.produce_msg_q_event s1))
    × Queued 2 two_msgs k opened s1
produce_msgs-Queued_example =
    produce_msgs-Queued calm 2 two_msgs opened (λ e. cc) calm-WritesDone opened-batching

produce_msgs-produce_example :
    (s1 s2 : Sys) × (produce_msgs calm two_msgs opened ≡ ok (0, s1))
    × (produce_one_by_one calm two_msgs opened ≡ ok s2)
    × (s1.part ≡ s2.part)
    × (produce_msgs calm ((98 ∷ []) ∷ []) opened
        ≡ (produce calm (98 ∷ []) opened >>= λ s'. ok (0, s')))
produce_msgs-produce_example =
    produce_msgs-produce calm (98 ∷ []) ((99 ∷ []) ∷ []) opened calm-WritesDone

start_produce-IsArmed_example :
    (s' : Sys) × (start_produce calm s0 ≡ ok s')
    × (IsArmed s'.part.p_req_timer_event.spec ↔ (1000 ≤ 5000))
    × (s'.part.q_msgs ≡ (97 ∷ []) ∷ [])
    × (s'.part.dq_write_buffers ≡ (3, 3 ∷ []) ∷ [])
start_produce-IsArmed_example =
    start_produce-IsArmed calm s0 calm-Opens calm-EventsAdded calm-WritesDone

start_fetch-IsArmed_example :
    (s' : Sys) × (start_fetch calm (sys consumer) ≡ ok s')
    × (IsArmed s'.part.oc_timer_event.spec ↔ (1000 ≤ 60000))
start_fetch-IsArmed_example =
    start_fetch-IsArmed calm (sys consumer) calm-Opens calm-EventsAdded calm-WritesDone
