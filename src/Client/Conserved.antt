-- ===== src/Client/Conserved.antt =====
-- Every input of a run of a client (src/KafkaClient.cpp with src/KafkaEndpointMP.cpp) keeps the balance of
-- its messages.
use libasynckafkaclient.Prelude.{
  ℕ, ◌≡◌, refl, sym, ◌∙◌, List, [], ◌∷◌, ◌++◌, get_elem?, drop, length, subst, ap, append-nil, true,
  false, some, Bool, if◌then◌else◌,
}
use libasynckafkaclient.Prelude.Int.{◌==ℤ◌}
use libasynckafkaclient.Config.{
  KafkaPartitioningMethod, round_robin, partition_function, kafka_all_partitions,
}
use libasynckafkaclient.Outcome.{Outcome, ok, ◌>>=◌, Keeps, Keeps-bind, Keeps-mono}
use libasynckafkaclient.Os.{Os}
use libasynckafkaclient.Asio.{Asio}
use libasynckafkaclient.Partition.State.{KafkaPartition, Sys}
use libasynckafkaclient.Partition.Requests.{produce}
use libasynckafkaclient.Partition.Reading.{handle_event}
use libasynckafkaclient.Partition.Lifecycle.{Source, fire, start_fetch, start_produce, resume_fetch}
use libasynckafkaclient.Partition.Kept.{handle_event-Keeps}
use libasynckafkaclient.Partition.Queue.{
  Leaves, Keeps-Leaves, produce-Leaves, produced_msgs-Leaves, resume_fetch-Leaves,
}
use libasynckafkaclient.Partition.Carried.{
  produce_frames, added, Carry, no_frame, Passed, fire-Passed,
}
use libasynckafkaclient.Partition.Launch.{start_fetch-Leaves, start_produce-Leaves}
use libasynckafkaclient.Client.State.{
  ClientSys, sys_of, consumer_start_fetch, consumer_pause_fetch, consumer_resume_fetch,
  producer_start_produce, over_partitions,
}
use libasynckafkaclient.Client.Produce.{
  at_partition, route, advance, producer_produce, producer_produce_msgs, produce_list,
}
use libasynckafkaclient.Client.Queues.{
  ChangedAt, queue, at_partition-ChangedAt, over_partitions-SameQueues,
  consumer_pause_fetch-SameQueues,
}
use libasynckafkaclient.Client.Runs.{
  Log, Input, socket, source, message, messages, starts_fetch, pauses_fetch, resumes_fetch,
  starts_produce, frames_of, routed, given, requested, step, run, Logged, started,
}
use libasynckafkaclient.Client.Balance.{
  Balanced, Balanced-trans, Only, Only-none, Only-one, ChangedAt-Balanced, SameQueues-Balanced,
}

at_partition-Balanced :
    (a : Asio) (i : ℕ) (op : Sys → Outcome Sys) (g : List (List ℕ)) (gs : Log) (s : ClientSys)
    → ((p : KafkaPartition) → Leaves (p.q_msgs ++ g) (op (sys_of p s)))
    → Only i g gs
    → Keeps (Balanced a s gs []) (at_partition i op s)
at_partition-Balanced a i op g gs s leaves og =
    let P : KafkaPartition → KafkaPartition → Type 0 = λ p q. q.q_msgs ≡ p.q_msgs ++ g in
    Keeps-mono (ChangedAt i P s) (Balanced a s gs []) (at_partition i op s)
      (λ u c.
        ChangedAt-Balanced a i P g [] gs [] s u c og (Only-none i) ([], no_frame, sym c.related))
      (at_partition-ChangedAt i op P s leaves)

frames_of-here :
    (i : ℕ) (s : ClientSys) (p : KafkaPartition)
    → get_elem? s.client.partitions i ≡ some p
    → frames_of i s ≡ produce_frames p.dq_write_buffers
frames_of-here i s p here = rw (frames_of, here) refl

source-Balanced :
    (a : Asio) (os : Os) (i : ℕ) (src : Source) (s u : ClientSys)
    → ChangedAt i (Passed a) s u
    → Balanced a s [] (requested (source i src) s u) u
source-Balanced a os i src s u c =
    let r = drop (length (frames_of i s)) (frames_of i u) in
    let (m, carry, e) = c.related in
    let same : r ≡ added c.before c.after =
      ap (λ l. drop (length l) (frames_of i u)) (frames_of-here i s c.before c.was)
      ∙ ap (drop (length (produce_frames c.before.dq_write_buffers)))
          (frames_of-here i u c.after c.becomes) in
    ChangedAt-Balanced a i (Passed a) [] r [] (requested (source i src) s u) s u c (Only-none i)
      (Only-one i r) (m, subst (λ l. Carry a l m) (sym same) carry, append-nil c.before.q_msgs ∙ e)

over_partitions-Balanced :
    (a : Asio) (op : Sys → Outcome Sys) (s : ClientSys)
    → ((t : Sys) → Leaves t.part.q_msgs (op t))
    → Keeps (Balanced a s [] []) (over_partitions op s)
over_partitions-Balanced a op s leaves =
    Keeps-mono _ (Balanced a s [] []) (over_partitions op s) (SameQueues-Balanced a s)
      (over_partitions-SameQueues op s leaves)

module _ (a : Asio) (op : Sys → Outcome Sys) (msgs : List (List ℕ)) (s : ClientSys)
    (leaves : (t : Sys) → Leaves (t.part.q_msgs ++ msgs) (op t)) where
  one-Balanced : (i : ℕ) → Keeps (Balanced a s ((i, msgs) ∷ []) []) (at_partition i op s)
  one-Balanced i =
      at_partition-Balanced a i op msgs ((i, msgs) ∷ []) s (λ p. leaves (sys_of p s))
        (Only-one i msgs)

  chosen-Balanced :
      (all : Bool) (method : KafkaPartitioningMethod)
      → Keeps
          (Balanced a s
            (if all
              then elim method [
                | round_robin ↦ (s.curr_partition, msgs) ∷ []
                | partition_function ↦ []
              ]
              else (0, msgs) ∷ [])
            [])
          (if all
            then elim method [
              | round_robin ↦ (at_partition s.curr_partition op s >>= λ s1. ok (advance s1))
              | partition_function ↦ ok s
            ]
            else at_partition 0 op s)
  chosen-Balanced false method = one-Balanced 0
  chosen-Balanced true round_robin =
      Keeps-bind _ (Balanced a s ((s.curr_partition, msgs) ∷ []) [])
        (at_partition s.curr_partition op s) (λ u. ok (advance u)) (one-Balanced s.curr_partition)
        (λ u h. h)
  chosen-Balanced true partition_function = λ j. ([], no_frame, append-nil (queue j s))

  route-Balanced : Keeps (Balanced a s (routed msgs s) []) (route op s)
  unfolding route
  route-Balanced =
      chosen-Balanced (s.client.partition ==ℤ kafka_all_partitions)
        s.client.config.p_partitioning_method

module _ (a : Asio) (os : Os) (fuel : ℕ) where
  -- What an input does to the state that follows it.
  abbrev Step : Input → ClientSys → ClientSys → Type 0
  Step x s u = Balanced a s (given x s) (requested x s u) u

  step-Balanced : (x : Input) (s : ClientSys) → Keeps (Step x s) (step a os fuel x s)
  unfolding producer_produce producer_produce_msgs consumer_start_fetch consumer_resume_fetch
      producer_start_produce
  step-Balanced (socket i fd flags) s =
      at_partition-Balanced a i (handle_event a os fuel fd flags) [] [] s
        (λ p.
          subst (λ q. Leaves q (handle_event a os fuel fd flags (sys_of p s)))
            (sym (append-nil p.q_msgs))
            (Keeps-Leaves p _ (handle_event-Keeps a os fuel fd flags (sys_of p s))))
        (Only-none i)
  step-Balanced (source i src) s =
      Keeps-mono (ChangedAt i (Passed a) s) (Step (source i src) s)
        (at_partition i (fire a os src) s) (source-Balanced a os i src s)
        (at_partition-ChangedAt i (fire a os src) (Passed a) s
          (λ p. fire-Passed a os src (sys_of p s)))
  step-Balanced (message msg) s =
      route-Balanced a (produce os msg) (msg ∷ []) s (produce-Leaves os msg)
  step-Balanced (messages msgs) s =
      route-Balanced a (produce_list os msgs) msgs s (produced_msgs-Leaves os msgs)
  step-Balanced starts_fetch s =
      over_partitions-Balanced a (start_fetch os) s (start_fetch-Leaves os)
  step-Balanced pauses_fetch s =
      SameQueues-Balanced a s (consumer_pause_fetch s) (consumer_pause_fetch-SameQueues s)
  step-Balanced resumes_fetch s =
      over_partitions-Balanced a (resume_fetch os) s (resume_fetch-Leaves os)
  step-Balanced starts_produce s =
      over_partitions-Balanced a (start_produce os) s (start_produce-Leaves os)

  abbrev Sound : ClientSys → Logged → Type 0
  Sound s l = Balanced a s l.all_given l.all_requested l.client

  run-Sound :
      (xs : List Input) (s : ClientSys) (l : Logged)
      → Sound s l
      → Keeps (Sound s) (run a os fuel xs l)
  run-Sound [] s l h = h
  run-Sound (x ∷ xs) s l h =
      Keeps-bind (Step x l.client) (Sound s) (step a os fuel x l.client) _
        (step-Balanced x l.client)
        (λ u k. run-Sound xs s _ (
          Balanced-trans a s l.client u l.all_given (given x l.client) l.all_requested
            (requested x l.client u) h k))

-- Let a client run over any sequence of inputs: events of the sockets and of the sources of all its
-- partitions, produce of a message or of a list, startFetch, pauseFetch, resumeFetch and startProduce,
-- in any order and with whatever answers of the network and the system calls. In each state that it
-- reaches, for each partition, the frames of produce requests that the events of its sources have
-- appended to its write buffers, read off the buffers before and after each event, hold messages, in
-- order, which followed by those that are still queued are those that were queued at the start, followed
-- by those that produce has put there since: between produce and the requests none is lost, doubled,
-- overtaken or moved to another partition.
pub run-Balanced :
    (a : Asio) (os : Os) (fuel : ℕ) (xs : List Input) (s : ClientSys)
    → Keeps (λ l. Balanced a s l.all_given l.all_requested l.client) (run a os fuel xs (started s))
run-Balanced a os fuel xs s =
    run-Sound a os fuel xs s (started s) (λ j. ([], no_frame, append-nil (queue j s)))
