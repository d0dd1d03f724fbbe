-- ===== src/Examples/Producer00.antt =====
-- examples/producer-00.cpp: a producer that queues a numbered message whenever the queue's event fires.
use libasynckafkaclient.Prelude.{
  ℕ, ◌+◌, Bool, true, false, not, ◌&&◌, none, some, List, [], ◌∷◌, ◌++◌, get_elem?, ◌==◌,
  if◌then◌else◌,
}
use libasynckafkaclient.Prelude.Int.{ℤ, pos, minus_one}
use libasynckafkaclient.Config.{Str, codes, producer_p}
use libasynckafkaclient.Outcome.{Outcome, ok, undefined, ◌>>=◌}
use libasynckafkaclient.Os.{Os, World, log, printed}
use libasynckafkaclient.Decimal.{show_ℕ, show_ℤ}
use libasynckafkaclient.Asio.{Asio}
use libasynckafkaclient.Partition.Lifecycle.{fire, produce_msg_q_source}
use libasynckafkaclient.Client.State.{ClientSys, producer_start_produce, handle_msg_queued_response}
use libasynckafkaclient.Client.Produce.{at_partition, producer_produce}
use libasynckafkaclient.Client.Connect.{construct_producer}
use libasynckafkaclient.Examples.Arguments.{
  Arguments, Answer, Setup, Started, returned, running, no_arguments, parse, print, print_option,
  read_port, new_client, loopexit, set_port, set_partition, set_batch, set_acks,
}

-- The program while its event loop runs.
pub record Program : Type 0 where
  pub producer : ClientSys
  pub num_mesgs : ℕ

abbrev pub short_opts : Str
short_opts = codes "S:P:t:p:b:a:h"

unfoldable pub usage : Str → World → World
usage opts w =
    let w1 = print_option opts b'S' "-S <server ip>\n" (print "Usage: \n" w) in
    let w2 = print_option opts b'P' "-P <port number>\n" w1 in
    let w3 = print_option opts b't' "-t <topic>\n" w2 in
    let w4 = print_option opts b'p' "-p <partition ID (-1 for all partitions)>\n" w3 in
    let w5 = print_option opts b'b' "-b <batch length (# of messages)>\n" w4 in
    let w6 =
      print_option opts b'a'
        "-a <# of required acks(1 = leader only, -1 = All ISR, N = N # of ISRs)>\n" w5 in
    print_option opts b'h' "-h help\n" w6

abbrev pub with_world : World → Program → Program
with_world w p = record p { producer = record (p.producer) { world = w } }

unfoldable pub on_produce_response : Str → ℤ → ℤ → Program → Program
unfolding show_ℤ
on_produce_response topic partition offset p =
    with_world
      (log
        (printed
          (codes "Messages produced on server. The last offset is: " ++ show_ℤ offset ++ 10 ∷ []))
        p.producer.world)
      p

-- The text of the message with this number.
abbrev pub message : ℕ → Str
message n = codes "The mssage number is : " ++ show_ℕ n

unfoldable pub on_msg_queued : Os → Program → Outcome Program
unfolding producer_produce show_ℕ
on_msg_queued os p = do
  let n = p.num_mesgs + 1
  s ← producer_produce os (message n) p.producer
  ok (record { producer = s; num_mesgs = n })

-- handleMsgQueuedResponse of the client, with the callback that the program binds.
unfoldable pub client_msg_queued : Os → ClientSys → Program → Outcome Program
unfolding handle_msg_queued_response on_msg_queued
client_msg_queued os s p =
    let called = record p { producer = handle_msg_queued_response s } in
    if s.client.on_msg_queued then on_msg_queued os called else ok called

-- What the event of a partition's message queue sets off: notifyProduceMsgQ of the partition, and the
-- callback of the client, where the partition has it.
unfoldable pub queue_event : Asio → Os → ℕ → Program → Outcome Program
unfolding at_partition fire client_msg_queued
queue_event a os i p = elim (get_elem? p.producer.client.partitions i) [
  | none ↦ undefined
  | some part ↦ (do
    s ← at_partition i (fire a os produce_msg_q_source) p.producer
    if part.on_msg_queued then client_msg_queued os s p else ok (record p { producer = s }))
]

unfoldable pub signal_cb : Program → Program
signal_cb p =
    let s = p.producer in
    record p {
      producer = loopexit (record s {
        world = print "Caught an interrupt signal; exiting cleanly in one second.\n" s.world;
      });
    }

-- The switch of main. pBatchNumMsgs and pRequiredAcks take what atoi answers.
unfoldable pub on_option : ℕ → Str → Arguments → Outcome (Bool × Arguments)
on_option c optarg args =
    if c == b'S'
    then ok (true, (record args { server_ip = optarg }))
    else if c == b'P'
    then (set_port optarg args >>= λ args1. ok (true, args1))
    else if c == b't'
    then ok (true, (record args { topic = optarg }))
    else if c == b'p'
    then (set_partition optarg args >>= λ args1. ok (true, args1))
    else if c == b'b'
    then (set_batch optarg args >>= λ args1. ok (true, args1))
    else if c == b'a'
    then (set_acks optarg args >>= λ args1. ok (true, args1))
    else ok (false, args)

module _ (a : Asio) (os : Os) (fuel rounds : ℕ) where
  -- The constructor of KafkaProducer starts the partitions, and main starts them again.
  unfoldable pub construct : Arguments → World → Outcome Program
  unfolding construct_producer producer_start_produce
  construct args w = do
    port ← read_port args.port
    s ← construct_producer a os fuel true rounds (new_client producer_p args port w)
    s1 ← producer_start_produce os (record s {
      client = record (s.client) { on_produce_response = true; on_msg_queued = true };
    })
    ok (record { producer = s1; num_mesgs = 0 })

  -- main up to event_base_dispatch, after its test of argc.
  unfoldable pub set_up : Setup → Arguments → World → Outcome (Started Program)
  unfolding construct
  set_up setup args w =
      if not setup.base
      then ok (returned (pos 1) (print "Memory allocation failed for event_base\n" w))
      else if not (setup.signal_event && setup.signal_added)
      then ok (returned (pos 1) (print "Could not create/add a signal event!\n" w))
      else (construct args w >>= λ p. ok (running p))

  unfoldable pub start_main : Bool → Setup → List Answer → World → Outcome (Started Program)
  unfolding set_up usage on_option parse
  start_main no_options setup answers w =
      if no_options then ok (returned minus_one (usage short_opts w)) else (do
        (go_on, args) ← parse on_option answers no_arguments
        if go_on then set_up setup args w else ok (returned (pos 1) (usage short_opts w)))

-- What main prints after event_base_dispatch. It then frees the producer with free(), which runs no
-- destructor.
unfoldable pub report : Program → World
unfolding show_ℕ
report p =
    log (printed (codes "Message Produced = " ++ show_ℕ p.num_mesgs ++ 10 ∷ 10 ∷ []))
      p.producer.world
