-- ===== src/Examples/Performance00.antt =====
-- examples/performance-00.cpp: how fast a producer is. It queues messages of one size and stops when the
-- offsets of the responses show that enough have been stored.
use libasynckafkaclient.Prelude.{
  ℕ, zero, suc, ◌+◌, Bool, true, false, not, ◌&&◌, ◌||◌, none, some, List, [], ◌∷◌, get_elem?, set,
  ◌==◌, if◌then◌else◌,
}
use libasynckafkaclient.Prelude.Int.{
  ℤ, pos, negsuc, minus_one, ◌+ℤ◌, ◌-ℤ◌, ◌*ℤ◌, ◌==ℤ◌, leb_ℤ, quot_ℤ, in_int64,
}
use libasynckafkaclient.Config.{Str, codes, producer_p}
use libasynckafkaclient.Outcome.{Outcome, ok, thrown, undefined, ◌>>=◌}
use libasynckafkaclient.Os.{Os, World}
use libasynckafkaclient.Asio.{Asio}
use libasynckafkaclient.Client.State.{ClientSys, producer_start_produce}
use libasynckafkaclient.Client.Produce.{producer_produce}
use libasynckafkaclient.Client.Connect.{construct_producer}
use libasynckafkaclient.Examples.Arguments.{
  Arguments, Answer, Setup, Started, returned, running, no_arguments, atoi, parse, print,
  print_option, read_port, new_client, loopexit, set_port, set_partition, set_batch, set_acks,
}

-- The globals. Times are milliseconds of the clock; `end` is 0 until it is set.
pub record Program : Type 0 where
  pub producer : ClientSys
  pub msg_size : ℤ
  pub num_msgs : ℤ
  pub num_msgs_delivered : ℤ
  pub part_last_offset : List ℤ
  pub first_rsp : Bool
  pub num_sent_msgs : ℕ
  pub start_time : ℤ
  pub end_time : ℤ

abbrev pub replicate : ℕ → ℤ → List ℤ
replicate zero x = []
replicate (suc n) x = x ∷ replicate n x

abbrev pub short_opts : Str
short_opts = codes "S:P:t:p:b:a:s:c:h"

unfoldable pub usage : Str → World → World
usage opts w =
    let w1 = print_option opts b'S' "-S <server ip>\n" (print "Usage: \n" w) in
    let w2 = print_option opts b'P' "-P <port number>\n" w1 in
    let w3 = print_option opts b't' "-t <topic>\n" w2 in
    let w4 = print_option opts b'p' "-p <partition ID (-1 for all partitions)>\n" w3 in
    let w5 = print_option opts b'b' "-b <batch length (# of messages)>\n" w4 in
    let w6 =
      print_option opts b'a'
        "-a <# of required acks(1 = leader only, -1 = All ISR, N = N # of ISRs)>\n" w5 in
    let w7 = print_option opts b's' "-s <size of the message (in bytes)>\n" w6 in
    let w8 = print_option opts b'c' "-c <# of messages>\n" w7 in
    print_option opts b'h' "-h help\n" w8

-- partLastOffset[partition]; outside the vector the access is undefined.
abbrev pub last_offset : ℤ → List ℤ → Outcome ℤ
last_offset (negsuc n) l = undefined
last_offset (pos n) l = elim (get_elem? l n) [ none ↦ undefined | some offset ↦ ok offset ]

abbrev pub with_last_offset : ℤ → ℤ → Program → Program
with_last_offset (negsuc n) offset p = p
with_last_offset (pos n) offset p = record p { part_last_offset = set p.part_last_offset n offset }

-- The response that follows others. `now` is the time that the clock shows.
unfoldable pub later_response : ℤ → ℤ → ℤ → ℤ → Program → Program
later_response now partition offset last p =
    let delivered = p.num_msgs_delivered +ℤ (offset -ℤ last) in
    let counted = record p { num_msgs_delivered = delivered } in
    if leb_ℤ p.num_msgs delivered
    then record counted { end_time = now; producer = loopexit p.producer }
    else with_last_offset partition offset counted

unfoldable pub on_produce_response : ℤ → ℤ → ℤ → Program → Outcome Program
unfolding later_response
on_produce_response now partition offset p = do
  last ← last_offset partition p.part_last_offset
  ok (
      if p.first_rsp
      then with_last_offset partition offset (record p { first_rsp = false })
      else later_response now partition offset last p)

-- std::string(msgSize, 'a'): a negative size is a very large one, for which the constructor throws.
abbrev pub repeated : ℤ → ℕ → Outcome Str
repeated (pos zero) c = ok []
repeated (pos (suc n)) c = repeated (pos n) c >>= λ s. ok (c ∷ s)
repeated (negsuc n) c = thrown

unfoldable pub on_msg_queued : Os → Program → Outcome Program
unfolding producer_produce
on_msg_queued os p = do
  msg ← repeated p.msg_size b'a'
  s ← producer_produce os msg p.producer
  ok (record p { producer = s; num_sent_msgs = p.num_sent_msgs + 1 })

unfoldable pub signal_cb : Program → Program
signal_cb p =
    let s = p.producer in
    record p {
      producer = loopexit (record s {
        world = print "Caught an interrupt signal; exiting cleanly in one second.\n" s.world;
      });
    }

-- The local variables of main with the globals that options set.
pub record Options : Type 0 where
  pub args : Arguments
  pub msg_size : ℤ
  pub num_msgs : ℤ

abbrev pub no_options : Options
no_options = record { args = no_arguments; msg_size = pos 100; num_msgs = pos 50000 }

abbrev pub with_args : Options → Outcome Arguments → Outcome (Bool × Options)
with_args o m = m >>= λ args. ok (true, (record o { args = args }))

-- The switch of main.
unfoldable pub on_option : ℕ → Str → Options → Outcome (Bool × Options)
on_option c optarg o =
    if c == b'S'
    then with_args o (ok (record (o.args) { server_ip = optarg }))
    else if c == b'P'
    then with_args o (set_port optarg o.args)
    else if c == b't'
    then with_args o (ok (record (o.args) { topic = optarg }))
    else if c == b'p'
    then with_args o (set_partition optarg o.args)
    else if c == b'b'
    then with_args o (set_batch optarg o.args)
    else if c == b'a'
    then with_args o (set_acks optarg o.args)
    else if c == b's'
    then (atoi optarg >>= λ n. ok (true, (record o { msg_size = n })))
    else if c == b'c'
    then (atoi optarg >>= λ n. ok (true, (record o { num_msgs = n })))
    else ok (false, o)

module _ (a : Asio) (os : Os) (fuel rounds : ℕ) where
  -- The constructor of KafkaProducer starts the partitions, and main starts them again; `now` is the
  -- time before it does.
  unfoldable pub construct : ℤ → Options → World → Outcome Program
  unfolding construct_producer producer_start_produce
  construct now o w = do
    port ← read_port o.args.port
    s ← construct_producer a os fuel true rounds (new_client producer_p o.args port w)
    s1 ← producer_start_produce os (record s {
      client = record (s.client) { on_produce_response = true; on_msg_queued = true };
    })
    ok (record {
      producer = s1;
      msg_size = o.msg_size;
      num_msgs = o.num_msgs;
      num_msgs_delivered = pos 0;
      part_last_offset = replicate 100 (pos 0);
      first_rsp = true;
      num_sent_msgs = 0;
      start_time = now;
      end_time = pos 0;
    })

  -- main up to event_base_dispatch, after its test of argc.
  unfoldable pub set_up : ℤ → Setup → Options → World → Outcome (Started Program)
  unfolding construct
  set_up now setup o w =
      if not setup.base
      then ok (returned (pos 1) (print "Memory allocation failed for event_base\n" w))
      else if not (setup.signal_event && setup.signal_added)
      then ok (returned (pos 1) (print "Could not create/add a signal event!\n" w))
      else (construct now o w >>= λ p. ok (running p))

  unfoldable pub start_main : ℤ → Bool → Setup → List Answer → World → Outcome (Started Program)
  unfolding set_up usage on_option parse
  start_main now without_options setup answers w =
      if without_options then ok (returned minus_one (usage short_opts w)) else (do
        (go_on, o) ← parse on_option answers no_options
        if go_on then set_up now setup o w else ok (returned (pos 1) (usage short_opts w)))

-- A product of int64_t, which is undefined where it does not fit, by an elapsed time that is not 0.
abbrev pub rate : ℤ → ℤ → Outcome ℤ
rate product elapsed =
    if (elapsed ==ℤ pos 0) || not (in_int64 product) then undefined else ok (quot_ℤ product elapsed)

-- The two rates that main computes after event_base_dispatch, per second. It then frees the producer
-- with free(), which runs no destructor.
unfoldable pub rates : Program → Outcome (ℤ × ℤ)
rates p = do
  let elapsed = p.end_time -ℤ p.start_time
  msgs ← rate (p.num_msgs *ℤ pos 1000) elapsed
  bytes ← rate (p.num_msgs *ℤ p.msg_size *ℤ pos 1000) elapsed
  ok (msgs, bytes)
