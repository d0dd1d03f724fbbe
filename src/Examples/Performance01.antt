-- ===== src/Examples/Performance01.antt =====
-- examples/performance-01.cpp: how fast a consumer is. It counts messages and stops when there are enough.
use libasynckafkaclient.Prelude.{
  ℕ, Bool, true, false, not, ◌&&◌, List, length, ◌==◌, str_eq, if◌then◌else◌,
}
use libasynckafkaclient.Prelude.Int.{ℤ, pos, minus_one, ◌+ℤ◌, ◌-ℤ◌, ◌*ℤ◌, leb_ℤ}
use libasynckafkaclient.Config.{
  Str, codes, consumer_p, KafkaFetchOffset, from_beginning, from_end, from_stored,
}
use libasynckafkaclient.Outcome.{Outcome, ok, ◌>>=◌}
use libasynckafkaclient.Os.{Os, World}
use libasynckafkaclient.Asio.{Asio}
use libasynckafkaclient.Client.State.{ClientSys, consumer_start_fetch}
use libasynckafkaclient.Client.Connect.{construct_client}
use libasynckafkaclient.Examples.Arguments.{
  Arguments, Answer, Setup, Started, returned, running, no_arguments, atoi, parse, print,
  print_option, read_port, new_client, loopexit, set_port, set_partition,
}
use libasynckafkaclient.Examples.Performance00.{rate}

-- The globals. Times are milliseconds of the clock; `end` is 0 until it is set.
pub record Program : Type 0 where
  pub consumer : ClientSys
  pub num_msgs : ℤ
  pub num_msgs_consumed : ℤ
  pub start_time : ℤ
  pub end_time : ℤ

abbrev pub short_opts : Str
short_opts = codes "S:P:t:p:o:m:c:h"

unfoldable pub usage : Str → World → World
usage opts w =
    let w1 = print_option opts b'S' "-S <server ip>\n" (print "Usage: \n" w) in
    let w2 = print_option opts b'P' "-P <port number>\n" w1 in
    let w3 = print_option opts b't' "-t <topic>\n" w2 in
    let w4 = print_option opts b'p' "-p <partition ID (-1 for all partitions)>\n" w3 in
    let w5 = print_option opts b'o' "-o <start offset (beginning/stored/end)>\n" w4 in
    let w6 = print_option opts b'm' "-m <Max fetch bytes>\n" w5 in
    let w7 = print_option opts b'c' "-c <# of messages to consume>\n" w6 in
    print_option opts b'h' "-h help\n" w7

-- onReceivedData. `now` is the time that the clock shows.
unfoldable pub on_received_data : ℤ → List Str → Program → Program
on_received_data now msgs p =
    let consumed = p.num_msgs_consumed +ℤ pos (length msgs) in
    let counted = record p { num_msgs_consumed = consumed } in
    if leb_ℤ p.num_msgs consumed
    then record counted { end_time = now; consumer = loopexit p.consumer }
    else counted

unfoldable pub signal_cb : Program → Program
signal_cb p =
    let s = p.consumer in
    record p {
      consumer = loopexit (record s {
        world = print "Caught an interrupt signal; exiting cleanly in one second.\n" s.world;
      });
    }

-- The local variables of main with the global that an option sets; the world holds what is printed.
pub record Options : Type 0 where
  pub args : Arguments
  pub num_msgs : ℤ
  pub world : World

abbrev pub no_options : World → Options
no_options w = record { args = no_arguments; num_msgs = pos 50000; world = w }

abbrev pub with_args : Options → Outcome Arguments → Outcome (Bool × Options)
with_args o m = m >>= λ args. ok (true, (record o { args = args }))

abbrev pub set_start_offset : Str → Options → Options
set_start_offset optarg o =
    let config = o.args.config in
    let starting = λ (from : KafkaFetchOffset). record o {
      args = record (o.args) { config = record config { c_start_offset = from } };
    } in
    if str_eq optarg (codes "beginning")
    then starting from_beginning
    else if str_eq optarg (codes "stored")
    then starting from_stored
    else if str_eq optarg (codes "end")
    then starting from_end
    else record o {
      world = print "incorrect option string for start offset. Taking the defaukl value.\n" o.world;
    }

abbrev pub set_max_bytes : Str → Arguments → Outcome Arguments
set_max_bytes optarg args = atoi optarg >>= λ n.
    ok (record args { config = record (args.config) { c_max_fetch_bytes = n } })

-- The switch of main.
unfoldable pub on_option : ℕ → Str → Options → Outcome (Bool × Options)
on_option c optarg o =
    if c == b'S'
    then with_args o (ok (record (o.args) { server_ip = optarg }))
    else if c == b'P'
    then with_args o (set_port optarg o.args)
    else if c == b't'
    then with_args o (ok (record (o.args) { topic = optarg }))
    else if c == b'p'
    then with_args o (set_partition optarg o.args)
    else if c == b'o'
    then ok (true, (set_start_offset optarg o))
    else if c == b'm'
    then with_args o (set_max_bytes optarg o.args)
    else if c == b'c'
    then (atoi optarg >>= λ n. ok (true, (record o { num_msgs = n })))
    else ok (false, o)

module _ (a : Asio) (os : Os) (fuel rounds : ℕ) where
  -- `now` is the time before startFetch.
  unfoldable pub construct : ℤ → Options → Outcome Program
  unfolding construct_client consumer_start_fetch
  construct now o = do
    port ← read_port o.args.port
    s ← construct_client a os fuel true rounds (new_client consumer_p o.args port o.world)
    s1 ←
        consumer_start_fetch os (record s { client = record (s.client) { on_fetched_data = true } })
    ok (record {
      consumer = s1;
      num_msgs = o.num_msgs;
      num_msgs_consumed = pos 0;
      start_time = now;
      end_time = pos 0;
    })

  -- main up to event_base_dispatch, after its test of argc.
  unfoldable pub set_up : ℤ → Setup → Options → Outcome (Started Program)
  unfolding construct
  set_up now setup o =
      if not setup.base
      then ok (returned (pos 1) (print "Memory allocation failed for event_base\n" o.world))
      else if not (setup.signal_event && setup.signal_added)
      then ok (returned (pos 1) (print "Could not create/add a signal event!\n" o.world))
      else (construct now o >>= λ p. ok (running p))

  unfoldable pub start_main : ℤ → Bool → Setup → List Answer → World → Outcome (Started Program)
  unfolding set_up usage on_option parse
  start_main now without_options setup answers w =
      if without_options then ok (returned minus_one (usage short_opts w)) else (do
        (go_on, o) ← parse on_option answers (no_options w)
        if go_on then set_up now setup o else ok (returned (pos 1) (usage short_opts o.world)))

-- The two rates that main computes after event_base_dispatch, per second; a message counts as 100
-- bytes. It then frees the consumer with free(), which runs no destructor.
unfoldable pub rates : Program → Outcome (ℤ × ℤ)
rates p = do
  let elapsed = p.end_time -ℤ p.start_time
  msgs ← rate (p.num_msgs *ℤ pos 1000) elapsed
  bytes ← rate (p.num_msgs *ℤ pos 100 *ℤ pos 1000) elapsed
  ok (msgs, bytes)
