-- ===== src/Examples/Arguments.antt =====
-- What the programs of examples/ have in common: the arguments of their main functions, the loop over
-- getopt_long, atoi, and the set-up of the event loop.
use libasynckafkaclient.Prelude.{
  ℕ, zero, suc, ◌^◌, Bool, true, false, Option, none, some, List, [], ◌∷◌, ltb, ◌==◌, if◌then◌else◌,
}
use libasynckafkaclient.Prelude.Int.{ℤ, pos, negsuc, minus_one, int16_of_ℤ}
use libasynckafkaclient.Config.{Str, codes, KafkaClientConfig, KafkaPartitionType, default_init}
use libasynckafkaclient.Outcome.{Outcome, ok, undefined, ◌>>=◌}
use libasynckafkaclient.Os.{World, log, printed}
use libasynckafkaclient.Decimal.{is_space, read_digits}
use libasynckafkaclient.Reactor.{new_reactor, shutdown}
use libasynckafkaclient.Client.State.{ClientSys}
use Prim.Native.String.{String}

-- The local variables of main. `port` has no initial value.
pub record Arguments : Type 0 where
  pub server_ip : Str
  pub port : Option ℤ
  pub topic : Str
  pub partition_id : ℤ
  pub config : KafkaClientConfig

abbrev pub no_arguments : Arguments
no_arguments = record {
  server_ip = [];
  port = none;
  topic = [];
  partition_id = minus_one;
  config = default_init;
}

-- An answer of getopt_long: the option's letter and optarg.
abbrev pub Answer : Type 0
Answer = ℕ × Str

-- The value of atoi; outside the range of int its behaviour is undefined.
abbrev pub in_int_range : Bool → ℕ → Outcome ℤ
in_int_range false n = if ltb n (2 ^ 31) then ok (pos n) else undefined
in_int_range true zero = ok (pos 0)
in_int_range true (suc n) = if ltb n (2 ^ 31) then ok (negsuc n) else undefined

unfoldable pub atoi : Str → Outcome ℤ
unfolding read_digits
atoi [] = ok (pos 0)
atoi (c ∷ s) =
    let rest = atoi s in
    if is_space c
    then rest
    else if c == b'-'
    then in_int_range true (read_digits 0 s)
    else if c == b'+'
    then in_int_range false (read_digits 0 s)
    else in_int_range false (read_digits 0 (c ∷ s))

-- The loop over getopt_long, with what one answer does; false says that usage is shown and main returns.
module _ {A : Type 0} (on_option : ℕ → Str → A → Outcome (Bool × A)) where
  unfoldable pub parse : List Answer → A → Outcome (Bool × A)
  parse [] args = ok (true, args)
  parse ((c, optarg) ∷ answers) args = do
    (go_on, args1) ← on_option c optarg args
    let rest = parse answers args1
    if go_on then rest else ok (false, args1)

-- strchr(short_opts, c).
abbrev pub strchr : Str → ℕ → Bool
strchr [] c = false
strchr (b ∷ s) c = if b == c then true else strchr s c

abbrev pub print : String → World → World
print text w = log (printed (codes text)) w

-- A line of usage.
abbrev pub print_option : Str → ℕ → String → World → World
print_option short_opts c text w = if strchr short_opts c then print text w else w

-- A read of the port, which is undefined where it has not been set.
abbrev pub read_port : Option ℤ → Outcome ℤ
read_port none = undefined
read_port (some port) = ok port

-- What event_base_new, evsignal_new and event_add answer.
pub record Setup : Type 0 where
  pub base : Bool
  pub signal_event : Bool
  pub signal_added : Bool

-- The client before the constructor's body, in a new process.
abbrev pub new_client : KafkaPartitionType → Arguments → ℤ → World → ClientSys
new_client partition_type args port w = record {
  client = record {
    partition = args.partition_id;
    broker = args.server_ip;
    service = port;
    topic = args.topic;
    config = args.config;
    partition_type = partition_type;
    partitions = [];
    brokers = [];
    on_fetched_data = false;
    on_produce_response = false;
    on_msg_queued = false;
  };
  reactor = new_reactor;
  world = w;
  curr_partition = 0;
}

-- event_base_loopexit on the base that the client uses; the delay is left to libevent.
abbrev pub loopexit : ClientSys → ClientSys
loopexit s = record s { reactor = shutdown s.reactor }

-- The options that all the programs share. `int16_t` variables take what atoi answers.
abbrev pub set_port : Str → Arguments → Outcome Arguments
set_port optarg args = atoi optarg >>= λ n. ok (record args { port = some (int16_of_ℤ n) })

abbrev pub set_partition : Str → Arguments → Outcome Arguments
set_partition optarg args = atoi optarg >>= λ n. ok (record args { partition_id = int16_of_ℤ n })

-- The return of main before the event loop, or the program that runs in it.
pub data Started (P : Type 0) : Type 0 where
  returned : ℤ → World → Started P
  running : P → Started P

-- The options of the producers; pRequiredAcks is an int16_t.
abbrev pub set_batch : Str → Arguments → Outcome Arguments
set_batch optarg args =
    atoi optarg >>= λ n. ok (record args { config = record (args.config) { p_batch_num_msgs = n } })

abbrev pub set_acks : Str → Arguments → Outcome Arguments
set_acks optarg args = atoi optarg >>= λ n.
    ok (record args { config = record (args.config) { p_required_acks = int16_of_ℤ n } })
