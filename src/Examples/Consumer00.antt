-- ===== src/Examples/Consumer00.antt =====
-- examples/consumer-00.cpp: a consumer that prints every message and counts them.
use libasynckafkaclient.Prelude.{
  ℕ, ◌+◌, ◌≡◌, refl, sym, ap, ◌∙◌, Bool, true, false, not, ◌&&◌, List, [], ◌∷◌, ◌++◌, length,
  length-append, is_empty, ◌==◌, if◌then◌else◌, arith,
}
use libasynckafkaclient.Prelude.Int.{pos, minus_one}
use libasynckafkaclient.Config.{Str, codes, consumer_p}
use libasynckafkaclient.Outcome.{Outcome, ok, ◌>>=◌}
use libasynckafkaclient.Os.{Os, World, Action, log, printed}
use libasynckafkaclient.Decimal.{show_ℕ}
use libasynckafkaclient.Asio.{Asio}
use libasynckafkaclient.Partition.Responses.{c_str}
use libasynckafkaclient.Client.State.{ClientSys, consumer_start_fetch}
use libasynckafkaclient.Client.Connect.{construct_client}
use libasynckafkaclient.Examples.Arguments.{
  Arguments, Answer, Setup, no_arguments, parse, print, print_option, read_port, new_client,
  Started, returned, running, loopexit, set_port, set_partition,
}

-- The program while its event loop runs.
pub record Program : Type 0 where
  pub client : ClientSys
  pub num_mesgs_consumed : ℕ

abbrev pub short_opts : Str
short_opts = codes "S:P:t:p:h"

unfoldable pub usage : Str → World → World
usage opts w =
    let w1 = print_option opts b'S' "-S <server ip>\n" (print "Usage: \n" w) in
    let w2 = print_option opts b'P' "-P <port number>\n" w1 in
    let w3 = print_option opts b't' "-t <topic>\n" w2 in
    let w4 = print_option opts b'p' "-p <partition ID (-1 for all partitions)>\n" w3 in
    print_option opts b'h' "-h help\n" w4

abbrev pub print_line : Str → Program → Program
print_line msg p = record p {
  client = record (p.client) { world = log (printed (c_str msg ++ 10 ∷ [])) p.client.world };
}

-- The loop of onFetchedData.
unfoldable pub print_messages : List Str → Program → Program
unfolding c_str
print_messages [] p = p
print_messages (msg ∷ msgs) p = print_messages msgs (
    let printed_one = print_line msg p in
    record printed_one { num_mesgs_consumed = p.num_mesgs_consumed + 1 })

unfoldable pub on_fetched_data : List Str → Program → Program
unfolding print_messages
on_fetched_data msgs p = if is_empty msgs then p else print_messages msgs p

unfoldable pub signal_cb : Program → Program
signal_cb p =
    let c = p.client in
    record p {
      client = loopexit (record c {
        world = print "Caught an interrupt signal; exiting cleanly in one second.\n" c.world;
      });
    }

-- The switch of main.
unfoldable pub on_option : ℕ → Str → Arguments → Outcome (Bool × Arguments)
on_option c optarg args =
    if c == b'S'
    then ok (true, (record args { server_ip = optarg }))
    else if c == b'P'
    then (set_port optarg args >>= λ args1. ok (true, args1))
    else if c == b't'
    then ok (true, (record args { topic = optarg }))
    else if c == b'p'
    then (set_partition optarg args >>= λ args1. ok (true, args1))
    else ok (false, args)

module _ (a : Asio) (os : Os) (fuel rounds : ℕ) where
  unfoldable pub construct : Arguments → World → Outcome Program
  unfolding construct_client consumer_start_fetch
  construct args w = do
    port ← read_port args.port
    c ← construct_client a os fuel true rounds (new_client consumer_p args port w)
    c1 ←
        consumer_start_fetch os (record c { client = record (c.client) { on_fetched_data = true } })
    ok (record { client = c1; num_mesgs_consumed = 0 })

  -- main up to event_base_dispatch, after its test of argc.
  unfoldable pub set_up : Setup → Arguments → World → Outcome (Started Program)
  unfolding construct
  set_up setup args w =
      if not setup.base
      then ok (returned (pos 1) (print "Memory allocation failed for event_base\n" w))
      else if not (setup.signal_event && setup.signal_added)
      then ok (returned (pos 1) (print "Could not create/add a signal event!\n" w))
      else (construct args w >>= λ p. ok (running p))

  unfoldable pub start_main : Bool → Setup → List Answer → World → Outcome (Started Program)
  unfolding set_up usage on_option parse
  start_main no_options setup answers w =
      if no_options then ok (returned minus_one (usage short_opts w)) else (do
        (go_on, args) ← parse on_option answers no_arguments
        if go_on then set_up setup args w else ok (returned (pos 1) (usage short_opts w)))

-- What main prints after event_base_dispatch.
unfoldable pub report : Program → World
unfolding show_ℕ
report p =
    log (printed (codes "Message Consumed = " ++ show_ℕ p.num_mesgs_consumed ++ 10 ∷ 10 ∷ []))
      p.client.world

-- The callback, called for one list of messages after the other.
abbrev pub on_all : List (List Str) → Program → Program
on_all [] p = p
on_all (msgs ∷ batches) p = on_all batches (on_fetched_data msgs p)

abbrev pub concat : List (List Str) → List Str
concat [] = []
concat (msgs ∷ batches) = msgs ++ concat batches

-- The lines are put on the trace one after the other.
abbrev pub lines : List Str → List Action → List Action
lines [] trace = trace
lines (msg ∷ msgs) trace = lines msgs (printed (c_str msg ++ 10 ∷ []) ∷ trace)

-- p' is p after these messages have been printed.
pub record Printed (msgs : List Str) (p p' : Program) : Type 0 where
  pub counted : p'.num_mesgs_consumed ≡ p.num_mesgs_consumed + length msgs
  pub in_order : p'.client.world.trace ≡ lines msgs p.client.world.trace
  pub same_client : p'.client.client ≡ p.client.client
  pub same_reactor : p'.client.reactor ≡ p.client.reactor

lines-append :
    (xs ys : List Str) (trace : List Action) → lines (xs ++ ys) trace ≡ lines ys (lines xs trace)
lines-append [] ys trace = refl
lines-append (x ∷ xs) ys trace = lines-append xs ys (printed (c_str x ++ 10 ∷ []) ∷ trace)

print_messages-Printed : (msgs : List Str) (p : Program) → Printed msgs p (print_messages msgs p)
unfolding print_messages
print_messages-Printed [] p = record {
  counted = omega arith;
  in_order = refl;
  same_client = refl;
  same_reactor = refl;
}
print_messages-Printed (msg ∷ msgs) p =
    let one : Program = record (print_line msg p) {
      num_mesgs_consumed = p.num_mesgs_consumed + 1;
    } in
    let rest = print_messages-Printed msgs one in
    record {
      counted = omega (arith, rest.counted);
      in_order = rest.in_order;
      same_client = rest.same_client;
      same_reactor = rest.same_reactor;
    }

on_fetched_data-Printed : (msgs : List Str) (p : Program) → Printed msgs p (on_fetched_data msgs p)
unfolding on_fetched_data
on_fetched_data-Printed [] p = print_messages-Printed [] p
on_fetched_data-Printed (msg ∷ msgs) p = print_messages-Printed (msg ∷ msgs) p

-- Over any sequence of deliveries, empty ones among them, the program prints every message up to its
-- first zero byte, each on a line, in the order of delivery, counts as many as it has printed, and
-- leaves the client and the reactor alone.
pub on_all-Printed :
    (batches : List (List Str)) (p : Program) → Printed (concat batches) p (on_all batches p)
unfolding print_messages
on_all-Printed [] p = print_messages-Printed [] p
on_all-Printed (msgs ∷ batches) p =
    let first = on_fetched_data-Printed msgs p in
    let rest = on_all-Printed batches (on_fetched_data msgs p) in
    record {
      counted = omega (arith, first.counted, rest.counted, length-append msgs (concat batches));
      in_order =
          rest.in_order
          ∙ ap (lines (concat batches)) first.in_order
          ∙ sym (lines-append msgs (concat batches) p.client.world.trace);
      same_client = rest.same_client ∙ first.same_client;
      same_reactor = rest.same_reactor ∙ first.same_reactor;
    }
