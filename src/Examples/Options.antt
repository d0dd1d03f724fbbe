-- ===== src/Examples/Options.antt =====
-- The option switches of the programs of examples/, over answers of getopt_long without -P.
use libasynckafkaclient.Prelude.{
  ℕ, ◌≡◌, Bool, true, false, Option, none, some, List, arith, [], ◌∷◌, All, ◌==◌, str_eq,
}
use libasynckafkaclient.Prelude.Int.{ℤ}
use libasynckafkaclient.Config.{Str, codes}
use libasynckafkaclient.Outcome.{
  Outcome, ok, ◌>>=◌, Keeps, Keeps-bind, call-Keeps, if-Keeps, if-Keeps_false, if-holds,
}
use libasynckafkaclient.Examples.Arguments.{
  Arguments, Answer, Started, returned, running, atoi, parse, read_port,
}
use libasynckafkaclient.Examples.Consumer00
use libasynckafkaclient.Examples.Producer00
use libasynckafkaclient.Examples.Performance00
use libasynckafkaclient.Examples.Performance01

-- main has returned, before any event.
abbrev pub IsReturned : {P : Type 0} → Started P → Type 0
IsReturned (returned code w) = Unit {0}
IsReturned (running p) = ⊥

-- No answer of getopt_long is the option -P.
abbrev pub WithoutPort : List Answer → Type 0
WithoutPort = All (λ answer. (answer.0 == b'P') ≡ false)

-- What a switch keeps up for the other options, the loop keeps up.
pub parse-Keeps :
    {A : Type 0} (P : A → Type 0) (on_option : ℕ → Str → A → Outcome (Bool × A))
    → ((c : ℕ) (optarg : Str) (args : A)
        → (c == b'P') ≡ false
        → P args
        → Keeps (λ (r : Bool × A). P r.1) (on_option c optarg args))
    → (answers : List Answer) (args : A) → WithoutPort answers
    → P args
    → Keeps (λ (r : Bool × A). P r.1) (parse on_option answers args)
unfolding parse
parse-Keeps {A} P on_option k [] args w h = h
parse-Keeps {A} P on_option k ((c, optarg) ∷ answers) args w h =
    let StillNoPort : Bool × A → Type 0 = λ r. P r.1 in
    Keeps-bind StillNoPort StillNoPort (on_option c optarg args) _ (k c optarg args w.0 h)
      (λ r h1. if-Keeps StillNoPort r.0 _ _ (parse-Keeps P on_option k answers r.1 w.1 h1) h1)

abbrev pub NoPort : Arguments → Type 0
NoPort args = args.port ≡ none

-- An option that takes a number other than the port.
number-NoPort :
    {A : Type 0} (P : A → Type 0) (optarg : Str) (f : ℤ → A)
    → ((n : ℤ) → P (f n))
    → Keeps (λ (r : Bool × A). P r.1) ((atoi optarg >>= λ n. ok (f n)) >>= λ x. ok (true, x))
number-NoPort {A} P optarg f h =
    Keeps-bind P (λ (r : Bool × A). P r.1) (atoi optarg >>= λ n. ok (f n)) (λ x. ok (true, x))
      (call-Keeps P (atoi optarg) f h) (λ x hx. hx)

abbrev pub StillNoPort : Bool × Arguments → Type 0
StillNoPort r = NoPort r.1

pub consumer-NoPort :
    (c : ℕ) (optarg : Str) (args : Arguments)
    → (c == b'P') ≡ false
    → NoPort args
    → Keeps StillNoPort (Consumer00.on_option c optarg args)
unfolding Consumer00.on_option
consumer-NoPort c optarg args other h = if-Keeps StillNoPort (c == b'S') _ _ h (
    if-Keeps_false StillNoPort (c == b'P') _ _ other (
      if-Keeps StillNoPort (c == b't') _ _ h
        (if-Keeps StillNoPort (c == b'p') _ _ (number-NoPort NoPort optarg _ (λ n. h)) h)))

pub producer-NoPort :
    (c : ℕ) (optarg : Str) (args : Arguments)
    → (c == b'P') ≡ false
    → NoPort args
    → Keeps StillNoPort (Producer00.on_option c optarg args)
unfolding Producer00.on_option
producer-NoPort c optarg args other h = if-Keeps StillNoPort (c == b'S') _ _ h (
    if-Keeps_false StillNoPort (c == b'P') _ _ other (
      if-Keeps StillNoPort (c == b't') _ _ h (
        if-Keeps StillNoPort (c == b'p') _ _ (number-NoPort NoPort optarg _ (λ n. h)) (
          if-Keeps StillNoPort (c == b'b') _ _ (number-NoPort NoPort optarg _ (λ n. h))
            (if-Keeps StillNoPort (c == b'a') _ _ (number-NoPort NoPort optarg _ (λ n. h)) h)))))

-- A read of a port that has not been set.
pub read-Keeps :
    {B : Type 0} (Q : B → Type 0) (port : Option ℤ) (k : ℤ → Outcome B)
    → port ≡ none
    → Keeps Q (read_port port >>= k)
read-Keeps Q none k e = tt
read-Keeps Q (some n) k e = absurd (ground arith)

abbrev pub StillNoPort00 : Bool × Performance00.Options → Type 0
StillNoPort00 r = NoPort r.1.args

args-StillNoPort00 :
    (o : Performance00.Options) (m : Outcome Arguments)
    → Keeps NoPort m
    → Keeps StillNoPort00 (Performance00.with_args o m)
args-StillNoPort00 o m h = Keeps-bind NoPort StillNoPort00 m _ h (λ args h1. h1)

pub measured_producer-NoPort :
    (c : ℕ) (optarg : Str) (o : Performance00.Options)
    → (c == b'P') ≡ false
    → NoPort o.args
    → Keeps StillNoPort00 (Performance00.on_option c optarg o)
unfolding Performance00.on_option
measured_producer-NoPort c optarg o other h =
    let number : (f : ℤ → Arguments)
        → ((n : ℤ) → NoPort (f n))
        → Keeps StillNoPort00 (Performance00.with_args o (atoi optarg >>= λ n. ok (f n))) =
      λ f hf.
        args-StillNoPort00 o (atoi optarg >>= λ n. ok (f n))
          (call-Keeps NoPort (atoi optarg) f hf) in
    if-Keeps StillNoPort00 (c == b'S') _ _ h (
      if-Keeps_false StillNoPort00 (c == b'P') _ _ other (
        if-Keeps StillNoPort00 (c == b't') _ _ h (
          if-Keeps StillNoPort00 (c == b'p') _ _ (number _ (λ n. h)) (
            if-Keeps StillNoPort00 (c == b'b') _ _ (number _ (λ n. h)) (
              if-Keeps StillNoPort00 (c == b'a') _ _ (number _ (λ n. h)) (
                if-Keeps StillNoPort00 (c == b's') _ _
                  (call-Keeps StillNoPort00 (atoi optarg) _ (λ n. h))
                  (if-Keeps StillNoPort00 (c == b'c') _ _
                    (call-Keeps StillNoPort00 (atoi optarg) _ (λ n. h)) h)))))))

abbrev pub StillNoPort01 : Bool × Performance01.Options → Type 0
StillNoPort01 r = NoPort r.1.args

args-StillNoPort01 :
    (o : Performance01.Options) (m : Outcome Arguments)
    → Keeps NoPort m
    → Keeps StillNoPort01 (Performance01.with_args o m)
args-StillNoPort01 o m h = Keeps-bind NoPort StillNoPort01 m _ h (λ args h1. h1)

start_offset-NoPort :
    (optarg : Str) (o : Performance01.Options)
    → NoPort o.args
    → NoPort (Performance01.set_start_offset optarg o).args
start_offset-NoPort optarg o h =
    let Q : Performance01.Options → Type 0 = λ x. NoPort x.args in
    if-holds Q (str_eq optarg (codes "beginning")) _ _ h (
      if-holds Q (str_eq optarg (codes "stored")) _ _ h
        (if-holds Q (str_eq optarg (codes "end")) _ _ h h))

pub measured_consumer-NoPort :
    (c : ℕ) (optarg : Str) (o : Performance01.Options)
    → (c == b'P') ≡ false
    → NoPort o.args
    → Keeps StillNoPort01 (Performance01.on_option c optarg o)
unfolding Performance01.on_option
measured_consumer-NoPort c optarg o other h =
    let number : (f : ℤ → Arguments)
        → ((n : ℤ) → NoPort (f n))
        → Keeps StillNoPort01 (Performance01.with_args o (atoi optarg >>= λ n. ok (f n))) =
      λ f hf.
        args-StillNoPort01 o (atoi optarg >>= λ n. ok (f n))
          (call-Keeps NoPort (atoi optarg) f hf) in
    if-Keeps StillNoPort01 (c == b'S') _ _ h (
      if-Keeps_false StillNoPort01 (c == b'P') _ _ other (
        if-Keeps StillNoPort01 (c == b't') _ _ h (
          if-Keeps StillNoPort01 (c == b'p') _ _ (number _ (λ n. h)) (
            if-Keeps StillNoPort01 (c == b'o') _ _ (start_offset-NoPort optarg o h) (
              if-Keeps StillNoPort01 (c == b'm') _ _ (number _ (λ n. h)) (
                if-Keeps StillNoPort01 (c == b'c') _ _
                  (call-Keeps StillNoPort01 (atoi optarg) _ (λ n. h)) h))))))
