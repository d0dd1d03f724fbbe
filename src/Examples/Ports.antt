-- ===== src/Examples/Ports.antt =====
-- The programs of examples/ without the option -P.
use libasynckafkaclient.Prelude.{ℕ, refl, Bool, not, ◌&&◌, List, if◌then◌else◌}
use libasynckafkaclient.Prelude.Int.{ℤ, pos}
use libasynckafkaclient.Outcome.{Outcome, ok, ◌>>=◌, Keeps, Keeps-bind, if-Keeps}
use libasynckafkaclient.Os.{Os, World}
use libasynckafkaclient.Asio.{Asio}
use libasynckafkaclient.Examples.Arguments.{Answer, Setup, returned, running, no_arguments, parse}
use libasynckafkaclient.Examples.Consumer00
use libasynckafkaclient.Examples.Producer00
use libasynckafkaclient.Examples.Performance00
use libasynckafkaclient.Examples.Performance01
use libasynckafkaclient.Examples.Options.{
  IsReturned, WithoutPort, parse-Keeps, NoPort, StillNoPort, consumer-NoPort, producer-NoPort,
  read-Keeps, StillNoPort00, measured_producer-NoPort, StillNoPort01, measured_consumer-NoPort,
}

-- The set-up of the event loop, before a program that is never constructed.
set_up-IsReturned :
    {P : Type 0} (setup : Setup) (w1 w2 : World) (m : Outcome P)
    → Keeps (λ p. ⊥) m
    → Keeps IsReturned (
        if not setup.base
        then ok (returned (pos 1) w1)
        else if not (setup.signal_event && setup.signal_added)
        then ok (returned (pos 1) w2)
        else (m >>= λ p. ok (running p)))
set_up-IsReturned {P} setup w1 w2 m h = if-Keeps IsReturned (not setup.base) _ _ tt (
    if-Keeps IsReturned (not (setup.signal_event && setup.signal_added)) _ _ tt
      (Keeps-bind (λ (p : P). ⊥) IsReturned m _ h (λ p bad. absurd bad)))

module _ (a : Asio) (os : Os) (fuel rounds : ℕ) (setup : Setup) (answers : List Answer)
    (without_port : WithoutPort answers) where
  consumer-IsReturned :
      (no_options : Bool) (w : World)
      → Keeps IsReturned (Consumer00.start_main a os fuel rounds no_options setup answers w)
  unfolding Consumer00.start_main Consumer00.set_up Consumer00.construct
  consumer-IsReturned no_options w = if-Keeps IsReturned no_options _ _ tt (
      Keeps-bind StillNoPort IsReturned (parse Consumer00.on_option answers no_arguments) _
        (parse-Keeps NoPort Consumer00.on_option consumer-NoPort answers no_arguments without_port
          refl)
        (λ r h.
          if-Keeps IsReturned r.0 _ _
            (set_up-IsReturned setup _ _ (Consumer00.construct a os fuel rounds r.1 w)
              (read-Keeps (λ p. ⊥) r.1.port _ h))
            tt))

  producer-IsReturned :
      (no_options : Bool) (w : World)
      → Keeps IsReturned (Producer00.start_main a os fuel rounds no_options setup answers w)
  unfolding Producer00.start_main Producer00.set_up Producer00.construct
  producer-IsReturned no_options w = if-Keeps IsReturned no_options _ _ tt (
      Keeps-bind StillNoPort IsReturned (parse Producer00.on_option answers no_arguments) _
        (parse-Keeps NoPort Producer00.on_option producer-NoPort answers no_arguments without_port
          refl)
        (λ r h.
          if-Keeps IsReturned r.0 _ _
            (set_up-IsReturned setup _ _ (Producer00.construct a os fuel rounds r.1 w)
              (read-Keeps (λ p. ⊥) r.1.port _ h))
            tt))

  measured_producer-IsReturned :
      (now : ℤ) (no_options : Bool) (w : World)
      → Keeps IsReturned (Performance00.start_main a os fuel rounds now no_options setup answers w)
  unfolding Performance00.start_main Performance00.set_up Performance00.construct
  measured_producer-IsReturned now no_options w = if-Keeps IsReturned no_options _ _ tt (
      Keeps-bind StillNoPort00 IsReturned
        (parse Performance00.on_option answers Performance00.no_options) _
        (parse-Keeps (λ (o : Performance00.Options). NoPort o.args) Performance00.on_option
          measured_producer-NoPort answers Performance00.no_options without_port refl)
        (λ r h.
          if-Keeps IsReturned r.0 _ _
            (set_up-IsReturned setup _ _ (Performance00.construct a os fuel rounds now r.1 w)
              (read-Keeps (λ p. ⊥) r.1.args.port _ h))
            tt))

  measured_consumer-IsReturned :
      (now : ℤ) (no_options : Bool) (w : World)
      → Keeps IsReturned (Performance01.start_main a os fuel rounds now no_options setup answers w)
  unfolding Performance01.start_main Performance01.set_up Performance01.construct
  measured_consumer-IsReturned now no_options w = if-Keeps IsReturned no_options _ _ tt (
      Keeps-bind StillNoPort01 IsReturned
        (parse Performance01.on_option answers (Performance01.no_options w)) _
        (parse-Keeps (λ (o : Performance01.Options). NoPort o.args) Performance01.on_option
          measured_consumer-NoPort answers (Performance01.no_options w) without_port refl)
        (λ r h.
          if-Keeps IsReturned r.0 _ _
            (set_up-IsReturned setup _ _ (Performance01.construct a os fuel rounds now r.1)
              (read-Keeps (λ p. ⊥) r.1.args.port _ h))
            tt))

-- Without the option -P no program of examples/ reaches its event loop with a defined behaviour, whatever
-- the other options are and the system answers: main returns before it, or reads a port that has no
-- value, or another call ends it.
pub start_main-IsReturned :
    (a : Asio) (os : Os) (fuel rounds : ℕ) (now : ℤ) (no_options : Bool) (setup : Setup)
    (answers : List Answer) (w : World)
    → WithoutPort answers
    → Keeps IsReturned (Consumer00.start_main a os fuel rounds no_options setup answers w)
      × Keeps IsReturned (Producer00.start_main a os fuel rounds no_options setup answers w)
      × Keeps IsReturned (Performance00.start_main a os fuel rounds now no_options setup answers w)
      × Keeps IsReturned (Performance01.start_main a os fuel rounds now no_options setup answers w)
start_main-IsReturned a os fuel rounds now no_options setup answers w without = (
  consumer-IsReturned a os fuel rounds setup answers without no_options w,
  producer-IsReturned a os fuel rounds setup answers without no_options w,
  measured_producer-IsReturned a os fuel rounds setup answers without now no_options w,
  measured_consumer-IsReturned a os fuel rounds setup answers without now no_options w,
)
