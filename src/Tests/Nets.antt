-- ===== src/Tests/Nets.antt =====
-- Connections and reads that succeed and fail, and event sources that are read.
use libasynckafkaclient.Prelude.{
  ℕ, zero, suc, ◌≤◌, ◌≡◌, refl, true, false, some, List, [], ◌∷◌, length, arith,
}
use libasynckafkaclient.Prelude.Int.{pos}
use libasynckafkaclient.Outcome.{ok}
use libasynckafkaclient.Os.{Os, bytes, tocks, counter, counter_failed, eintr, CounterAnswer}
use libasynckafkaclient.Net.{complete, read_data}
use libasynckafkaclient.Net.Framing.{Filled, ReadFits, read_data-Filled, read_data-Delivers}
use libasynckafkaclient.Reactor.{aeventin}
use libasynckafkaclient.Wakeup.{
  WakeupEventSource, new_wakeup, handle_event, read_counter_loop, on_counter,
}
use libasynckafkaclient.Wakeup.Loop.{handle_event-Answered}
use libasynckafkaclient.Tests.Data.{calm, world}

abbrev pieces : List (List ℕ)
pieces = (0 ∷ 0 ∷ []) ∷ (0 ∷ 5 ∷ []) ∷ []

read_data-Delivers_example : read_data calm 4 world ≡ (complete (0 ∷ 0 ∷ 0 ∷ 5 ∷ []), tocks 2 world)
read_data-Delivers_example =
    read_data-Delivers calm pieces world (λ n h. refl, omega arith, (λ n h. refl, omega arith, tt))

-- A socket that gives one byte at a time.
abbrev slow_byte : ℕ → List ℕ
slow_byte zero = []
slow_byte (suc n) = 1 ∷ []

abbrev slow : Os
slow = record calm { read = λ t n. bytes (slow_byte n); connects = λ t. false }

slow_byte-length : (n : ℕ) → length (slow_byte n) ≤ n
slow_byte-length zero = omega arith
slow_byte-length (suc n) = omega arith

answer_of : (got l : List ℕ) → bytes l ≡ bytes got → l ≡ got
answer_of got l e = ground arith

slow-ReadFits : ReadFits slow
slow-ReadFits t n got e =
    let same : length (slow_byte n) ≡ length got = rw (answer_of got (slow_byte n) e) refl in
    omega (arith, same, slow_byte-length n)

read_data-Filled_example : Filled 3 (read_data slow 3 world).0
read_data-Filled_example = read_data-Filled slow 3 world slow-ReadFits

-- A counter whose first read is interrupted.
abbrev late : ℕ → CounterAnswer
late zero = counter_failed eintr
late (suc t) = counter 3

abbrev interrupted : Os
interrupted = record calm { read_counter = late }

abbrev source : WakeupEventSource
source = record new_wakeup {
  wakeup_fd = pos 20;
  fun_on_wakeup = true;
  data_fd = pos 20;
  data_cb = true;
}

handle_event-Answered_example :
    handle_event interrupted 2 source aeventin world ≡ ok (some 3, tocks 2 world)
handle_event-Answered_example =
    handle_event-Answered interrupted source 1 2 aeventin (counter 3) world refl refl (omega arith)
      (refl, refl)

fired : handle_event interrupted 2 source aeventin world ≡ ok (some 3, tocks 2 world)
unfolding handle_event read_counter_loop on_counter
fired = refl
