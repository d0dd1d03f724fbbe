-- ===== src/Os.antt =====
-- The operating system and libevent as the code in src/ calls them: what a call answers is a
-- function of the number of calls made before it, so a theorem over every `Os` is one over every
-- behaviour of the environment. `World` is what a run leaves behind.
use libasynckafkaclient.Prelude.{ℕ, zero, suc, Bool, Option, List, ◌∷◌}
use libasynckafkaclient.Prelude.Int.{ℤ}
use libasynckafkaclient.Config.{Str}

pub data Errno : Type 0 where
  econnreset eintr eagain other_errno : Errno

-- An empty list of bytes is the answer 0 of read(): the peer has closed the connection.
pub data ReadAnswer : Type 0 where
  bytes : List ℕ → ReadAnswer
  read_failed : Errno → ReadAnswer

pub data WriteAnswer : Type 0 where
  wrote : ℕ → WriteAnswer
  write_failed : Errno → WriteAnswer

-- A read() of the eight bytes of an eventfd or timerfd counter.
pub data CounterAnswer : Type 0 where
  counter : ℕ → CounterAnswer
  short_read : ℕ → CounterAnswer
  counter_failed : Errno → CounterAnswer

pub record Os : Type 0 where
  pub socket : ℕ → ℤ
  pub connects : ℕ → Bool
  pub write : ℕ → WriteAnswer
  -- The second argument is the count that read() is given.
  pub read : ℕ → ℕ → ReadAnswer
  pub read_counter : ℕ → CounterAnswer
  pub eventfd : ℕ → ℤ
  pub timerfd : ℕ → ℤ
  pub timer_set : ℕ → Bool
  pub event_new : ℕ → Bool
  pub event_add : ℕ → Bool
  -- None is the answer NULL of gethostbyname().
  pub gethostbyname : Str → Option (List Str)
  pub is_dir : Str → Bool

pub data Action : Type 0 where
  slept_ms : ℕ → Action
  closed : ℤ → Action
  sent : ℤ → List ℕ → Action
  received_data : List (List ℕ) → Action
  produce_response : Str → ℤ → ℤ → Action
  msg_queued : Action
  -- The calls of the application's callbacks by KafkaClient.
  app_fetched_data : List (List ℕ) → Action
  app_produce_response : Str → ℤ → ℤ → Action
  app_msg_queued : Action
  -- What a program of examples/ prints.
  printed : Str → Action
  -- A wakeup() of the event source with this descriptor.
  woke : ℤ → Action

pub record World : Type 0 where
  -- The number of system calls made so far.
  pub tick : ℕ
  -- Newest first.
  pub trace : List Action
  pub files : Str → Option Str

abbrev pub tock : World → World
tock w = record w { tick = suc w.tick }

-- The world after n more system calls.
abbrev pub tocks : ℕ → World → World
tocks zero w = w
tocks (suc n) w = tocks n (tock w)

abbrev pub log : Action → World → World
log a w = record w { trace = a ∷ w.trace }
