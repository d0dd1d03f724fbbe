-- ===== src/Net/Backoff.antt =====
-- What connectServer of src/KafkaEndpointMP.h answers and how long it waits.
use libasynckafkaclient.Prelude.{
  ℕ, zero, suc, ◌+◌, ◌*◌, ◌≤◌, ◌<◌, ◌≡◌, refl, Bool, false, ◌||◌, List, [], ◌∷◌, arith,
  if◌then◌else◌,
}
use libasynckafkaclient.Prelude.Int.{pos, minus_one, ltb_ℤ}
use libasynckafkaclient.Os.{Os, World, Action, tock, log, slept_ms, closed}
use libasynckafkaclient.Net.{backoff_secs, connect_retries, connect_server}

-- Whether f holds at one of the n numbers from t on.
abbrev pub any_from : (ℕ → Bool) → ℕ → ℕ → Bool
any_from f t zero = false
any_from f t (suc n) = f t || any_from f (suc t) n

-- The milliseconds that a trace has slept.
abbrev pub slept : List Action → ℕ
slept [] = 0
slept (slept_ms n ∷ l) = n + slept l
slept (_ ∷ l) = slept l

connect_retries-any_from :
    (os : Os) (n ii : ℕ) (w : World) → (connect_retries os n ii w).0 ≡ any_from os.connects w.tick n
unfolding connect_retries
connect_retries-any_from os zero ii w = refl
connect_retries-any_from os (suc n) ii w = ground (
  arith,
  connect_retries-any_from os n (suc ii) (tock (log (slept_ms 0) w)),
  connect_retries-any_from os n (suc ii) (tock (log (slept_ms (backoff_secs ii * 1000)) w)),
)

-- The descriptor that connectServer answers: that of socket() if it is negative, or if one of the
-- five attempts connects, and otherwise -1.
pub connect_server-any_from :
    (os : Os) (w : World)
    → (connect_server os w).0 ≡ (
        if ltb_ℤ (os.socket w.tick) (pos 0)
        then os.socket w.tick
        else if any_from os.connects (suc w.tick) 5
        then os.socket w.tick
        else minus_one)
unfolding connect_server
connect_server-any_from os w = ground arith

-- However the attempts turn out, connectServer sleeps at most 85 seconds.
pub connect_server-slept :
    (os : Os) (w : World) → slept (connect_server os w).1.trace ≤ slept w.trace + 85000
unfolding connect_server
connect_server-slept os w = ground arith

-- When the socket is made and all five attempts fail, connectServer answers -1 after sleeping 1, 4,
-- 16 and 64 seconds between the attempts, and closes the socket.
pub connect_server_gives_up :
    (os : Os) (w : World)
    → ltb_ℤ (os.socket w.tick) (pos 0) ≡ false
    → any_from os.connects (suc w.tick) 5 ≡ false
    → ((connect_server os w).0 ≡ minus_one)
      × ((connect_server os w).1.trace
          ≡ closed (os.socket w.tick)
            ∷ slept_ms 64000
            ∷ slept_ms 16000
            ∷ slept_ms 4000
            ∷ slept_ms 1000
            ∷ w.trace)
unfolding connect_server
connect_server_gives_up os w made failing = ground arith

connect_retries-tick :
    (os : Os) (n ii : ℕ) (w : World) → w.tick ≤ (connect_retries os n ii w).1.tick
unfolding connect_retries
connect_retries-tick os zero ii w = omega arith
connect_retries-tick os (suc n) ii w =
    ground
      (arith, connect_retries-tick os n (suc ii) (tock (log (slept_ms (backoff_secs ii * 1000)) w)))

pub connect_server-tick : (os : Os) (w : World) → w.tick < (connect_server os w).1.tick
unfolding connect_server
connect_server-tick os w = ground arith
