-- ===== src/Partition/Calls.antt =====
-- What the calls of the reactor and of the event sources leave alone in a partition.
use libasynckafkaclient.Prelude.{ℕ, suc, ◌≡◌, refl, Bool, true, false, not, if◌then◌else◌}
use libasynckafkaclient.Prelude.Int.{ℤ}
use libasynckafkaclient.Outcome.{Outcome, ok}
use libasynckafkaclient.Os.{wrote, log, woke}
use libasynckafkaclient.Wakeup.{WakeupEventSource, wakeup}
use libasynckafkaclient.Os.{Os, tock}
use libasynckafkaclient.Reactor.{Reactor, register_fd_callback}
use libasynckafkaclient.Partition.State.{Sys, register, wake}

-- libevent adds every event that it is given.
abbrev pub EventsAdded : Os → Type 0
EventsAdded os = (t : ℕ) → os.event_add t ≡ true

abbrev pub after_register : Reactor → Sys → Sys
after_register r s = record s { reactor = r; world = tock (tock s.world) }

if-ok {ℓ} :
    {A : Type ℓ} (b : Bool) (x y : Outcome A)
    → ((v : A) × (x ≡ ok v))
    → ((v : A) × (y ≡ ok v))
    → (v : A) × ((if b then x else y) ≡ ok v)
if-ok true x y p q = p
if-ok false x y p q = q

register_fd_callback-ok :
    (new_ok : Bool) (fd : ℤ) (d f : ℕ) (oneshot modify : Bool) (r : Reactor)
    → (r' : Reactor) × (register_fd_callback new_ok true fd d f oneshot modify r ≡ ok r')
unfolding register_fd_callback
register_fd_callback-ok new_ok fd d f oneshot modify r =
    if-ok (not r.base) _ _ (r, refl) (if-ok (not new_ok) _ _ (_, refl) (_, refl))

pub register-ok :
    (os : Os) (fd : ℤ) (d f : ℕ) (modify : Bool) (s : Sys)
    → EventsAdded os
    → (r : Reactor) × (register os fd d f modify s ≡ ok (after_register r s))
unfolding register
register-ok os fd d f modify s adds =
    let (r, e) =
      register_fd_callback-ok (os.event_new s.world.tick) fd d f false modify s.reactor in
    (r, rw (adds (suc s.world.tick), e) refl)

-- Every write() of an event source's eight bytes succeeds.
abbrev pub WritesDone : Os → Type 0
WritesDone os = (t : ℕ) → (n : ℕ) × (os.write t ≡ wrote n)

abbrev pub after_wake : WakeupEventSource → Sys → Sys
after_wake source s = record s { world = log (woke source.wakeup_fd) (tock s.world) }

pub wake-ok :
    (os : Os) (source : WakeupEventSource) (s : Sys)
    → WritesDone os
    → wake os source s ≡ ok (after_wake source s)
unfolding wakeup
wake-ok os source s writes = let (n, e) = writes s.world.tick in rw e refl
