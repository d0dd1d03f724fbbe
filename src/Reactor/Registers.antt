-- ===== src/Reactor/Registers.antt =====
-- What registerFdCallback of src/LibeventReactor.cpp leaves when event_new succeeds, with modify or for a
-- descriptor that is not registered.
use libasynckafkaclient.Prelude.{
  ℕ, ◌≡◌, refl, ap, ◌∙◌, Bool, true, false, not, none, some, ◌⊎◌, inl, inr, arith,
}
use libasynckafkaclient.Prelude.Int.{ℤ, ==ℤ-refl}
use libasynckafkaclient.Outcome.{Keeps, if-Keeps, if-Keeps_false}
use libasynckafkaclient.Reactor.{
  Event, Reactor, find_fd, insert_fd, unregister_fd_callback, new_event, add_event,
  register_fd_callback, has_out,
}
use libasynckafkaclient.Reactor.Invariant.{Inv, find-unregister}
use libasynckafkaclient.Reactor.Watch.{unregister-base}

add_event-find :
    (fd : ℤ) (ev : Event) (r : Reactor)
    → find_fd fd r.events ≡ none
    → find_fd fd (add_event fd ev r).events ≡ some ev
unfolding insert_fd find_fd
add_event-find fd ev r absent = rw (absent, insert_fd, ==ℤ-refl fd) refl

-- The reactor has a base, and an event of the descriptor that is watched for writing as the flags say.
abbrev pub Registers : ℤ → ℕ → Reactor → Type 0
Registers fd flags r =
    (r.base ≡ true)
    × ((ev : Event) × (find_fd fd r.events ≡ some ev) × (ev.ev_write ≡ has_out flags))

added-Registers :
    (fd : ℤ) (d flags : ℕ) (r : Reactor)
    → r.base ≡ true
    → find_fd fd r.events ≡ none
    → Registers fd flags (add_event fd (new_event r fd d flags false) r)
added-Registers fd d flags r based absent =
    let ev = new_event r fd d flags false in (based, (ev, add_event-find fd ev r absent, refl))

pub register_fd_callback-Registers :
    (add_ok : Bool) (fd : ℤ) (d flags : ℕ) (modify : Bool) (r : Reactor)
    → Inv r
    → r.base ≡ true
    → (modify ≡ true) ⊎ (find_fd fd r.events ≡ none)
    → Keeps (Registers fd flags) (register_fd_callback true add_ok fd d flags false modify r)
unfolding register_fd_callback
register_fd_callback-Registers add_ok fd d flags true r v based ready =
    if-Keeps_false (Registers fd flags) (not r.base) _ _ (ap not based) (
      if-Keeps (Registers fd flags) (not add_ok) _ _ tt (
        added-Registers fd d flags (unregister_fd_callback fd r) (unregister-base fd r ∙ based)
          (find-unregister fd r v)))
register_fd_callback-Registers add_ok fd d flags false r v based (inl modify) =
    absurd (ground arith)
register_fd_callback-Registers add_ok fd d flags false r v based (inr absent) =
    if-Keeps_false (Registers fd flags) (not r.base) _ _ (ap not based) (
      if-Keeps (Registers fd flags) (not add_ok) _ _ tt (added-Registers fd d flags r based absent))
