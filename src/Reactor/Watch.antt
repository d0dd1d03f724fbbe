-- ===== src/Reactor/Watch.antt =====
-- Which event a descriptor has after registerFdCallback and unregisterFdCallback.
use libasynckafkaclient.Prelude.{
  ℕ, ◌≡◌, refl, ap, Bool, true, false, none, some, List, [], ◌∷◌, arith, if◌then◌else◌, Bool-cases,
  Option-cases, inl, inr, ◌∙◌,
}
use libasynckafkaclient.Prelude.Int.{ℤ, ◌==ℤ◌, ==ℤ→≡}
use libasynckafkaclient.Outcome.{ok}
use libasynckafkaclient.Reactor.{
  Event, Reactor, find_fd, erase_fd, insert_fd, unregister_fd_callback, new_event, add_event,
  register_fd_callback, destroy, has_in, has_out, dispatch_flags,
}
use libasynckafkaclient.Reactor.Invariant.{Inv, find-unregister, free_all_newer, free_all-mapped}

find-erase_other :
    (fd k : ℤ) (m : List (ℤ × Event)) → (fd ==ℤ k) ≡ false → find_fd k (erase_fd fd m) ≡ find_fd k m
unfolding find_fd erase_fd
find-erase_other fd k [] h = refl
find-erase_other fd k ((j, ev) ∷ m) h = elim (Bool-cases (j ==ℤ fd)) [
  | inl hit ↦ ground (arith, ==ℤ→≡ j fd hit)
  | inr miss ↦ ground (arith, find-erase_other fd k m h)
]

pub unregister-base : (fd : ℤ) (r : Reactor) → (unregister_fd_callback fd r).base ≡ r.base
unfolding unregister_fd_callback
unregister-base fd r = elim (Option-cases (find_fd fd r.events)) [
  | inl absent ↦ rw (absent, unregister_fd_callback) refl
  | inr (ev, found) ↦ rw (found, unregister_fd_callback) refl
]

-- In a well-formed reactor, unregisterFdCallback takes the descriptor's entry out and leaves every
-- other entry.
pub find-unregister_fd_callback :
    (fd k : ℤ) (r : Reactor)
    → Inv r
    → find_fd k (unregister_fd_callback fd r).events
      ≡ (if fd ==ℤ k then none else find_fd k r.events)
unfolding unregister_fd_callback
find-unregister_fd_callback fd k r v = elim (Bool-cases (fd ==ℤ k)) [
  | inl same ↦ rw same (rw (← ==ℤ→≡ fd k same) (find-unregister fd r v))
  | inr other ↦ ground (arith, find-erase_other fd k r.events other)
]

-- In a well-formed reactor with a base, a registration with modify set that libevent accepts
-- succeeds: the descriptor has the new event with the flags and the data that were asked for, and
-- every other descriptor keeps its own.
pub find-register_fd_callback :
    (fd k : ℤ) (data_id flags : ℕ) (oneshot : Bool) (r : Reactor)
    → Inv r
    → r.base ≡ true
    → (r' : Reactor) × (register_fd_callback true true fd data_id flags oneshot true r ≡ ok r')
      × (find_fd k r'.events ≡ (
          if fd ==ℤ k
          then some (new_event (unregister_fd_callback fd r) fd data_id flags oneshot)
          else find_fd k r.events))
unfolding register_fd_callback find_fd
find-register_fd_callback fd k data_id flags oneshot r v based =
    let r1 = unregister_fd_callback fd r in
    let absent : find_fd fd r1.events ≡ none = find-unregister fd r v in
    (
      add_event fd (new_event r1 fd data_id flags oneshot) r1,
      rw based refl,
      rw (absent, insert_fd) (ground (arith, find-unregister_fd_callback fd k r v)),
    )

-- In a well-formed reactor with a base, a registration without modify, of a descriptor that is
-- registered, allocates a new event but leaves the map as it is, and the destructor leaves exactly
-- the new event allocated.
pub register_fd_callback_leaks :
    (fd : ℤ) (data_id flags : ℕ) (oneshot : Bool) (r : Reactor) (old : Event)
    → Inv r
    → r.base ≡ true
    → find_fd fd r.events ≡ some old
    → (r' : Reactor) × (register_fd_callback true true fd data_id flags oneshot false r ≡ ok r')
      × (r'.live ≡ new_event r fd data_id flags oneshot ∷ r.live)
      × (r'.events ≡ r.events)
      × ((destroy r').live ≡ new_event r fd data_id flags oneshot ∷ [])
unfolding register_fd_callback destroy
register_fd_callback_leaks fd data_id flags oneshot r old v based found =
    let ev = new_event r fd data_id flags oneshot in
    let kept : insert_fd fd ev r.events ≡ r.events = rw (found, insert_fd) refl in
    (
      add_event fd ev r,
      rw based refl,
      refl,
      kept,
      rw kept (
          free_all_newer r.next_id r.events ev r.live v.fresh (omega arith)
          ∙ ap (◌∷◌ ev) (rw v.tracked (free_all-mapped r.events))),
    )

-- dispatchEvents hands on the read and write readiness that libevent reports, and nothing else.
pub dispatch_flags-has :
    (ev_read ev_write : Bool)
    → (has_in (dispatch_flags ev_read ev_write) ≡ ev_read)
      × (has_out (dispatch_flags ev_read ev_write) ≡ ev_write)
unfolding dispatch_flags
dispatch_flags-has ev_read ev_write = ground arith
