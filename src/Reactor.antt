-- ===== src/Reactor.antt =====
-- LibeventReactor of src/LibeventReactor.h and .cpp, with the event flags of src/AsyncEventSource.h.
-- An `Event` is a `struct event` of libevent; `live` are those that event_new has allocated and
-- event_free has not released, and `events` is the member m_events.
pub mod Invariant
pub mod Watch
pub mod Known
pub mod Registers
pub mod Refines
use libasynckafkaclient.Prelude.{
  ℕ, zero, suc, ◌+◌, ◌/◌, ◌%◌, ◌≡◌, refl, Bool, true, false, not, Option, none, some, List, [], ◌∷◌,
  ◌==◌, if◌then◌else◌,
}
use libasynckafkaclient.Prelude.Int.{ℤ, ◌==ℤ◌}
use libasynckafkaclient.Outcome.{Outcome, ok, aborted}

abbrev pub aeventin : ℕ
aeventin = 1

abbrev pub aeventout : ℕ
aeventout = 2

-- The tests `flags & AEVENTIN` and `flags & AEVENTOUT`.
abbrev pub has_in : ℕ → Bool
has_in flags = flags % 2 == 1

abbrev pub has_out : ℕ → Bool
has_out flags = flags / 2 % 2 == 1

pub record Event : Type 0 where
  pub id : ℕ
  pub fd : ℤ
  pub ev_read : Bool
  pub ev_write : Bool
  pub ev_persist : Bool
  -- The EventData that the event carries, by the number of its source.
  pub event_data : ℕ

pub record Reactor : Type 0 where
  -- m_pBase is not NULL.
  pub base : Bool
  pub events : List (ℤ × Event)
  pub live : List Event
  pub next_id : ℕ
  -- event_base_loopexit has been called.
  pub loop_exit : Bool

unfoldable pub new_reactor : Reactor
new_reactor = record { base = false; events = []; live = []; next_id = 0; loop_exit = false }

-- init(base): the answer is false for a NULL base.
unfoldable pub init : Bool → Reactor → Bool × Reactor
init false r = (false, r)
init true r = (true, record r { base = true })

unfoldable pub shutdown : Reactor → Reactor
shutdown r = record r { loop_exit = true }

unfoldable pub find_fd : ℤ → List (ℤ × Event) → Option Event
find_fd fd [] = none
find_fd fd ((k, ev) ∷ m) = if k ==ℤ fd then some ev else find_fd fd m

unfoldable pub erase_fd : ℤ → List (ℤ × Event) → List (ℤ × Event)
erase_fd fd [] = []
erase_fd fd ((k, ev) ∷ m) = if k ==ℤ fd then m else (k, ev) ∷ erase_fd fd m

-- std::map::insert keeps an entry that is there.
unfoldable pub insert_fd : ℤ → Event → List (ℤ × Event) → List (ℤ × Event)
unfolding find_fd
insert_fd fd ev m = elim (find_fd fd m) [ none ↦ (fd, ev) ∷ m | some _ ↦ m ]

-- event_del and event_free.
unfoldable pub free_event : ℕ → List Event → List Event
free_event i [] = []
free_event i (ev ∷ l) = if ev.id == i then l else ev ∷ free_event i l

-- `m_events[fd]` makes an entry NULL where there is none, and `erase` takes it out again.
unfoldable pub unregister_fd_callback : ℤ → Reactor → Reactor
unfolding find_fd erase_fd free_event
unregister_fd_callback fd r = elim (find_fd fd r.events) [
  | none ↦ r
  | some ev ↦ record r { events = erase_fd fd r.events; live = free_event ev.id r.live }
]

-- The event that registerFdCallback makes.
abbrev pub new_event : Reactor → ℤ → ℕ → ℕ → Bool → Event
new_event r fd event_data event_flags oneshot = record {
  id = r.next_id;
  fd = fd;
  ev_read = has_in event_flags;
  ev_write = has_out event_flags;
  ev_persist = not oneshot;
  event_data = event_data;
}

abbrev pub add_event : ℤ → Event → Reactor → Reactor
add_event fd ev r = record r {
  events = insert_fd fd ev r.events;
  live = ev ∷ r.live;
  next_id = suc r.next_id;
}

-- `new_ok` and `add_ok` are the answers of event_new and event_add.
unfoldable pub register_fd_callback :
    Bool → Bool → ℤ → ℕ → ℕ → Bool → Bool → Reactor → Outcome Reactor
unfolding insert_fd unregister_fd_callback
register_fd_callback new_ok add_ok fd event_data event_flags oneshot modify r =
    if not r.base
    then ok r
    else let r1 = if modify then unregister_fd_callback fd r else r in
      if not new_ok
      then ok r1
      else if not add_ok
      then aborted
      else ok (add_event fd (new_event r1 fd event_data event_flags oneshot) r1)

-- The flags that dispatchEvents hands to the callback.
unfoldable pub dispatch_flags : Bool → Bool → ℕ
dispatch_flags ev_read ev_write =
    (if ev_read then aeventin else 0) + (if ev_write then aeventout else 0)

-- The destructor: the events of the map are deleted and freed one by one, and the map is cleared.
unfoldable pub free_all : List (ℤ × Event) → List Event → List Event
unfolding free_event
free_all [] live = live
free_all ((k, ev) ∷ m) live = free_all m (free_event ev.id live)

unfoldable pub destroy : Reactor → Reactor
unfolding free_all
destroy r = record r { events = []; live = free_all r.events r.live }
