-- ===== src/Reactor/Invariant.antt =====
-- What holds of LibeventReactor between two calls: every event that is allocated is in the map, once.
use libasynckafkaclient.Prelude.{
  ℕ, ◌≤◌, ◌<◌, ◌≡◌, refl, ap, Bool, true, false, none, some, List, [], ◌∷◌, arith, ◌⊎◌, ◌∙◌,
  Bool-cases, Option-cases, inl, inr,
}
use libasynckafkaclient.Prelude.Int.{ℤ, ◌==ℤ◌, ==ℤ→≡}
use libasynckafkaclient.Outcome.{Keeps}
use libasynckafkaclient.Reactor.{
  Event, Reactor, new_reactor, find_fd, erase_fd, insert_fd, free_event, unregister_fd_callback,
  new_event, add_event, register_fd_callback, free_all, destroy,
}

abbrev pub mapped : List (ℤ × Event) → List Event
mapped [] = []
mapped ((k, ev) ∷ m) = ev ∷ mapped m

-- The identities fall along the list and stay under the bound, so no event is in it twice.
abbrev pub Below : ℕ → List (ℤ × Event) → Type 0
Below n [] = Unit {0}
Below n ((k, ev) ∷ m) = (ev.id < n) × Below ev.id m

-- No descriptor has two entries.
abbrev pub Distinct : List (ℤ × Event) → Type 0
Distinct [] = Unit {0}
Distinct ((k, ev) ∷ m) = (find_fd k m ≡ none) × Distinct m

-- An entry's event watches the descriptor that it is filed under.
abbrev pub Filed : List (ℤ × Event) → Type 0
Filed [] = Unit {0}
Filed ((k, ev) ∷ m) = (ev.fd ≡ k) × Filed m

pub record Inv (r : Reactor) : Type 0 where
  pub tracked : r.live ≡ mapped r.events
  pub fresh : Below r.next_id r.events
  pub distinct : Distinct r.events
  pub filed : Filed r.events

Below-mono : {a b : ℕ} (m : List (ℤ × Event)) → a ≤ b → Below a m → Below b m
Below-mono [] h d = tt
Below-mono ((k, ev) ∷ m) h d = (omega arith, d.1)

erase-Below : (fd : ℤ) (n : ℕ) (m : List (ℤ × Event)) → Below n m → Below n (erase_fd fd m)
unfolding erase_fd
erase-Below fd n [] d = tt
erase-Below fd n ((k, ev) ∷ m) d =
    ground (arith, erase-Below fd ev.id m d.1, Below-mono {a = ev.id} {b = n} m)

find-erase_ne :
    (fd k : ℤ) (m : List (ℤ × Event)) → find_fd k m ≡ none → find_fd k (erase_fd fd m) ≡ none
unfolding erase_fd find_fd
find-erase_ne fd k [] h = refl
find-erase_ne fd k ((j, ev) ∷ m) h = ground (arith, find-erase_ne fd k m)

erase-Distinct : (fd : ℤ) (m : List (ℤ × Event)) → Distinct m → Distinct (erase_fd fd m)
unfolding erase_fd
erase-Distinct fd [] d = tt
erase-Distinct fd ((k, ev) ∷ m) d =
    ground (arith, erase-Distinct fd m d.1, find-erase_ne fd k m d.0)

erase-Filed : (fd : ℤ) (m : List (ℤ × Event)) → Filed m → Filed (erase_fd fd m)
unfolding erase_fd
erase-Filed fd [] d = tt
erase-Filed fd ((k, ev) ∷ m) d = ground (arith, erase-Filed fd m d.1)

find-lt :
    (fd : ℤ) (n : ℕ) (m : List (ℤ × Event)) (ev : Event)
    → Below n m
    → find_fd fd m ≡ some ev
    → ev.id < n
unfolding find_fd
find-lt fd n [] ev d h = ground arith
find-lt fd n ((k, e) ∷ m) ev d h = ground (arith, find-lt fd e.id m ev d.1)

free-erase :
    (fd : ℤ) (n : ℕ) (m : List (ℤ × Event)) (ev : Event)
    → Below n m
    → find_fd fd m ≡ some ev
    → free_event ev.id (mapped m) ≡ mapped (erase_fd fd m)
unfolding find_fd free_event erase_fd
free-erase fd n [] ev d h = ground arith
free-erase fd n ((k, e) ∷ m) ev d h =
    ground (arith, free-erase fd e.id m ev d.1, find-lt fd e.id m ev d.1)

pub find-erase : (fd : ℤ) (m : List (ℤ × Event)) → Distinct m → find_fd fd (erase_fd fd m) ≡ none
unfolding erase_fd find_fd
find-erase fd [] d = refl
find-erase fd ((k, ev) ∷ m) d = elim (Bool-cases (k ==ℤ fd)) [
  | inl hit ↦ rw hit (subst_none k (==ℤ→≡ k fd hit) d.0)
  | inr miss ↦ rw (miss, find_fd, miss) (find-erase fd m d.1)
]
  where
    subst_none : (k : ℤ) → k ≡ fd → find_fd k m ≡ none → find_fd fd m ≡ none
    subst_none k e h = rw (← e) h

-- A new reactor is well formed.
pub new_reactor-Inv : Inv new_reactor
unfolding new_reactor
new_reactor-Inv = record { tracked = refl; fresh = tt; distinct = tt; filed = tt }

-- unregisterFdCallback keeps the reactor well formed, whether or not the descriptor is registered.
pub unregister_fd_callback-Inv : (fd : ℤ) (r : Reactor) → Inv r → Inv (unregister_fd_callback fd r)
unfolding unregister_fd_callback
unregister_fd_callback-Inv fd r v = elim (Option-cases (find_fd fd r.events)) [
  | inl absent ↦ rw (absent, unregister_fd_callback) v
  | inr (ev, found) ↦
      rw (found, unregister_fd_callback)
        (record {
          tracked =
              ap (free_event ev.id) v.tracked ∙ free-erase fd r.next_id r.events ev v.fresh found;
          fresh = erase-Below fd r.next_id r.events v.fresh;
          distinct = erase-Distinct fd r.events v.distinct;
          filed = erase-Filed fd r.events v.filed;
        })
]

pub find-unregister :
    (fd : ℤ) (r : Reactor) → Inv r → find_fd fd (unregister_fd_callback fd r).events ≡ none
unfolding unregister_fd_callback
find-unregister fd r v = elim (Option-cases (find_fd fd r.events)) [
  | inl absent ↦ rw (absent, unregister_fd_callback) absent
  | inr (ev, found) ↦ rw (found, unregister_fd_callback) (find-erase fd r.events v.distinct)
]

pub add_event-Inv :
    (fd : ℤ) (data_id flags : ℕ) (oneshot : Bool) (r : Reactor)
    → find_fd fd r.events ≡ none
    → Inv r
    → Inv (add_event fd (new_event r fd data_id flags oneshot) r)
unfolding insert_fd
add_event-Inv fd data_id flags oneshot r absent v =
    rw (absent, insert_fd)
      (record {
        tracked = ap (◌∷◌ (new_event r fd data_id flags oneshot)) v.tracked;
        fresh = (omega arith, v.fresh);
        distinct = (absent, v.distinct);
        filed = (refl, v.filed);
      })

-- registerFdCallback keeps the reactor well formed when it is told to modify, or when the
-- descriptor is not registered yet, whatever event_new and event_add answer.
pub register_fd_callback-Inv :
    (new_ok add_ok : Bool) (fd : ℤ) (data_id flags : ℕ) (oneshot modify : Bool) (r : Reactor)
    → (modify ≡ true) ⊎ (find_fd fd r.events ≡ none)
    → Inv r
    → Keeps Inv (register_fd_callback new_ok add_ok fd data_id flags oneshot modify r)
unfolding register_fd_callback
register_fd_callback-Inv new_ok add_ok fd data_id flags oneshot true r h v = ground (
  arith,
  unregister_fd_callback-Inv fd r v,
  add_event-Inv fd data_id flags oneshot (unregister_fd_callback fd r) (find-unregister fd r v),
)
register_fd_callback-Inv new_ok add_ok fd data_id flags oneshot false r h v =
    ground (arith, add_event-Inv fd data_id flags oneshot r)

-- Freeing what the map holds frees everything that is allocated.
pub free_all-mapped : (m : List (ℤ × Event)) → free_all m (mapped m) ≡ []
unfolding free_all free_event
free_all-mapped [] = refl
free_all-mapped ((k, ev) ∷ m) = ground (arith, free_all-mapped m)

-- An event newer than those of the map stays where it is.
pub free_all_newer :
    (n : ℕ) (m : List (ℤ × Event)) (ev : Event) (l : List Event)
    → Below n m
    → n ≤ ev.id
    → free_all m (ev ∷ l) ≡ ev ∷ free_all m l
unfolding free_all free_event
free_all_newer n [] ev l d h = refl
free_all_newer n ((k, e) ∷ m) ev l d h =
    ground (arith, free_all_newer e.id m ev (free_event e.id l) d.1)

-- The destructor of a well-formed reactor leaves no event allocated.
pub destroy-live : (r : Reactor) → Inv r → (destroy r).live ≡ []
unfolding destroy
destroy-live r v = rw v.tracked (free_all-mapped r.events)
