-- ===== src/Reactor/Known.antt =====
-- Which descriptors LibeventReactor watches (src/LibeventReactor.cpp).
use libasynckafkaclient.Prelude.{
  ℕ, ◌≡◌, sym, ◌∙◌, subst, Bool, true, false, not, none, some, arith, Bool-cases, Option-cases, inl,
  inr,
}
use libasynckafkaclient.Prelude.Int.{ℤ, ◌==ℤ◌, ==ℤ→≡}
use libasynckafkaclient.Outcome.{Keeps, if-Keeps}
use libasynckafkaclient.Reactor.{
  Event, Reactor, find_fd, insert_fd, unregister_fd_callback, new_event, add_event,
  register_fd_callback,
}
use libasynckafkaclient.Reactor.Invariant.{Inv}
use libasynckafkaclient.Reactor.Watch.{find-unregister_fd_callback}

-- Every descriptor that is registered satisfies D.
abbrev pub Known : (ℤ → Type 0) → Reactor → Type 0
Known D r = (k : ℤ) (ev : Event) → find_fd k r.events ≡ some ev → D k

-- After a descriptor has been unregistered, only the others are left.
pub unregister-Known :
    (D S : ℤ → Type 0) (fd : ℤ) (r : Reactor)
    → Inv r
    → Known D r
    → ((k : ℤ) → (fd ==ℤ k) ≡ false → D k → S k)
    → Known S (unregister_fd_callback fd r)
unregister-Known D S fd r v known other k ev found =
    let after = find-unregister_fd_callback fd k r v in
    elim (Bool-cases (fd ==ℤ k)) [
      | inl same ↦ absurd (none≢some ev (sym (rw same at after) ∙ found))
      | inr differs ↦ other k differs (known k ev (sym (rw differs at after) ∙ found))
    ]
  where
    none≢some : (e : Event) → ¬ (none ≡ some e)
    none≢some e h = ground arith

add_event-Known :
    (D : ℤ → Type 0) (fd : ℤ) (ev : Event) (r : Reactor)
    → D fd
    → Known D r
    → Known D (add_event fd ev r)
unfolding insert_fd find_fd
add_event-Known D fd ev r d known k e found = elim (Option-cases (find_fd fd r.events)) [
  | inl absent ↦ elim (Bool-cases (fd ==ℤ k)) [
    | inl same ↦ subst D (==ℤ→≡ fd k same) d
    | inr differs ↦ known k e (rw (absent, insert_fd, differs) at found)
  ]
  | inr (old, present) ↦ known k e (rw (present, insert_fd) at found)
]

pub register_fd_callback-Known :
    (D : ℤ → Type 0) (new_ok add_ok : Bool) (fd : ℤ) (data_id flags : ℕ) (oneshot modify : Bool)
    (r : Reactor)
    → Inv r
    → D fd
    → Known D r
    → Keeps (Known D) (register_fd_callback new_ok add_ok fd data_id flags oneshot modify r)
unfolding register_fd_callback
register_fd_callback-Known D new_ok add_ok fd data_id flags oneshot true r v d known =
    let r1 = unregister_fd_callback fd r in
    let known1 = unregister-Known D D fd r v known (λ k differs h. h) in
    if-Keeps (Known D) (not r.base) _ _ known (
      if-Keeps (Known D) (not new_ok) _ _ known1 (
        if-Keeps (Known D) (not add_ok) _ _ tt
          (add_event-Known D fd (new_event r1 fd data_id flags oneshot) r1 d known1)))
register_fd_callback-Known D new_ok add_ok fd data_id flags oneshot false r v d known =
    if-Keeps (Known D) (not r.base) _ _ known (
      if-Keeps (Known D) (not new_ok) _ _ known (
        if-Keeps (Known D) (not add_ok) _ _ tt
          (add_event-Known D fd (new_event r fd data_id flags oneshot) r d known)))
