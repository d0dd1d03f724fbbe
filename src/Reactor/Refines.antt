-- ===== src/Reactor/Refines.antt =====
-- What a user of LibeventReactor (src/LibeventReactor.cpp) can observe of its map: a function from
-- descriptors to the source and the readiness that are watched.
use libasynckafkaclient.Prelude.{
  ℕ, ◌≡◌, refl, sym, ap, ◌∙◌, subst, Bool, true, false, Option, none, some, List, [], ◌∷◌,
  if◌then◌else◌, inl,
}
use mathlib.Core.Path.{fun_ext}
use libasynckafkaclient.Prelude.Int.{ℤ, ◌==ℤ◌}
use libasynckafkaclient.Outcome.{Outcome, ok, ok_inj, ◌>>=◌, Keeps, both-Keeps}
use libasynckafkaclient.Reactor.{
  Event, Reactor, find_fd, unregister_fd_callback, register_fd_callback, has_in, has_out,
}
use libasynckafkaclient.Reactor.Invariant.{
  Inv, unregister_fd_callback-Inv, register_fd_callback-Inv,
}
use libasynckafkaclient.Reactor.Registers.{Registers, register_fd_callback-Registers}
use libasynckafkaclient.Reactor.Watch.{
  unregister-base, find-register_fd_callback, find-unregister_fd_callback,
}

-- The calls of a user that always asks to modify.
pub data Call : Type 0 where
  register : ℤ → ℕ → ℕ → Call
  unregister : ℤ → Call

-- The source, and whether it is watched for reading and for writing.
abbrev pub Watch : Type 0
Watch = ℕ × Bool × Bool

abbrev pub watch_of : Option Event → Option Watch
watch_of none = none
watch_of (some ev) = some (ev.event_data, ev.ev_read, ev.ev_write)

abbrev pub view : Reactor → ℤ → Option Watch
view r fd = watch_of (find_fd fd r.events)

-- A function, changed at one descriptor.
abbrev pub update : ℤ → Option Watch → (ℤ → Option Watch) → ℤ → Option Watch
update fd w f k = if fd ==ℤ k then w else f k

-- The calls on the reactor, whose events libevent accepts.
abbrev pub run : List Call → Reactor → Outcome Reactor
run [] r = ok r
run (register fd event_data flags ∷ calls) r =
    register_fd_callback true true fd event_data flags false true r >>= run calls
run (unregister fd ∷ calls) r = run calls (unregister_fd_callback fd r)

-- The same calls on a function.
abbrev pub replay : List Call → (ℤ → Option Watch) → ℤ → Option Watch
replay [] f = f
replay (register fd event_data flags ∷ calls) f =
    replay calls (update fd (some (event_data, has_in flags, has_out flags)) f)
replay (unregister fd ∷ calls) f = replay calls (update fd none f)

watch_of-if :
    (b : Bool) (x y : Option Event)
    → watch_of (if b then x else y) ≡ (if b then watch_of x else watch_of y)
watch_of-if true x y = refl
watch_of-if false x y = refl

-- One registration, as a step of both.
register_step :
    (fd : ℤ) (event_data flags : ℕ) (r : Reactor)
    → Inv r
    → r.base ≡ true
    → (r' : Reactor) × (register_fd_callback true true fd event_data flags false true r ≡ ok r')
      × Inv r'
      × (r'.base ≡ true)
      × (view r' ≡ update fd (some (event_data, has_in flags, has_out flags)) (view r))
register_step fd event_data flags r v based =
    let (r', e, _) = find-register_fd_callback fd fd event_data flags false r v based in
    let kept = subst (Keeps (λ x. Inv x × Registers fd flags x)) e (
      both-Keeps Inv (Registers fd flags) _
        (register_fd_callback-Inv true true fd event_data flags false true r (inl refl) v)
        (register_fd_callback-Registers true fd event_data flags true r v based (inl refl))) in
    (
      r',
      e,
      kept.0,
      kept.1.0,
      fun_ext (λ k.
          let (r2, e2, found) = find-register_fd_callback fd k event_data flags false r v based in
          ap (λ (x : Reactor). view x k) (ok_inj (sym e ∙ e2))
          ∙ ap watch_of found
          ∙ watch_of-if (fd ==ℤ k) _ (find_fd k r.events)),
    )

-- From a well-formed reactor with a base, any sequence of registrations with modify set and of
-- unregistrations that libevent accepts succeeds, ends in a well-formed reactor, and leaves each
-- descriptor watched as the same calls on a function from descriptors to watches say.
pub run_refines :
    (calls : List Call) (r : Reactor)
    → Inv r
    → r.base ≡ true
    → (r' : Reactor) × (run calls r ≡ ok r')
      × Inv r'
      × ((k : ℤ) → view r' k ≡ replay calls (view r) k)
run_refines [] r v based = (r, refl, v, λ k. refl)
run_refines (register fd event_data flags ∷ calls) r v based =
    let (r1, made, v1, based1, view1) = register_step fd event_data flags r v based in
    let (r', e, v', views) = run_refines calls r1 v1 based1 in
    (r', rw made e, v', λ k. views k ∙ ap (λ f. replay calls f k) view1)
run_refines (unregister fd ∷ calls) r v based =
    let r1 = unregister_fd_callback fd r in
    let (r', e, v', views) =
      run_refines calls r1 (unregister_fd_callback-Inv fd r v) (unregister-base fd r ∙ based) in
    (
      r',
      e,
      v',
      λ k.
          views k
          ∙ ap (λ f. replay calls f k)
              (fun_ext (λ j.
                ap watch_of (find-unregister_fd_callback fd j r v)
                ∙ watch_of-if (fd ==ℤ j) none _)),
    )
