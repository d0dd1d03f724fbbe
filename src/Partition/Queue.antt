-- ===== src/Partition/Queue.antt =====
-- What every method of a partition (src/KafkaEndpointMP.cpp) does to its message queue.
use libasynckafkaclient.Prelude.{
  ℕ, ◌≡◌, refl, sym, ap, ◌∙◌, subst, Bool, false, List, [], ◌∷◌, ◌++◌, if◌then◌else◌, append_assoc,
  append-nil,
}
use libasynckafkaclient.Prelude.Int.{ℤ}
use libasynckafkaclient.Outcome.{
  Keeps, Keeps-bind, call-Keeps, if-Keeps, Outcome, ok, exited, aborted, thrown, undefined, no_fuel,
  ◌>>=◌, >>=_assoc,
}
use libasynckafkaclient.Os.{Os}
use libasynckafkaclient.Reactor.{register_fd_callback}
use libasynckafkaclient.Wakeup.{WakeupEventSource, wakeup}
use libasynckafkaclient.Partition.State.{KafkaPartition, Sys, register, wake}
use libasynckafkaclient.Partition.Requests.{
  produce, enqueue, enqueue_next, enqueue_all, produce_msgs, batch_is_full,
}
use libasynckafkaclient.Partition.Lifecycle.{resume_fetch}
use libasynckafkaclient.Partition.Kept.{Kept}

-- A call that ends with a partition ends with this message queue.
abbrev pub Leaves : List (List ℕ) → Outcome Sys → Type 0
Leaves q m = Keeps (λ s. s.part.q_msgs ≡ q) m

pub Leaves-bind :
    (q r : List (List ℕ)) (m : Outcome Sys) (f : Sys → Outcome Sys)
    → Leaves q m
    → ((s : Sys) → s.part.q_msgs ≡ q → Leaves r (f s))
    → Leaves r (m >>= f)
Leaves-bind q r = Keeps-bind (λ s. s.part.q_msgs ≡ q) (λ s. s.part.q_msgs ≡ r)

call-Leaves {ℓ} :
    {A : Type ℓ} (q : List (List ℕ)) (m : Outcome A) (f : A → Sys)
    → ((x : A) → (f x).part.q_msgs ≡ q)
    → Leaves q (m >>= λ x. ok (f x))
call-Leaves q = call-Keeps (λ s. s.part.q_msgs ≡ q)

pub if-Leaves :
    (q : List (List ℕ)) (b : Bool) (x y : Outcome Sys)
    → Leaves q x
    → Leaves q y
    → Leaves q (if b then x else y)
if-Leaves q = if-Keeps (λ s. s.part.q_msgs ≡ q)

pub Keeps-Leaves :
    (p : KafkaPartition) (m : Outcome Sys) → Keeps (λ t. Kept p t.part) m → Leaves p.q_msgs m
Keeps-Leaves p (ok s) h = ap (λ (r : KafkaPartition). r.q_msgs) h
Keeps-Leaves p exited h = tt
Keeps-Leaves p aborted h = tt
Keeps-Leaves p thrown h = tt
Keeps-Leaves p undefined h = tt
Keeps-Leaves p no_fuel h = tt

pub register-Leaves :
    (os : Os) (fd : ℤ) (d f : ℕ) (modify : Bool) (s : Sys)
    → Leaves s.part.q_msgs (register os fd d f modify s)
unfolding register
register-Leaves os fd d f modify s =
    call-Leaves _ (register_fd_callback _ _ fd d f false modify s.reactor) _ (λ r. refl)

wake-Leaves :
    (os : Os) (source : WakeupEventSource) (s : Sys) → Leaves s.part.q_msgs (wake os source s)
wake-Leaves os source s = call-Leaves _ (wakeup os source s.world) _ (λ w. refl)

enqueue-Leaves :
    (os : Os) (msg : List ℕ) (s : Sys) → Leaves (s.part.q_msgs ++ msg ∷ []) (enqueue os msg s)
unfolding enqueue
enqueue-Leaves os msg s =
    if-Leaves _ (batch_is_full s.part) _ _
      (Leaves-bind s.part.q_msgs _ (wake os s.part.produce_event s) _
        (wake-Leaves os s.part.produce_event s) (λ s1 h. ap (λ l. l ++ msg ∷ []) h))
      refl

enqueue_next-Leaves :
    (os : Os) (msg : List ℕ) (s : Sys) → Leaves (s.part.q_msgs ++ msg ∷ []) (enqueue_next os msg s)
unfolding enqueue_next
enqueue_next-Leaves os msg s =
    if-Leaves _ (batch_is_full s.part) _ _
      (Leaves-bind s.part.q_msgs _ (wake os s.part.produce_event s) _
        (wake-Leaves os s.part.produce_event s) (λ s1 h. ap (λ l. l ++ msg ∷ []) h))
      refl

enqueue_all-Leaves :
    (os : Os) (msgs : List (List ℕ)) (s : Sys)
    → Leaves (s.part.q_msgs ++ msgs) (enqueue_all os msgs s)
unfolding enqueue_all
enqueue_all-Leaves os [] s = sym (append-nil s.part.q_msgs)
enqueue_all-Leaves os (msg ∷ msgs) s =
    Leaves-bind _ _ (enqueue_next os msg s) _ (enqueue_next-Leaves os msg s) (λ s1 h.
      subst (λ q. Leaves q (enqueue_all os msgs s1))
        (ap (λ l. l ++ msgs) h ∙ append_assoc s.part.q_msgs (msg ∷ []) msgs)
        (enqueue_all-Leaves os msgs s1))

pub wake_after :
    (os : Os) (source : Sys → WakeupEventSource) (q : List (List ℕ)) (s : Sys)
    → s.part.q_msgs ≡ q
    → Leaves q (wake os (source s) s)
wake_after os source q s h =
    subst (λ q. Leaves q (wake os (source s) s)) h (wake-Leaves os (source s) s)

pub produce-Leaves :
    (os : Os) (msg : List ℕ) (s : Sys) → Leaves (s.part.q_msgs ++ msg ∷ []) (produce os msg s)
unfolding produce
produce-Leaves os msg s =
    Leaves-bind _ _ (enqueue os msg s) _ (enqueue-Leaves os msg s)
      (wake_after os (λ s. s.part.produce_msg_q_event) _)

-- The return code of produce of a list is dropped.
abbrev pub produced_msgs : Os → List (List ℕ) → Sys → Outcome Sys
produced_msgs os msgs s = produce_msgs os msgs s >>= λ r. ok r.1

code-Leaves :
    (q : List (List ℕ)) (m : Outcome Sys)
    → Leaves q m
    → Leaves q ((m >>= λ s. ok (0, s)) >>= λ (r : ℕ × Sys). ok r.1)
code-Leaves q (ok s) h = h
code-Leaves q exited h = tt
code-Leaves q aborted h = tt
code-Leaves q thrown h = tt
code-Leaves q undefined h = tt
code-Leaves q no_fuel h = tt

pub produced_msgs-Leaves :
    (os : Os) (msgs : List (List ℕ)) (s : Sys)
    → Leaves (s.part.q_msgs ++ msgs) (produced_msgs os msgs s)
unfolding produce_msgs
produced_msgs-Leaves os [] s = sym (append-nil s.part.q_msgs)
produced_msgs-Leaves os (msg ∷ msgs) s =
    subst (Leaves (s.part.q_msgs ++ msg ∷ msgs))
      (sym (>>=_assoc (enqueue_all os (msg ∷ msgs) s) _ _))
      (Leaves-bind _ _ (enqueue_all os (msg ∷ msgs) s) _ (enqueue_all-Leaves os (msg ∷ msgs) s)
        (λ s1 h.
          code-Leaves _ (wake os s1.part.produce_msg_q_event s1)
            (wake_after os (λ s. s.part.produce_msg_q_event) _ s1 h)))

pub resume_fetch-Leaves : (os : Os) (s : Sys) → Leaves s.part.q_msgs (resume_fetch os s)
unfolding resume_fetch
resume_fetch-Leaves os s =
    if-Leaves _ s.part.fetch_paused _ _ (wake-Leaves os s.part.fetch_event _) refl
