-- ===== src/Partition/Writing.antt =====
-- What onWriteReady of src/KafkaEndpointMP.cpp does with the write buffers, and that it ends.
use libasynckafkaclient.Prelude.{
  ℕ, zero, suc, ◌≤◌, ◌<◌, ◌≡◌, refl, List, [], ◌∷◌, ◌++◌, length, if◌then◌else◌, arith, Bool-cases,
  inl, inr, append_assoc, append-nil, All, take_all, ◌==◌,
}
use libasynckafkaclient.Prelude.Int.{ℤ}
use libasynckafkaclient.Outcome.{ok}
use libasynckafkaclient.Os.{Os, Action, sent, wrote}
use libasynckafkaclient.Asio.{Asio, api_key_produce}
use libasynckafkaclient.Partition.State.{KafkaPartition, Sys, act}
use libasynckafkaclient.Partition.Transfer.{after_write, take_request, on_write_ready, drain}

-- The produce requests among what is written.
abbrev pub produced : List (ℕ × List ℕ) → List (List ℕ)
produced [] = []
produced ((key, req) ∷ l) = if key == api_key_produce then req ∷ produced l else produced l

-- The trace after the requests have been sent one after the other.
abbrev pub sent_all : ℤ → List (ℕ × List ℕ) → List Action → List Action
sent_all fd [] trace = trace
sent_all fd ((key, req) ∷ l) trace = sent_all fd l (sent fd req ∷ trace)

-- Every write() takes at least m bytes.
abbrev pub WritesUpTo : ℕ → Os → Type 0
WritesUpTo m os = (t : ℕ) → (n : ℕ) × (os.write t ≡ wrote n) × (m ≤ n)

abbrev pub sent_one : ℕ → List ℕ → List (ℕ × List ℕ) → Sys → Sys
sent_one key req q s = act (sent s.part.sock_fd req) (take_request key req q s)

pub sent_one-part :
    (key : ℕ) (req : List ℕ) (q : List (ℕ × List ℕ)) (s : Sys) (p : KafkaPartition)
    → p ≡ record ((sent_one key req q s).part) {
      dq_write_buffers = [];
      q_in_transit_produce_request =
          (sent_one key req q s).part.q_in_transit_produce_request ++ produced q;
    }
    → p ≡ record (s.part) {
      dq_write_buffers = [];
      q_in_transit_produce_request =
          s.part.q_in_transit_produce_request ++ produced ((key, req) ∷ q);
    }
sent_one-part key req q s p e = elim (Bool-cases (key == api_key_produce)) [
  | inl produce ↦
      rw produce
        (ground (arith, append_assoc s.part.q_in_transit_produce_request (req ∷ []) (produced q)))
  | inr other ↦ rw other (ground arith)
]

module _ (a : Asio) (os : Os) where
  pub on_write_ready-sent_one :
      (inner m : ℕ) (key : ℕ) (req : List ℕ) (q : List (ℕ × List ℕ)) (s : Sys)
      → s.part.dq_write_buffers ≡ (key, req) ∷ q
      → WritesUpTo m os
      → length req ≤ m
      → 0 < inner
      → on_write_ready a os inner s ≡ ok (sent_one key req q s)
  unfolding on_write_ready after_write
  on_write_ready-sent_one zero m key req q s e writes fits i = absurd (omega arith)
  on_write_ready-sent_one (suc inner) m key req q s e writes fits i =
      let (n, answer, le) = writes s.world.tick in
      simp (e, answer, take_all n req (omega arith)) refl

  -- If every write() takes at least m bytes and no request that waits is longer, the destructor's
  -- loop ends, with fuel for one round more than there are requests and some for each call: it
  -- sends the requests whole, in the order of the queue and each once, leaves the write buffers
  -- empty and remembers the produce requests in that order.
  pub drain-sent_all :
      (m fuel inner : ℕ) (q : List (ℕ × List ℕ)) (s : Sys)
      → s.part.dq_write_buffers ≡ q
      → WritesUpTo m os
      → All (λ e. length e.1 ≤ m) q
      → length q < fuel
      → 0 < inner
      → (s' : Sys) × (drain a os fuel inner s ≡ ok s')
        × (s'.part ≡ record (s.part) {
          dq_write_buffers = [];
          q_in_transit_produce_request = s.part.q_in_transit_produce_request ++ produced q;
        })
        × (s'.world.trace ≡ sent_all s.part.sock_fd q s.world.trace)
  unfolding drain
  drain-sent_all m zero inner q s e writes fits h i = absurd (omega arith)
  drain-sent_all m (suc fuel) inner [] s e writes fits h i =
      (s, simp e refl, ground (arith, append-nil s.part.q_in_transit_produce_request), refl)
  drain-sent_all m (suc fuel) inner ((key, req) ∷ q) s e writes fits h i =
      let one = on_write_ready-sent_one inner m key req q s e writes fits.0 i in
      let (s', done, part, trace) =
        drain-sent_all m fuel inner q (sent_one key req q s) refl writes fits.1 (omega arith) i in
      (s', simp (e, one) done, sent_one-part key req q s s'.part part, trace)
