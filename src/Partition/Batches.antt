-- ===== src/Partition/Batches.antt =====
-- What createProduceRequest of src/KafkaEndpointMP.cpp makes of the message queue.
use libasynckafkaclient.Prelude.{
  ℕ, ◌+◌, ◌≤◌, ◌<◌, ◌≡◌, refl, ap, ◌∙◌, true, List, [], ◌∷◌, ◌++◌, map, length, leb, arith,
  Bool-cases, inl, inr, append_assoc, All, leb→le,
}
use libasynckafkaclient.Prelude.Int.{ℤ}
use libasynckafkaclient.Config.{Str}
use libasynckafkaclient.Outcome.{ok}
use libasynckafkaclient.Os.{Os}
use libasynckafkaclient.Asio.{Asio, ProduceValue, ProduceHeader}
use libasynckafkaclient.Partition.Calls.{EventsAdded, after_register, register-ok}
use libasynckafkaclient.Partition.State.{KafkaPartition, Sys}
use libasynckafkaclient.Partition.Requests.{
  batches, batch_limit, produce_batches, produce_header, produce_entry, create_produce_request,
  msg_size,
}

abbrev pub tag : Str → ℤ → List ℕ → ProduceValue
tag topic partition msg = record { value = msg; topic_name = topic; partition = partition }

-- The size that req_size counts for the messages of a request.
abbrev pub payload : List ProduceValue → ℕ
payload [] = 0
payload (v ∷ l) = msg_size v.value + payload l

payload_snoc :
    (l : List ProduceValue) (v : ProduceValue)
    → payload (l ++ v ∷ []) ≡ payload l + msg_size v.value
payload_snoc [] v = omega arith
payload_snoc (x ∷ l) v = omega (arith, payload_snoc l v)

-- A property of all members but the last.
abbrev pub AllButLast {ℓ κ} : {A : Type ℓ} → (A → Type κ) → List A → Type κ
AllButLast P [] = Unit
AllButLast P (x ∷ []) = Unit
AllButLast P (x ∷ y ∷ l) = P x × AllButLast P (y ∷ l)

module _ (a : Asio) where
  open a use {ProduceRequest, values, header, add_value, clear}

  abbrev pub all_values : List ProduceRequest → List ProduceValue
  all_values [] = []
  all_values (r ∷ rs) = values r ++ all_values rs

  values-add_clear :
      (v : ProduceValue) (r : ProduceRequest) → values (add_value v (clear r)) ≡ v ∷ []
  values-add_clear v r = a.values-add_value v (clear r) ∙ ap (λ l. l ++ v ∷ []) (a.values-clear r)

  batches-values :
      (limit : ℕ) (topic : Str) (partition : ℤ) (r : ProduceRequest) (n : ℕ) (q : List (List ℕ))
      → all_values (batches a limit topic partition r n q) ≡ values r ++ map (tag topic partition) q
  unfolding batches
  batches-values limit topic partition r n [] = refl
  batches-values limit topic partition r n (msg ∷ q) = elim (Bool-cases (leb limit n)) [
    | inl full ↦ rw full (
        ap (◌++◌ (values r)) (
          batches-values limit topic partition (add_value (tag topic partition msg) (clear r))
            (0 + msg_size msg) q
          ∙ ap (λ l. l ++ map (tag topic partition) q)
              (values-add_clear (tag topic partition msg) r)))
    | inr room ↦ rw room (
        batches-values limit topic partition (add_value (tag topic partition msg) r)
          (n + msg_size msg) q
        ∙ ap (λ l. l ++ map (tag topic partition) q)
            (a.values-add_value (tag topic partition msg) r)
        ∙ append_assoc (values r) (tag topic partition msg ∷ []) (map (tag topic partition) q))
  ]

  -- `req_size` counts the request's payload.
  batches-bounded :
      (limit m : ℕ) (topic : Str) (partition : ℤ) (r : ProduceRequest) (n : ℕ) (q : List (List ℕ))
      → 0 < limit
      → All (λ msg. length msg ≤ m) q
      → n ≡ payload (values r)
      → n < limit + m + 10
      → All (λ r. payload (values r) < limit + m + 10) (batches a limit topic partition r n q)
  unfolding batches
  batches-bounded limit m topic partition r n [] h s e b = (omega arith, tt)
  batches-bounded limit m topic partition r n (msg ∷ q) h s e b = elim (Bool-cases (leb limit n)) [
    | inl full ↦ rw full (
      (omega arith),
      batches-bounded limit m topic partition (add_value (tag topic partition msg) (clear r))
          (0 + msg_size msg) q h s.1
          (omega (arith, ap payload (values-add_clear (tag topic partition msg) r))) (omega arith),
    )
    | inr room ↦ rw room (
        batches-bounded limit m topic partition (add_value (tag topic partition msg) r)
          (n + msg_size msg) q h s.1
          (omega (
            arith,
            ap payload (a.values-add_value (tag topic partition msg) r),
            payload_snoc (values r) (tag topic partition msg),
          ))
          (ground arith))
  ]

  AllButLast-cons {κ} :
      (P : ProduceRequest → Type κ) (x : ProduceRequest) (l : List ProduceRequest)
      → P x
      → AllButLast P l
      → AllButLast P (x ∷ l)
  AllButLast-cons P x [] p h = tt
  AllButLast-cons P x (y ∷ l) p h = (p, h)

  batches-full :
      (limit : ℕ) (topic : Str) (partition : ℤ) (r : ProduceRequest) (n : ℕ) (q : List (List ℕ))
      → n ≡ payload (values r)
      → AllButLast (λ r. limit ≤ payload (values r)) (batches a limit topic partition r n q)
  unfolding batches
  batches-full limit topic partition r n [] e = tt
  batches-full limit topic partition r n (msg ∷ q) e = elim (Bool-cases (leb limit n)) [
    | inl full ↦ rw full (
        AllButLast-cons _ r _ (omega (arith, leb→le limit n full)) (
          batches-full limit topic partition (add_value (tag topic partition msg) (clear r))
            (0 + msg_size msg) q
            (omega (arith, ap payload (values-add_clear (tag topic partition msg) r)))))
    | inr room ↦ rw room (
        batches-full limit topic partition (add_value (tag topic partition msg) r)
          (n + msg_size msg) q
          (omega (
            arith,
            ap payload (a.values-add_value (tag topic partition msg) r),
            payload_snoc (values r) (tag topic partition msg),
          )))
  ]

  batches-header :
      (limit : ℕ) (topic : Str) (partition : ℤ) (r : ProduceRequest) (n : ℕ) (q : List (List ℕ))
      (h : ProduceHeader)
      → header r ≡ h
      → All (λ r. header r ≡ h) (batches a limit topic partition r n q)
  unfolding batches
  batches-header limit topic partition r n [] h e = (e, tt)
  batches-header limit topic partition r n (msg ∷ q) h e = elim (Bool-cases (leb limit n)) [
    | inl full ↦ rw full (
      e,
      batches-header limit topic partition (add_value (tag topic partition msg) (clear r))
          (0 + msg_size msg) q h
          (a.header-add_value (tag topic partition msg) (clear r) ∙ a.header-clear r ∙ e),
    )
    | inr room ↦ rw room (
        batches-header limit topic partition (add_value (tag topic partition msg) r)
          (n + msg_size msg) q h (a.header-add_value (tag topic partition msg) r ∙ e))
  ]

  -- Together the requests of createProduceRequest hold the queued messages, each once and in the
  -- order of the queue, for the partition's topic and number, and each has the configured header.
  pub produce_batches-values :
      (p : KafkaPartition)
      → (all_values (produce_batches a p) ≡ map (tag p.topic p.partition) p.q_msgs)
        × All (λ r. header r ≡ produce_header a p.config) (produce_batches a p)
  unfolding produce_batches
  produce_batches-values p =
      let fresh = a.new_produce_request (produce_header a p.config) in
      (
        batches-values (batch_limit p.config) p.topic p.partition fresh 0 p.q_msgs
            ∙ ap (λ l. l ++ map (tag p.topic p.partition) p.q_msgs)
                (a.values-new_produce_request (produce_header a p.config)),
        batches-header (batch_limit p.config) p.topic p.partition fresh 0 p.q_msgs
            (produce_header a p.config) (a.header-new_produce_request (produce_header a p.config)),
      )

  -- Unless cMaxFetchBytes is 1024, which makes the batch limit 0, and if no queued message is
  -- longer than m bytes, no request of createProduceRequest passes the batch limit by as much as m
  -- + 10 bytes, and every request but the last has reached the limit.
  pub produce_batches-bounded :
      (p : KafkaPartition) (m : ℕ)
      → 0 < batch_limit p.config
      → All (λ msg. length msg ≤ m) p.q_msgs
      → All (λ r. payload (values r) < batch_limit p.config + m + 10) (produce_batches a p)
        × AllButLast (λ r. batch_limit p.config ≤ payload (values r)) (produce_batches a p)
  unfolding produce_batches
  produce_batches-bounded p m h s =
      let fresh = a.new_produce_request (produce_header a p.config) in
      let empty : 0 ≡ payload (values fresh) =
        omega (arith, ap payload (a.values-new_produce_request (produce_header a p.config))) in
      (
        batches-bounded (batch_limit p.config) m p.topic p.partition fresh 0 p.q_msgs h s empty
            (omega arith),
        batches-full (batch_limit p.config) p.topic p.partition fresh 0 p.q_msgs empty,
      )

  -- The requests that a call of createProduceRequest appends to the write buffers.
  abbrev pub appended : KafkaPartition → List (ℕ × List ℕ)
  appended p = map (produce_entry a p.config.client_id) (produce_batches a p)

  -- If libevent takes the registration, createProduceRequest empties the message queue, appends the
  -- serialised requests behind what waits to be written, touches no other member and sends nothing.
  pub create_produce_request-ok :
      (os : Os) (s : Sys)
      → EventsAdded os
      → (s' : Sys) × (create_produce_request a os s ≡ ok s')
        × (s'.part ≡ record (s.part) {
          q_msgs = [];
          dq_write_buffers = s.part.dq_write_buffers ++ appended s.part;
        })
        × (s'.world.trace ≡ s.world.trace)
  unfolding create_produce_request
  create_produce_request-ok os s adds =
      let queued = record s {
        part = record (s.part) {
          q_msgs = [];
          dq_write_buffers = s.part.dq_write_buffers ++ appended s.part;
        };
      } in
      let (r, e) =
        register-ok os s.part.sock_fd s.part.event_data s.part.event_flags true queued adds in
      (after_register r queued, e, refl, refl)
