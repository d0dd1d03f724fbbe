-- ===== src/Partition/Carried.antt =====
-- The produce requests in the write buffers (src/KafkaEndpointMP.cpp) and the messages that they carry,
-- read off what an event has appended.
use libasynckafkaclient.Prelude.{
  ℕ, ◌≡◌, refl, sym, ap, ◌∙◌, subst, Bool, true, false, List, [], ◌∷◌, ◌++◌, map, length,
  append_assoc, append-nil, ◌==◌, if◌then◌else◌, Bool-cases, inl, inr, drop, drop-length,
}
use mathlib.Core.List.{map-append}
use libasynckafkaclient.Prelude.Int.{ℤ}
use libasynckafkaclient.Config.{Str}
use libasynckafkaclient.Outcome.{Keeps, call-Keeps, if-Keeps, if-holds}
use libasynckafkaclient.Os.{Os}
use libasynckafkaclient.Asio.{Asio, ProduceValue, api_key_produce, api_key_fetch, api_key_metadata}
use libasynckafkaclient.Partition.State.{KafkaPartition, Sys, register}
use libasynckafkaclient.Partition.Requests.{
  create_produce_request, create_fetch_request, create_metadata_request, produce_batches,
  produce_entry,
}
use libasynckafkaclient.Partition.Batches.{all_values, tag, produce_batches-values}
use libasynckafkaclient.Reactor.{register_fd_callback}
use libasynckafkaclient.Partition.Offsets.{commit_kafka_offset}
use libasynckafkaclient.Partition.Lifecycle.{
  Source, produce_source, produce_msg_q_source, fetch_source, md_timer_source, oc_timer_source,
  p_req_timer_source, fire, notify_produce_msg_q,
}

-- The frames of the produce requests in the write buffers.
abbrev pub produce_frames : List (ℕ × List ℕ) → List (List ℕ)
produce_frames [] = []
produce_frames ((key, frame) ∷ l) =
    if key == api_key_produce then frame ∷ produce_frames l else produce_frames l

-- The frames of produce requests that q has behind those of p.
abbrev pub added : KafkaPartition → KafkaPartition → List (List ℕ)
added p q = drop (length (produce_frames p.dq_write_buffers)) (produce_frames q.dq_write_buffers)

produce_frames-append :
    (l m : List (ℕ × List ℕ)) → produce_frames (l ++ m) ≡ produce_frames l ++ produce_frames m
produce_frames-append [] m = refl
produce_frames-append ((key, frame) ∷ l) m = elim (Bool-cases (key == api_key_produce)) [
  | inl same ↦ rw same (ap (◌∷◌ frame) (produce_frames-append l m))
  | inr other ↦ rw other (produce_frames-append l m)
]

added-append :
    (p q : KafkaPartition) (new : List (ℕ × List ℕ))
    → q.dq_write_buffers ≡ p.dq_write_buffers ++ new
    → added p q ≡ produce_frames new
added-append p q new e =
    let old = produce_frames p.dq_write_buffers in
    ap (λ l. drop (length old) (produce_frames l)) e
    ∙ ap (drop (length old)) (produce_frames-append p.dq_write_buffers new)
    ∙ drop-length old (produce_frames new)

added-same :
    (p q : KafkaPartition)
    → produce_frames q.dq_write_buffers ≡ produce_frames p.dq_write_buffers
    → added p q ≡ []
added-same p q e =
    let old = produce_frames p.dq_write_buffers in
    ap (drop (length old)) (e ∙ sym (append-nil old)) ∙ drop-length old []

module _ (a : Asio) where
  open a use {ProduceRequest, values, write_produce}

  abbrev pub contents : ProduceRequest → List (List ℕ)
  contents r = map (λ v. v.value) (values r)

  -- The frames are those of produce requests, which together hold these messages, in order.
  pub data Carry : List (List ℕ) → List (List ℕ) → Type 0 where
    no_frame : Carry [] []
    one_frame :
        {frames msgs : List (List ℕ)} (r : ProduceRequest) (client_id : Str)
        → Carry frames msgs
        → Carry (write_produce r client_id ∷ frames) (contents r ++ msgs)

  pub Carry-append :
      {fs gs ms ns : List (List ℕ)} → Carry fs ms → Carry gs ns → Carry (fs ++ gs) (ms ++ ns)
  Carry-append no_frame k = k
  Carry-append {gs = gs} {ns = ns} (one_frame {frames = fs} {msgs = ms} r client_id h) k =
      subst (Carry (write_produce r client_id ∷ (fs ++ gs))) (sym (append_assoc (contents r) ms ns))
        (one_frame r client_id (Carry-append h k))

  -- What the messages of p have become in q: in frames behind those of p, or still queued.
  abbrev pub Passed : KafkaPartition → KafkaPartition → Type 0
  Passed p q = (msgs : List (List ℕ)) × Carry (added p q) msgs × (p.q_msgs ≡ msgs ++ q.q_msgs)

  written-Carry :
      (client_id : Str) (rs : List ProduceRequest)
      → Carry
          (produce_frames (map (produce_entry a client_id) rs))
          (map (λ v. v.value) (all_values a rs))
  written-Carry client_id [] = no_frame
  written-Carry client_id (r ∷ rs) =
      subst
        (Carry (write_produce r client_id ∷ produce_frames (map (produce_entry a client_id) rs)))
        (sym (map-append (λ (v : ProduceValue). v.value) (values r) (all_values a rs)))
        (one_frame r client_id (written-Carry client_id rs))

  map-tag :
      (topic : Str) (partition : ℤ) (q : List (List ℕ))
      → map (λ (v : ProduceValue). v.value) (map (tag topic partition) q) ≡ q
  map-tag topic partition [] = refl
  map-tag topic partition (msg ∷ q) = ap (◌∷◌ msg) (map-tag topic partition q)

  -- The requests of a partition hold its messages.
  pub produce_batches-msgs :
      (p : KafkaPartition) → map (λ v. v.value) (all_values a (produce_batches a p)) ≡ p.q_msgs
  produce_batches-msgs p =
      ap (map (λ (v : ProduceValue). v.value)) (produce_batches-values a p).0
      ∙ map-tag p.topic p.partition p.q_msgs

  requested-Passed :
      (p : KafkaPartition)
      → Passed p (record p {
        q_msgs = [];
        dq_write_buffers =
            p.dq_write_buffers ++ map (produce_entry a p.config.client_id) (produce_batches a p);
      })
  requested-Passed p =
      let new = map (produce_entry a p.config.client_id) (produce_batches a p) in
      let q : KafkaPartition = record p {
        q_msgs = [];
        dq_write_buffers = p.dq_write_buffers ++ new;
      } in
      (
        p.q_msgs,
        subst (Carry (added p q)) (produce_batches-msgs p) (
            subst (λ fs. Carry fs (map (λ v. v.value) (all_values a (produce_batches a p))))
              (sym (added-append p q new refl))
              (written-Carry p.config.client_id (produce_batches a p))),
        sym (append-nil p.q_msgs),
      )

  -- No frame of a produce request is appended.
  same-Passed :
      (p : KafkaPartition) (buffers : List (ℕ × List ℕ))
      → produce_frames buffers ≡ produce_frames p.dq_write_buffers
      → Passed p (record p { dq_write_buffers = buffers })
  same-Passed p buffers e =
      let q : KafkaPartition = record p { dq_write_buffers = buffers } in
      ([], subst (λ fs. Carry fs []) (sym (added-same p q e)) no_frame, refl)

  unchanged : (p : KafkaPartition) → Passed p p
  unchanged p = same-Passed p p.dq_write_buffers refl

  abbrev fetch_frame : KafkaPartition → List ℕ
  fetch_frame p =
      a.write_fetch p.config.c_max_fetch_wait_time_ms p.config.c_min_fetch_bytes p.topic p.partition
        p.next_fetch_offset p.config.c_max_fetch_bytes p.config.client_id

  fetch-frames :
      (l : List (ℕ × List ℕ)) (frame : List ℕ)
      → produce_frames (l ++ (api_key_fetch, frame) ∷ []) ≡ produce_frames l
  fetch-frames l frame =
      produce_frames-append l ((api_key_fetch, frame) ∷ []) ∙ append-nil (produce_frames l)

  register-Passed :
      (os : Os) (p : KafkaPartition) (fd : ℤ) (d f : ℕ) (modify : Bool) (s : Sys)
      → Passed p s.part
      → Keeps (λ t. Passed p t.part) (register os fd d f modify s)
  unfolding register
  register-Passed os p fd d f modify s h =
      call-Keeps (λ t. Passed p t.part) (register_fd_callback _ _ fd d f false modify s.reactor) _
        (λ r. h)

  create_produce_request-Passed :
      (os : Os) (s : Sys) → Keeps (λ t. Passed s.part t.part) (create_produce_request a os s)
  unfolding create_produce_request
  create_produce_request-Passed os s =
      register-Passed os s.part s.part.sock_fd s.part.event_data s.part.event_flags true _
        (requested-Passed s.part)

  -- After every event of a source that ends with a partition, the frames of produce requests that it has
  -- appended hold the messages that have left the queue.
  pub fire-Passed :
      (os : Os) (source : Source) (s : Sys) → Keeps (λ t. Passed s.part t.part) (fire a os source s)
  unfolding fire create_fetch_request create_metadata_request notify_produce_msg_q
      commit_kafka_offset
  fire-Passed os produce_source s = create_produce_request-Passed os s
  fire-Passed os p_req_timer_source s = create_produce_request-Passed os s
  fire-Passed os fetch_source s =
      if-Keeps (λ t. Passed s.part t.part) s.part.fetch_paused _ _ (unchanged s.part)
        (register-Passed os s.part s.part.sock_fd s.part.event_data s.part.event_flags true _ (
          same-Passed s.part (s.part.dq_write_buffers ++ (api_key_fetch, fetch_frame s.part) ∷ [])
            (fetch-frames s.part.dq_write_buffers (fetch_frame s.part))))
  fire-Passed os md_timer_source s =
      register-Passed os s.part s.part.sock_fd s.part.event_data s.part.event_flags true _ (
        same-Passed s.part
          ((api_key_metadata, a.write_metadata s.part.topic s.part.config.client_id)
            ∷ s.part.dq_write_buffers)
          refl)
  fire-Passed os oc_timer_source s = unchanged s.part
  fire-Passed os produce_msg_q_source s =
      if-holds (λ t. Passed s.part t.part) s.part.on_msg_queued _ s (unchanged s.part)
        (unchanged s.part)
