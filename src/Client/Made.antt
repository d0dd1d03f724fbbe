-- ===== src/Client/Made.antt =====
-- The partitions that KafkaClient::init makes (src/KafkaClient.cpp), through the constructor of
-- KafkaPartition (src/KafkaEndpointMP.cpp).
use libasynckafkaclient.Prelude.{
  ℕ, ◌+◌, ◌≡◌, refl, sym, ap, ◌∙◌, subst, ◌*◌, Bool, true, false, Option, none, some, List, [], ◌∷◌,
  ◌++◌, map, length, All, All-append, Option-cases, inl, inr, append_assoc, append-nil,
}
use libasynckafkaclient.Prelude.Int.{ℤ, pos, ◌==ℤ◌}
use libasynckafkaclient.Config.{
  Str, KafkaPartitionType, KafkaFetchOffset, from_beginning, from_end, from_stored,
}
use libasynckafkaclient.Outcome.{
  Outcome, ok, Keeps, Keeps-bind, call-Keeps, if-Keeps, any-Keeps, Keeps-mono,
}
use libasynckafkaclient.Os.{Os, World}
use libasynckafkaclient.Decimal.{stoll, last_word}
use libasynckafkaclient.Periodic
use libasynckafkaclient.Periodic.{PeriodicEventSource}
use libasynckafkaclient.Asio.{Asio, MetadataPartition}
use libasynckafkaclient.Partition.State.{KafkaPartition, Sys, new_partition, is_consumer}
use libasynckafkaclient.Partition.Transfer.{connect_leader}
use libasynckafkaclient.Partition.Offsets.{get_kafka_offset, load_offset, stored_offset_file}
use libasynckafkaclient.Partition.Lifecycle.{
  init, init_connected, construct, round_trip, start_timer, interval_ns, md_timer_source,
  source_offset,
}
use libasynckafkaclient.Partition.Stable.{
  Stable, metadata-Stable, offset-Stable, on_write_ready-Stable, on_read_ready-Stable,
}
use libasynckafkaclient.Partition.Kept.{Closed, register-part, connect_leader-part, part-Stable}
use libasynckafkaclient.Client.State.{ClientSys, sys_of, with_partitions, back_to}
use libasynckafkaclient.Client.Connect.{
  add_partition, add_partitions, broker_with_id, bind_callbacks,
}

-- A partition of this number, topic and type.
abbrev pub Numbered : ℤ → Str → KafkaPartitionType → KafkaPartition → Type 0
Numbered n topic type p = (p.partition ≡ n) × (p.topic ≡ topic) × (p.partition_type ≡ type)

module _ (a : Asio) (os : Os) (fuel : ℕ) (n : ℤ) (topic : Str) (type : KafkaPartitionType) where
  abbrev R : KafkaPartition → Type 0
  R = Numbered n topic type

  abbrev Q : Sys → Type 0
  Q s = R s.part

  closed : Closed R
  closed q next buffers transit leader fd h = h

  stable : Stable os Q
  stable = part-Stable os R closed

  by_start_offset-Keeps :
      (m : KafkaFetchOffset) (x y z : Outcome Sys)
      → Keeps Q x
      → Keeps Q y
      → Keeps Q z
      → Keeps Q (elim m [ from_stored ↦ x | from_beginning ↦ y | from_end ↦ z ])
  by_start_offset-Keeps from_stored x y z hx hy hz = hx
  by_start_offset-Keeps from_beginning x y z hx hy hz = hy
  by_start_offset-Keeps from_end x y z hx hy hz = hz

  load_offset-Numbered : (content : Option Str) (s : Sys) → Q s → Keeps Q (load_offset content s)
  unfolding load_offset
  load_offset-Numbered none s h = h
  load_offset-Numbered (some content) s h =
      by_start_offset-Keeps s.part.config.c_start_offset _ _ _
        (call-Keeps Q (stoll (last_word [] [] content)) _ (λ offset. h)) h h

  get_kafka_offset-Numbered : (s : Sys) → Q s → Keeps Q (get_kafka_offset os s)
  unfolding get_kafka_offset
  get_kafka_offset-Numbered s h =
      let name = stored_offset_file os s.part in
      load_offset-Numbered (s.world.files name)
        (record s { part = record (s.part) { stored_offset_file_name = name } }) h

  round_trip-Numbered : (s : Sys) → Q s → Keeps Q (round_trip a os fuel s)
  round_trip-Numbered s h =
      Keeps-bind Q Q _ _ (on_write_ready-Stable os Q stable a fuel s h)
        (on_read_ready-Stable os Q stable a fuel)

  start_timer-Numbered :
      (ms : ℕ) (old : PeriodicEventSource) (s : Sys)
      → Q s
      → Keeps Q (
          start_timer os md_timer_source ms old (λ src. record (s.part) { md_timer_event = src }) s)
  start_timer-Numbered ms old s h =
      Keeps-bind (λ (r : PeriodicEventSource × World). Unit {0}) Q
        (Periodic.init os (interval_ns ms) true old s.world) _ (any-Keeps _)
        (λ r u.
          register-part os R closed r.0.timer_fd (s.part.event_data + source_offset md_timer_source)
            r.0.event_flags false _ h)

  init_connected-Numbered : (r : Bool × Sys) → Q r.1 → Keeps Q (init_connected a os fuel r)
  unfolding init_connected
  init_connected-Numbered (false, s) h = tt
  init_connected-Numbered (true, s) h =
      Keeps-bind Q Q _ _ (metadata-Stable os Q stable a s h) (λ s1 h1.
        Keeps-bind Q Q _ _ (round_trip-Numbered s1 h1) (λ s2 h2.
          Keeps-bind Q Q _ _ (offset-Stable os Q stable a s2 h2) (λ s3 h3.
            Keeps-bind Q Q _ _ (round_trip-Numbered s3 h3) (λ s4 h4.
              start_timer-Numbered s4.part.config.m_refresh_interval_ms s4.part.md_timer_event s4
                h4))))

  construct-Numbered : (s : Sys) → Q s → Keeps Q (construct a os fuel s)
  unfolding construct init
  construct-Numbered s h =
      Keeps-bind Q Q _ _
        (if-Keeps Q (is_consumer s.part.partition_type) _ _ (get_kafka_offset-Numbered s h) h)
        (λ s1 h1.
          Keeps-bind (λ (r : Bool × Sys). Q r.1) Q (connect_leader os s1) _
            (connect_leader-part os R closed s1 h1) init_connected-Numbered)

-- A partition that the client has made: its topic and type are the client's, and it has the client's
-- callbacks.
abbrev pub Bound : Str → KafkaPartitionType → KafkaPartition → Type 0
Bound topic type p =
    (p.topic ≡ topic)
    × (p.partition_type ≡ type)
    × (p.on_received_data ≡ true)
    × (p.on_produce_response ≡ true)
    × (p.on_msg_queued ≡ true)

-- s' is s after partitions of these numbers have been made behind the others, which stay as they are.
pub record Made (numbers : List ℤ) (s s' : ClientSys) : Type 0 where
  pub made : List KafkaPartition
  pub behind : s'.client.partitions ≡ s.client.partitions ++ made
  pub in_order : map (λ (p : KafkaPartition). p.partition) made ≡ numbers
  pub bound : All (Bound s.client.topic s.client.partition_type) made
  pub same_topic : s'.client.topic ≡ s.client.topic
  pub same_type : s'.client.partition_type ≡ s.client.partition_type
  pub same_brokers : s'.client.brokers ≡ s.client.brokers

map-append :
    (f : KafkaPartition → ℤ) (xs ys : List KafkaPartition) → map f (xs ++ ys) ≡ map f xs ++ map f ys
map-append f [] ys = refl
map-append f (x ∷ xs) ys = ap (◌∷◌ (f x)) (map-append f xs ys)

module _ (a : Asio) (os : Os) (fuel : ℕ) where
  add_partition-Made :
      (n leader_id : ℤ) (s : ClientSys)
      → Keeps (Made (n ∷ []) s) (add_partition a os fuel n leader_id s)
  unfolding add_partition
  add_partition-Made n leader_id s =
      elim (Option-cases (broker_with_id leader_id s.client.brokers)) [
        | inl unknown ↦ rw (unknown, add_partition) tt
        | inr (leader, found) ↦
            rw (found, add_partition)
              (Keeps-bind (λ t. Numbered n s.client.topic s.client.partition_type t.part)
                (Made (n ∷ []) s) _
                (λ t. ok (
                  with_partitions (s.client.partitions ++ bind_callbacks t.part ∷ [])
                    (back_to s t)))
                (construct-Numbered a os fuel n s.client.topic s.client.partition_type
                  (sys_of
                    (new_partition s.client.partition_type s.client.topic n s.client.brokers leader
                      s.client.config (7 * length s.client.partitions))
                    s)
                  (refl, refl, refl))
                (λ t h. record {
                  made = bind_callbacks t.part ∷ [];
                  behind = refl;
                  in_order = ap (λ k. k ∷ []) h.0;
                  bound = ((h.1, h.2, refl, refl, refl), tt);
                  same_topic = refl;
                  same_type = refl;
                  same_brokers = refl;
                }))
      ]

  Made-trans :
      (ns ms : List ℤ) (s t u : ClientSys) → Made ns s t → Made ms t u → Made (ns ++ ms) s u
  Made-trans ns ms s t u h k = record {
    made = h.made ++ k.made;
    behind =
        k.behind ∙ ap (λ l. l ++ k.made) h.behind ∙ append_assoc s.client.partitions h.made k.made;
    in_order =
        map-append (λ p. p.partition) h.made k.made
        ∙ ap (λ l. l ++ map (λ (p : KafkaPartition). p.partition) k.made) h.in_order
        ∙ ap (◌++◌ ns) k.in_order;
    bound = All-append _ h.made k.made h.bound (
        subst (λ topic. All (Bound topic s.client.partition_type) k.made) h.same_topic
          (subst (λ type. All (Bound t.client.topic type) k.made) h.same_type k.bound));
    same_topic = k.same_topic ∙ h.same_topic;
    same_type = k.same_type ∙ h.same_type;
    same_brokers = k.same_brokers ∙ h.same_brokers;
  }

  add_partitions_make :
      (ps : List MetadataPartition) (s : ClientSys)
      → Keeps
          (Made (map (λ (m : MetadataPartition). m.partition) ps) s)
          (add_partitions a os fuel ps s)
  unfolding add_partitions
  add_partitions_make [] s = record {
    made = [];
    behind = sym (append-nil s.client.partitions);
    in_order = refl;
    bound = tt;
    same_topic = refl;
    same_type = refl;
    same_brokers = refl;
  }
  add_partitions_make (p ∷ ps) s =
      let rest = map (λ (m : MetadataPartition). m.partition) ps in
      if-Keeps (Made (p.partition ∷ rest) s) (p.error_code ==ℤ pos 0) _ _
        (Keeps-bind (Made (p.partition ∷ []) s) (Made (p.partition ∷ rest) s) _
          (λ s1. add_partitions a os fuel ps s1) (add_partition-Made p.partition p.leader s)
          (λ s1 h.
            Keeps-mono (Made rest s1) (Made (p.partition ∷ rest) s) (add_partitions a os fuel ps s1)
              (λ s2 k. Made-trans (p.partition ∷ []) rest s s1 s2 h k) (add_partitions_make ps s1)))
        tt

  -- Whenever the loop of init over the partitions of a metadata response ends with a client, it has
  -- made one partition for each, behind those that there are, which have not changed, and in the order
  -- of the response, with its number and the client's topic, type and callbacks. The client's topic,
  -- its type and its broker list stay.
  pub add_partitions-Made :
      {u : ClientSys}
      → (ps : List MetadataPartition) (s : ClientSys) → add_partitions a os fuel ps s ≡ ok u
      → Made (map (λ (m : MetadataPartition). m.partition) ps) s u
  add_partitions-Made ps s e =
      let numbers = map (λ (m : MetadataPartition). m.partition) ps in
      subst (Keeps (Made numbers s)) e (add_partitions_make ps s)
