-- ===== src/Client/Attempts.antt =====
-- How the loop of KafkaClient::init (src/KafkaClient.cpp) ends.
use libasynckafkaclient.Prelude.{
  if-true, if-false, true, Option, ℕ, zero, suc, ◌+◌, ◌≡◌, refl, sym, ap, ◌∙◌, false, none, some,
  List, [], ◌∷◌, ◌++◌, map, subst, append-nil, append_assoc, arith,
}
use libasynckafkaclient.Prelude.Int.{ℤ, pos, ◌==ℤ◌}
use libasynckafkaclient.Config.{KafkaBroker, kafka_all_partitions}
use libasynckafkaclient.Outcome.{
  Outcome, ok, exited, aborted, thrown, undefined, no_fuel, ◌>>=◌, Keeps, after-Keeps, if-Keeps,
}
use libasynckafkaclient.Os.{Os, log, slept_ms, tock}
use libasynckafkaclient.Asio.{
  Asio, MetadataResponse, MetadataBroker, MetadataPartition, MetadataTopic,
}
use libasynckafkaclient.Client.State.{ClientSys, KafkaClient}
use libasynckafkaclient.Client.Connect.{
  ask_metadata, attempts, add_partition, add_partitions, broker_of, with_brokers, use_metadata,
  use_topic, use_leader, sent_on, read_checked, size_of,
}

ask_metadata-client :
    (a : Asio) (os : Os) (fuel : ℕ) (sock_fd : ℤ) (s : ClientSys)
    → Keeps (λ x. x.1.client ≡ s.client) (ask_metadata a os fuel sock_fd s)
unfolding ask_metadata
ask_metadata-client a os fuel sock_fd s =
    let C : MetadataResponse × ClientSys → Type 0 = λ x. x.1.client ≡ s.client in
    after-Keeps C
      (sent_on sock_fd (a.write_metadata s.client.topic s.client.config.client_id)
        (os.write s.world.tick) (tock (log (slept_ms 100) s.world)))
      _
      (λ w. after-Keeps C (read_checked os 4 w) _ (λ x. after-Keeps C (size_of x.0) _ (λ n.
        after-Keeps C (read_checked os n x.1) _
          (λ f. if-Keeps C ((a.read_metadata f.0).0 ==ℤ pos 0) _ _ refl tt))))

abbrev pub with_more : List KafkaBroker → KafkaClient → KafkaClient
with_more bs c = record c { brokers = c.brokers ++ bs }

module _ (a : Asio) where
  -- The response names no partition of the topic, or no leader of the client's one partition.
  pub data NamesNone (r : MetadataResponse) (s : ClientSys) : Type 0 where
    no_partitions :
        {topic : MetadataTopic}
        → (s.client.partition ==ℤ kafka_all_partitions) ≡ true
        → a.find_topic r s.client.topic ≡ some topic
        → topic.partitions ≡ []
        → NamesNone r s
    no_leader :
        (s.client.partition ==ℤ kafka_all_partitions) ≡ false
        → a.partition_leader r s.client.topic s.client.partition ≡ none
        → NamesNone r s

module _ (os : Os) where
  -- The client with the brokers of a response.
  abbrev pub informed : MetadataResponse → ClientSys → ClientSys
  informed r s = with_brokers (map (broker_of os) r.brokers) s

module _ (a : Asio) (os : Os) (fuel : ℕ) where
  -- u is reached from s in n rounds whose responses name nothing, and these are their brokers.
  pub data Repeats (sock_fd : ℤ) (s : ClientSys) : ℕ → List KafkaBroker → ClientSys → Type 0 where
    at_first : Repeats sock_fd s zero [] s
    again :
        {n : ℕ} {bs : List KafkaBroker} {t t' : ClientSys} {r : MetadataResponse}
        → Repeats sock_fd s n bs t
        → ask_metadata a os fuel sock_fd t ≡ ok (r, t')
        → NamesNone a r (informed os r t')
        → Repeats sock_fd s (suc n) (bs ++ map (broker_of os) r.brokers) (informed os r t')

  -- The response names what the client wants, of which this call makes partitions.
  pub data Names (r : MetadataResponse) (s : ClientSys) : Outcome ClientSys → Type 0 where
    partitions_named :
        {topic : MetadataTopic} {p : MetadataPartition} {ps : List MetadataPartition}
        → (s.client.partition ==ℤ kafka_all_partitions) ≡ true
        → a.find_topic r s.client.topic ≡ some topic
        → topic.partitions ≡ p ∷ ps
        → Names r s (add_partitions a os fuel (p ∷ ps) s)
    leader_named :
        {leader : MetadataBroker}
        → (s.client.partition ==ℤ kafka_all_partitions) ≡ false
        → a.partition_leader r s.client.topic s.client.partition ≡ some leader
        → Names r s (add_partition a os fuel s.client.partition leader.node_id s)

  use_metadata-none :
      (r : MetadataResponse) (s : ClientSys)
      → NamesNone a r s
      → use_metadata a os fuel r s ≡ ok none
  unfolding use_metadata use_topic use_leader
  use_metadata-none r s (no_partitions all found empty) =
      if-true (s.client.partition ==ℤ kafka_all_partitions) _ _ all
      ∙ ap (λ t. use_topic a os fuel t s) found
      ∙ ap
          (λ ps. elim ps [
            | [] ↦ ok none
            | p ∷ ps ↦ (add_partitions a os fuel (p ∷ ps) s >>= λ s1. ok (some s1))
          ])
          empty
  use_metadata-none r s (no_leader one missing) =
      if-false (s.client.partition ==ℤ kafka_all_partitions) _ _ one
      ∙ ap (λ l. use_leader a os fuel l s) missing

  use_metadata-some :
      (r : MetadataResponse) (s : ClientSys) (m : Outcome ClientSys)
      → Names r s m
      → use_metadata a os fuel r s ≡ (m >>= λ s1. ok (some s1))
  unfolding use_metadata use_topic use_leader
  use_metadata-some r s m (partitions_named all found named) =
      if-true (s.client.partition ==ℤ kafka_all_partitions) _ _ all
      ∙ ap (λ t. use_topic a os fuel t s) found
      ∙ ap
          (λ ps. elim ps [
            | [] ↦ ok none
            | p ∷ ps ↦ (add_partitions a os fuel (p ∷ ps) s >>= λ s1. ok (some s1))
          ])
          named
  use_metadata-some r s m (leader_named one found) =
      if-false (s.client.partition ==ℤ kafka_all_partitions) _ _ one
      ∙ ap (λ l. use_leader a os fuel l s) found

  used :
      (m : Outcome ClientSys) (k : Outcome ClientSys)
      → ((m >>= λ s1. ok (some s1)) >>= λ (o : Option ClientSys). elim o [
        | none ↦ k
        | some s2 ↦ ok s2
      ])
        ≡ m
  used (ok s) k = refl
  used exited k = refl
  used aborted k = refl
  used thrown k = refl
  used undefined k = refl
  used no_fuel k = refl

  -- A round whose response names nothing leads to the next.
  next_round :
      (rounds : ℕ) (sock_fd : ℤ) (r : MetadataResponse) (s t : ClientSys)
      → ask_metadata a os fuel sock_fd s ≡ ok (r, t)
      → NamesNone a r (informed os r t)
      → attempts a os fuel (suc rounds) sock_fd s
        ≡ attempts a os fuel rounds sock_fd (informed os r t)
  unfolding attempts
  next_round rounds sock_fd r s t asked nothing =
      rw (attempts, asked) (rw (use_metadata-none r (informed os r t) nothing) refl)

  last_round :
      (rounds : ℕ) (sock_fd : ℤ) (r : MetadataResponse) (s t : ClientSys) (m : Outcome ClientSys)
      → ask_metadata a os fuel sock_fd s ≡ ok (r, t)
      → Names r (informed os r t) m
      → attempts a os fuel (suc rounds) sock_fd s ≡ m
  unfolding attempts
  last_round rounds sock_fd r s t m asked named =
      rw (attempts, asked)
        (rw (use_metadata-some r (informed os r t) m named)
          (used m (attempts a os fuel rounds sock_fd (informed os r t))))

  passed :
      (sock_fd : ℤ) {s u : ClientSys} {n : ℕ} {bs : List KafkaBroker} (rounds : ℕ)
      → Repeats sock_fd s n bs u
      → attempts a os fuel (n + rounds) sock_fd s ≡ attempts a os fuel rounds sock_fd u
  passed sock_fd {s} rounds at_first = ap (λ k. attempts a os fuel k sock_fd s) (omega arith)
  passed sock_fd {s} rounds (again {n} {t = t} {t'} {r} before asked nothing) =
      ap (λ k. attempts a os fuel k sock_fd s) (omega arith)
      ∙ passed sock_fd (suc rounds) before
      ∙ next_round rounds sock_fd r t t' asked nothing

  asked-client :
      (sock_fd : ℤ) (r : MetadataResponse) (s t : ClientSys)
      → ask_metadata a os fuel sock_fd s ≡ ok (r, t)
      → t.client ≡ s.client
  asked-client sock_fd r s t asked =
      subst (Keeps (λ x. x.1.client ≡ s.client)) asked (ask_metadata-client a os fuel sock_fd s)

  Repeats-client :
      (sock_fd : ℤ) {s u : ClientSys} {n : ℕ} {bs : List KafkaBroker}
      → Repeats sock_fd s n bs u
      → u.client ≡ with_more bs s.client
  Repeats-client sock_fd {s} at_first =
      ap (λ l. record (s.client) { brokers = l }) (sym (append-nil s.client.brokers))
  Repeats-client sock_fd {s} (again {bs = bs} {t} {t'} {r} before asked nothing) =
      let more = map (broker_of os) r.brokers in
      ap (with_more more) (asked-client sock_fd r t t' asked ∙ Repeats-client sock_fd before)
      ∙ ap (λ l. record (s.client) { brokers = l }) (append_assoc s.client.brokers bs more)

  -- Suppose that n rounds of the loop of init get responses that name nothing the client wants, and the
  -- next round one that does. Then, with any fuel of n + 1 rounds or more, the loop ends as the call ends
  -- that makes the partitions; until that call the client has changed in nothing but its brokers, to
  -- which each of the n responses has added all that it lists.
  pub attempts_end :
      {s u t : ClientSys} {n : ℕ} {bs : List KafkaBroker} {r : MetadataResponse}
      {m : Outcome ClientSys} (rounds : ℕ) (sock_fd : ℤ)
      → Repeats sock_fd s n bs u
      → ask_metadata a os fuel sock_fd u ≡ ok (r, t)
      → Names r (informed os r t) m
      → (attempts a os fuel (n + suc rounds) sock_fd s ≡ m) × (t.client ≡ with_more bs s.client)
  attempts_end {s} {u} {t} {r = r} {m} rounds sock_fd before asked named = (
    passed sock_fd (suc rounds) before ∙ last_round rounds sock_fd r u t m asked named,
    asked-client sock_fd r u t asked ∙ Repeats-client sock_fd before,
  )
