-- ===== src/Client/Connect.antt =====
-- KafkaClient::init of src/KafkaClient.cpp: the metadata request is repeated until the response names
-- the partitions, and a KafkaPartition is made for each.
use libasynckafkaclient.Prelude.{
  Bool, ℕ, zero, suc, ◌*◌, true, Option, none, some, List, [], ◌∷◌, ◌++◌, map, length, take,
  find_first, if◌then◌else◌,
}
use libasynckafkaclient.Prelude.Int.{ℤ, pos, minus_one, ◌==ℤ◌, ltb_ℤ, int16_of_ℤ}
use libasynckafkaclient.Config.{KafkaBroker, kafka_all_partitions}
use libasynckafkaclient.Outcome.{Outcome, ok, exited, aborted, undefined, no_fuel, ◌>>=◌}
use libasynckafkaclient.Os.{
  Os, World, tock, log, slept_ms, sent, closed, WriteAnswer, wrote, write_failed,
}
use libasynckafkaclient.Net.{
  connect_server, hostname_to_ip, ReadData, complete, end_of_stream, failed, starved, res,
  read_data,
}
use libasynckafkaclient.Asio.{
  Asio, MetadataResponse, MetadataBroker, MetadataPartition, MetadataTopic,
}
use libasynckafkaclient.Partition.State.{KafkaPartition, new_partition}
use libasynckafkaclient.Partition.Reading.{ntohl}
use libasynckafkaclient.Partition.Lifecycle.{construct}
use libasynckafkaclient.Reactor
use libasynckafkaclient.Client.State.{
  producer_start_produce, ClientSys, sys_of, with_partitions, back_to,
}

-- What the two asserts and the test for 0 make of a readData call.
abbrev pub checked : ReadData → Outcome (List ℕ)
checked (complete buf) =
    if res (complete buf) ==ℤ minus_one
    then aborted
    else if res (complete buf) ==ℤ pos 0
    then exited
    else ok buf
checked end_of_stream = exited
checked (failed e) = aborted
checked starved = no_fuel

abbrev pub sent_on : ℤ → List ℕ → WriteAnswer → World → Outcome World
sent_on fd req (wrote n) w = ok (log (sent fd (take n req)) w)
sent_on fd req (write_failed e) w = aborted

abbrev pub size_of : List ℕ → Outcome ℕ
size_of buf = elim (ntohl buf) [ none ↦ undefined | some n ↦ ok n ]

abbrev pub read_checked : Os → ℕ → World → Outcome (List ℕ × World)
read_checked os size w = let (r, w1) = read_data os size w in checked r >>= λ buf. ok (buf, w1)

-- m_brokers.push_back for each broker of the response. The buffer `ip` is zeroed first.
abbrev pub broker_of : Os → MetadataBroker → KafkaBroker
broker_of os b = record {
  id = b.node_id;
  host = b.host;
  ip = elim (hostname_to_ip os b.host (some [])).1 [ none ↦ [] | some ip ↦ ip ];
  port = int16_of_ℤ b.port;
}

abbrev pub with_brokers : List KafkaBroker → ClientSys → ClientSys
with_brokers bs s = record s { client = record (s.client) { brokers = s.client.brokers ++ bs } }

abbrev pub broker_with_id : ℤ → List KafkaBroker → Option KafkaBroker
broker_with_id id = find_first (λ b. b.id ==ℤ id)

-- The callbacks that the client binds to a partition that it has made.
abbrev pub bind_callbacks : KafkaPartition → KafkaPartition
bind_callbacks p = record p {
  on_received_data = true;
  on_produce_response = true;
  on_msg_queued = true;
}

module _ (a : Asio) (os : Os) (fuel : ℕ) where
  -- One metadata request and its response, from the label sendMetaDataRequest on.
  unfoldable pub ask_metadata : ℤ → ClientSys → Outcome (MetadataResponse × ClientSys)
  unfolding read_data
  ask_metadata sock_fd s = do
    let w0 = log (slept_ms 100) s.world
    w1 ←
        sent_on sock_fd (a.write_metadata s.client.topic s.client.config.client_id)
          (os.write w0.tick) (tock w0)
    r ← read_checked os 4 w1
    size ← size_of r.0
    f ← read_checked os size r.1
    let answer = a.read_metadata f.0
    if answer.0 ==ℤ pos 0 then ok (answer.1, record s { world = f.1 }) else exited

  -- A new KafkaPartition behind the others, led by the first broker with the leader's id.
  unfoldable pub add_partition : ℤ → ℤ → ClientSys → Outcome ClientSys
  unfolding construct
  add_partition partition leader_id s = elim (broker_with_id leader_id s.client.brokers) [
    | none ↦ exited
    | some leader ↦ do
      let c = s.client
      t ← construct a os fuel (
          sys_of
            (new_partition c.partition_type c.topic partition c.brokers leader c.config
              (7 * length c.partitions))
            s)
      ok (with_partitions (c.partitions ++ bind_callbacks t.part ∷ []) (back_to s t))
  ]

  unfoldable pub add_partitions : List MetadataPartition → ClientSys → Outcome ClientSys
  unfolding add_partition
  add_partitions [] s = ok s
  add_partitions (p ∷ ps) s =
      if p.error_code ==ℤ pos 0
      then (add_partition p.partition p.leader s >>= λ s1. add_partitions ps s1)
      else exited

  -- What a response makes of the client; `none` is a jump back to sendMetaDataRequest.
  unfoldable pub use_topic : Option MetadataTopic → ClientSys → Outcome (Option ClientSys)
  unfolding add_partitions
  use_topic none s = exited
  use_topic (some topic) s = elim topic.partitions [
    | [] ↦ ok none
    | p ∷ ps ↦ (add_partitions (p ∷ ps) s >>= λ s1. ok (some s1))
  ]

  unfoldable pub use_leader : Option MetadataBroker → ClientSys → Outcome (Option ClientSys)
  unfolding add_partition
  use_leader none s = ok none
  use_leader (some leader) s =
      add_partition s.client.partition leader.node_id s >>= λ s1. ok (some s1)

  unfoldable pub use_metadata : MetadataResponse → ClientSys → Outcome (Option ClientSys)
  unfolding use_topic use_leader
  use_metadata response s =
      if s.client.partition ==ℤ kafka_all_partitions
      then use_topic (a.find_topic response s.client.topic) s
      else use_leader (a.partition_leader response s.client.topic s.client.partition) s

  -- The loop over sendMetaDataRequest, with fuel for its rounds. Each round appends the brokers of
  -- its response to those of the rounds before.
  unfoldable pub attempts : ℕ → ℤ → ClientSys → Outcome ClientSys
  unfolding ask_metadata use_metadata
  attempts zero sock_fd s = no_fuel
  attempts (suc rounds) sock_fd s = do
    r ← ask_metadata sock_fd s
    let s1 = with_brokers (map (broker_of os) r.0.brokers) r.1
    used ← use_metadata r.0 s1
    elim used [ none ↦ attempts rounds sock_fd s1 | some s2 ↦ ok s2 ]

  unfoldable pub init : ℕ → ClientSys → Outcome ClientSys
  unfolding attempts connect_server
  init rounds s =
      let (sock_fd, w) = connect_server os s.world in
      if ltb_ℤ sock_fd (pos 0) then exited else (do
        s1 ← attempts rounds sock_fd (record s { world = w })
        ok (record s1 { world = log (closed sock_fd) s1.world }))

  -- The constructor of KafkaClient, which KafkaConsumer's calls; `base` says whether it is given an
  -- event_base.
  unfoldable pub construct_client : Bool → ℕ → ClientSys → Outcome ClientSys
  construct_client base rounds s =
      init rounds (record s { reactor = (Reactor.init base s.reactor).1 })

  -- The constructor of KafkaProducer.
  unfoldable pub construct_producer : Bool → ℕ → ClientSys → Outcome ClientSys
  construct_producer base rounds s = construct_client base rounds s >>= producer_start_produce os
