-- ===== src/Tests/Clients.antt =====
-- A producer client of two partitions.
use libasynckafkaclient.Prelude.{ℕ, ◌≡◌, refl, true, List, [], ◌∷◌, arith, inl}
use libasynckafkaclient.Prelude.Int.{pos}
use libasynckafkaclient.Config.{codes, kafka_all_partitions, producer_p}
use libasynckafkaclient.Outcome.{ok}
use libasynckafkaclient.Client.State.{KafkaClient, ClientSys}
use libasynckafkaclient.Client.Received.{produce_each, RoutedTo}
use libasynckafkaclient.Client.Routing.{produce_each-RoutedTo}
use libasynckafkaclient.Tests.Data.{
  calm-WritesDone, calm, broker, small_batches, producer, reactor, world,
}

abbrev client : KafkaClient
client = record {
  partition = kafka_all_partitions;
  broker = codes "kafka";
  service = pos 9092;
  topic = codes "logs";
  config = small_batches;
  partition_type = producer_p;
  partitions = producer ∷ record producer { partition = pos 1 } ∷ [];
  brokers = broker ∷ [];
  on_fetched_data = true;
  on_produce_response = true;
  on_msg_queued = true;
}

abbrev pub s0 : ClientSys
s0 = record { client = client; reactor = reactor; world = world; curr_partition = 0 }

abbrev msgs : List (List ℕ)
msgs = (98 ∷ []) ∷ (99 ∷ []) ∷ []

produce_each-RoutedTo_example :
    (s' : ClientSys) × (produce_each calm msgs s0 ≡ ok s') × RoutedTo 0 msgs producer s0 s'
produce_each-RoutedTo_example =
    produce_each-RoutedTo calm 0 msgs s0 producer calm-WritesDone (inl (refl, refl, refl))
      (omega arith) refl
