-- ===== src/Asio.antt =====
-- What src/ calls of libkafka-asio, the library whose copy stands in libkafka-asio/: the calls that
-- build and serialise requests, and what is asked of a parsed response. It is a parameter of the
-- model, with the documented behaviour of the calls that build a produce request as its laws.
use libasynckafkaclient.Prelude.{ℕ, Option, List, [], ◌∷◌, ◌++◌, ◌≡◌}
use libasynckafkaclient.Prelude.Int.{ℤ, minus_one, negsuc}
use libasynckafkaclient.Config.{Str}

-- libkafka_asio::constants, the API keys that double as correlation ids.
abbrev pub api_key_produce : ℕ
api_key_produce = 0

abbrev pub api_key_fetch : ℕ
api_key_fetch = 1

abbrev pub api_key_offset : ℕ
api_key_offset = 2

abbrev pub api_key_metadata : ℕ
api_key_metadata = 3

abbrev pub offset_time_latest : ℤ
offset_time_latest = minus_one

abbrev pub offset_time_earliest : ℤ
offset_time_earliest = negsuc 1

-- MessageAndOffset: offset() and value().
pub record MessageAndOffset : Type 0 where
  pub offset : ℤ
  pub value : Option (List ℕ)

-- MetadataResponse::Broker.
pub record MetadataBroker : Type 0 where
  pub node_id : ℤ
  pub host : Str
  pub port : ℤ

-- MetadataResponse::Topic::Partition and MetadataResponse::Topic.
pub record MetadataPartition : Type 0 where
  pub error_code : ℤ
  pub partition : ℤ
  pub leader : ℤ

pub record MetadataTopic : Type 0 where
  pub topic_name : Str
  pub partitions : List MetadataPartition

pub record MetadataResponse : Type 0 where
  pub brokers : List MetadataBroker
  pub topics : List MetadataTopic

-- A message of a produce request, with the topic and the partition that it was added for.
pub record ProduceValue : Type 0 where
  pub value : List ℕ
  pub topic_name : Str
  pub partition : ℤ

-- Correlation id, required acks and timeout.
abbrev pub ProduceHeader : Type 0
ProduceHeader = ℕ × ℤ × ℕ

-- A response is read from the bytes of a frame: the error code, 0 for none, and the answer of the
-- one query that the code makes of it.
pub record Asio : Type 1 where
  pub ProduceRequest : Type 0
  -- A new request after set_correlation_id, set_required_acks and set_timeout.
  pub new_produce_request : ProduceHeader → ProduceRequest
  pub add_value : ProduceValue → ProduceRequest → ProduceRequest
  pub clear : ProduceRequest → ProduceRequest
  pub write_produce : ProduceRequest → Str → List ℕ
  -- What a request holds, in the order in which it was added.
  pub values : ProduceRequest → List ProduceValue
  pub header : ProduceRequest → ProduceHeader
  pub values-new_produce_request : (h : ProduceHeader) → values (new_produce_request h) ≡ []
  pub values-add_value :
      (v : ProduceValue) (r : ProduceRequest) → values (add_value v r) ≡ values r ++ v ∷ []
  pub values-clear : (r : ProduceRequest) → values (clear r) ≡ []
  pub header-new_produce_request : (h : ProduceHeader) → header (new_produce_request h) ≡ h
  pub header-add_value : (v : ProduceValue) (r : ProduceRequest) → header (add_value v r) ≡ header r
  pub header-clear : (r : ProduceRequest) → header (clear r) ≡ header r
  -- Max wait time, min bytes, topic, partition, fetch offset, max bytes, client id.
  pub write_fetch : ℕ → ℕ → Str → ℤ → ℤ → ℤ → Str → List ℕ
  -- Topic and client id.
  pub write_metadata : Str → Str → List ℕ
  -- Topic, partition, offset time and client id.
  pub write_offset : Str → ℤ → ℤ → Str → List ℕ
  -- FindTopicPartition(topic, partition)->offset.
  pub read_produce : List ℕ → Str → ℤ → ℤ × Option ℤ
  pub read_fetch : List ℕ → ℤ × List MessageAndOffset
  pub read_metadata : List ℕ → ℤ × MetadataResponse
  -- FindTopicByName(name, topics()).
  pub find_topic : MetadataResponse → Str → Option MetadataTopic
  pub partition_leader : MetadataResponse → Str → ℤ → Option MetadataBroker
  -- TopicPartitionOffset(topic, partition)->offsets.
  pub read_offset : List ℕ → Str → ℤ → ℤ × Option (List ℤ)
