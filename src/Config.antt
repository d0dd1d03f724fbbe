-- ===== src/Config.antt =====
-- The configuration, the enumerations and the broker record of src/KafkaEndpointMP.h.
use libasynckafkaclient.Prelude.{ℕ, ◌*◌, Bool, true, List, [], ◌∷◌}
use libasynckafkaclient.Prelude.Int.{ℤ, pos, minus_one}
use Prim.Native.String.{String}
use Prim.Native.Char.{code}

-- A std::string is the list of its bytes.
abbrev pub Str : Type 0
Str = List ℕ

abbrev pub codes : String → Str
codes String.[] = []
codes (String.◌∷◌ c s) = code c ∷ codes s

pub data KafkaFetchOffset : Type 0 where
  from_beginning from_end from_stored : KafkaFetchOffset

pub data KafkaPartitionType : Type 0 where
  consumer_p producer_p : KafkaPartitionType

pub data KafkaPartitioningMethod : Type 0 where
  round_robin partition_function : KafkaPartitioningMethod

pub record KafkaClientConfig : Type 0 where
  pub client_id : Str
  pub m_refresh_interval_ms : ℕ
  pub c_max_fetch_wait_time_ms : ℕ
  pub c_max_fetch_bytes : ℤ
  pub c_min_fetch_bytes : ℕ
  pub c_auto_commit_enable : Bool
  pub c_auto_commit_interval_ms : ℕ
  pub c_start_offset : KafkaFetchOffset
  pub c_offset_store_path : Str
  pub p_partitioning_method : KafkaPartitioningMethod
  pub p_required_acks : ℤ
  pub p_timeout : ℕ
  pub p_batch_num_msgs : ℤ
  pub p_max_batch_wait_time_ms : ℕ

abbrev pub default_init : KafkaClientConfig
default_init = record {
  client_id = codes "KafkaClient";
  m_refresh_interval_ms = 300000;
  c_max_fetch_wait_time_ms = 1000;
  c_max_fetch_bytes = pos (16 * 1024);
  c_min_fetch_bytes = 1;
  c_auto_commit_enable = true;
  c_auto_commit_interval_ms = 60000;
  c_start_offset = from_stored;
  c_offset_store_path = [];
  p_partitioning_method = round_robin;
  p_required_acks = pos 1;
  p_timeout = 5000;
  p_batch_num_msgs = pos 1000;
  p_max_batch_wait_time_ms = 5000;
}

pub record KafkaBroker : Type 0 where
  pub id : ℤ
  pub host : Str
  pub ip : Str
  pub port : ℤ

-- KAFKA_ALL_PARTITIONS
abbrev pub kafka_all_partitions : ℤ
kafka_all_partitions = minus_one
