-- ===== src/Client/State.antt =====
-- The members of KafkaClient (src/KafkaClient.h) with what its methods act on, and the methods that
-- run over the partitions: handleFetchedData, handleProduceResponse, handleMsgQueuedResponse,
-- startFetch, pauseFetch, resumeFetch and startProduce.
use libasynckafkaclient.Prelude.{ℕ, Bool, List, [], ◌∷◌, ◌++◌, map, if◌then◌else◌}
use libasynckafkaclient.Prelude.Int.{ℤ}
use libasynckafkaclient.Config.{Str, KafkaBroker, KafkaClientConfig, KafkaPartitionType}
use libasynckafkaclient.Outcome.{Outcome, ok, ◌>>=◌}
use libasynckafkaclient.Os.{Os, World, log, app_fetched_data, app_produce_response, app_msg_queued}
use libasynckafkaclient.Reactor.{Reactor}
use libasynckafkaclient.Partition.State.{KafkaPartition, Sys}
use libasynckafkaclient.Partition.Lifecycle.{start_fetch, start_produce, pause_fetch, resume_fetch}

pub record KafkaClient : Type 0 where
  pub partition : ℤ
  pub broker : Str
  pub service : ℤ
  pub topic : Str
  pub config : KafkaClientConfig
  pub partition_type : KafkaPartitionType
  pub partitions : List KafkaPartition
  pub brokers : List KafkaBroker
  -- Which callbacks of the application are set.
  pub on_fetched_data : Bool
  pub on_produce_response : Bool
  pub on_msg_queued : Bool

pub record ClientSys : Type 0 where
  pub client : KafkaClient
  pub reactor : Reactor
  pub world : World
  -- The global currPartition.
  pub curr_partition : ℕ

unfoldable pub handle_fetched_data : List (List ℕ) → ClientSys → ClientSys
handle_fetched_data msgs s =
    if s.client.on_fetched_data then record s { world = log (app_fetched_data msgs) s.world } else s

unfoldable pub handle_produce_response : Str → ℤ → ℤ → ClientSys → ClientSys
handle_produce_response topic partition offset s =
    if s.client.on_produce_response
    then record s { world = log (app_produce_response topic partition offset) s.world }
    else s

unfoldable pub handle_msg_queued_response : ClientSys → ClientSys
handle_msg_queued_response s =
    if s.client.on_msg_queued then record s { world = log app_msg_queued s.world } else s

-- A partition's method, run by the client: the reactor is shared.
abbrev pub sys_of : KafkaPartition → ClientSys → Sys
sys_of p s = record { part = p; reactor = s.reactor; world = s.world }

abbrev pub with_partitions : List KafkaPartition → ClientSys → ClientSys
with_partitions ps s = record s { client = record (s.client) { partitions = ps } }

abbrev pub back_to : ClientSys → Sys → ClientSys
back_to s t = record s { reactor = t.reactor; world = t.world }

-- A loop over partitions; `done` are those that it has passed.
unfoldable pub for_each :
    (Sys → Outcome Sys) → List KafkaPartition → List KafkaPartition → ClientSys → Outcome ClientSys
for_each op done [] s = ok (with_partitions done s)
for_each op done (p ∷ ps) s =
    op (sys_of p s) >>= λ t. for_each op (done ++ t.part ∷ []) ps (back_to s t)

unfoldable pub over_partitions : (Sys → Outcome Sys) → ClientSys → Outcome ClientSys
unfolding for_each
over_partitions op s = for_each op [] s.client.partitions s

-- KafkaConsumer::startFetch.
unfoldable pub consumer_start_fetch : Os → ClientSys → Outcome ClientSys
unfolding over_partitions start_fetch
consumer_start_fetch os = over_partitions (start_fetch os)

-- KafkaConsumer::pauseFetch.
unfoldable pub consumer_pause_fetch : ClientSys → ClientSys
unfolding pause_fetch
consumer_pause_fetch s = with_partitions (map pause_fetch s.client.partitions) s

-- KafkaConsumer::resumeFetch.
unfoldable pub consumer_resume_fetch : Os → ClientSys → Outcome ClientSys
unfolding over_partitions resume_fetch
consumer_resume_fetch os = over_partitions (resume_fetch os)

-- KafkaProducer::startProduce.
unfoldable pub producer_start_produce : Os → ClientSys → Outcome ClientSys
unfolding over_partitions start_produce
producer_start_produce os = over_partitions (start_produce os)
