-- ===== src/Partition/Requests.antt =====
-- produce, createProduceRequest, createFetchRequest, createMetadataRequest and createOffsetRequest
-- of src/KafkaEndpointMP.cpp: what puts messages and requests into the queues of a partition.
use libasynckafkaclient.Prelude.{
  ℕ, ◌+◌, Bool, true, ◌&&◌, not, List, [], ◌∷◌, ◌++◌, map, length, leb, if◌then◌else◌,
}
use libasynckafkaclient.Prelude.Int.{ℤ, pos, ◌-ℤ◌, ◌==ℤ◌, u64_of}
use libasynckafkaclient.Config.{
  Str, KafkaClientConfig, KafkaFetchOffset, from_beginning, from_end, from_stored,
}
use libasynckafkaclient.Outcome.{Outcome, ok, ◌>>=◌}
use libasynckafkaclient.Os.{Os}
use libasynckafkaclient.Wakeup.{wakeup}
use libasynckafkaclient.Asio.{
  Asio, ProduceValue, ProduceHeader, api_key_produce, api_key_fetch, api_key_offset,
  api_key_metadata, offset_time_latest, offset_time_earliest,
}
use libasynckafkaclient.Partition.State.{
  KafkaPartition, Sys, with_part, is_consumer, watch_socket, wake,
}

-- `m_iMsgCnt == m_config.pBatchNumMsgs && m_partitionType == PRODUCER_P`.
abbrev pub batch_is_full : KafkaPartition → Bool
batch_is_full p =
    (pos p.msg_cnt ==ℤ p.config.p_batch_num_msgs) && not (is_consumer p.partition_type)

abbrev pub push_msg : List ℕ → Sys → Sys
push_msg msg s =
    with_part (record (s.part) { q_msgs = s.part.q_msgs ++ msg ∷ []; msg_cnt = s.part.msg_cnt + 1 })
      s

-- What produce(std::string msg) does before its last wake-up.
unfoldable pub enqueue : Os → List ℕ → Sys → Outcome Sys
unfolding wakeup
enqueue os msg s =
    if batch_is_full s.part
    then (do
      s1 ← wake os s.part.produce_event s
      ok (push_msg msg (with_part (record (s1.part) { msg_cnt = 0 }) s1)))
    else ok (push_msg msg s)

-- produce(std::string msg).
unfoldable pub produce : Os → List ℕ → Sys → Outcome Sys
unfolding enqueue
produce os msg s = do s1 ← enqueue os msg s; wake os s1.part.produce_msg_q_event s1

-- One pass of the loop of produce(std::vector<std::string> msgs).
unfoldable pub enqueue_next : Os → List ℕ → Sys → Outcome Sys
unfolding wakeup
enqueue_next os msg s =
    if batch_is_full s.part
    then (do
      s1 ← wake os s.part.produce_event s
      let s2 = with_part (record (s1.part) { msg_cnt = 0 }) s1
      ok (push_msg msg s2))
    else ok (push_msg msg s)

-- The loop.
unfoldable pub enqueue_all : Os → List (List ℕ) → Sys → Outcome Sys
unfolding enqueue_next
enqueue_all os [] s = ok s
enqueue_all os (msg ∷ msgs) s = do s1 ← enqueue_next os msg s; enqueue_all os msgs s1

-- produce(std::vector<std::string> msgs), with its return code.
unfoldable pub produce_msgs : Os → List (List ℕ) → Sys → Outcome (ℕ × Sys)
unfolding enqueue_all
produce_msgs os [] s = ok (1, s)
produce_msgs os (msg ∷ msgs) s = do
  s1 ← enqueue_all os (msg ∷ msgs) s
  s2 ← wake os s1.part.produce_msg_q_event s1
  ok (0, s2)

abbrev pub push_back : ℕ → List ℕ → Sys → Sys
push_back key req s =
    with_part (record (s.part) { dq_write_buffers = s.part.dq_write_buffers ++ (key, req) ∷ [] }) s

abbrev pub push_front : ℕ → List ℕ → Sys → Sys
push_front key req s =
    with_part (record (s.part) { dq_write_buffers = (key, req) ∷ s.part.dq_write_buffers }) s

-- The tail of every create method.
abbrev pub watch_for_write : Os → Sys → Outcome Sys
watch_for_write os s = watch_socket os s.part.event_flags true s

-- `m_config.cMaxFetchBytes - 1024`, converted to size_t for the comparison.
abbrev pub batch_limit : KafkaClientConfig → ℕ
batch_limit c = u64_of (c.c_max_fetch_bytes -ℤ pos 1024)

-- What one message adds to req_size.
abbrev pub msg_size : List ℕ → ℕ
msg_size msg = length msg + 10

module _ (a : Asio) where
  open a use {
    ProduceRequest, new_produce_request, add_value, clear, write_produce, write_fetch,
    write_metadata, write_offset,
  }

  -- The while loop over m_qMsgs: the requests that are written, the last of them after the loop.
  unfoldable pub batches : ℕ → Str → ℤ → ProduceRequest → ℕ → List (List ℕ) → List ProduceRequest
  batches limit topic partition request req_size [] = request ∷ []
  batches limit topic partition request req_size (msg ∷ q) =
      let full = leb limit req_size in
      let start = if full then clear request else request in
      let size = if full then 0 else req_size in
      let value : ProduceValue = record {
        value = msg;
        topic_name = topic;
        partition = partition;
      } in
      let rest = batches limit topic partition (add_value value start) (size + msg_size msg) q in
      if full then request ∷ rest else rest

  abbrev pub produce_header : KafkaClientConfig → ProduceHeader
  produce_header c = (api_key_produce, c.p_required_acks, c.p_timeout)

  unfoldable pub produce_batches : KafkaPartition → List ProduceRequest
  unfolding batches
  produce_batches p =
      batches (batch_limit p.config) p.topic p.partition
        (new_produce_request (produce_header p.config)) 0 p.q_msgs

  abbrev pub produce_entry : Str → ProduceRequest → ℕ × List ℕ
  produce_entry client_id request = (api_key_produce, write_produce request client_id)

  unfoldable pub create_produce_request : Os → Sys → Outcome Sys
  unfolding produce_batches
  create_produce_request os s = watch_for_write os (
      with_part
        (record (s.part) {
          q_msgs = [];
          dq_write_buffers =
              s.part.dq_write_buffers
              ++ map (produce_entry s.part.config.client_id) (produce_batches s.part);
        })
        s)

  unfoldable pub create_fetch_request : Os → Sys → Outcome Sys
  create_fetch_request os s =
      if s.part.fetch_paused
      then ok s
      else let p = s.part in
        watch_for_write os (
          push_back api_key_fetch
            (write_fetch p.config.c_max_fetch_wait_time_ms p.config.c_min_fetch_bytes p.topic
              p.partition p.next_fetch_offset p.config.c_max_fetch_bytes p.config.client_id)
            s)

  unfoldable pub create_metadata_request : Os → Sys → Outcome Sys
  create_metadata_request os s =
      watch_for_write os
        (push_front api_key_metadata (write_metadata s.part.topic s.part.config.client_id) s)

  abbrev pub offset_time : KafkaFetchOffset → ℤ
  offset_time from_end = offset_time_latest
  offset_time from_beginning = offset_time_earliest
  offset_time from_stored = offset_time_earliest

  unfoldable pub create_offset_request : Os → Sys → Outcome Sys
  create_offset_request os s = watch_for_write os (
      push_front api_key_offset
        (write_offset s.part.topic s.part.partition (offset_time s.part.config.c_start_offset)
          s.part.config.client_id)
        s)
