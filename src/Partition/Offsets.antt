-- ===== src/Partition/Offsets.antt =====
-- getKafkaOffset and commitKafkaOffset of src/KafkaEndpointMP.cpp: the local offset store.
use libasynckafkaclient.Prelude.{
  Bool, false, ◌&&◌, not, Option, none, some, [], ◌∷◌, ◌++◌, ◌==◌, if◌then◌else◌, str_eq, is_empty,
}
use libasynckafkaclient.Prelude.Int.{pos, ◌-ℤ◌, u64_of}
use libasynckafkaclient.Config.{Str, codes, from_beginning, from_end, from_stored}
use libasynckafkaclient.Outcome.{Outcome, ok, ◌>>=◌}
use libasynckafkaclient.Os.{Os, World}
use libasynckafkaclient.Decimal.{show_ℕ, show_ℤ, last_word, stoll}
use libasynckafkaclient.Partition.State.{KafkaPartition, Sys, with_part}

abbrev pub ends_with_slash : Str → Bool
ends_with_slash [] = false
ends_with_slash (c ∷ []) = c == b'/'
ends_with_slash (c ∷ d ∷ s) = ends_with_slash (d ∷ s)

-- `ss << clientId << "-" << topic << "-" << partition << "-" << "start-offset"`.
unfoldable pub offset_file_base : KafkaPartition → Str
unfolding show_ℤ
offset_file_base p =
    p.config.client_id
    ++ (codes "-"
        ++ (p.topic ++ (codes "-" ++ (show_ℤ p.partition ++ (codes "-" ++ codes "start-offset")))))

-- Where the store path is a directory the file lies in it, and otherwise in the current directory.
unfoldable pub stored_offset_file : Os → KafkaPartition → Str
unfolding offset_file_base
stored_offset_file os p =
    let path = p.config.c_offset_store_path in
    if not (is_empty path) && os.is_dir path
    then (if ends_with_slash path
        then path ++ offset_file_base p
        else path ++ (codes "/" ++ offset_file_base p))
    else offset_file_base p

unfoldable pub write_file : Str → Str → World → World
write_file name content w = record w {
  files = λ other. if str_eq name other then some content else w.files other;
}

-- The part of getKafkaOffset that reads the file, if it is there; its text is the argument.
unfoldable pub load_offset : Option Str → Sys → Outcome Sys
unfolding write_file show_ℤ last_word stoll
load_offset none s = ok (record s {
  world = write_file s.part.stored_offset_file_name (show_ℤ s.part.next_fetch_offset) s.world;
})
load_offset (some content) s = elim s.part.config.c_start_offset [
  | from_stored ↦ (do
    offset ← stoll (last_word [] [] content)
    ok (with_part (record (s.part) { next_fetch_offset = offset }) s))
  | from_beginning ↦ ok s
  | from_end ↦ ok s
]

unfoldable pub get_kafka_offset : Os → Sys → Outcome Sys
unfolding stored_offset_file load_offset
get_kafka_offset os s =
    let name = stored_offset_file os s.part in
    load_offset (s.world.files name)
      (with_part (record (s.part) { stored_offset_file_name = name }) s)

-- commitKafkaOffset. `commitOffset` is a uint64_t, so the test `commitOffset >= 0` holds always.
unfoldable pub commit_kafka_offset : Sys → Sys
unfolding write_file show_ℕ
commit_kafka_offset s =
    let commit_offset = u64_of (s.part.next_fetch_offset -ℤ pos 1) in
    record s { world = write_file s.part.stored_offset_file_name (show_ℕ commit_offset) s.world }
