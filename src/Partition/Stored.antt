-- ===== src/Partition/Stored.antt =====
-- The offset store of src/KafkaEndpointMP.cpp across a restart of the consumer.
use libasynckafkaclient.Prelude.{
  ℕ, suc, ◌-◌, ◌^◌, ◌<◌, ◌≡◌, refl, ap, ◌∙◌, false, some, lt→ltb, arith, str_eq_refl,
}
use libasynckafkaclient.Prelude.Int.{pos, u64_of, ◌-ℤ◌}
use libasynckafkaclient.Config.{from_stored}
use libasynckafkaclient.Outcome.{ok, thrown, ◌>>=◌}
use libasynckafkaclient.Os.{Os, World}
use libasynckafkaclient.Decimal.{show_ℕ, in_long_range}
use libasynckafkaclient.Decimal.RoundTrip.{stoll-show_ℕ}
use libasynckafkaclient.Partition.State.{Sys}
use libasynckafkaclient.Partition.Offsets.{
  stored_offset_file, write_file, load_offset, get_kafka_offset, commit_kafka_offset,
}

-- t is a consumer that starts in the world that s has left, on the offset file of s, from the stored
-- offset.
pub record Restarts (os : Os) (s t : Sys) : Type 0 where
  pub same_world : t.world ≡ s.world
  pub same_file : stored_offset_file os t.part ≡ s.part.stored_offset_file_name
  pub from_store : t.part.config.c_start_offset ≡ from_stored

committed_file :
    (s : Sys)
    → (commit_kafka_offset s).world.files s.part.stored_offset_file_name
      ≡ some (show_ℕ (u64_of (s.part.next_fetch_offset -ℤ pos 1)))
unfolding commit_kafka_offset write_file
committed_file s = rw str_eq_refl refl

load_committed :
    (n : ℕ) (t : Sys)
    → t.part.config.c_start_offset ≡ from_stored
    → load_offset (some (show_ℕ n)) t ≡ (
        in_long_range false n >>= λ offset.
        ok (record t { part = record (t.part) { next_fetch_offset = offset } }))
unfolding load_offset
load_committed n t e = rw (e, stoll-show_ℕ) refl

restart :
    (os : Os) (s t : Sys)
    → Restarts os (commit_kafka_offset s) t
    → get_kafka_offset os t ≡ (
        in_long_range false (u64_of (s.part.next_fetch_offset -ℤ pos 1)) >>= λ offset.
        ok (record t {
          part = record (t.part) {
            stored_offset_file_name = stored_offset_file os t.part;
            next_fetch_offset = offset;
          };
        }))
unfolding get_kafka_offset commit_kafka_offset
restart os s t r =
    let name = stored_offset_file os t.part in
    let found : t.world.files name ≡ some (show_ℕ (u64_of (s.part.next_fetch_offset -ℤ pos 1))) =
      ap (λ (w : World). w.files name) r.same_world
      ∙ (ap (commit_kafka_offset s).world.files r.same_file ∙ committed_file s) in
    simp found (
      load_committed _ (record t { part = record (t.part) { stored_offset_file_name = name } })
        r.from_store)

-- A consumer that has committed with its next offset n + 1 in the range of int64_t, and starts
-- again from the stored offset, goes on at offset n; the constructor's read of the file succeeds
-- and changes no file.
pub get_kafka_offset-commit_kafka_offset :
    (os : Os) (s t : Sys) (n : ℕ)
    → s.part.next_fetch_offset ≡ pos (suc n)
    → n < 2 ^ 63
    → Restarts os (commit_kafka_offset s) t
    → (t' : Sys) × (get_kafka_offset os t ≡ ok t')
      × (t'.part.next_fetch_offset ≡ pos n)
      × (t'.world ≡ t.world)
unfolding in_long_range
get_kafka_offset-commit_kafka_offset os s t n next fits r =
    let commit : u64_of (s.part.next_fetch_offset -ℤ pos 1) ≡ n = rw next (ground arith) in
    (
      record t {
        part = record (t.part) {
          stored_offset_file_name = stored_offset_file os t.part;
          next_fetch_offset = pos n;
        };
      },
      restart os s t r ∙ rw (commit, lt→ltb n (2 ^ 63) fits) refl,
      refl,
      refl,
    )

-- If a consumer commits while its next offset is 0, the read of the file at the next start from the
-- stored offset ends in the exception of stoll.
pub get_kafka_offset_throws :
    (os : Os) (s t : Sys)
    → s.part.next_fetch_offset ≡ pos 0
    → Restarts os (commit_kafka_offset s) t
    → get_kafka_offset os t ≡ thrown
unfolding in_long_range
get_kafka_offset_throws os s t next r =
    let commit : u64_of (s.part.next_fetch_offset -ℤ pos 1) ≡ 2 ^ 64 - 1 = rw next refl in
    restart os s t r ∙ rw commit refl
