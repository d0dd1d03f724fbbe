-- ===== src/Tests/Offsets.antt =====
-- A consumer that commits its offset and starts again.
use libasynckafkaclient.Prelude.{◌≡◌, refl, [], arith}
use libasynckafkaclient.Prelude.Int.{ℤ, pos}
use libasynckafkaclient.Decimal.{show_ℕ, decimal, show_ℤ}
use libasynckafkaclient.Outcome.{ok, thrown}
use libasynckafkaclient.Partition.State.{Sys}
use libasynckafkaclient.Partition.Offsets.{
  get_kafka_offset, commit_kafka_offset, stored_offset_file, offset_file_base,
}
use libasynckafkaclient.Partition.Stored.{
  Restarts, get_kafka_offset-commit_kafka_offset, get_kafka_offset_throws,
}
use libasynckafkaclient.Tests.Data.{calm, consumer, sys}

-- The consumer that starts again in the world that s has left.
abbrev restarted : Sys → Sys
restarted s = record s {
  part = record consumer { next_fetch_offset = pos 0; stored_offset_file_name = [] };
}

restarted-Restarts :
    (n : ℤ)
    → let s = commit_kafka_offset (sys (record consumer { next_fetch_offset = n })) in
      Restarts calm s (restarted s)
unfolding stored_offset_file offset_file_base show_ℤ show_ℕ decimal commit_kafka_offset
restarted-Restarts n = record { same_world = refl; same_file = refl; from_store = refl }

abbrev at_five : Sys
at_five = sys (record consumer { next_fetch_offset = pos 5 })

abbrev at_zero : Sys
at_zero = sys (record consumer { next_fetch_offset = pos 0 })

get_kafka_offset-commit_kafka_offset_example :
    (t' : Sys) × (get_kafka_offset calm (restarted (commit_kafka_offset at_five)) ≡ ok t')
    × (t'.part.next_fetch_offset ≡ pos 4)
    × (t'.world ≡ (restarted (commit_kafka_offset at_five)).world)
get_kafka_offset-commit_kafka_offset_example =
    get_kafka_offset-commit_kafka_offset calm at_five (restarted (commit_kafka_offset at_five)) 4
      refl (omega arith) (restarted-Restarts (pos 5))

get_kafka_offset_throws_example :
    get_kafka_offset calm (restarted (commit_kafka_offset at_zero)) ≡ thrown
get_kafka_offset_throws_example =
    get_kafka_offset_throws calm at_zero (restarted (commit_kafka_offset at_zero)) refl
      (restarted-Restarts (pos 0))
