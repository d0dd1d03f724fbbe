-- ===== src/Tests/Fetches.antt =====
-- A consumer that fetches overlapping parts of a log.
use libasynckafkaclient.Prelude.{ℕ, ◌≡◌, refl, List, [], ◌∷◌, ◌++◌, str_eq, if◌then◌else◌, arith}
use libasynckafkaclient.Prelude.Int.{pos}
use libasynckafkaclient.Outcome.{ok}
use libasynckafkaclient.Asio.{Asio, MessageAndOffset}
use libasynckafkaclient.Partition.State.{Sys}
use libasynckafkaclient.Partition.Responses.{take_messages}
use libasynckafkaclient.Partition.Fetching.{Rising, values_from}
use libasynckafkaclient.Partition.Once.{received, fetch_all, FromLog, fetch_all-received}
use libasynckafkaclient.Tests.Data.{asio, calm, calm-WritesDone, consumer, message, sys}

abbrev at_offset : ℕ → MessageAndOffset
at_offset n = message n (n ∷ [])

abbrev log : List MessageAndOffset
log = at_offset 3 ∷ at_offset 4 ∷ at_offset 5 ∷ at_offset 6 ∷ at_offset 7 ∷ at_offset 9 ∷ []

abbrev first_part : List MessageAndOffset
first_part = at_offset 4 ∷ at_offset 5 ∷ []

abbrev second_part : List MessageAndOffset
second_part = at_offset 5 ∷ at_offset 6 ∷ at_offset 7 ∷ []

-- The first frame has no byte.
abbrev serving : Asio
serving = record asio {
  read_fetch = λ frame. (pos 0, (if str_eq frame [] then first_part else second_part));
}

abbrev frames : List (List ℕ)
frames = [] ∷ (1 ∷ []) ∷ []

log-Rising : Rising (pos 0) log
log-Rising = ground arith

frames-FromLog : FromLog serving calm 1 log (pos 5) frames
unfolding take_messages
frames-FromLog = (
  refl,
  record {
    before = at_offset 3 ∷ [];
    after = at_offset 6 ∷ at_offset 7 ∷ at_offset 9 ∷ [];
    split = refl;
    below = (omega arith, tt);
  },
  (
    refl,
    record {
      before = at_offset 3 ∷ at_offset 4 ∷ [];
      after = at_offset 9 ∷ [];
      split = refl;
      below = (omega arith, (omega arith, tt));
    },
    tt,
  ),
)

fetch_all-received_example :
    (s' : Sys) × (fetch_all serving calm 1 frames (sys consumer) ≡ ok s')
    × (s'.part ≡ record consumer { next_fetch_offset = s'.part.next_fetch_offset })
    × (received s'.world.trace ++ values_from s'.part.next_fetch_offset log
        ≡ (5 ∷ []) ∷ (6 ∷ []) ∷ (7 ∷ []) ∷ (9 ∷ []) ∷ [])
fetch_all-received_example =
    fetch_all-received serving calm 1 log (pos 0) frames (sys consumer) log-Rising frames-FromLog
      refl refl calm-WritesDone
