-- ===== src/Logger/Lines.antt =====
-- What the macros of src/Logger.h leave in the log file.
use libasynckafkaclient.Prelude.{
  ℕ, zero, suc, ◌+◌, ◌-◌, ◌*◌, ◌/◌, ◌%◌, ◌≤◌, ◌<◌, ◌≡◌, refl, sym, ap, ◌∙◌, true, false, List, [],
  ◌∷◌, ◌++◌, length, length-append, append_assoc, append-nil, arith, ltb, lt→ltb, str_eq,
  str_eq_refl, Bool-cases, inl, inr,
}
use libasynckafkaclient.Config.{Str}
use libasynckafkaclient.Outcome.{Outcome, ok, ◌>>=◌}
use libasynckafkaclient.Os.{World}
use libasynckafkaclient.Decimal.{decimal, show_ℕ}
use libasynckafkaclient.Partition.Offsets.{write_file}
use libasynckafkaclient.Logger.{
  Level, fatal, alert, crit, error, warn, notice, info, debug, trace, name_of, macro, log_message,
  log_line, time_stamp, log_file_name, content, append_file, zeros, zero_padded,
}

-- A call of a macro with all that it is given.
abbrev pub Entry : Type 0
Entry = Level × Str × ℕ × Str × ℕ × ℕ

module _ (strftime : ℕ → Str) where
  abbrev pub log_all : List Entry → World → Outcome World
  log_all [] w = ok w
  log_all ((level, f, n, text, s, us) ∷ l) w =
      log_message strftime true (macro level f n text s us) w >>= log_all l

  -- The lines that the entries stand for, one after the other.
  abbrev pub lines : List Entry → Str
  lines [] = []
  lines ((level, f, n, text, s, us) ∷ l) =
      log_line (time_stamp strftime s us) (name_of level) f n text ++ lines l

  log_message-level :
      (level : Level) (f : Str) (n : ℕ) (text : Str) (s us : ℕ) (w : World)
      → log_message strftime true (macro level f n text s us) w
        ≡ ok (
            append_file log_file_name
              (log_line (time_stamp strftime s us) (name_of level) f n text)
              w)
  unfolding log_message
  log_message-level fatal f n text s us w = refl
  log_message-level alert f n text s us w = refl
  log_message-level crit f n text s us w = refl
  log_message-level error f n text s us w = refl
  log_message-level warn f n text s us w = refl
  log_message-level notice f n text s us w = refl
  log_message-level info f n text s us w = refl
  log_message-level debug f n text s us w = refl
  log_message-level trace f n text s us w = refl

content-append_file :
    (name text : Str) (w : World) → content name (append_file name text w) ≡ content name w ++ text
unfolding write_file
content-append_file name text w = rw (str_eq_refl name, content) refl

other-append_file :
    (name other text : Str) (w : World)
    → str_eq name other ≡ false
    → (append_file name text w).files other ≡ w.files other
unfolding write_file
other-append_file name other text w differs = rw differs refl

trace-append_file : (name text : Str) (w : World) → (append_file name text w).trace ≡ w.trace
unfolding write_file
trace-append_file name text w = refl

-- While the log file opens, the macros append a line for each message behind what the file holds, in
-- order, with the name of the macro's level, and change no other file and nothing that is sent.
pub log_all-appends :
    (strftime : ℕ → Str) (l : List Entry) (w : World)
    → (w' : World) × (log_all strftime l w ≡ ok w')
      × (content log_file_name w' ≡ content log_file_name w ++ lines strftime l)
      × ((other : Str) → str_eq log_file_name other ≡ false → w'.files other ≡ w.files other)
      × (w'.trace ≡ w.trace)
log_all-appends strftime [] w = (w, refl, sym (append-nil _), λ other differs. refl, refl)
log_all-appends strftime ((level, f, n, text, s, us) ∷ l) w =
    let line = log_line (time_stamp strftime s us) (name_of level) f n text in
    let w1 = append_file log_file_name line w in
    let (w2, e, holds, others, sent) = log_all-appends strftime l w1 in
    (
      w2,
      rw (log_message-level strftime level f n text s us w) e,
      holds
          ∙ ap (λ c. c ++ lines strftime l) (content-append_file log_file_name line w)
          ∙ append_assoc (content log_file_name w) line (lines strftime l),
      λ other differs. others other differs ∙ other-append_file log_file_name other line w differs,
      sent ∙ trace-append_file log_file_name line w,
    )

-- 10 to the power k.
abbrev ten : ℕ → ℕ
ten zero = 1
ten (suc k) = ten k * 10

decimal-length : (fuel k n : ℕ) → n < ten (suc k) → length (decimal fuel n) ≤ suc k
unfolding decimal
decimal-length zero k n h = omega arith
decimal-length (suc fuel) zero n h = rw (lt→ltb n 10 (omega arith)) (omega arith)
decimal-length (suc fuel) (suc k) n h = elim (Bool-cases (ltb n 10)) [
  | inl one ↦ rw one (omega arith)
  | inr more ↦ rw more (
      omega (
        arith,
        length-append (decimal fuel (n / 10)) ((b'0' + n % 10) ∷ []),
        decimal-length fuel k (n / 10) (omega arith),
      ))
]

zeros-length : (n : ℕ) → length (zeros n) ≡ n
zeros-length zero = refl
zeros-length (suc n) = ap suc (zeros-length n)

-- The fraction in a time stamp has five digits for every number of microseconds below a million.
pub zero_padded-length : (tv_usec : ℕ) → tv_usec < 1000000 → length (zero_padded (tv_usec / 10)) ≡ 5
unfolding show_ℕ
zero_padded-length tv_usec h =
    let n = tv_usec / 10 in
    omega (
      arith,
      length-append (zeros (5 - length (show_ℕ n))) (show_ℕ n),
      zeros-length (5 - length (show_ℕ n)),
      decimal-length (suc n) 4 n (omega arith),
    )
