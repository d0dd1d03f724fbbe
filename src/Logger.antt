-- ===== src/Logger.antt =====
-- src/Logger.h: a line for each message, appended to the log file.
pub mod Lines
use libasynckafkaclient.Prelude.{
  ℕ, zero, suc, ◌+◌, ◌-◌, ◌*◌, ◌/◌, ◌%◌, ◌≤◌, ◌<◌, ◌≡◌, refl, sym, ap, ◌∙◌, Bool, true, false, not,
  Option, none, some, List, [], ◌∷◌, ◌++◌, get_elem?, length, length-append, append_assoc,
  append-nil, arith, ltb, lt→ltb, str_eq, str_eq_refl, if◌then◌else◌, if-true, if-false, Bool-cases,
  inl, inr,
}
use libasynckafkaclient.Config.{Str, codes}
use libasynckafkaclient.Outcome.{Outcome, ok, undefined, ◌>>=◌}
use libasynckafkaclient.Os.{World, log, printed}
use libasynckafkaclient.Decimal.{decimal, show_ℕ}
use libasynckafkaclient.Partition.Offsets.{write_file}

abbrev pub log_file_name : Str
log_file_name = codes "kafka-logs.txt"

abbrev pub pri_str : List Str
pri_str =
    codes "UNKNOWN"
    ∷ codes "FATAL"
    ∷ codes "ALERT"
    ∷ codes "CRIT"
    ∷ codes "ERROR"
    ∷ codes "WARN"
    ∷ codes "NOTICE"
    ∷ codes "INFO"
    ∷ codes "DEBUG"
    ∷ codes "TRACE"
    ∷ []

-- The macros that log.
pub data Level : Type 0 where
  fatal alert crit error warn notice info debug trace : Level

abbrev pub priority : Level → ℕ
priority fatal = 1
priority alert = 2
priority crit = 3
priority error = 4
priority warn = 5
priority notice = 6
priority info = 7
priority debug = 8
priority trace = 9

abbrev pub zeros : ℕ → Str
zeros zero = []
zeros (suc n) = b'0' ∷ zeros n

-- The conversion %05d of a number that is not negative.
abbrev pub zero_padded : ℕ → Str
zero_padded n = zeros (5 - length (show_ℕ n)) ++ show_ℕ n

-- timeStamp, at the time that gettimeofday gives; `strftime` makes the text of the seconds.
unfoldable pub time_stamp : (ℕ → Str) → ℕ → ℕ → Str
unfolding show_ℕ
time_stamp strftime tv_sec tv_usec = strftime tv_sec ++ b'.' ∷ zero_padded (tv_usec / 10)

-- What the three prints make of a message; `text` is what vfprintf makes of the format and the arguments.
abbrev pub log_line : Str → Str → Str → ℕ → Str → Str
log_line ts priority_name fun_name line_no text =
    codes "[ "
    ++ (ts
        ++ (codes " ] "
            ++ (priority_name
                ++ (codes " : "
                    ++ (fun_name
                        ++ (codes " ("
                            ++ (show_ℕ line_no ++ (codes ") : " ++ (text ++ 10 ∷ [])))))))))

-- The text of a file, which is empty before it is made.
abbrev pub content : Str → World → Str
content name w = elim (w.files name) [ none ↦ [] | some text ↦ text ]

-- A write to a file that is open for appending.
abbrev pub append_file : Str → Str → World → World
append_file name text w = write_file name (content name w ++ text) w

-- A call of logMessage.
pub record Call : Type 0 where
  pub level : ℕ
  pub fun_name : Str
  pub line_no : ℕ
  pub text : Str
  pub tv_sec : ℕ
  pub tv_usec : ℕ

-- logMessage, where `opens` is whether fopen succeeds. A priority outside of priStr is read past its end.
unfoldable pub log_message : (ℕ → Str) → Bool → Call → World → Outcome World
unfolding time_stamp write_file
log_message strftime opens call w =
    if not opens
    then ok (log (printed (codes "Not able to open log file\n")) w)
    else elim (get_elem? pri_str call.level) [
      | none ↦ undefined
      | some name ↦ ok (
          append_file log_file_name
            (log_line (time_stamp strftime call.tv_sec call.tv_usec) name call.fun_name call.line_no
              call.text)
            w)
    ]

-- A call of one of the macros.
abbrev pub macro : Level → Str → ℕ → Str → ℕ → ℕ → Call
macro level fun_name line_no text tv_sec tv_usec = record {
  level = priority level;
  fun_name = fun_name;
  line_no = line_no;
  text = text;
  tv_sec = tv_sec;
  tv_usec = tv_usec;
}

abbrev pub name_of : Level → Str
name_of fatal = codes "FATAL"
name_of alert = codes "ALERT"
name_of crit = codes "CRIT"
name_of error = codes "ERROR"
name_of warn = codes "WARN"
name_of notice = codes "NOTICE"
name_of info = codes "INFO"
name_of debug = codes "DEBUG"
name_of trace = codes "TRACE"
