-- ===== src/Decimal.antt =====
-- What the code uses of the standard library to write and read an offset: operator<< of an integer,
-- operator>> of a string and std::stoll.
pub mod RoundTrip
use libasynckafkaclient.Prelude.{
  ℕ, zero, suc, ◌+◌, ◌-◌, ◌*◌, ◌/◌, ◌%◌, ◌^◌, Bool, true, false, ◌&&◌, ◌||◌, List, [], ◌∷◌, ◌++◌,
  ltb, leb, ◌==◌, if◌then◌else◌, is_empty,
}
use libasynckafkaclient.Prelude.Int.{ℤ, pos, negsuc}
use libasynckafkaclient.Config.{Str}
use libasynckafkaclient.Outcome.{Outcome, ok, thrown}

-- The decimal digits of a number, with fuel above it.
unfoldable pub decimal : ℕ → ℕ → Str
decimal zero n = []
decimal (suc fuel) n =
    let rest = decimal fuel (n / 10) in
    if ltb n 10 then (b'0' + n) ∷ [] else rest ++ (b'0' + n % 10) ∷ []

unfoldable pub show_ℕ : ℕ → Str
unfolding decimal
show_ℕ n = decimal (suc n) n

unfoldable pub show_ℤ : ℤ → Str
unfolding show_ℕ
show_ℤ (pos n) = show_ℕ n
show_ℤ (negsuc n) = b'-' ∷ show_ℕ (suc n)

abbrev pub is_digit : ℕ → Bool
is_digit c = leb b'0' c && leb c b'9'

abbrev pub is_space : ℕ → Bool
is_space c = c == b' ' || (leb 9 c && leb c 13)

-- `while (file >> content)`: the last word of the text, or what content held before.
unfoldable pub last_word : Str → Str → Str → Str
last_word cur last [] = if is_empty cur then last else cur
last_word cur last (c ∷ s) =
    last_word (if is_space c then [] else cur ++ c ∷ [])
      (if is_space c then (if is_empty cur then last else cur) else last) s

-- The number that the leading digits of a text stand for.
unfoldable pub read_digits : ℕ → Str → ℕ
read_digits acc [] = acc
read_digits acc (c ∷ s) = if is_digit c then read_digits (acc * 10 + (c - b'0')) s else acc

abbrev pub starts_with_digit : Str → Bool
starts_with_digit [] = false
starts_with_digit (c ∷ s) = is_digit c

-- The range of long long; outside it stoll throws std::out_of_range.
unfoldable pub in_long_range : Bool → ℕ → Outcome ℤ
in_long_range false n = if ltb n (2 ^ 63) then ok (pos n) else thrown
in_long_range true zero = ok (pos 0)
in_long_range true (suc n) = if ltb n (2 ^ 63) then ok (negsuc n) else thrown

-- Without a digit stoll throws std::invalid_argument.
unfoldable pub stoll_unsigned : Bool → Str → Outcome ℤ
unfolding read_digits in_long_range
stoll_unsigned negative s =
    if starts_with_digit s then in_long_range negative (read_digits 0 s) else thrown

-- std::stoll at a word, which starts with no space.
unfoldable pub stoll : Str → Outcome ℤ
unfolding stoll_unsigned
stoll [] = thrown
stoll (c ∷ s) =
    if c == b'-'
    then stoll_unsigned true s
    else if c == b'+'
    then stoll_unsigned false s
    else stoll_unsigned false (c ∷ s)
