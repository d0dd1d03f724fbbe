-- ===== src/Decimal/RoundTrip.antt =====
-- An offset that was written in decimal is read back.
use libasynckafkaclient.Prelude.{
  ℕ, zero, suc, ◌+◌, ◌-◌, ◌*◌, ◌/◌, ◌%◌, ◌≤◌, ◌<◌, ◌≡◌, refl, ap, ◌∙◌, true, false, [], ◌∷◌, ◌++◌,
  ltb, ltb→lt, ◌==◌, if◌then◌else◌, is_empty, arith, All, All-append, Bool-cases, inl, inr,
  append_assoc, append-nil,
}
use libasynckafkaclient.Config.{Str}
use libasynckafkaclient.Decimal.{
  decimal, show_ℕ, is_digit, is_space, last_word, read_digits, in_long_range, stoll,
}

abbrev IsDigit : ℕ → Type 0
IsDigit c = is_digit c ≡ true

add_IsDigit : (n : ℕ) → n < 10 → IsDigit (b'0' + n)
add_IsDigit n h = ground arith

decimal-IsDigit : (fuel n : ℕ) → All IsDigit (decimal fuel n)
unfolding decimal
decimal-IsDigit zero n = tt
decimal-IsDigit (suc fuel) n = elim (Bool-cases (ltb n 10)) [
  | inl small ↦ rw small (add_IsDigit n (omega (arith, ltb→lt n 10 small)), tt)
  | inr large ↦ rw large (
      All-append IsDigit (decimal fuel (n / 10)) _ (decimal-IsDigit fuel (n / 10))
        (add_IsDigit (n % 10) (omega arith), tt))
]

read_digits-snoc :
    (acc : ℕ) (s : Str) (c : ℕ)
    → All IsDigit s
    → IsDigit c
    → read_digits acc (s ++ c ∷ []) ≡ read_digits acc s * 10 + (c - b'0')
unfolding read_digits
read_digits-snoc acc [] c h d = ground arith
read_digits-snoc acc (x ∷ s) c h d = rw h.0 (read_digits-snoc (acc * 10 + (x - b'0')) s c h.1 d)

read_digits-decimal : (fuel n : ℕ) → n < fuel → read_digits 0 (decimal fuel n) ≡ n
unfolding decimal
read_digits-decimal zero n h = absurd (omega arith)
read_digits-decimal (suc fuel) n h = elim (Bool-cases (ltb n 10)) [
  | inl small ↦ rw small (unfold read_digits in ground (arith, add_IsDigit n))
  | inr large ↦
      let big : 10 ≤ n = ground arith in
      rw large (
        read_digits-snoc 0 (decimal fuel (n / 10)) (b'0' + n % 10) (decimal-IsDigit fuel (n / 10))
          (add_IsDigit (n % 10) (omega arith))
        ∙ omega (arith, read_digits-decimal fuel (n / 10) (omega arith)))
]

last_word-digits :
    (cur last s : Str)
    → All IsDigit s
    → last_word cur last s ≡ (if is_empty (cur ++ s) then last else cur ++ s)
unfolding last_word
last_word-digits cur last [] h = simp append-nil refl
last_word-digits cur last (c ∷ s) h =
    let solid : is_space c ≡ false = ground arith in
    rw (solid, last_word-digits (cur ++ c ∷ []) last s h.1, append_assoc) refl

snoc-is_empty : (s : Str) (c : ℕ) → is_empty (s ++ c ∷ []) ≡ false
snoc-is_empty [] c = refl
snoc-is_empty (x ∷ s) c = refl

show_ℕ-is_empty : (n : ℕ) → is_empty (show_ℕ n) ≡ false
unfolding show_ℕ
show_ℕ-is_empty n = elim (Bool-cases (ltb n 10)) [
  | inl small ↦ rw small refl
  | inr large ↦ rw large (snoc-is_empty (decimal n (n / 10)) (b'0' + n % 10))
]

stoll-digits :
    (s : Str) → All IsDigit s → is_empty s ≡ false → stoll s ≡ in_long_range false (read_digits 0 s)
unfolding stoll
stoll-digits [] h e = cc
stoll-digits (c ∷ s) h e =
    let not_minus : (c == b'-') ≡ false = ground arith in
    let not_plus : (c == b'+') ≡ false = ground arith in rw (not_minus, not_plus, h.0) refl

-- The last word of a text that holds one number is the number, and stoll reads it as itself if it
-- fits a long long and throws otherwise.
pub stoll-show_ℕ :
    (n : ℕ) (last : Str) → stoll (last_word [] last (show_ℕ n)) ≡ in_long_range false n
unfolding show_ℕ
stoll-show_ℕ n last =
    rw (last_word-digits [] last (show_ℕ n) (decimal-IsDigit (suc n) n), show_ℕ-is_empty n)
      (stoll-digits (show_ℕ n) (decimal-IsDigit (suc n) n) (show_ℕ-is_empty n)
        ∙ ap (in_long_range false) (read_digits-decimal (suc n) n (omega arith)))
