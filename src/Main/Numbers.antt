-- ===== src/Main/Numbers.antt =====
-- `std::stoi` as src/main.cpp uses it, against decimal notation.
use lock_free_spmc_queue_dis.Common.{
  ℕ, zero, suc, ◌+◌, ◌-◌, ◌*◌, ◌/◌, ◌%◌, ◌^◌, ◌≤◌, ◌<◌, ◌≡◌, refl, ap, ◌∙◌, sym, true, false, some,
  [], ◌∷◌, arith, ltb, if◌then◌else◌, ℤ, pos, negsuc, le-cases, inl, inr, subst,
}
use lock_free_spmc_queue_dis.Main.{
  Bytes, is_digit, skip_spaces, take_sign, read_digits, magnitude, to_int, stoi,
}

-- The decimal digits of a number below 10 ^ `width`, before `out`.
unfoldable pub digits : ℕ → ℕ → Bytes → Bytes
digits zero n out = out
digits (suc width) n out =
    if ltb n 10 then (b'0' + n) ∷ out else digits width (n / 10) ((b'0' + n % 10) ∷ out)

-- Ten digits are enough for an `int`.
abbrev pub print_int : ℤ → Bytes
print_int (pos n) = digits 10 n []
print_int (negsuc n) = b'-' ∷ digits 10 (n + 1) []

-- 10 ^ `width`
abbrev pub limit : ℕ → ℕ
limit zero = 1
limit (suc width) = 10 * limit width

-- The values of `int`.
abbrev pub IsInt : ℤ → Type 0
IsInt (pos n) = n < 2 ^ 31
IsInt (negsuc n) = n < 2 ^ 31

-- A text that begins with a digit.
record Numeral (s : Bytes) : Type 0 where
  first : ℕ
  rest : Bytes
  same : s ≡ first ∷ rest
  digit : is_digit first ≡ true

digits_none : (n : ℕ) (out : Bytes) → digits zero n out ≡ out
unfolding digits
digits_none n out = refl

digits_last : (width n : ℕ) (out : Bytes) → n < 10 → digits (suc width) n out ≡ (b'0' + n) ∷ out
unfolding digits
digits_last width n out h = ground arith

digits_more :
    (width n : ℕ) (out : Bytes)
    → 10 ≤ n
    → digits (suc width) n out ≡ digits width (n / 10) ((b'0' + n % 10) ∷ out)
unfolding digits
digits_more width n out h = ground arith

Numeral-digit : (d : ℕ) (s : Bytes) → d < 10 → Numeral ((b'0' + d) ∷ s)
Numeral-digit d s h = record { first = b'0' + d; rest = s; same = refl; digit = ground arith }

digits-Numeral : (width n : ℕ) (out : Bytes) → Numeral out → Numeral (digits width n out)
unfolding digits
digits-Numeral zero n out h = h
digits-Numeral (suc width) n out h = elim (le-cases 10 n) [
  | inl big ↦ subst Numeral (sym (digits_more width n out big)) (
      digits-Numeral width (n / 10) ((b'0' + n % 10) ∷ out)
        (Numeral-digit (n % 10) out (omega arith)))
  | inr small ↦ subst Numeral (sym (digits_last width n out small)) (Numeral-digit n out small)
]

print-Numeral : (width n : ℕ) → Numeral (digits (suc width) n [])
print-Numeral width n = elim (le-cases 10 n) [
  | inl big ↦ subst Numeral (sym (digits_more width n [] big)) (
      digits-Numeral width (n / 10) ((b'0' + n % 10) ∷ [])
        (Numeral-digit (n % 10) [] (omega arith)))
  | inr small ↦ subst Numeral (sym (digits_last width n [] small)) (Numeral-digit n [] small)
]

read_next :
    (d : ℕ) (s : Bytes) (n : ℕ)
    → d < 10
    → read_digits ((b'0' + d) ∷ s) n ≡ read_digits s (n * 10 + d)
unfolding read_digits
read_next d s n h =
    let digit : is_digit (b'0' + d) ≡ true = ground arith in
    let back : n * 10 + (b'0' + d - b'0') ≡ n * 10 + d = omega arith in rw (digit, back) refl

read-digits :
    (width n : ℕ) (out : Bytes)
    → n < limit width
    → read_digits (digits width n out) 0 ≡ read_digits out n
read-digits zero n out h =
    let none_left : n ≡ 0 = omega arith in
    ap (λ s. read_digits s 0) (digits_none n out) ∙ ap (read_digits out) (sym none_left)
read-digits (suc width) n out h = elim (le-cases 10 n) [
  | inl big ↦
      let whole : n / 10 * 10 + n % 10 ≡ n = omega arith in
      ap (λ s. read_digits s 0) (digits_more width n out big)
      ∙ read-digits width (n / 10) ((b'0' + n % 10) ∷ out) (omega arith)
      ∙ read_next (n % 10) out (n / 10) (omega arith)
      ∙ ap (read_digits out) whole
  | inr small ↦
      let alone : 0 * 10 + n ≡ n = omega arith in
      ap (λ s. read_digits s 0) (digits_last width n out small)
      ∙ read_next n out 0 small
      ∙ ap (read_digits out) alone
]

magnitude-digits : (n : ℕ) → n < limit 10 → magnitude (digits 10 n []) ≡ some n
unfolding magnitude read_digits
magnitude-digits n h =
    let t = print-Numeral 9 n in
    let value : magnitude (t.first ∷ t.rest) ≡ some (read_digits (t.first ∷ t.rest) 0) =
      ground (arith, t.digit) in
    ap magnitude t.same
    ∙ value
    ∙ ap (λ s. some (read_digits s 0)) (sym t.same)
    ∙ ap some (read-digits 10 n [] h)

-- A numeral has no space and no sign before it.
sign-Numeral : (s : Bytes) → Numeral s → take_sign (skip_spaces s) ≡ (false, s)
unfolding take_sign skip_spaces
sign-Numeral s t =
    let here : take_sign (skip_spaces (t.first ∷ t.rest)) ≡ (false, t.first ∷ t.rest) =
      ground (arith, t.digit) in
    subst (λ x. take_sign (skip_spaces x) ≡ (false, x)) (sym t.same) here

sign_minus : (s : Bytes) → take_sign (skip_spaces (b'-' ∷ s)) ≡ (true, s)
unfolding take_sign skip_spaces
sign_minus s = ground arith

pub stoi-print_int : (n : ℤ) → IsInt n → stoi (print_int n) ≡ some n
unfolding stoi to_int
stoi-print_int (pos n) h =
    let sign = sign-Numeral (digits 10 n []) (print-Numeral 9 n) in
    let value = magnitude-digits n (omega arith) in rw (sign, value) (ground arith)
stoi-print_int (negsuc n) h =
    let sign = sign_minus (digits 10 (n + 1) []) in
    let value = magnitude-digits (n + 1) (omega arith) in rw (sign, value) (ground arith)
