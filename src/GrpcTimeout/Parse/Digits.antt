-- ===== src/GrpcTimeout/Parse/Digits.antt =====
-- The decimal digits of a `u64`: what `scan_u64` accepts and how large its value is.
use mathlib.Core.List.{cons-ne-nil}
use native.Mathlib.Nat.{pow-succ', pow-le-pow_right}
use sui_http.Prelude.{
  ℕ, ◌+◌, ◌-◌, ◌*◌, ◌^◌, ◌≤◌, ◌<◌, ◌≡◌, ◌≢◌, refl, ◌∙◌, ◌⊎◌, inl, inr, some, [], ◌∷◌, ◌++◌, Bytes,
  scan_u64, parse_digits, parse_u64, u64_max, ◌==◌, Bool-cases, length, All, arith,
}

abbrev pub IsDigit : ℕ → Type 0
IsDigit c = (b'0' ≤ c) × (c ≤ b'9')

-- The number that digits spell behind `n`, with no bound.
abbrev pub value_from : ℕ → Bytes → ℕ
value_from n [] = n
value_from n (c ∷ s) = value_from (n * 10 + (c - b'0')) s

abbrev pub value : Bytes → ℕ
value s = value_from 0 s

next_digit_le : (n d p : ℕ) → d ≤ 9 → (n * 10 + d + 1) * p ≤ (n + 1) * (10 * p)
next_digit_le n d p h = grind arith

value_from-lt : (s : Bytes) (n : ℕ) → All IsDigit s → value_from n s < (n + 1) * 10 ^ length s
value_from-lt [] n h = omega arith
value_from-lt (c ∷ s) n (hc, hs) = rw (pow-succ' 10 (length s)) (
    omega (
      arith,
      value_from-lt s (n * 10 + (c - b'0')) hs,
      next_digit_le n (c - b'0') (10 ^ length s) (omega arith),
    ))

pub value-lt_pow : (s : Bytes) (k : ℕ) → All IsDigit s → length s ≤ k → value s < 10 ^ k
value-lt_pow s k h l =
    omega
      (arith, value_from-lt s 0 h, pow-le-pow_right {n = 10} (omega arith) {i = length s} {j = k} l)

le-value_from : (s : Bytes) (n : ℕ) → n ≤ value_from n s
le-value_from [] n = omega arith
le-value_from (c ∷ s) n = omega (arith, le-value_from s (n * 10 + (c - b'0')))

scan_u64_sound :
    (s : Bytes) (n r : ℕ) → scan_u64 s n ≡ some r → All IsDigit s × (r ≡ value_from n s)
unfolding scan_u64
scan_u64_sound [] n r h = ground arith
scan_u64_sound (c ∷ s) n r h = ground (arith, scan_u64_sound s (n * 10 + (c - b'0')) r)

scan_u64_complete :
    (s : Bytes) (n : ℕ)
    → All IsDigit s
    → value_from n s ≤ u64_max
    → scan_u64 s n ≡ some (value_from n s)
unfolding scan_u64
scan_u64_complete [] n h b = refl
scan_u64_complete (c ∷ s) n (hc, hs) b =
    let m = n * 10 + (c - b'0') in ground (arith, scan_u64_complete s m hs, le-value_from s m)

parse_digits_sound :
    (s : Bytes) {r : ℕ} → parse_digits s ≡ some r → (s ≢ []) × All IsDigit s × (r ≡ value s)
unfolding parse_digits
parse_digits_sound [] h = cc
parse_digits_sound (c ∷ s) {r} h =
    let (d, e) = scan_u64_sound (c ∷ s) 0 r h in (cons-ne-nil c s, d, e)

parse_digits_complete :
    (s : Bytes) → s ≢ [] → All IsDigit s → value s ≤ u64_max → parse_digits s ≡ some (value s)
unfolding parse_digits
parse_digits_complete [] h d b = absurd (h refl)
parse_digits_complete (c ∷ s) h d b = scan_u64_complete (c ∷ s) 0 d b

abbrev pub IsSign : Bytes → Type 0
IsSign s = (s ≡ []) ⊎ (s ≡ b'+' ∷ [])

-- A text that `parse_u64` accepts is an optional sign and digits.
pub record IsNumeral (s : Bytes) (n : ℕ) : Type 0 where
  pub sign : Bytes
  pub digits : Bytes
  pub spelled : s ≡ sign ++ digits
  pub signed : IsSign sign
  pub some_digit : digits ≢ []
  pub all_digits : All IsDigit digits
  pub amount : n ≡ value digits

pub parse_u64_sound : (s : Bytes) {n : ℕ} → parse_u64 s ≡ some n → IsNumeral s n
unfolding parse_u64
parse_u64_sound [] h = cc
parse_u64_sound (c ∷ s) {n} h = elim (Bool-cases (c == b'+')) [
  | inl e ↦
      let (a, d, v) = parse_digits_sound s {r = n} (ground arith) in
      record {
        sign = b'+' ∷ [];
        digits = s;
        spelled = ground arith;
        signed = inr refl;
        some_digit = a;
        all_digits = d;
        amount = v;
      }
  | inr e ↦
      let (a, d, v) = parse_digits_sound (c ∷ s) {r = n} (ground arith) in
      record {
        sign = [];
        digits = c ∷ s;
        spelled = refl;
        signed = inl refl;
        some_digit = a;
        all_digits = d;
        amount = v;
      }
]

parse_u64_digits : (s : Bytes) → All IsDigit s → parse_u64 s ≡ parse_digits s
unfolding parse_u64 parse_digits
parse_u64_digits [] h = refl
parse_u64_digits (c ∷ s) h = ground arith

pub parse_u64_complete :
    (sign digits : Bytes)
    → IsSign sign
    → digits ≢ []
    → All IsDigit digits
    → value digits ≤ u64_max
    → parse_u64 (sign ++ digits) ≡ some (value digits)
unfolding parse_u64
parse_u64_complete sign digits (inl e) h d b =
    rw e (parse_u64_digits digits d ∙ parse_digits_complete digits h d b)
parse_u64_complete sign digits (inr e) h d b = rw e (parse_digits_complete digits h d b)
