-- ===== src/GrpcTimeout/Parse/Grammar.antt =====
-- The values of `grpc-timeout` that the parser accepts, described without the parser.
use mathlib.Core.Option
use sui_http.Prelude.{
  ◌==◌, if◌then◌else◌, ℕ, ◌*◌, ◌≤◌, ◌<◌, ◌≡◌, ◌≢◌, refl, sym, ap, ◌∙◌, inl, inr, Option, none, some,
  [], ◌∷◌, ◌++◌, ok, Duration, Bytes, parse_u64, length, length-append, All, arith, Option-cases,
}
use sui_http.GrpcTimeout.Parse.Digits.{
  IsDigit, value, value-lt_pow, IsSign, IsNumeral, parse_u64_sound, parse_u64_complete,
}
use sui_http.GrpcTimeout.Parse.{unit_duration, parse_parts}

-- `TimeoutUnit` of the gRPC specification.
pub data TimeUnit : Type 0 where
  hour minute second millisecond microsecond nanosecond : TimeUnit

abbrev pub symbol : TimeUnit → ℕ
symbol hour = b'H'
symbol minute = b'M'
symbol second = b'S'
symbol millisecond = b'm'
symbol microsecond = b'u'
symbol nanosecond = b'n'

abbrev pub nanos : TimeUnit → ℕ
nanos hour = 3_600_000_000_000
nanos minute = 60_000_000_000
nanos second = 1_000_000_000
nanos millisecond = 1_000_000
nanos microsecond = 1_000
nanos nanosecond = 1

-- At most eight characters, a sign among them, and a unit; the amount is exact.
pub record IsTimeout (v : Bytes) (d : Duration) : Type 0 where
  pub sign : Bytes
  pub digits : Bytes
  pub unit : TimeUnit
  pub spelled : v ≡ (sign ++ digits) ++ symbol unit ∷ []
  pub signed : IsSign sign
  pub some_digit : digits ≢ []
  pub all_digits : All IsDigit digits
  pub short : length (sign ++ digits) ≤ 8
  pub amount : d ≡ value digits * nanos unit

unit_of : ℕ → Option TimeUnit
unit_of u =
    if u == b'H'
    then some hour
    else if u == b'M'
    then some minute
    else if u == b'S'
    then some second
    else if u == b'm'
    then some millisecond
    else if u == b'u'
    then some microsecond
    else if u == b'n'
    then some nanosecond
    else none

unit_of_sound : (u : ℕ) (t : TimeUnit) → unit_of u ≡ some t → u ≡ symbol t
unfolding unit_of
unit_of_sound u t h = ground arith

unit_of-symbol : (t : TimeUnit) → unit_of (symbol t) ≡ some t
unfolding unit_of
unit_of-symbol hour = refl
unit_of-symbol _ = refl

-- Below 10^8 no product wraps, and the unit alone decides.
unit_duration_lem :
    (u n : ℕ)
    → n < 100_000_000
    → unit_duration (u ∷ []) n ≡ Option.map (λ t. n * nanos t) (unit_of u)
unfolding unit_duration unit_of
unit_duration_lem u n b = ground arith

unit_duration_sound :
    (u n : ℕ) (d : Duration)
    → n < 100_000_000
    → unit_duration (u ∷ []) n ≡ some d
    → (t : TimeUnit) × (u ≡ symbol t) × (d ≡ n * nanos t)
unit_duration_sound u n d b h =
    let (t, e, a) = (Option.map-eq-some_iff _ _).0 (sym (unit_duration_lem u n b) ∙ h) in
    (t, unit_of_sound u t e, sym a)

unit_duration_complete :
    (t : TimeUnit) (n : ℕ) → n < 100_000_000 → unit_duration (symbol t ∷ []) n ≡ some (n * nanos t)
unit_duration_complete t n b = unit_duration_lem (symbol t) n b ∙ rw (unit_of-symbol t)

parse_parts_inv :
    (val v w : Bytes) {r : Option Duration}
    → parse_parts val v w ≡ ok r
    → (length v ≤ 8)
      × (n : ℕ) × (parse_u64 v ≡ some n)
      × (d : Duration) × (unit_duration w n ≡ some d)
      × (r ≡ some d)
unfolding parse_parts
parse_parts_inv val v w h = elim (Option-cases (parse_u64 v)) [
  | inl e ↦ ground arith
  | inr (n, e) ↦ elim (Option-cases (unit_duration w n)) [
    | inl f ↦ ground arith
    | inr (d, f) ↦ (ground arith, n, e, d, f, ground arith)
  ]
]

amount_bound : {v : Bytes} {n : ℕ} (i : IsNumeral v n) → length v ≤ 8 → n < 100_000_000
amount_bound {v} {n} i l = omega (
  arith,
  i.amount,
  ap length i.spelled,
  length-append i.sign i.digits,
  value-lt_pow i.digits 8 i.all_digits,
)

-- The part of the grammar behind the split.
pub parse_parts_sound :
    (val init : Bytes) (u : ℕ) {r : Option Duration}
    → parse_parts val init (u ∷ []) ≡ ok r
    → (d : Duration) × (r ≡ some d) × IsTimeout (init ++ u ∷ []) d
parse_parts_sound val init u h =
    let (l, n, p, d, f, e) = parse_parts_inv val init (u ∷ []) h in
    let i = parse_u64_sound init p in
    let (t, s, a) = unit_duration_sound u n d (amount_bound i l) f in
    (
      d,
      e,
      record {
        sign = i.sign;
        digits = i.digits;
        unit = t;
        spelled = cc (i.spelled, s);
        signed = i.signed;
        some_digit = i.some_digit;
        all_digits = i.all_digits;
        short = rw (← i.spelled) l;
        amount = cc (a, i.amount);
      },
    )

pub parse_parts_complete :
    (val sign digits : Bytes) (t : TimeUnit)
    → IsSign sign
    → digits ≢ []
    → All IsDigit digits
    → length (sign ++ digits) ≤ 8
    → parse_parts val (sign ++ digits) (symbol t ∷ []) ≡ ok (some (value digits * nanos t))
unfolding parse_parts
parse_parts_complete val sign digits t s h d l =
    let b : value digits < 100_000_000 =
      omega (arith, length-append sign digits, value-lt_pow digits 8 d) in
    ground (
      arith,
      parse_u64_complete sign digits s h d (omega arith),
      unit_duration_complete t (value digits) b,
    )
