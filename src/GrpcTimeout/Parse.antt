-- ===== src/GrpcTimeout/Parse.antt =====
-- src/middleware/grpc_timeout.rs, `try_parse_grpc_timeout`. Products of `u64` are written modulo
-- 2^64. A result is `panic` where `split_at` would panic.
pub mod Digits
pub mod Grammar
pub mod Accepts
pub mod Print
use Prim.Native.String.{String}
use sui_http.Prelude.{
  ℕ, ◌-◌, ◌*◌, ◌%◌, ◌^◌, Bool, Option, none, some, List, [], ◌∷◌, Result, ok, err, Run, done, panic,
  Duration, from_nanos, from_micros, from_millis, from_secs, Bytes, codes, split_at, parse_u64, ltb,
  ◌==◌, if◌then◌else◌, length, is_empty,
}
use sui_http.Prelude.Http.{Http}

abbrev pub grpc_timeout_header : String
grpc_timeout_header = "grpc-timeout"

abbrev pub seconds_in_hour : ℕ
seconds_in_hour = 60 * 60

abbrev pub seconds_in_minute : ℕ
seconds_in_minute = 60

abbrev pub mul_u64 : ℕ → ℕ → ℕ
mul_u64 a b = (a * b) % 2 ^ 64

-- The `match timeout_unit`.
unfoldable pub unit_duration : Bytes → ℕ → Option Duration
unit_duration (u ∷ []) n =
    if u == b'H'
    then some (from_secs (mul_u64 n seconds_in_hour))
    else if u == b'M'
    then some (from_secs (mul_u64 n seconds_in_minute))
    else if u == b'S'
    then some (from_secs n)
    else if u == b'm'
    then some (from_millis n)
    else if u == b'u'
    then some (from_micros n)
    else if u == b'n'
    then some (from_nanos n)
    else none
unit_duration _ n = none

abbrev pub Parsed : Type 0
Parsed = Result (Option Duration) Bytes

abbrev pub ok_or : Option Duration → Bytes → Parsed
ok_or none val = err val
ok_or (some d) val = ok (some d)

-- What follows the split: the cap on the digits, `parse`, and the unit.
unfoldable pub parse_parts : Bytes → Bytes → Bytes → Parsed
parse_parts val timeout_value timeout_unit =
    if ltb 8 (length timeout_value) then err val else elim (parse_u64 timeout_value) [
      | none ↦ err val
      | some n ↦ ok_or (unit_duration timeout_unit n) val
    ]

unfoldable pub parse_text : Bytes → Bytes → Run Parsed
parse_text val s = if is_empty s then done (err val) else elim (split_at s (length val - 1)) [
  | none ↦ panic
  | some (timeout_value, timeout_unit) ↦ done (parse_parts val timeout_value timeout_unit)
]

module _ (http : Http) where
  unfoldable pub parse_value : Bytes → Run Parsed
  parse_value val = elim (http.to_str val) [ none ↦ done (err val) | some s ↦ parse_text val s ]

  unfoldable pub try_parse_grpc_timeout : http.HeaderMap → Run Parsed
  try_parse_grpc_timeout headers = elim (http.get headers grpc_timeout_header) [
    | none ↦ done (ok none)
    | some val ↦ parse_value val
  ]
