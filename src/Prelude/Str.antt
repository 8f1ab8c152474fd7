-- ===== src/Prelude/Str.antt =====
-- Byte strings, and what the source uses of Rust's `str`: `len`, `split_at`, `parse::<u64>`.
use Prim.Native.Nat.{ℕ, ◌+◌, ◌-◌, ◌*◌, ◌^◌}
use Prim.Native.Char.{code}
use Prim.Native.String.{String}
use mathlib.Core.Bool.{Bool, true, ◌&&◌, ◌||◌}
use mathlib.Core.Option.{Option, none, some}
use mathlib.Core.List.{List, [], ◌∷◌}
use sui_http.Prelude.Tests.{ltb, leb, ◌==◌, if◌then◌else◌}
use sui_http.Prelude.Lists.{length, take, drop}

abbrev pub Bytes : Type 0
Bytes = List ℕ

-- The bytes of an ASCII literal.
abbrev pub codes : String → Bytes
codes String.[] = []
codes (String.◌∷◌ c s) = code c ∷ codes s

-- A byte that does not continue a UTF-8 sequence: `(b as i8) >= -0x40`.
starts_char : ℕ → Bool
starts_char b = ltb b 128 || leb 192 b

boundary_before : Bytes → Bool
boundary_before [] = true
boundary_before (b ∷ s) = starts_char b

-- `str::split_at`: it panics, here `none`, past the end and inside a character.
unfoldable pub split_at : Bytes → ℕ → Option (Bytes × Bytes)
unfolding starts_char boundary_before
split_at s mid =
    if leb mid (length s) && boundary_before (drop mid s)
    then some (take mid s, drop mid s)
    else none

abbrev pub u64_max : ℕ
u64_max = 2 ^ 64 - 1

-- The digits of `u64::from_str`: each is added by checked operations.
unfoldable pub scan_u64 : Bytes → ℕ → Option ℕ
scan_u64 [] n = some n
scan_u64 (c ∷ s) n =
    let m = n * 10 + (c - b'0') in
    if leb b'0' c && leb c b'9' && leb m u64_max then scan_u64 s m else none

unfoldable pub parse_digits : Bytes → Option ℕ
unfolding scan_u64
parse_digits [] = none
parse_digits (c ∷ s) = scan_u64 (c ∷ s) 0

-- `u64::from_str`: one `+` may stand in front of the digits; there has to be a digit.
unfoldable pub parse_u64 : Bytes → Option ℕ
unfolding parse_digits
parse_u64 [] = none
parse_u64 (c ∷ s) = if c == b'+' then parse_digits s else parse_digits (c ∷ s)
