-- ===== src/GrpcTimeout/Parse/Print.antt =====
-- A client's side of the header: an amount in decimal and a unit, read back by the parser.
use sui_http.Prelude.{
  ℕ, zero, suc, ◌+◌, ◌-◌, ◌*◌, ◌/◌, ◌%◌, ◌^◌, ◌≤◌, ◌<◌, ◌≡◌, ◌≢◌, refl, sym, ap, inl, some, [], ◌∷◌,
  ◌++◌, ok, done, Bytes, ltb, if◌then◌else◌, length, length-append, All, All-append, arith,
  Bool-cases, inr,
}
use sui_http.Prelude.Http.{Http}
use sui_http.GrpcTimeout.Parse.Digits.{IsDigit, value_from, value}
use sui_http.GrpcTimeout.Parse.Grammar.{TimeUnit, symbol, nanos, IsTimeout}
use sui_http.GrpcTimeout.Parse.{grpc_timeout_header, try_parse_grpc_timeout}
use sui_http.GrpcTimeout.Parse.Accepts.{try_parse_iff}

-- The decimal digits of a number of at most `k` digits.
unfoldable pub print : ℕ → ℕ → Bytes
print zero n = []
print (suc k) n = if ltb n 10 then (b'0' + n) ∷ [] else print k (n / 10) ++ ((b'0' + n % 10) ∷ [])

value_from-append :
    (s : Bytes) (n c : ℕ) → value_from n (s ++ (c ∷ [])) ≡ value_from n s * 10 + (c - b'0')
value_from-append [] n c = refl
value_from-append (d ∷ s) n c = value_from-append s (n * 10 + (d - b'0')) c

value-print : (k n : ℕ) → n < 10 ^ k → value (print k n) ≡ n
unfolding print
value-print zero n h = omega arith
value-print (suc k) n h =
    ground (arith, value-print k (n / 10), value_from-append (print k (n / 10)) 0 (b'0' + n % 10))

print-IsDigit : (k n : ℕ) → All IsDigit (print k n)
unfolding print
print-IsDigit zero n = tt
print-IsDigit (suc k) n = elim (Bool-cases (ltb n 10)) [
  | inl e ↦ rw e ((omega arith, ground arith), tt)
  | inr e ↦ rw e (
      All-append IsDigit (print k (n / 10)) _ (print-IsDigit k (n / 10))
        ((omega arith, omega arith), tt))
]

length-print-le : (k n : ℕ) → length (print k n) ≤ k
unfolding print
length-print-le zero n = omega arith
length-print-le (suc k) n =
    ground
      (arith, length-print-le k (n / 10), length-append (print k (n / 10)) ((b'0' + n % 10) ∷ []))

print-ne-nil : (k n : ℕ) → print (suc k) n ≢ []
unfolding print
print-ne-nil k n h =
    ground (arith, ap length h, length-append (print k (n / 10)) ((b'0' + n % 10) ∷ []))

-- A value that a client prints.
abbrev pub print_timeout : ℕ → TimeUnit → Bytes
print_timeout n t = print 8 n ++ (symbol t ∷ [])

print_timeout-IsTimeout :
    (n : ℕ) (t : TimeUnit) → n < 100_000_000 → IsTimeout (print_timeout n t) (n * nanos t)
print_timeout-IsTimeout n t h = record {
  sign = [];
  digits = print 8 n;
  unit = t;
  spelled = refl;
  signed = inl refl;
  some_digit = print-ne-nil 7 n;
  all_digits = print-IsDigit 8 n;
  short = length-print-le 8 n;
  amount = ap (λ (m : ℕ). m * nanos t) (sym (value-print 8 n (omega arith)));
}

-- A client that sends an amount below 10^8, in decimal and with a unit of the gRPC specification,
-- is read as it means: whatever other headers there are, the parser returns that many units.
pub try_parse-print_timeout :
    (http : Http) (headers : http.HeaderMap) (n : ℕ) (t : TimeUnit)
    → n < 100_000_000
    → try_parse_grpc_timeout http (http.insert grpc_timeout_header (print_timeout n t) headers)
      ≡ done (ok (some (n * nanos t)))
try_parse-print_timeout http headers n t h =
    (try_parse_iff http (http.insert grpc_timeout_header (print_timeout n t) headers)
        (n * nanos t)).1
      (
        print_timeout n t,
        http.get-insert grpc_timeout_header grpc_timeout_header (print_timeout n t) headers,
        print_timeout-IsTimeout n t h,
      )
