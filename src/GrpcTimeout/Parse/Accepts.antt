-- ===== src/GrpcTimeout/Parse/Accepts.antt =====
-- `try_parse_grpc_timeout` decides the grammar of `Grammar`, and never panics.
use sui_http.Prelude.{
  ℕ, ◌-◌, ◌≡◌, ◌↔◌, ◌⊎◌, refl, sym, ap, subst, ◌∙◌, inl, inr, Option, none, some, [], ◌∷◌, ◌++◌, ok,
  err, Run, done, Duration, Bytes, split_at, length, length-append, take, drop, All, All-append,
  arith, Option-cases, Bool-cases, ltb, parse_u64,
}
use sui_http.Prelude.Http.{Http, IsVisible}
use sui_http.GrpcTimeout.Parse.Digits.{IsDigit, IsSign}
use sui_http.GrpcTimeout.Parse.Grammar.{
  TimeUnit, hour, symbol, IsTimeout, parse_parts_sound, parse_parts_complete,
}
use sui_http.GrpcTimeout.Parse.{
  grpc_timeout_header, unit_duration, parse_parts, parse_text, parse_value, try_parse_grpc_timeout,
  Parsed,
}

take-append : (xs ys : Bytes) → take (length xs) (xs ++ ys) ≡ xs
take-append [] ys = refl
take-append (x ∷ xs) ys = ap (◌∷◌ x) (take-append xs ys)

drop-append : (xs ys : Bytes) → drop (length xs) (xs ++ ys) ≡ ys
drop-append [] ys = refl
drop-append (x ∷ xs) ys = drop-append xs ys

-- Splitting before an ASCII byte that stands last.
split_at_last :
    (init : Bytes) (u : ℕ)
    → IsVisible u
    → split_at (init ++ u ∷ []) (length (init ++ u ∷ []) - 1) ≡ some (init, u ∷ [])
unfolding split_at
split_at_last init u h =
    let e : length (init ++ u ∷ []) - 1 ≡ length init =
      omega (arith, length-append init (u ∷ [])) in
    rw e (
      ground
        (arith, take-append init (u ∷ []), drop-append init (u ∷ []), length-append init (u ∷ [])))

abbrev Last : Bytes → Type 0
Last s = (init : Bytes) × (u : ℕ) × (s ≡ init ++ u ∷ [])

last : (c : ℕ) (s : Bytes) → Last (c ∷ s)
last c [] = ([], c, refl)
last c (d ∷ s) = let (init, u, e) = last d s in (c ∷ init, u, ap (◌∷◌ c) e)

All-last : (init : Bytes) {u : ℕ} → All IsVisible (init ++ u ∷ []) → IsVisible u
All-last [] h = h.0
All-last (c ∷ init) h = All-last init h.1

parse_text_last :
    (init : Bytes) (u : ℕ)
    → IsVisible u
    → parse_text (init ++ u ∷ []) (init ++ u ∷ [])
      ≡ done (parse_parts (init ++ u ∷ []) init (u ∷ []))
unfolding parse_text
parse_text_last [] u h = rw (split_at_last [] u h)
parse_text_last (c ∷ init) u h = rw (split_at_last (c ∷ init) u h)

IsSign-IsVisible : {s : Bytes} → IsSign s → All IsVisible s
IsSign-IsVisible (inl e) = rw e tt
IsSign-IsVisible (inr e) = rw e (inl (omega arith, omega arith), tt)

digits-IsVisible : (s : Bytes) → All IsDigit s → All IsVisible s
digits-IsVisible [] h = tt
digits-IsVisible (c ∷ s) (h, hs) = (inl (omega arith, omega arith), digits-IsVisible s hs)

symbol-IsVisible : (t : TimeUnit) → IsVisible (symbol t)
symbol-IsVisible hour = inl (omega arith, omega arith)
symbol-IsVisible _ = inl (omega arith, omega arith)

IsTimeout-IsVisible : {v : Bytes} {d : Duration} → IsTimeout v d → All IsVisible v
IsTimeout-IsVisible i = rw i.spelled (
    All-append IsVisible (i.sign ++ i.digits) _
      (All-append IsVisible i.sign i.digits (IsSign-IsVisible i.signed)
        (digits-IsVisible i.digits i.all_digits))
      (symbol-IsVisible i.unit, tt))

-- What becomes of one header value: it is refused and handed back, or read.
abbrev pub Verdict : Bytes → Run Parsed → Type 0
Verdict v r = (r ≡ done (err v)) ⊎ ((d : Duration) × (r ≡ done (ok (some d))) × IsTimeout v d)

parse_parts-cases :
    (val v w : Bytes)
    → (parse_parts val v w ≡ err val) ⊎ ((r : Option Duration) × (parse_parts val v w ≡ ok r))
unfolding parse_parts
parse_parts-cases val v w = elim (Bool-cases (ltb 8 (length v))) [
  | inl e ↦ inl (rw e)
  | inr e ↦ elim (Option-cases (parse_u64 v)) [
    | inl f ↦ inl (rw (e, f))
    | inr (n, f) ↦ elim (Option-cases (unit_duration w n)) [
      | inl g ↦ inl (rw (e, f, g))
      | inr (d, g) ↦ inr (some d, rw (e, f, g))
    ]
  ]
]

parts-Verdict :
    (v init : Bytes) (u : ℕ) → v ≡ init ++ u ∷ [] → Verdict v (done (parse_parts v init (u ∷ [])))
parts-Verdict v init u e = elim (parse_parts-cases v init (u ∷ [])) [
  | inl f ↦ inl (ap done f)
  | inr (r, f) ↦
      let (d, g, t) = parse_parts_sound v init u f in
      inr (d, cc (f, g), subst (λ w. IsTimeout w d) (sym e) t)
]

snoc-Verdict :
    (init : Bytes) (u : ℕ)
    → All IsVisible (init ++ u ∷ [])
    → Verdict (init ++ u ∷ []) (parse_text (init ++ u ∷ []) (init ++ u ∷ []))
snoc-Verdict init u h = rw (parse_text_last init u (All-last init h)) (parts-Verdict _ init u refl)

text-Verdict : (v : Bytes) → All IsVisible v → Verdict v (parse_text v v)
unfolding parse_text
text-Verdict [] h = inl refl
text-Verdict (c ∷ v) h =
    let (init, u, e) = last c v in
    subst (λ w. Verdict w (parse_text w w)) (sym e)
      (snoc-Verdict init u (subst (All IsVisible) e h))

text_complete : (v : Bytes) (d : Duration) → IsTimeout v d → parse_text v v ≡ done (ok (some d))
text_complete v d i =
    subst (λ w. parse_text w w ≡ done (ok (some d))) (sym i.spelled)
      (parse_text_last (i.sign ++ i.digits) (symbol i.unit) (symbol-IsVisible i.unit)
        ∙ ap done (
            parse_parts_complete _ i.sign i.digits i.unit i.signed i.some_digit i.all_digits
              i.short)
        ∙ cc (i.amount))

module _ (http : Http) where
  value-Verdict : (v : Bytes) → Verdict v (parse_value http v)
  unfolding parse_value
  value-Verdict v = elim (Option-cases (http.to_str v)) [
    | inl e ↦ inl (rw (e, parse_value))
    | inr (s, e) ↦
        let (same, visible) = http.to_str_sound v s e in
        rw (e, parse_value, same) (text-Verdict v visible)
  ]

  -- `try_parse_grpc_timeout` never panics: without the header it returns `Ok(None)`, and with it
  -- either the value itself as the error, or a duration that the value denotes under the grammar.
  pub try_parse_total :
      (headers : http.HeaderMap)
      → ((http.get headers grpc_timeout_header ≡ none)
          × (try_parse_grpc_timeout http headers ≡ done (ok none)))
        ⊎ ((v : Bytes) × (http.get headers grpc_timeout_header ≡ some v)
            × Verdict v (try_parse_grpc_timeout http headers))
  unfolding try_parse_grpc_timeout
  try_parse_total headers = elim (Option-cases (http.get headers grpc_timeout_header)) [
    | inl e ↦ inl (e, rw (e, try_parse_grpc_timeout))
    | inr (v, e) ↦ inr (v, e, rw (e, try_parse_grpc_timeout) (value-Verdict v))
  ]

  value_complete :
      (v : Bytes) (d : Duration) → IsTimeout v d → parse_value http v ≡ done (ok (some d))
  unfolding parse_value
  value_complete v d i =
      rw (http.to_str_complete v (IsTimeout-IsVisible i), parse_value) (text_complete v d i)

  try_parse_complete :
      (headers : http.HeaderMap) (v : Bytes) (d : Duration)
      → http.get headers grpc_timeout_header ≡ some v
      → IsTimeout v d
      → try_parse_grpc_timeout http headers ≡ done (ok (some d))
  unfolding try_parse_grpc_timeout
  try_parse_complete headers v d e i = rw (e, try_parse_grpc_timeout) (value_complete v d i)

  -- `try_parse_grpc_timeout` returns `Ok(Some(d))` exactly when there is a `grpc-timeout` header
  -- whose value denotes `d` under the grammar `IsTimeout`.
  pub try_parse_iff :
      (headers : http.HeaderMap) (d : Duration)
      → (try_parse_grpc_timeout http headers ≡ done (ok (some d)))
        ↔ ((v : Bytes) × (http.get headers grpc_timeout_header ≡ some v) × IsTimeout v d)
  try_parse_iff headers d = (
    λ h. elim (try_parse_total headers) [
      | inl (e, f) ↦ cc
      | inr (v, e, inl f) ↦ cc
      | inr (v, e, inr (d', f, t)) ↦ let same : d' ≡ d = cc in (v, e, rw (← same) t)
    ],
    λ (v, e, t). try_parse_complete headers v d e t,
  )
