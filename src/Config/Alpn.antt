-- ===== src/Config/Alpn.antt =====
-- The TLS protocols that src/lib.rs, `serve_with_listener`, advertises, against the builder of
-- src/config.rs that serves the connections.
use sui_http.Prelude.{
  ℕ, ◌≡◌, refl, sym, ap, ◌∙◌, Bool, true, false, not, ◌&&◌, ◌||◌, ◌==◌, Option, none, some, List,
  [], ◌∷◌, ◌++◌, Bytes, codes, if◌then◌else◌, arith,
}
use sui_http.Config.{Config}
use sui_http.Config.Builder.{
  Call, http2_only, http2_only_calls, connect_calls, option_calls, header_list_calls,
  connection_builder,
}

abbrev pub alpn_h2 : Bytes
alpn_h2 = codes "h2"

abbrev pub alpn_h1 : Bytes
alpn_h1 = codes "http/1.1"

-- What `serve_with_listener` makes of the protocols of the given TLS configuration.
unfoldable pub alpn_protocols : Config → List Bytes → List Bytes
alpn_protocols c tls = tls ++ (alpn_h2 ∷ (if c.accept_http1 then alpn_h1 ∷ [] else []))

unfoldable pub same : Bytes → Bytes → Bool
same [] [] = true
same [] (y ∷ ys) = false
same (x ∷ xs) [] = false
same (x ∷ xs) (y ∷ ys) = (x == y) && same xs ys

unfoldable pub offers : Bytes → List Bytes → Bool
offers p [] = false
offers p (q ∷ qs) = same p q || offers p qs

is_http2_only : Call → Bool
is_http2_only http2_only = true
is_http2_only _ = false

unfoldable pub pins_http2 : List Call → Bool
unfolding is_http2_only
pins_http2 [] = false
pins_http2 (c ∷ cs) = is_http2_only c || pins_http2 cs

offers-append :
    (p : Bytes) (ps qs : List Bytes) → offers p ps ≡ false → offers p (ps ++ qs) ≡ offers p qs
unfolding offers
offers-append p [] qs h = refl
offers-append p (q ∷ ps) qs h = ground (arith, offers-append p ps qs)

abbrev advertised : Bool → List Bytes
advertised accept_http1 = alpn_h2 ∷ (if accept_http1 then alpn_h1 ∷ [] else [])

offers-advertised : (b : Bool) → offers alpn_h1 (advertised b) ≡ b
unfolding offers same
offers-advertised true = refl
offers-advertised false = refl

offers-advertised_h2 : (tls : List Bytes) (b : Bool) → offers alpn_h2 (tls ++ advertised b) ≡ true
unfolding offers same
offers-advertised_h2 [] b = refl
offers-advertised_h2 (q ∷ tls) b = ground (arith, offers-advertised_h2 tls b)

not-not : (b : Bool) → not (not b) ≡ b
not-not true = refl
not-not false = refl

header_list_calls-pins : (max : Option ℕ) → pins_http2 (header_list_calls max) ≡ false
unfolding pins_http2 is_http2_only
header_list_calls-pins none = refl
header_list_calls-pins (some max) = refl

pins-append : (cs ds : List Call) → pins_http2 ds ≡ false → pins_http2 (cs ++ ds) ≡ pins_http2 cs
unfolding pins_http2
pins-append [] ds h = h
pins-append (c ∷ cs) ds h = ap (λ b. is_http2_only c || b) (pins-append cs ds h)

unless : (b : Bool) → pins_http2 (http2_only_calls b) ≡ not b
unfolding pins_http2 is_http2_only
unless true = refl
unless false = refl

connects : (b : Bool) → pins_http2 (connect_calls b) ≡ false
unfolding pins_http2 is_http2_only
connects true = refl
connects false = refl

connection_builder-pins : (c : Config) → pins_http2 (connection_builder c) ≡ not c.accept_http1
unfolding connection_builder pins_http2 is_http2_only
connection_builder-pins c =
    let headers = header_list_calls c.http2_max_header_list_size in
    pins-append (http2_only_calls c.accept_http1)
      (connect_calls c.enable_connect_protocol ++ (option_calls c ++ headers))
      (pins-append (connect_calls c.enable_connect_protocol) (option_calls c ++ headers) (
          pins-append (option_calls c) headers
            (header_list_calls-pins c.http2_max_header_list_size))
        ∙ connects c.enable_connect_protocol)
    ∙ unless c.accept_http1

-- Where the protocols of the given TLS configuration do not offer `http/1.1` already, the server
-- offers it exactly when no call of `connection_builder` pins the connections to HTTP/2; it
-- offers `h2` in any case.
pub alpn_protocols-agrees :
    (c : Config) (tls : List Bytes)
    → offers alpn_h1 tls ≡ false
    → (offers alpn_h1 (alpn_protocols c tls) ≡ not (pins_http2 (connection_builder c)))
      × (offers alpn_h2 (alpn_protocols c tls) ≡ true)
unfolding alpn_protocols
alpn_protocols-agrees c tls h = (
  offers-append alpn_h1 tls (advertised c.accept_http1) h
      ∙ offers-advertised c.accept_http1
      ∙ sym (ap not (connection_builder-pins c) ∙ not-not c.accept_http1),
  offers-advertised_h2 tls c.accept_http1,
)
