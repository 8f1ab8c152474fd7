-- ===== src/Callback/Body/Log.antt =====
-- What a handler is told, as a list of calls, against the results of the polls.
use sui_http.Prelude.{
  Option-cases, Poll-cases, sym, inl, inr, ℕ, zero, suc, ◌≡◌, refl, ap, ◌∙◌, Bool, true, false, not,
  ◌||◌, Option, none, some, List, [], ◌∷◌, ◌++◌, Result, ok, err, Poll, ready, take, is_empty,
  if◌then◌else◌, arith,
}
use sui_http.Prelude.Polls.{results, after}
use sui_http.Callback.Handler.{RequestHandler}
use sui_http.Callback.Calls.{
  Call, chunk, end_of_stream, error, chunks, ends, errors, chunks-append, ends-append,
  errors-append, tell, tell-append,
}
use sui_http.Callback.Body.{RequestBody, on_end, on_frame, observe, poll_frame}

-- A flag for "the first was seen" and the first of a list, in two steps.
first-append {ℓ} :
    {A : Type ℓ} (seen : Bool) (xs ys : List A)
    → (if seen then [] else take 1 xs) ++ (if seen || not (is_empty xs) then [] else take 1 ys)
      ≡ (if seen then [] else take 1 (xs ++ ys))
first-append true xs ys = refl
first-append false [] ys = refl
first-append false (x ∷ xs) ys = refl

abbrev pub option_list {ℓ} : {A : Type ℓ} → Option A → List A
option_list none = []
option_list (some a) = a ∷ []

-- The data, the error, and the end that one result of a poll stands for.
abbrev pub data_of :
    {Frame D E : Type 0} → (Frame → Option D) → Poll (Option (Result Frame E)) → List D
data_of data_ref (ready (some (ok f))) = option_list (data_ref f)
data_of data_ref _ = []

abbrev pub error_of : {Frame E : Type 0} → Poll (Option (Result Frame E)) → List E
error_of (ready (some (err e))) = e ∷ []
error_of _ = []

abbrev trailers_of : {D T : Type 0} → Option D → Option T → List (Option T)
trailers_of none (some t) = some t ∷ []
trailers_of _ _ = []

abbrev pub end_of :
    {Frame D T E : Type 0}
    → (Frame → Option D)
    → (Frame → Option T)
    → Poll (Option (Result Frame E))
    → List (Option T)
end_of data_ref trailers_ref (ready none) = none ∷ []
end_of data_ref trailers_ref (ready (some (ok f))) = trailers_of (data_ref f) (trailers_ref f)
end_of data_ref trailers_ref _ = []

abbrev end_log : {D T E : Type 0} → Bool → Option T → List (Call D T E)
end_log ended t = if ended then [] else end_of_stream t ∷ []

abbrev pub flat : {O A : Type 0} → (O → List A) → List O → List A
flat g [] = []
flat g (o ∷ os) = g o ++ flat g os

module _ {H B Frame D T E : Type 0} (on : RequestHandler H D T E) (data_ref : Frame → Option D)
    (trailers_ref : Frame → Option T) where
  -- One poll of a body with handler `h` and flag `ended`: the calls that it makes fit its result.
  record Told (h : H) (ended : Bool) (o : Poll (Option (Result Frame E))) (b' : RequestBody B H)
      : Type 0 where
    log : List (Call D T E)
    handler : b'.handler ≡ tell on h log
    seen : chunks log ≡ data_of data_ref o
    wrong : errors log ≡ error_of o
    finished : ends log ≡ (if ended then [] else take 1 (end_of data_ref trailers_ref o))
    flag : b'.ended ≡ (ended || not (is_empty (end_of data_ref trailers_ref o)))

  observe-Told :
      (b : RequestBody B H) (r : Option (Result Frame E))
      → Told b.handler b.ended (ready r) (observe on data_ref trailers_ref b r)
  unfolding observe on_frame on_end
  observe-Told b none = record {
    log = end_log b.ended none;
    handler = ground arith;
    seen = ground arith;
    wrong = ground arith;
    finished = ground arith;
    flag = ground arith;
  }
  observe-Told b (some (ok f)) = elim (Option-cases (data_ref f)) [
    | inr (d, h) ↦ record {
      log = chunk d ∷ [];
      handler = ground arith;
      seen = ground arith;
      wrong = refl;
      finished = ground arith;
      flag = ground arith;
    }
    | inl h ↦ elim (Option-cases (trailers_ref f)) [
      | inl k ↦ record {
        log = [];
        handler = ground arith;
        seen = ground arith;
        wrong = refl;
        finished = ground arith;
        flag = ground arith;
      }
      | inr (t, k) ↦ record {
        log = end_log b.ended (some t);
        handler = ground arith;
        seen = ground arith;
        wrong = ground arith;
        finished = ground arith;
        flag = ground arith;
      }
    ]
  ]
  observe-Told b (some (err e)) = record {
    log = error e ∷ [];
    handler = refl;
    seen = refl;
    wrong = refl;
    finished = ground arith;
    flag = ground arith;
  }

  observe-inner :
      (b : RequestBody B H) (r : Option (Result Frame E))
      → (observe on data_ref trailers_ref b r).inner ≡ b.inner
  unfolding observe on_frame on_end
  observe-inner b none = ground arith
  observe-inner b (some (ok f)) = ground arith
  observe-inner b (some (err e)) = refl

  module _ (inner_poll_frame : B → Poll (Option (Result Frame E)) × B) where
    abbrev poll : RequestBody B H → Poll (Option (Result Frame E)) × RequestBody B H
    poll = poll_frame on data_ref trailers_ref inner_poll_frame

    poll-Told : (b : RequestBody B H) → Told b.handler b.ended (poll b).0 (poll b).1
    unfolding poll_frame
    poll-Told b = elim (Poll-cases (inner_poll_frame b.inner).0) [
      | inl e ↦
          rw (e, poll_frame)
            (record {
              log = [];
              handler = refl;
              seen = refl;
              wrong = refl;
              finished = ground arith;
              flag = ground arith;
            })
      | inr (r, e) ↦
          rw (e, poll_frame) (observe-Told (record b { inner = (inner_poll_frame b.inner).1 }) r)
    ]

    -- After `n` polls: the calls that the handler has received, in their order.
    pub record Observed (n : ℕ) (b : RequestBody B H) : Type 0 where
      pub log : List (Call D T E)
      pub handler : (after poll n b).handler ≡ tell on b.handler log
      pub seen : chunks log ≡ flat (data_of data_ref) (results poll n b)
      pub wrong : errors log ≡ flat error_of (results poll n b)
      pub finished : ends log ≡ (
          if b.ended then [] else take 1 (flat (end_of data_ref trailers_ref) (results poll n b)))

    -- After any number of polls, the chunks passed to the handler are the data frames in order, the
    -- errors are the error results in order, and of the ends (a trailers frame or `None`) it is
    -- told the first alone, and none at all if the body was marked as ended before.
    pub poll-Observed : (n : ℕ) (b : RequestBody B H) → Observed n b
    poll-Observed zero b = record {
      log = [];
      handler = refl;
      seen = refl;
      wrong = refl;
      finished = ground arith;
    }
    poll-Observed (suc n) b =
        let t = poll-Told b in
        let l = poll-Observed n (poll b).1 in
        record {
          log = t.log ++ l.log;
          handler =
              l.handler
              ∙ ap (λ h. tell on h l.log) t.handler
              ∙ sym (tell-append on b.handler t.log l.log);
          seen = chunks-append t.log l.log ∙ cc (t.seen, l.seen);
          wrong = errors-append t.log l.log ∙ cc (t.wrong, l.wrong);
          finished =
              ends-append t.log l.log
              ∙ cc (t.finished, l.finished, t.flag)
              ∙ first-append b.ended _
                  (flat (end_of data_ref trailers_ref) (results poll n (poll b).1));
        }

    poll-inner :
        (b : RequestBody B H)
        → ((poll b).0 ≡ (inner_poll_frame b.inner).0)
          × ((poll b).1.inner ≡ (inner_poll_frame b.inner).1)
    unfolding poll_frame
    poll-inner b = elim (Poll-cases (inner_poll_frame b.inner).0) [
      | inl e ↦ rw (e, poll_frame) (refl, refl)
      | inr (r, e) ↦ rw (e, poll_frame) (refl, observe-inner _ r)
    ]

    -- The inner body's results pass through unchanged, and it is polled as often as the wrapper.
    pub poll_frame-forwards :
        (n : ℕ) (b : RequestBody B H)
        → (results poll n b ≡ results inner_poll_frame n b.inner)
          × ((after poll n b).inner ≡ after inner_poll_frame n b.inner)
    poll_frame-forwards zero b = (refl, refl)
    poll_frame-forwards (suc n) b =
        let (same, moved) = poll-inner b in
        let (rest, last) = poll_frame-forwards n (poll b).1 in
        (cc (same, rest, moved), last ∙ ap (after inner_poll_frame n) moved)
