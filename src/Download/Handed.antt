-- ===== src/Download/Handed.antt =====
-- What the consumer of a download is given.
use mathlib.Core.List.{append-nil, append_assoc}
use mathlib.Core.Path.{subst}
use vennek.Prelude.{some_equal}
use vennek.Prelude.{
  ℕ, ◌+◌, ◌≤◌, ◌≡◌, refl, sym, ◌∙◌, inl, inr, Bool, true, false, ◌||◌, List, [], ◌∷◌, ◌++◌, Option,
  none, some, ltb, length, length-append, arith, Bool-cases, if_true, if_false,
}
use vennek.Download.Headers.{
  Response, is_refused, parse_telegram_content_length, refusal_status, max_file_bytes, mismatch,
}
use vennek.Download.Machine.{
  Consumed, Event, response, data_chunk, response_error, ended, request_error, timed_out, aborted,
  consumed, Download, start, fail, succeed, on_data, on_end, on_response, on_consumed, exceeds,
  step, run_events,
}

-- The bytes of the events before the end of the response.
unfoldable pub data_until_end : List Event → List ℕ
data_until_end [] = []
data_until_end (data_chunk c ∷ es) = c ++ data_until_end es
data_until_end (ended ∷ es) = []
data_until_end (_ ∷ es) = data_until_end es

-- After the network is done, or the promise is settled.
abbrev Closed : Download → Type 0
Closed d = (d.settled || d.network_complete) ≡ true

fail-Closed :
    (status : ℕ) (d : Download) → Closed (fail status d) × ((fail status d).handed ≡ d.handed)
unfolding fail
fail-Closed status d = ground arith

step-Closed :
    (expected : Option ℕ) (e : Event) (d : Download)
    → Closed d
    → Closed (step expected e d) × ((step expected e d).handed ≡ d.handed)
unfolding step on_response on_data on_end on_consumed succeed
step-Closed expected (response r) d s = ground arith
step-Closed expected (data_chunk c) d s = ground (arith, fail-Closed 502 d)
step-Closed expected response_error d s = ground (arith, fail-Closed 502 d)
step-Closed expected ended d s = ground (arith, fail-Closed 502 d)
step-Closed expected request_error d s = fail-Closed 502 d
step-Closed expected timed_out d s = fail-Closed 408 d
step-Closed expected aborted d s = fail-Closed 499 d
step-Closed expected (consumed c) d s = ground arith

run-Closed :
    (expected : Option ℕ) (es : List Event) (d : Download)
    → Closed d
    → (run_events expected es d).handed ≡ d.handed
unfolding run_events
run-Closed expected [] d s = refl
run-Closed expected (e ∷ es) d s =
    let (s1, h1) = step-Closed expected e d s in run-Closed expected es (step expected e d) s1 ∙ h1

-- While the response is read.
pub record Reading (d : Download) : Type 0 where
  pub unsettled : d.settled ≡ false
  pub incomplete : d.network_complete ≡ false
  pub answered : d.answered ≡ true
  pub listening : d.listening ≡ true
  pub unhanded : d.handed ≡ none
  pub bounded : length d.buffer ≤ max_file_bytes

-- What was handed over: all the bytes, of an accepted number.
abbrev pub Whole : (expected declared : Option ℕ) (all handed : List ℕ) → Type 0
Whole expected declared all handed =
    (handed ≡ all)
    × (1 ≤ length handed)
    × (length handed ≤ max_file_bytes)
    × (mismatch expected (some (length handed)) ≡ false)
    × (mismatch declared (some (length handed)) ≡ false)

none-handed : (bs : List ℕ) (o : Option (List ℕ)) → o ≡ none → ¬ (o ≡ some bs)
none-handed bs o e q = cc

failed-handed :
    (expected : Option ℕ) (status : ℕ) (es : List Event) (d : Download) (bs : List ℕ)
    → d.handed ≡ none
    → ¬ ((run_events expected es (fail status d)).handed ≡ some bs)
failed-handed expected status es d bs h q =
    let (c, k) = fail-Closed status d in cc (q, run-Closed expected es (fail status d) c, k, h)

or_true : (b : Bool) → (b || true) ≡ true
or_true true = refl
or_true false = refl

answered_lem :
    (expected : Option ℕ) (x : Response) (d : Download) → Reading d → on_response expected x d ≡ d
unfolding on_response
answered_lem expected x d r = ground (arith, r.answered)

early_lem : (c : Consumed) (d : Download) → Reading d → on_consumed c d ≡ d
unfolding on_consumed
early_lem c d r = ground (arith, r.incomplete)

module _ (expected : Option ℕ) (es : List Event) (bs : List ℕ) where
  -- Whatever a step is equal to hands over the same.
  abbrev Hands : Download → Type 0
  Hands d = (run_events expected es d).handed ≡ some bs

  open_lem : (d : Download) → Reading d → (d.settled || d.network_complete) ≡ false
  open_lem d r = ground (arith, r.unsettled, r.incomplete)

  succeed-Whole :
      (d : Download)
      → Reading d
      → mismatch d.declared (some (length d.buffer)) ≡ false
      → Hands (succeed expected d)
      → Whole expected d.declared d.buffer bs
  unfolding succeed
  succeed-Whole d r m h =
      let h1 = subst Hands (if_false _ _ (open_lem d r)) h in
      elim (Bool-cases (ltb (length d.buffer) 1 || mismatch expected (some (length d.buffer)))) [
        | inl b ↦
            absurd (failed-handed expected 502 es d bs r.unhanded (subst Hands (if_true _ _ b) h1))
        | inr b ↦
            let e = record d {
              network_complete = true;
              listening = false;
              handed = some d.buffer;
            } in
            let h2 = subst Hands (if_false _ _ b) h1 in
            let q =
              some_equal bs d.buffer (sym h2 ∙ run-Closed expected es e (or_true d.settled)) in
            rw q (refl, ground (arith, b), r.bounded, ground (arith, b), m)
      ]

  end-Whole :
      (d : Download) → Reading d → Hands (on_end expected d) → Whole expected d.declared d.buffer bs
  unfolding on_end
  end-Whole d r h = elim (Bool-cases (mismatch d.declared (some (length d.buffer)))) [
    | inl m ↦ absurd (failed-handed expected 502 es d bs r.unhanded (subst Hands (if_true _ _ m) h))
    | inr m ↦ succeed-Whole d r m (subst Hands (if_false _ _ m) h)
  ]

  -- A chunk is appended, or it is too much.
  data-kept :
      (c : List ℕ) (d : Download)
      → Reading d
      → Hands (on_data c d)
      → Hands (record d { buffer = d.buffer ++ c }) × Reading (record d { buffer = d.buffer ++ c })
  unfolding on_data
  data-kept c d r h =
      elim (Bool-cases (
        d.settled
        || ltb max_file_bytes (length d.buffer + length c)
        || exceeds d.declared (length d.buffer + length c))) [
          | inl b ↦
              absurd (failed-handed expected 502 es d bs r.unhanded (subst Hands (if_true _ _ b) h))
          | inr b ↦ (
            subst Hands (if_false _ _ b) h,
            record {
              unsettled = r.unsettled;
              incomplete = r.incomplete;
              answered = r.answered;
              listening = r.listening;
              unhanded = r.unhanded;
              bounded = ground (arith, b, length-append d.buffer c);
            },
          )
        ]

Reading-Whole :
    (expected : Option ℕ) (es : List Event) (d : Download) (bs : List ℕ)
    → Reading d
    → (run_events expected es d).handed ≡ some bs
    → Whole expected d.declared (d.buffer ++ data_until_end es) bs
unfolding run_events step data_until_end
Reading-Whole expected [] d bs r h = absurd (none-handed bs d.handed r.unhanded h)
Reading-Whole expected (response x ∷ es) d bs r h =
    Reading-Whole expected es d bs r (subst (Hands expected es bs) (answered_lem expected x d r) h)
Reading-Whole expected (data_chunk c ∷ es) d bs r h =
    let (k, t) =
      data-kept expected es bs c d r (subst (Hands expected es bs) (if_true _ _ r.listening) h) in
    subst (λ all. Whole expected d.declared all bs) (append_assoc d.buffer c (data_until_end es))
      (Reading-Whole expected es (record d { buffer = d.buffer ++ c }) bs t k)
Reading-Whole expected (response_error ∷ es) d bs r h = absurd (
    failed-handed expected 502 es d bs r.unhanded
      (subst (Hands expected es bs) (if_true _ _ r.listening) h))
Reading-Whole expected (ended ∷ es) d bs r h =
    subst (λ all. Whole expected d.declared all bs) (sym (append-nil d.buffer))
      (end-Whole expected es bs d r (subst (Hands expected es bs) (if_true _ _ r.listening) h))
Reading-Whole expected (request_error ∷ es) d bs r h =
    absurd (failed-handed expected 502 es d bs r.unhanded h)
Reading-Whole expected (timed_out ∷ es) d bs r h =
    absurd (failed-handed expected 408 es d bs r.unhanded h)
Reading-Whole expected (aborted ∷ es) d bs r h =
    absurd (failed-handed expected 499 es d bs r.unhanded h)
Reading-Whole expected (consumed c ∷ es) d bs r h =
    Reading-Whole expected es d bs r (subst (Hands expected es bs) (early_lem c d r) h)

-- After the response to a request: what the consumer is given is the bytes of all the events before
-- the end of the response, in order; they are at least 1 and at most 20971520, and as many as the
-- response declared and the caller expected, where they did.
pub run_events-handed :
    (expected : Option ℕ) (r : Response) (es : List Event) (bs : List ℕ)
    → (run_events expected (response r ∷ es) start).handed ≡ some bs
    → (is_refused expected r ≡ false)
      × Whole expected (parse_telegram_content_length r.content_length) (data_until_end es) bs
unfolding run_events step on_response
run_events-handed expected r es bs h = elim (Bool-cases (is_refused expected r)) [
  | inl b ↦ absurd (
      failed-handed expected (refusal_status r.status) es (record start { answered = true }) bs refl
        (subst (Hands expected es bs) (if_true _ _ b) h))
  | inr b ↦ (
    b,
    Reading-Whole expected es
        (record start {
          answered = true;
          listening = true;
          declared = parse_telegram_content_length r.content_length;
        })
        bs
        (record {
          unsettled = refl;
          incomplete = refl;
          answered = refl;
          listening = refl;
          unhanded = refl;
          bounded = omega arith;
        })
        (subst (Hands expected es bs) (if_false _ _ b) h),
  )
]
