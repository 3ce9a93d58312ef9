-- ===== src/Download/Settles.antt =====
-- The promise of a download and its buffer, once settled.
use vennek.Prelude.{
  ℕ, ◌≡◌, refl, ap, sym, ◌∙◌, ◌⊎◌, inl, inr, true, false, ◌||◌, List, [], ◌∷◌, Option, length,
  replicate, length-replicate, arith, Bool-cases,
}
use vennek.Download.Headers.{Response, is_refused, refusal_status}
use vennek.Download.Machine.{
  Event, response, data_chunk, response_error, ended, request_error, timed_out, aborted, consumed,
  Download, clean_buffer, fail, succeed, on_data, on_end, on_response, on_consumed, step,
  run_events,
}

-- What no event changes once the promise is settled.
abbrev pub Same : Download → Download → Type 0
Same d e =
    (e.settled ≡ true) × (e.outcome ≡ d.outcome) × (e.buffer ≡ d.buffer) × (e.handed ≡ d.handed)

fail-settled : (status : ℕ) (d : Download) → d.settled ≡ true → fail status d ≡ d
unfolding fail
fail-settled status d s = ground arith

succeed-settled : (expected : Option ℕ) (d : Download) → d.settled ≡ true → succeed expected d ≡ d
unfolding succeed
succeed-settled expected d s = ground arith

step-Same :
    (expected : Option ℕ) (e : Event) (d : Download) → d.settled ≡ true → Same d (step expected e d)
unfolding step on_response on_data on_end on_consumed
step-Same expected (response r) d s = ground arith
step-Same expected (data_chunk c) d s = ground (arith, fail-settled 502 d s)
step-Same expected response_error d s = ground (arith, fail-settled 502 d s)
step-Same expected ended d s = ground (arith, fail-settled 502 d s, succeed-settled expected d s)
step-Same expected request_error d s = ground (arith, fail-settled 502 d s)
step-Same expected timed_out d s = ground (arith, fail-settled 408 d s)
step-Same expected aborted d s = ground (arith, fail-settled 499 d s)
step-Same expected (consumed c) d s = ground arith

-- A settled download stays as it is: whatever events follow, the outcome, the buffer and what was
-- handed to the consumer do not change.
pub run_events-Same :
    (expected : Option ℕ) (es : List Event) (d : Download)
    → d.settled ≡ true
    → Same d (run_events expected es d)
unfolding run_events
run_events-Same expected [] d s = (s, refl, refl, refl)
run_events-Same expected (e ∷ es) d s =
    let (s1, o1, b1, h1) = step-Same expected e d s in
    let (s2, o2, b2, h2) = run_events-Same expected es (step expected e d) s1 in
    (s2, o2 ∙ o1, b2 ∙ b1, h2 ∙ h1)

-- The buffer is zero if the promise is settled.
abbrev pub Wiped : Download → Type 0
Wiped d = (d.settled ≡ false) ⊎ (d.buffer ≡ clean_buffer d.buffer)

clean-clean : (bs : List ℕ) → clean_buffer bs ≡ clean_buffer (clean_buffer bs)
clean-clean bs = ap (λ n. replicate n 0) (sym (length-replicate (length bs) 0))

fail-Wiped : (status : ℕ) (d : Download) → Wiped d → Wiped (fail status d)
unfolding fail
fail-Wiped status d w = ground (arith, clean-clean d.buffer)

succeed-Wiped : (expected : Option ℕ) (d : Download) → Wiped d → Wiped (succeed expected d)
unfolding succeed
succeed-Wiped expected d w = ground (arith, fail-Wiped 502 d w)

on_response-Wiped :
    (expected : Option ℕ) (r : Response) (d : Download) → Wiped d → Wiped (on_response expected r d)
unfolding on_response
on_response-Wiped expected r d w =
    elim (Bool-cases (d.answered || (d.settled || d.network_complete))) [
      | inl a ↦ rw a w
      | inr a ↦ rw a (elim (Bool-cases (is_refused expected r)) [
        | inl b ↦ rw b (fail-Wiped (refusal_status r.status) (record d { answered = true }) w)
        | inr b ↦ rw b w
      ])
    ]

step-Wiped : (expected : Option ℕ) (e : Event) (d : Download) → Wiped d → Wiped (step expected e d)
unfolding step on_data on_end on_consumed
step-Wiped expected (response r) d w = on_response-Wiped expected r d w
step-Wiped expected (data_chunk c) d w = ground (arith, fail-Wiped 502 d w)
step-Wiped expected response_error d w = ground (arith, fail-Wiped 502 d w)
step-Wiped expected ended d w = ground (arith, fail-Wiped 502 d w, succeed-Wiped expected d w)
step-Wiped expected request_error d w = fail-Wiped 502 d w
step-Wiped expected timed_out d w = fail-Wiped 408 d w
step-Wiped expected aborted d w = fail-Wiped 499 d w
step-Wiped expected (consumed c) d w = ground (arith, clean-clean d.buffer)

-- At every moment of a download that starts from an unsettled state or a zero buffer: if the promise
-- is settled, every byte of the buffer is zero.
pub run_events-Wiped :
    (expected : Option ℕ) (es : List Event) (d : Download)
    → Wiped d
    → Wiped (run_events expected es d)
unfolding run_events
run_events-Wiped expected [] d w = w
run_events-Wiped expected (e ∷ es) d w =
    run_events-Wiped expected es (step expected e d) (step-Wiped expected e d w)
