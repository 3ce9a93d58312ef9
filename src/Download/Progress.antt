-- ===== src/Download/Progress.antt =====
-- A download whose bytes are what was declared, up to the end of the consumer.
use mathlib.Core.List.{append-nil, append_assoc}
use vennek.Prelude.{
  ℕ, ◌+◌, ◌≤◌, ◌≡◌, refl, ap, sym, ◌∙◌, true, false, ◌||◌, List, [], ◌∷◌, ◌++◌, Option, none, some,
  ltb, length, length-append, arith, if_true, if_false,
}
use vennek.Download.Headers.{
  Response, is_refused, parse_telegram_content_length, max_file_bytes, mismatch,
}
use vennek.Download.Machine.{
  Consumed, Event, response, data_chunk, ended, consumed, Download, start, settle, succeed, on_data,
  on_end, on_response, outcome_of, on_consumed, exceeds, step, run_events,
}
use vennek.Download.Settles.{run_events-Same}

abbrev pub joined : List (List ℕ) → List ℕ
joined [] = []
joined (c ∷ cs) = c ++ joined cs

-- The events of the chunks, then others.
abbrev pub after_chunks : List (List ℕ) → List Event → List Event
after_chunks [] es = es
after_chunks (c ∷ cs) es = data_chunk c ∷ after_chunks cs es

abbrev Fits : (declared : Option ℕ) (total : ℕ) → Type 0
Fits declared total = (total ≤ max_file_bytes) × (exceeds declared total ≡ false)

Fits-less : (declared : Option ℕ) (m n : ℕ) → m ≤ n → Fits declared n → Fits declared m
Fits-less none m n l (b, e) = (omega arith, refl)
Fits-less (some k) m n l (b, e) = (omega arith, ground arith)

append_data :
    (c : List ℕ) (d : Download)
    → d.settled ≡ false
    → Fits d.declared (length d.buffer + length c)
    → on_data c d ≡ record d { buffer = d.buffer ++ c }
unfolding on_data
append_data c d s (b, e) =
    if_false
      {b = d.settled
        || ltb max_file_bytes (length d.buffer + length c)
        || exceeds d.declared (length d.buffer + length c)}
      _ _ (ground (arith, s, b, e))

read_chunks :
    (expected : Option ℕ) (cs : List (List ℕ)) (es : List Event) (d : Download)
    → d.settled ≡ false
    → d.listening ≡ true
    → Fits d.declared (length d.buffer + length (joined cs))
    → run_events expected (after_chunks cs es) d
      ≡ run_events expected es (record d { buffer = d.buffer ++ joined cs })
unfolding run_events step
read_chunks expected [] es d s l f =
    ap (λ b. run_events expected es (record d { buffer = b })) (sym (append-nil d.buffer))
read_chunks expected (c ∷ cs) es d s l f =
    let e = record d { buffer = d.buffer ++ c } in
    let total = length-append c (joined cs) in
    let size = length-append d.buffer c in
    ap (run_events expected (after_chunks cs es))
      (if_true _ _ l ∙ append_data c d s (Fits-less d.declared _ _ (omega (arith, total)) f))
    ∙ read_chunks expected cs es e s l (Fits-less d.declared _ _ (omega (arith, total, size)) f)
    ∙ ap (λ b. run_events expected es (record d { buffer = b }))
        (append_assoc d.buffer c (joined cs))

exact-Fits :
    (declared : Option ℕ) (n : ℕ)
    → n ≤ max_file_bytes
    → mismatch declared (some n) ≡ false
    → Fits declared n
exact-Fits none n h m = (h, refl)
exact-Fits (some k) n h m = (h, ground arith)

-- The state of an accepted response with bytes read, and that with the bytes handed over.
abbrev opened : (declared : Option ℕ) (bytes : List ℕ) → Download
opened declared bytes = record start {
  answered = true;
  listening = true;
  declared = declared;
  buffer = bytes;
}

abbrev handing : (declared : Option ℕ) (bytes : List ℕ) → Download
handing declared bytes = record (opened declared bytes) {
  network_complete = true;
  listening = false;
  handed = some bytes;
}

end-handing :
    (expected declared : Option ℕ) (bytes : List ℕ)
    → 1 ≤ length bytes
    → mismatch expected (some (length bytes)) ≡ false
    → mismatch declared (some (length bytes)) ≡ false
    → on_end expected (opened declared bytes) ≡ handing declared bytes
unfolding on_end succeed
end-handing expected declared bytes low me md =
    if_false _ _ md
    ∙ if_false {b = ltb (length bytes) 1 || mismatch expected (some (length bytes))} _ _
        (ground (arith, low, me))

-- A response that is accepted, whose chunks together have at least 1 and at most 20971520 bytes, as
-- many as were declared and expected, and the consumer's end: the consumer is given all the bytes,
-- and the promise ends as the consumer did, whatever events come after.
pub run_events-resolves :
    (expected : Option ℕ) (r : Response) (cs : List (List ℕ)) (c : Consumed) (es : List Event)
    → is_refused expected r ≡ false
    → 1 ≤ length (joined cs)
    → length (joined cs) ≤ max_file_bytes
    → mismatch expected (some (length (joined cs))) ≡ false
    → mismatch (parse_telegram_content_length r.content_length) (some (length (joined cs))) ≡ false
    → let d = run_events expected (response r ∷ after_chunks cs (ended ∷ consumed c ∷ es)) start in
      (d.outcome ≡ some (outcome_of c)) × (d.handed ≡ some (joined cs))
unfolding run_events step on_response on_consumed
run_events-resolves expected r cs c es ok low high me md =
    let declared = parse_telegram_content_length r.content_length in
    let rest = ended ∷ consumed c ∷ es in
    let done = settle (outcome_of c) (handing declared (joined cs)) in
    let path =
      ap (run_events expected (after_chunks cs rest)) (if_false _ _ ok)
      ∙ read_chunks expected cs rest (opened declared []) refl refl
          (Fits-less declared _ _ (omega arith) (exact-Fits declared (length (joined cs)) high md))
      ∙ ap (λ d. run_events expected es (on_consumed c d))
          (end-handing expected declared (joined cs) low me md) in
    let (_, o, _, h) = run_events-Same expected es done refl in
    (ap (λ d. d.outcome) path ∙ o, ap (λ d. d.handed) path ∙ h)
