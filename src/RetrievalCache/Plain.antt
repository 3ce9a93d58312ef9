-- ===== src/RetrievalCache/Plain.antt =====
-- A plain writing of lists of texts and numbers that has the law of `IsJson`.
use vennek.Prelude.{ℕ, ◌≡◌, refl, ap, ◌∙◌, List, [], ◌∷◌, Text, some, if◌then◌else◌, ◌==◌, Bool}
use vennek.Value.{
  Value, Elements, stop, element, array, string, number, Number, int, other, pos, negsuc,
}
use vennek.RetrievalCache.Row.{Json, value_of_ids, value_of_scores}
use vennek.RetrievalCache.Written.{IsJson}

text_codes : Text → Text → Text
text_codes [] rest = 3 ∷ 0 ∷ rest
text_codes (c ∷ s) rest = 4 ∷ c ∷ text_codes s rest

value_codes : Value → Text → Text
unfolding text_codes
value_codes (string s) rest = text_codes s rest
value_codes (number (int (pos n))) rest = 0 ∷ n ∷ rest
value_codes (number (int (negsuc n))) rest = 1 ∷ n ∷ rest
value_codes (number (other bits)) rest = 2 ∷ bits ∷ rest
value_codes _ rest = rest

list_codes : Elements → Text
unfolding value_codes
list_codes stop = []
list_codes (element v vs) = value_codes v (list_codes vs)

abbrev onto_text : ℕ → Elements → Elements
onto_text c (element (string s) vs) = element (string (c ∷ s)) vs
onto_text c vs = vs

list_from : Text → Elements
list_from (k ∷ n ∷ s) =
    let rest = list_from s in
    if k == 0
    then element (number (int (pos n))) rest
    else if k == 1
    then element (number (int (negsuc n))) rest
    else if k == 2
    then element (number (other n)) rest
    else if k == 3
    then element (string []) rest
    else onto_text n rest
list_from _ = stop

list_from-text_codes :
    (s rest : Text) → list_from (text_codes s rest) ≡ element (string s) (list_from rest)
unfolding list_from text_codes
list_from-text_codes [] rest = refl
list_from-text_codes (c ∷ s) rest = ap (onto_text c) (list_from-text_codes s rest)

list_from-ids : (ids : List Text) → list_from (list_codes (value_of_ids ids)) ≡ value_of_ids ids
unfolding list_codes value_codes value_of_ids list_from
list_from-ids [] = refl
list_from-ids (s ∷ ids) =
    list_from-text_codes s (list_codes (value_of_ids ids))
    ∙ ap (element (string s)) (list_from-ids ids)

list_from-scores :
    (ns : List Number) → list_from (list_codes (value_of_scores ns)) ≡ value_of_scores ns
unfolding list_codes value_codes value_of_scores list_from
list_from-scores [] = refl
list_from-scores (int (pos n) ∷ ns) = ap (element (number (int (pos n)))) (list_from-scores ns)
list_from-scores (int (negsuc n) ∷ ns) =
    ap (element (number (int (negsuc n)))) (list_from-scores ns)
list_from-scores (other bits ∷ ns) = ap (element (number (other bits))) (list_from-scores ns)

written : Value → Text
unfolding list_codes
written (array vs) = list_codes vs
written _ = []

unfoldable pub plain_json : Json
unfolding written list_codes value_codes text_codes list_from
plain_json = record { stringify = written; through_jsonb = λ s. some (array (list_from s)) }

pub plain_json-IsJson : (is_finite : Number → Bool) → IsJson is_finite plain_json
unfolding plain_json
plain_json-IsJson is_finite = record {
  ids = λ ids h. ap (λ vs. some (array vs)) (list_from-ids ids);
  scores = λ ns h. ap (λ vs. some (array vs)) (list_from-scores ns);
}
