-- ===== src/Answer/Links.antt =====
-- groundedPrompt.ts, the patterns that the text of a claim may not match. A text matches where some
-- position does, so each pattern is a test at a position and a walk that knows the unit before it.
-- With the flags `iu`, `[a-z]` has the long s and the Kelvin sign too.
use vennek.Prelude.{
  ℕ, zero, suc, Bool, false, not, ◌&&◌, ◌||◌, [], ◌∷◌, Text, leb, ◌==◌, if◌then◌else◌, is_space,
  drop,
}

unfoldable pub is_letter : ℕ → Bool
is_letter c = (leb b'a' c && leb c b'z') || (leb b'A' c && leb c b'Z') || c == 0x17f || c == 0x212a

unfoldable pub is_digit : ℕ → Bool
is_digit c = leb b'0' c && leb c b'9'

-- `\w`, for `\b`.
unfoldable pub is_word : ℕ → Bool
unfolding is_letter is_digit
is_word c = is_letter c || is_digit c || c == b'_'

unfoldable pub run_while : (ℕ → Bool) → Text → ℕ
run_while test [] = 0
run_while test (c ∷ s) = if test c then suc (run_while test s) else 0

unfoldable pub head_is : (ℕ → Bool) → Text → Bool
head_is test [] = false
head_is test (c ∷ s) = test c

unfoldable pub is_scheme_unit : ℕ → Bool
unfolding is_letter is_digit
is_scheme_unit c = is_letter c || is_digit c || c == b'+' || c == b'.' || c == b'-'

unfoldable pub is_solid : ℕ → Bool
unfolding is_space
is_solid c = not (is_space c)

-- `(?:\/\/[^\s]+|[^\s/][^\s]*)`
unfoldable pub after_colon : Text → Bool
unfolding is_solid head_is
after_colon [] = false
after_colon (c ∷ s) =
    (c == b'/' && head_is (λ d. d == b'/') s && head_is is_solid (drop 1 s))
    || (is_solid c && not (c == b'/'))

-- `[a-z\d+.-]{1,31}:` and what follows; no unit of the class is a colon.
unfoldable pub scheme_rest : Text → Bool
unfolding run_while is_scheme_unit head_is after_colon
scheme_rest s =
    let run = run_while is_scheme_unit s in
    leb 1 run
    && leb run 31
    && head_is (λ c. c == b':') (drop run s)
    && after_colon (drop 1 (drop run s))

-- CLAIM_URI_PATTERN at a position; `inside` says that the unit before it is of a word.
unfoldable pub uri_at : (inside : Bool) → Text → Bool
unfolding is_letter scheme_rest
uri_at inside [] = false
uri_at inside (c ∷ s) = not inside && is_letter c && scheme_rest s

unfoldable pub is_label_unit : ℕ → Bool
unfolding is_letter is_digit
is_label_unit c = is_letter c || is_digit c || c == b'-'

unfoldable pub is_alphanumeric : ℕ → Bool
unfolding is_letter is_digit
is_alphanumeric c = is_letter c || is_digit c

unfoldable pub last_of : ℕ → Text → Bool
unfolding is_alphanumeric
last_of zero s = false
last_of (suc n) [] = false
last_of (suc zero) (c ∷ s) = is_alphanumeric c
last_of (suc (suc n)) (c ∷ s) = last_of (suc n) s

-- `(?:[a-z]{2,63})(?:[/?#][^\s]*)?\b`: whatever follows, the boundary is behind the letters, and
-- the path and what it takes can be left out.
unfoldable pub top_level : Text → Bool
unfolding run_while is_letter is_word head_is
top_level s =
    let run = run_while is_letter s in leb 2 run && leb run 63 && not (head_is is_word (drop run s))

-- CLAIM_DOMAIN_PATTERN at a position. A domain behind `www.` matches without that too.
unfoldable pub domain_at : (inside : Bool) → Text → Bool
unfolding head_is is_alphanumeric run_while is_label_unit last_of top_level
domain_at inside s =
    let run = run_while is_label_unit s in
    not inside
    && head_is is_alphanumeric s
    && leb run 63
    && last_of run s
    && head_is (λ c. c == b'.') (drop run s)
    && top_level (drop 1 (drop run s))

-- CLAIM_CITATION_PATTERN at a position.
unfoldable pub after_bracket : Text → Bool
unfolding run_while is_digit head_is
after_bracket s =
    let run = run_while is_digit s in
    leb 1 run && leb run 3 && head_is (λ c. c == b']') (drop run s)

unfoldable pub without_e : Text → Text
without_e [] = []
without_e (c ∷ s) = if c == b'e' || c == b'E' then s else c ∷ s

unfoldable pub citation_at : (inside : Bool) → Text → Bool
unfolding after_bracket without_e
citation_at inside [] = false
citation_at inside (c ∷ s) = c == b'[' && after_bracket (without_e s)

-- `pattern.test(text)`.
unfoldable pub matches_from : (Bool → Text → Bool) → Bool → Text → Bool
unfolding is_word
matches_from pattern_at inside [] = pattern_at inside []
matches_from pattern_at inside (c ∷ s) =
    pattern_at inside (c ∷ s) || matches_from pattern_at (is_word c) s

-- The three patterns that a claim is refused for.
unfoldable pub has_link_or_marker : Text → Bool
unfolding matches_from uri_at domain_at citation_at
has_link_or_marker s =
    matches_from uri_at false s
    || matches_from domain_at false s
    || matches_from citation_at false s
