-- ===== src/Unicode/WellFormed.antt =====
-- Well-formed UTF-16, read as an automaton: every high surrogate is followed by a low one, and there
-- is no other low surrogate. Where a text is between two characters it can be cut.
use vennek.Prelude.{
  ℕ, ◌≡◌, ◌≢◌, refl, sym, ◌∙◌, Bool, true, false, [], ◌∷◌, ◌++◌, Text, if◌then◌else◌, is_space,
  trim_start, trim_end, trim, arith,
}
use mathlib.Core.List.{foldl, foldl-append}
use mathlib.Core.Path.{subst}
use vennek.Prelude.Every.{All}
use vennek.Prelude.Spaces.{AllSpaces, trim_start-splits, trim_end-splits}
use vennek.Unicode.{is_high, is_low}

pub data Scan : Type 0 where
  between : Scan
  after_high : Scan
  broken : Scan

unfoldable pub scan_unit : Scan → ℕ → Scan
scan_unit between c = if is_high c then after_high else if is_low c then broken else between
scan_unit after_high c = if is_low c then between else broken
scan_unit broken c = broken

abbrev pub scan : Scan → Text → Scan
scan = foldl scan_unit

-- The text has no lone surrogate.
abbrev pub IsWellFormed : Text → Type 0
IsWellFormed s = scan between s ≡ between

abbrev pub IsPlain : ℕ → Type 0
IsPlain c = (is_high c ≡ false) × (is_low c ≡ false)

pub high_low : (c : ℕ) → is_high c ≡ true → is_low c ≡ false
unfolding is_high is_low
high_low c h = ground arith

pub space-IsPlain : (c : ℕ) → is_space c ≡ true → IsPlain c
unfolding is_space is_high is_low
space-IsPlain c h = ground arith

pub AllSpaces-AllPlain : (s : Text) → AllSpaces s → All IsPlain s
AllSpaces-AllPlain [] h = tt
AllSpaces-AllPlain (c ∷ s) h = (space-IsPlain c h.0, AllSpaces-AllPlain s h.1)

pub scan-broken : (s : Text) → scan broken s ≡ broken
unfolding scan_unit
scan-broken [] = refl
scan-broken (c ∷ s) = scan-broken s

pub scan_plain :
    (st : Scan) (c : ℕ) → IsPlain c → scan_unit st c ≡ (elim st [ between ↦ between | _ ↦ broken ])
unfolding scan_unit
scan_plain between c h = ground arith
scan_plain after_high c h = ground arith
scan_plain broken c h = refl

pub plain-IsWellFormed : (s : Text) → All IsPlain s → IsWellFormed s
plain-IsWellFormed [] h = refl
plain-IsWellFormed (c ∷ s) h = rw (scan_plain between c h.0) (plain-IsWellFormed s h.1)

pub append-IsWellFormed : (s t : Text) → IsWellFormed s → IsWellFormed t → IsWellFormed (s ++ t)
append-IsWellFormed s t hs ht = rw (foldl-append scan_unit between s t, hs) ht

-- Units that are no surrogates can be taken off either end.
pub suffix-IsWellFormed : (s t : Text) → All IsPlain s → IsWellFormed (s ++ t) → IsWellFormed t
suffix-IsWellFormed s t plain h =
    rw (foldl-append scan_unit between s t, plain-IsWellFormed s plain) at h

pub broken_not_between : broken ≢ between
broken_not_between e = cc

scan_before_plain : (st : Scan) (t : Text) → All IsPlain t → scan st t ≡ between → st ≡ between
scan_before_plain st [] plain h = h
scan_before_plain between (c ∷ t) plain h = refl
scan_before_plain after_high (c ∷ t) plain h =
    absurd (broken_not_between (rw (scan_plain after_high c plain.0, scan-broken t) at h))
scan_before_plain broken (c ∷ t) plain h =
    absurd (broken_not_between (sym (scan-broken (c ∷ t)) ∙ h))

pub prefix-IsWellFormed : (s t : Text) → All IsPlain t → IsWellFormed (s ++ t) → IsWellFormed s
prefix-IsWellFormed s t plain h =
    scan_before_plain (scan between s) t plain (sym (foldl-append scan_unit between s t) ∙ h)

pub trim_start-IsWellFormed : (s : Text) → IsWellFormed s → IsWellFormed (trim_start s)
trim_start-IsWellFormed s h =
    let (spaces, all, e) = trim_start-splits s in
    suffix-IsWellFormed spaces (trim_start s) (AllSpaces-AllPlain spaces all)
      (subst IsWellFormed (sym e) h)

pub trim_end-IsWellFormed : (s : Text) → IsWellFormed s → IsWellFormed (trim_end s)
trim_end-IsWellFormed s h =
    let (spaces, all, e) = trim_end-splits s in
    prefix-IsWellFormed (trim_end s) spaces (AllSpaces-AllPlain spaces all)
      (subst IsWellFormed (sym e) h)

pub trim-IsWellFormed : (s : Text) → IsWellFormed s → IsWellFormed (trim s)
unfolding trim
trim-IsWellFormed s h = trim_end-IsWellFormed (trim_start s) (trim_start-IsWellFormed s h)

newline-space : is_space 10 ≡ true
unfolding is_space
newline-space = refl

pub newline-IsPlain : IsPlain 10
newline-IsPlain = space-IsPlain 10 newline-space

-- A unit that is no surrogate stands between characters.
pub before_plain :
    (st : Scan) (c : ℕ) (s : Text)
    → IsPlain c
    → scan st (c ∷ s) ≡ between
    → (st ≡ between) × IsWellFormed s
before_plain between c s plain h = (refl, rw (scan_plain between c plain) at h)
before_plain after_high c s plain h =
    absurd (broken_not_between (sym (scan-broken s) ∙ (rw (scan_plain after_high c plain) at h)))
before_plain broken c s plain h = absurd (broken_not_between (sym (scan-broken (c ∷ s)) ∙ h))

pub newline-IsWellFormed : (s : Text) → IsWellFormed s → IsWellFormed (10 ∷ s)
newline-IsWellFormed s h =
    append-IsWellFormed (10 ∷ []) s (plain-IsWellFormed (10 ∷ []) (newline-IsPlain, tt)) h

pub if-IsWellFormed :
    (test : Bool) (s t : Text)
    → IsWellFormed s
    → IsWellFormed t
    → IsWellFormed (if test then s else t)
if-IsWellFormed true s t hs ht = hs
if-IsWellFormed false s t hs ht = ht
