-- ===== src/Envelope/Binding.antt =====
-- The owner in the associated data of a private comparison.
use vennek.Prelude.{ℕ, ◌≡◌, refl, true, [], ◌∷◌, ◌++◌, Text, arith}
use vennek.Value.Decimal.{
  decimal, is_canonical, all_digits, is_canonical-decimal, decimal_injective,
}
use vennek.Envelope.Owner.{
  Owner, is_valid_owner, private_comparison_aad, aad_prefix, colon, canonical_positive_telegram_id,
}

all_digits_of_canonical : (s : Text) → is_canonical s ≡ true → all_digits s ≡ true
unfolding is_canonical all_digits
all_digits_of_canonical [] h = refl
all_digits_of_canonical (c ∷ s) h = ground arith

-- Two texts that begin with digits up to a colon.
split_at_colon :
    (s t r r' : Text)
    → all_digits s ≡ true
    → all_digits t ≡ true
    → s ++ colon ∷ r ≡ t ++ colon ∷ r'
    → (s ≡ t) × (r ≡ r')
unfolding all_digits
split_at_colon [] [] r r' hs ht e = (refl, cc)
split_at_colon [] (b ∷ t) r r' hs ht e = ground arith
split_at_colon (a ∷ s) [] r r' hs ht e = ground arith
split_at_colon (a ∷ s) (b ∷ t) r r' hs ht e = ground (arith, split_at_colon s t r r')

tails_equal : (a : ℕ) (x y : Text) → ◌≡◌ {A = Text} (a ∷ x) (a ∷ y) → x ≡ y
tails_equal a x y e = cc

strip_prefix : (p x y : Text) → p ++ x ≡ p ++ y → x ≡ y
strip_prefix [] x y e = e
strip_prefix (a ∷ p) x y e = strip_prefix p x y (tails_equal a (p ++ x) (p ++ y) e)

digits_of_id : (s : Text) → canonical_positive_telegram_id s ≡ true → all_digits s ≡ true
unfolding canonical_positive_telegram_id
digits_of_id s h = ground (arith, all_digits_of_canonical s)

owner_parts :
    (o : Owner)
    → is_valid_owner o ≡ true
    → (all_digits (decimal o.update_id) ≡ true) × (all_digits o.telegram_user_id ≡ true)
owner_parts o h = ground (
  arith,
  digits_of_id o.telegram_user_id,
  is_canonical-decimal o.update_id,
  all_digits_of_canonical (decimal o.update_id),
)

owner_equal :
    (a b : Owner)
    → a.update_id ≡ b.update_id
    → a.telegram_user_id ≡ b.telegram_user_id
    → a.telegram_chat_id ≡ b.telegram_chat_id
    → a ≡ b
owner_equal a b p q r = ground arith

-- Two valid owners with the same associated data are one owner, so that a ciphertext bound to one
-- update, user and chat authenticates for no other.
pub private_comparison_aad_injective :
    (a b : Owner)
    → is_valid_owner a ≡ true
    → is_valid_owner b ≡ true
    → private_comparison_aad a ≡ private_comparison_aad b
    → a ≡ b
unfolding private_comparison_aad
private_comparison_aad_injective a b va vb e =
    let pa = owner_parts a va in
    let pb = owner_parts b vb in
    let (same_update, rest) =
      split_at_colon (decimal a.update_id) (decimal b.update_id) _ _ pa.0 pb.0
        (tails_equal colon _ _ (strip_prefix aad_prefix _ _ e)) in
    let (same_user, same_chat) =
      split_at_colon a.telegram_user_id b.telegram_user_id _ _ pa.1 pb.1 rest in
    owner_equal a b (decimal_injective a.update_id b.update_id same_update) same_user same_chat
