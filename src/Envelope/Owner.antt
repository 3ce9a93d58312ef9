-- ===== src/Envelope/Owner.antt =====
-- `PrivateComparisonOwner`: `exactDataRecord`, `dataFieldsRecord`, `snapshotOwner`, `validateOwner`
-- and `privateComparisonAad`.
use Prim.Native.String.{String}
use vennek.Prelude.{
  ℕ, suc, Bool, ◌&&◌, List, [], ◌∷◌, ◌++◌, Option, none, some, Text, codes, leb, ◌==◌,
  if◌then◌else◌, same,
}
use vennek.Value.{Value, Members, object, keys, read, as_text, positive_safe, max_safe_integer}
use vennek.Value.Decimal.{decimal, is_canonical, value_of}
use vennek.Metadata.Validate.{all_listed, ◌>>=◌, check}

pub record Owner : Type 0 where
  pub update_id : ℕ
  pub telegram_user_id : Text
  pub telegram_chat_id : Text

abbrev count_keys : List String → ℕ
count_keys [] = 0
count_keys (k ∷ ks) = suc (count_keys ks)

-- The members, where the keys are those of `wanted`, each once.
unfoldable pub exact_data_record : Value → List String → Option Members
unfolding all_listed
exact_data_record (object ms) wanted =
    if (count_keys (keys ms) == count_keys wanted)
      && (all_listed (keys ms) wanted && all_listed wanted (keys ms))
    then some ms
    else none
exact_data_record _ wanted = none

unfoldable pub canonical_positive_telegram_id : Text → Bool
canonical_positive_telegram_id s = is_canonical s && leb (value_of s) max_safe_integer

-- `validateOwner` of the fields of a record.
unfoldable pub snapshot_owner : Members → Option Owner
snapshot_owner ms = do
  update_id ← positive_safe (read "updateId" ms)
  user ← as_text (read "telegramUserId" ms)
  chat ← as_text (read "telegramChatId" ms)
  check
      (canonical_positive_telegram_id user
        && (canonical_positive_telegram_id chat && same user chat))
      (record { update_id = update_id; telegram_user_id = user; telegram_chat_id = chat })

abbrev pub is_valid_owner : Owner → Bool
is_valid_owner o =
    (leb 1 o.update_id && leb o.update_id max_safe_integer)
    && (canonical_positive_telegram_id o.telegram_user_id
        && (canonical_positive_telegram_id o.telegram_chat_id
            && same o.telegram_user_id o.telegram_chat_id))

abbrev pub aad_prefix : Text
aad_prefix = codes "telegram-private-compare"

abbrev pub colon : ℕ
colon = 58

-- `privateComparisonAad` of an owner that `snapshotOwner` has accepted.
unfoldable pub private_comparison_aad : Owner → Text
private_comparison_aad o =
    aad_prefix
    ++ colon ∷ (decimal o.update_id ++ colon ∷ (o.telegram_user_id ++ colon ∷ o.telegram_chat_id))
