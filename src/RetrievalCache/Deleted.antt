-- ===== src/RetrievalCache/Deleted.antt =====
-- What the deletion of a stale row spares.
use vennek.Prelude.{
  ◌≡◌, ap, sym, ◌∙◌, inl, inr, Bool, false, ◌&&◌, List, [], ◌∷◌, Option, some, Text, same, arith,
  Bool-cases, if_true, if_false,
}
use vennek.RetrievalCache.Row.{Key, Row, same_key}
use vennek.RetrievalCache.Transaction.{
  Database, Course, run_retrieval_transaction, find_row, delete_row, delete_stale_retrieval_cache,
}

old_row : (a b : Row) → some a ≡ some b → a ≡ b
old_row a b e = cc

not_both : (a b : Bool) → b ≡ false → (a && b) ≡ false
not_both a b e = ground arith

delete_row-spares :
    (k : Key) (observed : Text) (rows : List (Key × Row)) (row : Row)
    → find_row k rows ≡ some row
    → same row.fingerprint observed ≡ false
    → find_row k (delete_row k observed rows) ≡ some row
unfolding find_row delete_row
delete_row-spares k observed [] row f s = cc
delete_row-spares k observed ((j, old) ∷ rows) row f s = elim (Bool-cases (same_key j k)) [
  | inl t ↦
      let e = old_row old row (sym (if_true _ _ t) ∙ f) in
      ap (find_row k) (
        if_false {b = same_key j k && same old.fingerprint observed} _ _
          (not_both (same_key j k) _ (ap (λ x. same x.fingerprint observed) e ∙ s)))
      ∙ if_true _ _ t
      ∙ ap some e
  | inr t ↦
      ap (find_row k) (
        if_false {b = same_key j k && same old.fingerprint observed} _ _
          (ap (λ x. x && same old.fingerprint observed) t))
      ∙ if_false _ _ t
      ∙ delete_row-spares k observed rows row (sym (if_false _ _ t) ∙ f) s
]

-- Deleting what was observed to be stale spares a row that was written in the meantime under another
-- fingerprint, however the transaction goes.
pub delete_stale_retrieval_cache-spares :
    (c : Course) (k : Key) (observed : Text) (d : Database) (row : Row)
    → find_row k d.rows ≡ some row
    → same row.fingerprint observed ≡ false
    → find_row k (delete_stale_retrieval_cache c k observed d).1.rows ≡ some row
unfolding delete_stale_retrieval_cache run_retrieval_transaction
delete_stale_retrieval_cache-spares c k observed d row f s =
    elim (Bool-cases (c.begins && (c.completes && c.commits))) [
      | inl b ↦
          ap (λ (x : Option (Unit {0}) × Database). find_row k x.1.rows) (if_true _ _ b)
          ∙ delete_row-spares k observed d.rows row f s
      | inr b ↦ ap (λ (x : Option (Unit {0}) × Database). find_row k x.1.rows) (if_false _ _ b) ∙ f
    ]
