-- ===== src/Admission/Atomicity.antt =====
-- The transaction of `enqueuePgBossJob` under failing calls: how a run with faults follows the run
-- without them.
use vennek.Prelude.{◌≡◌, refl, sym, ap, ◌∙◌, ◌⊎◌, inl, inr, Bool, false, [], arith}
use mathlib.Core.Path.{subst, subst₂}
use vennek.Admission.Session.{
  Database, Session, Result, ok, thrown, M, resume, ◌>>=◌, ◌>>◌, return, throw, call, statement,
  begin, commit, rollback, set_in_transaction,
}

Result-cases : {A : Type 0} (r : Result A) → ((a : A) × (r ≡ ok a)) ⊎ (r ≡ thrown)
Result-cases (ok a) = inl (a, refl)
Result-cases thrown = inr refl

module _ {Jobs : Type 0} where
  -- The same session, all of whose calls are fine.
  abbrev pub clear : Session Jobs → Session Jobs
  clear s = record s { faults = [] }

  -- Two ends of a run: they agree, or the first has failed and left `d` committed, or it has
  -- failed and left committed what the second has.
  abbrev pub Ends :
      {A : Type 0} → Database Jobs → Result A × Session Jobs → Result A × Session Jobs → Type 0
  Ends d p p' =
      ((p.0 ≡ p'.0) × (clear p.1 ≡ p'.1))
      ⊎ ((p.0 ≡ thrown) × (p.1.committed ≡ d))
      ⊎ ((p.0 ≡ thrown) × (p.1.committed ≡ p'.1.committed))

  -- The run with faults against the run without.
  abbrev pub Follows : {A : Type 0} → M Jobs A → Type 0
  Follows m = (s : Session Jobs) → Ends s.committed (m s) (m (clear s))

  abbrev pub Quiet : {A : Type 0} → M Jobs A → Type 0
  Quiet m = (s : Session Jobs) → (m s).1.committed ≡ s.committed

  statement-Follows : {A : Type 0} (f : Database Jobs → A × Database Jobs) → Follows (statement f)
  unfolding call
  statement-Follows f s = ground arith

  statement-Quiet : {A : Type 0} (f : Database Jobs → A × Database Jobs) → Quiet (statement f)
  unfolding call
  statement-Quiet f s = ground arith

  bind_ok :
      {A B : Type 0} (m : M Jobs A) (f : A → M Jobs B) (s : Session Jobs) (a : A)
      → (m s).0 ≡ ok a
      → (m >>= f) s ≡ f a (m s).1
  bind_ok m f s a e = rw (e, ◌>>=◌, resume)

  bind_thrown :
      {A B : Type 0} (m : M Jobs A) (f : A → M Jobs B) (s : Session Jobs)
      → (m s).0 ≡ thrown
      → (m >>= f) s ≡ (thrown, (m s).1)
  bind_thrown m f s e = rw (e, ◌>>=◌, resume)

  bind-Quiet :
      {A B : Type 0} (m : M Jobs A) (f : A → M Jobs B)
      → Quiet m
      → ((a : A) → Quiet (f a))
      → Quiet (m >>= f)
  bind-Quiet {A} m f q k s = elim (Result-cases (m s).0) [
    | inl (a, e) ↦ ap (λ p. p.1.committed) (bind_ok m f s a e) ∙ k a (m s).1 ∙ q s
    | inr e ↦ ap (λ p. p.1.committed) (bind_thrown m f s e) ∙ q s
  ]

  pub bind-Follows :
      {A B : Type 0} (m : M Jobs A) (f : A → M Jobs B)
      → Quiet m
      → Follows m
      → ((a : A) → Follows (f a))
      → Follows (m >>= f)
  bind-Follows {A} m f q fm ff s = elim (fm s) [
    | inl (er, es) ↦ elim (Result-cases (m s).0) [
      | inl (a, e) ↦
          subst₂ (Ends s.committed) (sym (bind_ok m f s a e))
            (sym (bind_ok m f (clear s) a (sym er ∙ e) ∙ ap (f a) (sym es)))
            (subst (λ d. Ends d (f a (m s).1) (f a (clear (m s).1))) (q s) (ff a (m s).1))
      | inr e ↦
          subst₂ (Ends s.committed) (sym (bind_thrown m f s e))
            (sym (bind_thrown m f (clear s) (sym er ∙ e))) (inl (refl, es))
    ]
    | inr (inl (er, es)) ↦ inr (inl (rw (bind_thrown m f s er) (refl, es)))
    | inr (inr (er, es)) ↦ inr (inl (rw (bind_thrown m f s er) (refl, es ∙ q (clear s))))
  ]

  -- What a transaction does before its COMMIT.
  pub record IsTame {A : Type 0} (m : M Jobs A) : Type 0 where
    pub quiet : Quiet m
    pub follows : Follows m

  pub bind-IsTame :
      {A B : Type 0} (m : M Jobs A) (f : A → M Jobs B)
      → IsTame m
      → ((a : A) → IsTame (f a))
      → IsTame (m >>= f)
  bind-IsTame m f t k = record {
    quiet = bind-Quiet m f t.quiet (λ a. (k a).quiet);
    follows = bind-Follows m f t.quiet t.follows (λ a. (k a).follows);
  }

  pub statement-IsTame : {A : Type 0} (f : Database Jobs → A × Database Jobs) → IsTame (statement f)
  statement-IsTame f = record { quiet = statement-Quiet f; follows = statement-Follows f }

  pub begin-IsTame : IsTame begin
  unfolding call
  begin-IsTame = record { quiet = λ s. ground arith; follows = λ s. ground arith }

  pub rollback-IsTame : IsTame rollback
  unfolding call
  rollback-IsTame = record { quiet = λ s. ground arith; follows = λ s. ground arith }

  pub return-IsTame : {A : Type 0} (a : A) → IsTame (return a)
  return-IsTame a = record { quiet = λ s. refl; follows = λ s. inl (refl, refl) }

  pub throw-IsTame : {A : Type 0} → IsTame {A = A} throw
  throw-IsTame = record { quiet = λ s. refl; follows = λ s. inl (refl, refl) }

  pub set_in_transaction-IsTame : (b : Bool) → IsTame (set_in_transaction b)
  set_in_transaction-IsTame b = record { quiet = λ s. refl; follows = λ s. inl (refl, refl) }

  -- The end of a transaction.
  pub commit-Follows :
      {A : Type 0} (a : A) → Follows (commit >> (set_in_transaction false >> return a))
  unfolding call
  commit-Follows a s = ground arith
