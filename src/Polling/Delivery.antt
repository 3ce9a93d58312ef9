-- ===== src/Polling/Delivery.antt =====
-- `deliverMessage`: a message is sent at most three times.
use mathlib.Core.Path.{subst}
use vennek.Prelude.{
  ℕ, zero, suc, ◌+◌, ◌≤◌, ◌<◌, ◌≡◌, refl, ap, sym, ◌∙◌, ◌≢◌, ◌↔◌, ◌⊎◌, inl, inr, Bool, true, false,
  ◌&&◌, ◌||◌, not, Option, none, some, leb, ◌==◌, if◌then◌else◌, Bool-cases, arith,
}

-- What one `sendMessage` does: it returns, or throws with the status of a `TelegramApiError`; then
-- the signal, before the sleep and after it.
pub data Attempt : Type 0 where
  sent : Attempt
  rejected : (status : Option ℕ) (aborted aborted_asleep : Bool) → Attempt

pub record Delivery : Type 0 where
  pub delivered : Bool
  pub aborted : Bool
  pub attempts : ℕ
  pub status : Option ℕ

abbrev pub max_attempts : ℕ
max_attempts = 3

unfoldable pub is_permanent : Option ℕ → Bool
is_permanent none = false
is_permanent (some status) = (leb 400 status && leb status 499) && not (status == 429)

-- What follows the attempt of a number: `next` is the rest of the loop.
unfoldable pub after_attempt : Attempt → (attempts : ℕ) → (next : Delivery) → Delivery
unfolding is_permanent
after_attempt sent attempts next = record {
  delivered = true;
  aborted = false;
  attempts = attempts;
  status = none;
}
after_attempt (rejected status aborted aborted_asleep) attempts next =
    if aborted
    then record { delivered = false; aborted = true; attempts = attempts; status = status }
    else if is_permanent status || (attempts == max_attempts)
    then record { delivered = false; aborted = false; attempts = attempts; status = status }
    else if aborted_asleep
    then record { delivered = false; aborted = true; attempts = attempts; status = status }
    else next

-- The loop, with `remaining` attempts to make.
unfoldable pub deliver_from : (send : ℕ → Attempt) (remaining attempts : ℕ) → Delivery
unfolding after_attempt
deliver_from send zero attempts = record {
  delivered = false;
  aborted = false;
  attempts = max_attempts;
  status = none;
}
deliver_from send (suc remaining) attempts =
    after_attempt (send attempts) attempts (deliver_from send remaining (attempts + 1))

unfoldable pub deliver_message : (aborted : Bool) (send : ℕ → Attempt) → Delivery
unfolding deliver_from
deliver_message aborted send =
    if aborted
    then record { delivered = false; aborted = true; attempts = 0; status = none }
    else deliver_from send max_attempts 1

-- An attempt that is worth another.
unfoldable pub is_transient : Attempt → Bool
unfolding is_permanent
is_transient sent = false
is_transient (rejected status aborted aborted_asleep) =
    not aborted && (not aborted_asleep && not (is_permanent status))

after-next :
    (a : Attempt) (k : ℕ) (next : Delivery)
    → is_transient a ≡ true
    → k ≢ max_attempts
    → after_attempt a k next ≡ next
unfolding after_attempt is_transient
after-next sent k next t l = cc
after-next (rejected status aborted asleep) k next t l = ground arith

after-stops :
    (a : Attempt) (k : ℕ) (next : Delivery)
    → is_transient a ≡ false
    → (after_attempt a k next).delivered ≡ true
    → (a ≡ sent) × ((after_attempt a k next).attempts ≡ k)
unfolding after_attempt is_transient
after-stops sent k next t d = (refl, refl)
after-stops (rejected status aborted asleep) k next t d = ground arith

after-last :
    (a : Attempt) (next : Delivery)
    → is_transient a ≡ true
    → (after_attempt a max_attempts next).delivered ≡ false
unfolding after_attempt is_transient
after-last sent next t = cc
after-last (rejected status aborted asleep) next t = ground arith

abbrev Delivers : (send : ℕ → Attempt) (first n : ℕ) → Type 0
Delivers send first n =
    (first ≤ n)
    × (n ≤ max_attempts)
    × (send n ≡ sent)
    × ((k : ℕ) → first ≤ k → k < n → is_transient (send k) ≡ true)

eq-or_lt : (a b : ℕ) → a ≤ b → (a ≡ b) ⊎ (a + 1 ≤ b)
eq-or_lt a b h = ground arith

dec_last : (k : ℕ) → (k ≡ max_attempts) ⊎ (k ≢ max_attempts)
dec_last k = ground arith

deliver_from_sound :
    (send : ℕ → Attempt) (remaining first : ℕ)
    → first + remaining ≡ suc max_attempts
    → (deliver_from send remaining first).delivered ≡ true
    → Delivers send first (deliver_from send remaining first).attempts
unfolding deliver_from
deliver_from_sound send zero first s d = cc
deliver_from_sound send (suc r) first s d =
    let next = deliver_from send r (first + 1) in
    elim (Bool-cases (is_transient (send first))) [
      | inr f ↦
          let (e, n) = after-stops (send first) first next f d in
          rw n (omega arith, omega arith, e, λ k a b. absurd (omega arith))
      | inl t ↦ elim (dec_last first) [
        | inl l ↦ absurd (cc (d, l, after-last (send first) next t))
        | inr l ↦
            let step = after-next (send first) first next t l in
            let (le, most, e, before) =
              deliver_from_sound send r (first + 1) (omega arith)
                (ap (λ x. x.delivered) (sym step) ∙ d) in
            rw step (
              omega arith,
              most,
              e,
              λ k a b. elim (eq-or_lt first k a) [ inl q ↦ rw (sym q) t | inr q ↦ before k q b ],
            )
      ]
    ]

deliver_from_complete :
    (send : ℕ → Attempt) (remaining first n : ℕ)
    → first + remaining ≡ suc max_attempts
    → Delivers send first n
    → (deliver_from send remaining first
        ≡ record { delivered = true; aborted = false; attempts = n; status = none })
unfolding deliver_from after_attempt
deliver_from_complete send zero first n s h = absurd (omega (arith, h.0, h.1))
deliver_from_complete send (suc r) first n s h =
    let next = deliver_from send r (first + 1) in
    elim (eq-or_lt first n h.0) [
      | inl q ↦ rw q rw (h.2, after_attempt) refl
      | inr q ↦
          after-next (send first) first next (h.3 first (omega arith) (omega arith))
            (λ l. absurd (omega (arith, h.1)))
          ∙ deliver_from_complete send r (first + 1) n (omega arith)
              (omega arith, h.1, h.2, λ k a b. h.3 k (omega arith) b)
    ]

-- The message is delivered exactly when the signal was not aborted before and one of the three
-- attempts is sent after attempts that all failed for a passing reason; no later one is made.
pub deliver_message-delivered_iff :
    (aborted : Bool) (send : ℕ → Attempt) (n : ℕ)
    → (((deliver_message aborted send).delivered ≡ true)
        × ((deliver_message aborted send).attempts ≡ n))
      ↔ ((aborted ≡ false)
          × (1 ≤ n)
          × (n ≤ max_attempts)
          × (send n ≡ sent)
          × ((k : ℕ) → 1 ≤ k → k < n → is_transient (send k) ≡ true))
unfolding deliver_message
deliver_message-delivered_iff true send n = (λ h. cc, λ h. cc)
deliver_message-delivered_iff false send n = (
  λ h.
      let (a, b, c, d) =
        subst (Delivers send 1) h.1 (deliver_from_sound send max_attempts 1 refl h.0) in
      (refl, a, b, c, d),
  λ h.
      let e = deliver_from_complete send max_attempts 1 n refl (h.1, h.2, h.3, h.4) in
      (ap (λ x. x.delivered) e, ap (λ x. x.attempts) e),
)
