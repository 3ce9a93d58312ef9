-- ===== src/AccessControl/Tests.antt =====
-- Runs of the rate limiter of apps/telegram-bot/src/accessControl.ts.
use vennek.Prelude.{
  ◌≤◌, ◌*◌, ◌≡◌, refl, true, false, List, [], ◌∷◌, none, some, Text, codes, arith, get, put,
}
use vennek.AccessControl.{Limiter, create, allow}
use vennek.AccessControl.Bounds.{Call, answers, granted, granted-le-twice_limit}

abbrev two_per_minute : Limiter
two_per_minute = record { limit = 2; window_ms = 60000; windows = [] }

abbrev alice : Text
alice = codes "42"

abbrev bob : Text
bob = codes "-7"

abbrev calls : List Call
calls = (alice, 100) ∷ (alice, 200) ∷ (bob, 300) ∷ (alice, 400) ∷ (alice, 60050) ∷ []

create_test : create 2 60000 ≡ some two_per_minute
unfolding create
create_test = refl

create_zero : create 0 60000 ≡ none
unfolding create
create_zero = refl

answers_test : answers alice two_per_minute calls ≡ true ∷ true ∷ false ∷ false ∷ []
unfolding answers allow get put
answers_test = refl

renewed_test :
    answers alice two_per_minute ((alice, 100) ∷ (alice, 60100) ∷ (alice, 50) ∷ [])
    ≡ true ∷ true ∷ true ∷ []
unfolding answers allow get put
renewed_test = refl

granted-le-twice_limit_example : granted (answers alice two_per_minute calls) ≤ 2 * 2
granted-le-twice_limit_example =
    granted-le-twice_limit alice two_per_minute 100 calls (omega arith) (omega arith)
