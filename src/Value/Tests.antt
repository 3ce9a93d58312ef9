-- ===== src/Value/Tests.antt =====
-- Numbers printed and read.
use vennek.Prelude.{◌≡◌, refl, codes}
use vennek.Value.Decimal.{decimal, value_of, value_from}

decimal_test : decimal 9007199254740991 ≡ codes "9007199254740991"
unfolding decimal
decimal_test = refl

value_test : value_of (codes "1207") ≡ 1207
unfolding value_from
value_test = refl
