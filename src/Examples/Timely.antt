-- ===== src/Examples/Timely.antt =====
-- Runs of timely/timely_test.cc, on whole numbers in place of doubles.
use systemish.Timely.{
  test-InRange, Ordered, test, InRange, Timely, min_rate, Doubles, update_rate, new, max_rate,
  t_low,
}
use systemish.Base.{none, ℕ, ◌+◌, ◌-◌, ◌*◌, ◌/◌, ◌^◌, ◌≡◌, refl, ltb, leb, List, [], ◌∷◌, some}

abbrev whole : Doubles
whole = record {
  Double = ℕ;
  literal = λ n decimals. n / 10 ^ decimals;
  lt = ltb;
  le = leb;
  add = λ a b. a + b;
  sub = λ a b. a - b;
  mul = λ a b. a * b;
  div = λ a b. a / b;
  neg = λ a. 0;
}

whole-Ordered : Ordered whole
unfolding max_rate min_rate
whole-Ordered = record { max_self = refl; min_self = refl; limits = refl }

abbrev samples : List ℕ
samples = 70 ∷ 1500 ∷ 90 ∷ []

new-InRange : InRange whole (new whole).rate
unfolding new max_rate min_rate
new-InRange = (refl, refl)

test-InRange_example :
    (u : Timely whole) × (test whole samples (new whole) ≡ some u) × InRange whole u.rate
unfolding t_low
test-InRange_example =
    test-InRange whole whole-Ordered samples (new whole) new-InRange (refl, (refl, (refl, tt)))

-- A sample that is not above 50 fails the assertion.
update_rate_test : update_rate whole 50 (new whole) ≡ none
unfolding update_rate t_low
update_rate_test = refl
