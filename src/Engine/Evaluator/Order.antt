-- ===== src/Engine/Evaluator/Order.antt =====
-- evaluator.ts: the order of `compareHands`.
use Prim.Native.Nat.{compare, Ordering}
use porker_monorepo.Base.{List, [], arith, false, refl, true, ℕ, ◌∷◌, ◌≡◌}
use porker_monorepo.Engine.Evaluator.{HandScore, compare_hands, compare_values, is_greater, then_by}

abbrev pub flip : Ordering → Ordering
flip Ordering.lt = Ordering.gt
flip Ordering.eq = Ordering.eq
flip Ordering.gt = Ordering.lt

compare-flip : (a b : ℕ) → compare b a ≡ flip (compare a b)
compare-flip a b = ground arith

then_by-flip : (x y : Ordering) → flip (then_by x y) ≡ then_by (flip x) (flip y)
then_by-flip Ordering.lt y = refl
then_by-flip Ordering.eq y = refl
then_by-flip Ordering.gt y = refl

compare_values-flip : (as' bs : List ℕ) → compare_values bs as' ≡ flip (compare_values as' bs)
unfolding compare_values
compare_values-flip [] [] = refl
compare_values-flip [] (b ∷ bs) = ground (
  arith,
  compare-flip 0 b,
  then_by-flip (compare 0 b) (compare_values [] bs),
  compare_values-flip [] bs,
)
compare_values-flip (a ∷ as') [] = ground (
  arith,
  compare-flip a 0,
  then_by-flip (compare a 0) (compare_values as' []),
  compare_values-flip as' [],
)
compare_values-flip (a ∷ as') (b ∷ bs) = ground (
  arith,
  compare-flip a b,
  then_by-flip (compare a b) (compare_values as' bs),
  compare_values-flip as' bs,
)

-- `a` scores no more than `b`.
abbrev pub NoBetter : Ordering → Type 0
NoBetter o = is_greater o ≡ false

-- The comparison of two numbers and of what follows, chained.
then_by_trans :
    (a b c : ℕ) (x y z : Ordering)
    → (NoBetter x → NoBetter y → NoBetter z)
    → NoBetter (then_by (compare a b) x)
    → NoBetter (then_by (compare b c) y)
    → NoBetter (then_by (compare a c) z)
then_by_trans a b c x y z k h1 h2 = ground (arith, k)

compare_values_trans :
    (as' bs cs : List ℕ)
    → NoBetter (compare_values as' bs)
    → NoBetter (compare_values bs cs)
    → NoBetter (compare_values as' cs)
unfolding compare_values
compare_values_trans [] [] cs h1 h2 = h2
compare_values_trans [] (b ∷ bs) [] h1 h2 = refl
compare_values_trans [] (b ∷ bs) (c ∷ cs) h1 h2 =
    then_by_trans 0 b c _ _ _ (compare_values_trans [] bs cs) h1 h2
compare_values_trans (a ∷ as') [] [] h1 h2 = h1
compare_values_trans (a ∷ as') [] (c ∷ cs) h1 h2 =
    then_by_trans a 0 c _ _ _ (compare_values_trans as' [] cs) h1 h2
compare_values_trans (a ∷ as') (b ∷ bs) [] h1 h2 =
    then_by_trans a b 0 _ _ _ (compare_values_trans as' bs []) h1 h2
compare_values_trans (a ∷ as') (b ∷ bs) (c ∷ cs) h1 h2 =
    then_by_trans a b c _ _ _ (compare_values_trans as' bs cs) h1 h2

self_flip : (o : Ordering) → o ≡ flip o → NoBetter o
self_flip Ordering.lt h = refl
self_flip Ordering.eq h = refl
self_flip Ordering.gt h = cc

pub NoBetter-flip : (o : Ordering) → is_greater o ≡ true → NoBetter (flip o)
NoBetter-flip Ordering.lt h = cc
NoBetter-flip Ordering.eq h = refl
NoBetter-flip Ordering.gt h = refl

-- Comparing two scores the other way round swaps the sign.
pub compare_hands-flip : (a b : HandScore) → compare_hands b a ≡ flip (compare_hands a b)
unfolding compare_hands
compare_hands-flip a b = compare_values-flip a.value b.value

-- If a first score does not beat a second, nor the second a third, the first does not beat the third.
pub compare_hands_trans :
    (a b c : HandScore)
    → NoBetter (compare_hands a b)
    → NoBetter (compare_hands b c)
    → NoBetter (compare_hands a c)
unfolding compare_hands
compare_hands_trans a b c h1 h2 = compare_values_trans a.value b.value c.value h1 h2

pub compare_hands_refl : (a : HandScore) → NoBetter (compare_hands a a)
compare_hands_refl a = self_flip (compare_hands a a) (compare_hands-flip a a)
