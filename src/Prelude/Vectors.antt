-- ===== src/Prelude/Vectors.antt =====
-- `std::find_if`, `std::remove_if` and the one-iterator `erase` on vectors of trivially copied
-- elements.
use Prim.Native.Nat.{ℕ, ◌+◌, ◌≤◌}
use mathlib.Core.Path.{◌≡◌, refl, ap, ◌∙◌}
use mathlib.Core.Bool.{Bool, true, false, ◌||◌}
use mathlib.Core.Option.{Option, none, some}
use mathlib.Core.List.{List, [], ◌∷◌, ◌++◌, append-nil}
use native.Mathlib.Omega.{arith}
use stationapiv.Prelude.Tests.{if◌then◌else◌}
use stationapiv.Prelude.Lists.{length, drop, drop-eq-nil}

module _ {ℓ} {A : Type ℓ} where
  -- `std::find_if(begin, end, p) != end`
  unfoldable pub any : (A → Bool) → List A → Bool
  any p [] = false
  any p (x ∷ xs) = p x || any p xs

  -- The element that `std::find_if` points to.
  unfoldable pub find : (A → Bool) → List A → Option A
  find p [] = none
  find p (x ∷ xs) = if p x then some x else find p xs

  -- The elements that `std::remove_if` moves to the front, in order.
  unfoldable pub reject : (A → Bool) → List A → List A
  reject p [] = []
  reject p (x ∷ xs) = let rest = reject p xs in if p x then rest else x ∷ rest

  unfoldable pub count : (A → Bool) → List A → ℕ
  count p [] = 0
  count p (x ∷ xs) = (if p x then 1 else 0) + count p xs

  -- `v.erase(std::remove_if(v.begin(), v.end(), p))` where the iterator is not `end()`: one
  -- element goes, and what `remove_if` left behind the kept ones stays after it.
  unfoldable pub erase_removed : (A → Bool) → List A → List A
  erase_removed p xs = reject p xs ++ drop (length (reject p xs) + 1) xs

module _ {ℓ} {A : Type ℓ} (p : A → Bool) where
  pub any-append : (xs ys : List A) → any p (xs ++ ys) ≡ (any p xs || any p ys)
  unfolding any
  any-append [] ys = refl
  any-append (x ∷ xs) ys = ground (arith, any-append xs ys)

  pub count-append : (xs ys : List A) → count p (xs ++ ys) ≡ count p xs + count p ys
  unfolding count
  count-append [] ys = omega arith
  count-append (x ∷ xs) ys = ground (arith, count-append xs ys)

  pub count_zero : (xs : List A) → any p xs ≡ false → count p xs ≡ 0
  unfolding any count
  count_zero [] h = refl
  count_zero (x ∷ xs) h = ground (arith, count_zero xs)

  pub count_pos : (xs : List A) → any p xs ≡ true → 1 ≤ count p xs
  unfolding any count
  count_pos [] h = ground arith
  count_pos (x ∷ xs) h = ground (arith, count_pos xs)

  pub length-reject : (xs : List A) → length (reject p xs) + count p xs ≡ length xs
  unfolding reject count
  length-reject [] = omega arith
  length-reject (x ∷ xs) = ground (arith, length-reject xs)

  pub any-reject_self : (xs : List A) → any p (reject p xs) ≡ false
  unfolding any reject
  any-reject_self [] = refl
  any-reject_self (x ∷ xs) = ground (arith, any-reject_self xs)

  pub any-reject : (q : A → Bool) (xs : List A) → any q (reject p xs) ≡ true → any q xs ≡ true
  unfolding any reject
  any-reject q [] h = h
  any-reject q (x ∷ xs) h = ground (arith, any-reject q xs)

  pub count-reject : (q : A → Bool) (xs : List A) → count q (reject p xs) ≤ count q xs
  unfolding count reject
  count-reject q [] = omega arith
  count-reject q (x ∷ xs) = ground (arith, count-reject q xs)

  pub reject_none : (xs : List A) → any p xs ≡ false → reject p xs ≡ xs
  unfolding any reject
  reject_none [] h = refl
  reject_none (x ∷ xs) h = ground (arith, reject_none xs)

  -- Where one element at most is hit, the erase is exact.
  pub erase_removed-eq-reject : (xs : List A) → count p xs ≤ 1 → erase_removed p xs ≡ reject p xs
  unfolding erase_removed
  erase_removed-eq-reject xs h =
      ap (λ t. reject p xs ++ t)
        (drop-eq-nil (length (reject p xs) + 1) xs (omega (arith, length-reject xs)))
      ∙ append-nil (reject p xs)
