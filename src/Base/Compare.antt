-- ===== src/Base/Compare.antt =====
-- Three-way comparators, as package cmp has them: the sign of the `int` that Go returns.
use Prim.Native.Nat.{compare}
pub use Prim.Native.Nat.{Ordering}
use Prim.Native.Nat.{ℕ}
use mathlib.Core.Path.{◌≡◌, refl}
use mathlib.Core.Logic.{◌≢◌}
use mathlib.Core.Bool.{Bool, true, false}
use mathlib.Core.List.{List, [], ◌∷◌}
use native.Mathlib.Omega.{arith}

abbrev pub flip : Ordering → Ordering
flip Ordering.lt = Ordering.gt
flip Ordering.eq = Ordering.eq
flip Ordering.gt = Ordering.lt

-- The first result, unless it is 0.
abbrev pub or_else : Ordering → Ordering → Ordering
or_else Ordering.lt o = Ordering.lt
or_else Ordering.eq o = o
or_else Ordering.gt o = Ordering.gt

-- What two comparisons in a row say of the outer pair.
abbrev pub Chain : Ordering → Ordering → Ordering → Type 0
Chain Ordering.eq o r = r ≡ o
Chain Ordering.lt Ordering.gt r = Unit
Chain Ordering.lt o r = r ≡ Ordering.lt
Chain Ordering.gt Ordering.lt r = Unit
Chain Ordering.gt o r = r ≡ Ordering.gt

-- A comparator of a total preorder.
pub record Lawful {ℓ} {A : Type ℓ} (c : A → A → Ordering) : Type ℓ where
  pub flips : (x y : A) → c y x ≡ flip (c x y)
  pub chains : (x y z : A) → Chain (c x y) (c y z) (c x z)

module _ {ℓ} {A : Type ℓ} {c : A → A → Ordering} (h : Lawful c) where
  pub compare_self : (x : A) → c x x ≡ Ordering.eq
  compare_self x = ground (arith, h.flips x x)

Chain-or_else :
    (a b d a' b' d' : Ordering)
    → Chain a b d
    → Chain a' b' d'
    → Chain (or_else a a') (or_else b b') (or_else d d')
Chain-or_else a b d a' b' d' h k = ground arith

-- Compare by one comparator and then by another.
pub or_else-Lawful {ℓ} :
    {A : Type ℓ} (c d : A → A → Ordering)
    → Lawful c
    → Lawful d
    → Lawful (λ x y. or_else (c x y) (d x y))
or_else-Lawful c d h k = record {
  flips = λ x y. ground (arith, h.flips x y, k.flips x y);
  chains = λ x y z. Chain-or_else _ _ _ _ _ _ (h.chains x y z) (k.chains x y z);
}

-- Compare the images.
pub on-Lawful {ℓ κ} :
    {A : Type ℓ} {B : Type κ} (f : A → B) (c : B → B → Ordering)
    → Lawful c
    → Lawful (λ x y. c (f x) (f y))
on-Lawful f c h = record {
  flips = λ x y. h.flips (f x) (f y);
  chains = λ x y z. h.chains (f x) (f y) (f z);
}

pub compare-Lawful : Lawful compare
compare-Lawful = record { flips = λ x y. ground arith; chains = λ x y z. ground arith }

-- `false` before `true`.
unfoldable pub compare_bool : Bool → Bool → Ordering
compare_bool false true = Ordering.lt
compare_bool true false = Ordering.gt
compare_bool _ _ = Ordering.eq

pub compare_bool-Lawful : Lawful compare_bool
unfolding compare_bool
compare_bool-Lawful = record { flips = λ x y. ground arith; chains = λ x y z. ground arith }

-- Lexicographic comparison; `short` is the answer where the left list ends first.
unfoldable pub compare_lists {ℓ} :
    {A : Type ℓ} → Ordering → (A → A → Ordering) → List A → List A → Ordering
compare_lists short c [] [] = Ordering.eq
compare_lists short c [] (y ∷ ys) = short
compare_lists short c (x ∷ xs) [] = flip short
compare_lists short c (x ∷ xs) (y ∷ ys) = or_else (c x y) (compare_lists short c xs ys)

module _ {ℓ} {A : Type ℓ} (short : Ordering) (c : A → A → Ordering) (h : Lawful c) where
  compare_lists-flips :
      (xs ys : List A) → compare_lists short c ys xs ≡ flip (compare_lists short c xs ys)
  unfolding compare_lists
  compare_lists-flips [] [] = refl
  compare_lists-flips [] (y ∷ ys) = refl
  compare_lists-flips (x ∷ xs) [] = ground arith
  compare_lists-flips (x ∷ xs) (y ∷ ys) = ground (arith, h.flips x y, compare_lists-flips xs ys)

  compare_lists-chains :
      short ≢ Ordering.eq
      → (xs ys zs : List A)
      → Chain
          (compare_lists short c xs ys)
          (compare_lists short c ys zs)
          (compare_lists short c xs zs)
  unfolding compare_lists
  compare_lists-chains s [] [] zs = refl
  compare_lists-chains s [] (y ∷ ys) [] = ground arith
  compare_lists-chains s [] (y ∷ ys) (z ∷ zs) = ground arith
  compare_lists-chains s (x ∷ xs) [] [] = ground arith
  compare_lists-chains s (x ∷ xs) [] (z ∷ zs) = ground arith
  compare_lists-chains s (x ∷ xs) (y ∷ ys) [] = ground arith
  compare_lists-chains s (x ∷ xs) (y ∷ ys) (z ∷ zs) =
      Chain-or_else _ _ _ _ _ _ (h.chains x y z) (compare_lists-chains s xs ys zs)

  pub compare_lists-Lawful : short ≢ Ordering.eq → Lawful (compare_lists short c)
  compare_lists-Lawful s = record { flips = compare_lists-flips; chains = compare_lists-chains s }

-- Lists that compare equal are equal, if their elements are so.
pub eq_of_compare_lists {ℓ} :
    {A : Type ℓ} (short : Ordering) (c : A → A → Ordering)
    → short ≢ Ordering.eq
    → ((x y : A) → c x y ≡ Ordering.eq → x ≡ y)
    → (xs ys : List A) → compare_lists short c xs ys ≡ Ordering.eq
    → xs ≡ ys
unfolding compare_lists
eq_of_compare_lists short c s h [] [] e = refl
eq_of_compare_lists short c s h [] (y ∷ ys) e = absurd (s e)
eq_of_compare_lists short c s h (x ∷ xs) [] e = ground arith
eq_of_compare_lists short c s h (x ∷ xs) (y ∷ ys) e =
    ground (arith, h x y, eq_of_compare_lists short c s h xs ys)

-- `strings.Compare`.
unfoldable pub compare_strings : List ℕ → List ℕ → Ordering
unfolding compare_lists
compare_strings = compare_lists Ordering.lt compare

pub compare_strings-Lawful : Lawful compare_strings
unfolding compare_strings
compare_strings-Lawful = compare_lists-Lawful Ordering.lt compare compare-Lawful (λ e. cc)

pub eq_of_compare_strings : (s t : List ℕ) → compare_strings s t ≡ Ordering.eq → s ≡ t
unfolding compare_strings
eq_of_compare_strings = eq_of_compare_lists Ordering.lt compare (λ e. cc) (λ x y e. ground arith)
