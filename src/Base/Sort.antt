-- ===== src/Base/Sort.antt =====
-- `slices.SortStableFunc`: the stable sort by a comparator, as an insertion sort.
use mathlib.Core.Path.{◌≡◌, refl, subst, ◌∙◌}
use mathlib.Core.Logic.{◌≢◌}
use mathlib.Core.List.{List, [], ◌∷◌, Permᴰ}
use native.Mathlib.Omega.{arith}
use ad_guard_dnscli.Base.Compare.{Ordering, Lawful, compare_self}
use mathlib.Core.Logic.{◌↔◌, inl, inr}
use mathlib.Core.Bool.{Bool, true, false}
use mathlib.Core.Option.{Option, none, some}
use ad_guard_dnscli.Base.Tests.{All, Bool-cases, if◌then◌else◌}

module _ {ℓ} {A : Type ℓ} where
  abbrev place : Ordering → A → A → List A → List A → List A
  place Ordering.gt x y ys rest = y ∷ rest
  place _ x y ys rest = x ∷ y ∷ ys

  unfoldable pub insert_sorted : (A → A → Ordering) → A → List A → List A
  insert_sorted c x [] = x ∷ []
  insert_sorted c x (y ∷ ys) = place (c x y) x y ys (insert_sorted c x ys)

  unfoldable pub sort : (A → A → Ordering) → List A → List A
  unfolding insert_sorted
  sort c [] = []
  sort c (x ∷ xs) = insert_sorted c x (sort c xs)

  -- No element sorts after one that follows it.
  abbrev pub IsSorted : (A → A → Ordering) → List A → Type ℓ
  IsSorted c [] = Unit
  IsSorted c (x ∷ xs) = All (λ y. c x y ≢ Ordering.gt) xs × IsSorted c xs

  -- No two elements compare equal.
  abbrev pub IsStrict : (A → A → Ordering) → List A → Type ℓ
  IsStrict c [] = Unit
  IsStrict c (x ∷ xs) = All (λ y. c x y ≢ Ordering.eq) xs × IsStrict c xs

module _ {ℓ κ} {A : Type ℓ} (P : A → Type κ) where
  All-insert_sorted :
      (c : A → A → Ordering) (x : A) (ys : List A) → P x → All P ys → All P (insert_sorted c x ys)
  unfolding insert_sorted
  All-insert_sorted c x [] p ps = (p, tt)
  All-insert_sorted c x (y ∷ ys) p (q, ps) = ground (arith, All-insert_sorted c x ys p ps)

  pub All-sort : (c : A → A → Ordering) (xs : List A) → All P xs → All P (sort c xs)
  unfolding sort
  All-sort c [] ps = tt
  All-sort c (x ∷ xs) (p, ps) = All-insert_sorted c x (sort c xs) p (All-sort c xs ps)

  All-of-insert_sorted :
      (c : A → A → Ordering) (x : A) (ys : List A) → All P (insert_sorted c x ys) → P x × All P ys
  unfolding insert_sorted
  All-of-insert_sorted c x [] (p, ps) = (p, tt)
  All-of-insert_sorted c x (y ∷ ys) h = ground (arith, All-of-insert_sorted c x ys)

  pub All-of-sort : (c : A → A → Ordering) (xs : List A) → All P (sort c xs) → All P xs
  unfolding sort
  All-of-sort c [] h = tt
  All-of-sort c (x ∷ xs) h =
      let (p, ps) = All-of-insert_sorted c x (sort c xs) h in (p, All-of-sort c xs ps)

  All-perm : {xs ys : List A} → Permᴰ xs ys → All P xs → All P ys
  All-perm Permᴰ.nil h = tt
  All-perm (Permᴰ.cons e r) (p, h) = (subst_p e p, All-perm r h)
    where
      subst_p : {a b : A} → a ≡ b → P a → P b
      subst_p e p = rw e at p
  All-perm (Permᴰ.swap e f) (p, (q, h)) = (rw f at q, (rw e at p, h))
  All-perm (Permᴰ.trans r s) h = All-perm s (All-perm r h)

module _ {ℓ} {A : Type ℓ} (c : A → A → Ordering) (h : Lawful c) where
  raise :
      (x y : A) (ys : List A)
      → c x y ≢ Ordering.gt
      → All (λ z. c y z ≢ Ordering.gt) ys
      → All (λ z. c x z ≢ Ordering.gt) ys
  raise x y [] le hs = tt
  raise x y (z ∷ zs) le (p, hs) = (ground (arith, h.chains x y z), raise x y zs le hs)

  insert_sorted-IsSorted : (x : A) (ys : List A) → IsSorted c ys → IsSorted c (insert_sorted c x ys)
  unfolding insert_sorted
  insert_sorted-IsSorted x [] s = (tt, tt)
  insert_sorted-IsSorted x (y ∷ ys) (le, s) = ground (
    arith,
    raise x y ys,
    h.flips x y,
    All-insert_sorted (λ z. c y z ≢ Ordering.gt) c x ys,
    insert_sorted-IsSorted x ys s,
  )

  pub sort-IsSorted : (xs : List A) → IsSorted c (sort c xs)
  unfolding sort
  sort-IsSorted [] = tt
  sort-IsSorted (x ∷ xs) = insert_sorted-IsSorted x (sort c xs) (sort-IsSorted xs)

  insert_sorted_comm :
      (x y : A) (l : List A)
      → c x y ≢ Ordering.eq
      → insert_sorted c x (insert_sorted c y l) ≡ insert_sorted c y (insert_sorted c x l)
  unfolding insert_sorted
  insert_sorted_comm x y [] ne = ground (arith, h.flips x y)
  insert_sorted_comm x y (z ∷ l) ne =
      ground (arith, h.flips x y, h.chains x y z, h.chains y x z, insert_sorted_comm x y l ne)

  -- The order of the input does not matter, where no two elements compare equal.
  pub sort-perm :
      {xs ys : List A} → Permᴰ xs ys → IsStrict c xs → (sort c xs ≡ sort c ys) × IsStrict c ys
  unfolding sort
  sort-perm Permᴰ.nil s = (refl, tt)
  sort-perm (Permᴰ.cons {a = x} {b = y} e r) (d, s) =
      let (eq, t) = sort-perm r s in
      (rw (e, eq), (rw e at (All-perm (λ z. c x z ≢ Ordering.eq) r d), t))
  sort-perm (Permᴰ.swap {a} {b} {a'} {b'} {l} e f) ((ne, d), (d', s)) =
      subst (Swapped b') f (subst (λ x. Swapped x b) e swapped)
    where
      Swapped : A → A → Type ℓ
      Swapped x y = (sort c (a ∷ b ∷ l) ≡ sort c (y ∷ x ∷ l)) × IsStrict c (y ∷ x ∷ l)

      flipped : c b a ≡ Ordering.eq → c a b ≡ Ordering.eq
      flipped q = ground (arith, h.flips a b)

      swapped : (sort c (a ∷ b ∷ l) ≡ sort c (b ∷ a ∷ l)) × IsStrict c (b ∷ a ∷ l)
      swapped = (insert_sorted_comm a b (sort c l) ne, (((λ q. ne (flipped q)), d'), (d, s)))
  sort-perm (Permᴰ.trans r r') s =
      let (e, t) = sort-perm r s in let (e', t') = sort-perm r' t in (e ∙ e', t')

-- The first element that passes a test.
unfoldable pub first {ℓ} : {A : Type ℓ} → (A → Bool) → List A → Option A
first test [] = none
first test (x ∷ xs) = if test x then some x else first test xs

module _ {ℓ} {A : Type ℓ} (test : A → Bool) where
  pub first-passes : (xs : List A) (x : A) → first test xs ≡ some x → test x ≡ true
  unfolding first
  first-passes [] x e = absurd (ground arith)
  first-passes (y ∷ ys) x e = elim (Bool-cases (test y)) [
    | inl p ↦ ground arith
    | inr p ↦ first-passes ys x (ground arith)
  ]

  -- What holds of every element holds of the one found.
  pub first-All {κ} :
      (P : A → Type κ) (xs : List A) (x : A) → All P xs → first test xs ≡ some x → P x
  unfolding first
  first-All P [] x h e = absurd (ground arith)
  first-All P (y ∷ ys) x (p, h) e = elim (Bool-cases (test y)) [
    | inl t ↦ subst P (ground arith) p
    | inr t ↦ first-All P ys x h (ground arith)
  ]

  pub first-none_iff : (xs : List A) → (first test xs ≡ none) ↔ All (λ y. test y ≡ false) xs
  unfolding first
  first-none_iff [] = ((λ _. tt), (λ _. refl))
  first-none_iff (y ∷ ys) = ground (arith, first-none_iff ys)

  -- In a sorted list no element that passes comes before the one found.
  pub first-least :
      (c : A → A → Ordering)
      → Lawful c
      → (xs : List A) (x : A) → IsSorted c xs
      → first test xs ≡ some x
      → All (λ y. test y ≡ true → c x y ≢ Ordering.gt) xs
  unfolding first
  first-least c l [] x s e = tt
  first-least c l (y ∷ ys) x (le, s) e = elim (Bool-cases (test y)) [
    | inl t ↦
        let same : y ≡ x = ground arith in
        subst (λ z. All (λ w. test w ≡ true → c z w ≢ Ordering.gt) (y ∷ ys)) same
          ((λ _. ground (arith, compare_self l y)), weaken ys le)
    | inr t ↦ ((λ q. absurd (ground arith)), first-least c l ys x s (ground arith))
  ]
    where
      weaken :
          (zs : List A)
          → All (λ z. c y z ≢ Ordering.gt) zs
          → All (λ w. test w ≡ true → c y w ≢ Ordering.gt) zs
      weaken [] h = tt
      weaken (z ∷ zs) (p, h) = ((λ _. p), weaken zs h)
