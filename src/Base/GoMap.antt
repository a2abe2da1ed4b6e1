-- ===== src/Base/GoMap.antt =====
-- A Go map, as an association list without repeated keys; writes keep the place of an old key.
use mathlib.Core.Path.{◌≡◌, refl, subst}
use mathlib.Core.Logic.{inl, inr}
use mathlib.Core.Option.{Option, none, some}
use mathlib.Core.List.{List, [], ◌∷◌}
use native.Mathlib.Omega.{arith}
use ad_guard_dnscli.Base.Tests.{if◌then◌else◌, Bool-cases}
use ad_guard_dnscli.Base.Classes.{Eq, ◌==◌}

abbrev pub GoMap {ℓ κ} : Type ℓ → Type κ → Type (ℓ ⊔ κ)
GoMap K V = List (K × V)

abbrev pub keys {ℓ κ} : {K : Type ℓ} {V : Type κ} → GoMap K V → List K
keys [] = []
keys ((k, v) ∷ m) = k ∷ keys m

module _ {ℓ κ} {K : Type ℓ} {V : Type κ} ⦃e : Eq K⦄ where
  unfoldable pub lookup : K → GoMap K V → Option V
  lookup k [] = none
  lookup k ((j, v) ∷ m) = if j == k then some v else lookup k m

  unfoldable pub insert : K → V → GoMap K V → GoMap K V
  insert key val [] = (key, val) ∷ []
  insert key val ((old, w) ∷ rest) =
      if old == key then (key, val) ∷ rest else (old, w) ∷ insert key val rest

  unfoldable pub delete : K → GoMap K V → GoMap K V
  delete k [] = []
  delete k ((j, v) ∷ m) = let rest = delete k m in if j == k then rest else (j, v) ∷ rest

  pub lookup-insert :
      (written read : K) (v : V) (m : GoMap K V)
      → lookup read (insert written v m) ≡ (if written == read then some v else lookup read m)
  unfolding lookup insert
  lookup-insert written read v [] = refl
  lookup-insert written read v ((other, w) ∷ m) = ground (
    arith,
    e.beq_iff written read,
    e.beq_iff other written,
    e.beq_iff other read,
    lookup-insert written read v m,
  )

  pub lookup-delete :
      (k j : K) (m : GoMap K V) → lookup j (delete k m) ≡ (if k == j then none else lookup j m)
  unfolding lookup delete
  lookup-delete k j [] = ground arith
  lookup-delete k j ((i, w) ∷ m) =
      ground (arith, e.beq_iff k j, e.beq_iff i k, e.beq_iff i j, lookup-delete k j m)

  -- No key is repeated.
  unfoldable pub IsMap : GoMap K V → Type κ
  IsMap [] = Unit
  IsMap ((k, v) ∷ m) = (lookup k m ≡ none) × IsMap m

  pub insert-IsMap : (k : K) (v : V) (m : GoMap K V) → IsMap m → IsMap (insert k v m)
  unfolding insert IsMap lookup
  insert-IsMap k v [] h = (refl, tt)
  insert-IsMap k v ((j, w) ∷ m) (h, hs) = elim (Bool-cases (j == k)) [
    | inl same ↦ rw same (subst (λ i. lookup i m ≡ none) ((e.beq_iff j k).0 same) h, hs)
    | inr other ↦ rw other (
      ground (arith, h, other, lookup-insert k j v m, e.beq_iff k j, e.beq_iff j k),
      insert-IsMap k v m hs,
    )
  ]

  pub delete-IsMap : (k : K) (m : GoMap K V) → IsMap m → IsMap (delete k m)
  unfolding delete IsMap
  delete-IsMap k [] h = tt
  delete-IsMap k ((j, w) ∷ m) (h, hs) = elim (Bool-cases (j == k)) [
    | inl same ↦ rw same (delete-IsMap k m hs)
    | inr other ↦ rw other (ground (arith, h, lookup-delete k j m), delete-IsMap k m hs)
  ]
