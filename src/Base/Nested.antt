-- ===== src/Base/Nested.antt =====
-- A Go map of maps: a missing inner map reads as an empty one.
use mathlib.Core.Path.{◌≡◌, refl, subst}
use mathlib.Core.Logic.{inl, inr}
use mathlib.Core.Bool.{◌&&◌}
use mathlib.Core.Option.{Option, none, some}
use mathlib.Core.List.{[]}
use native.Mathlib.Omega.{arith}
use ad_guard_dnscli.Base.Tests.{if◌then◌else◌, Bool-cases}
use ad_guard_dnscli.Base.Classes.{Eq, ◌==◌}
use ad_guard_dnscli.Base.GoMap.{GoMap, lookup, insert, lookup-insert}

-- The inner map at a key.
abbrev pub inner : {J V : Type 0} → Option (GoMap J V) → GoMap J V
inner none = []
inner (some m) = m

module _ {K J V : Type 0} ⦃e : Eq K⦄ ⦃f : Eq J⦄ where
  -- The value at a key and an inner key.
  abbrev pub at : K → J → GoMap K (GoMap J V) → Option V
  at k j m = lookup j (inner (lookup k m))

  pub at-insert :
      (key k : K) (inner_key j : J) (v : V) (m : GoMap K (GoMap J V))
      → at k j (insert key (insert inner_key v (inner (lookup key m))) m)
        ≡ (if (key == k) && (inner_key == j) then some v else at k j m)
  at-insert key k inner_key j v m =
      let old = inner (lookup key m) in
      let outer = lookup-insert key k (insert inner_key v old) m in
      let within = lookup-insert inner_key j v old in
      elim (Bool-cases (key == k)) [
        | inl same ↦
            let moved : at k j m ≡ lookup j old =
              subst (λ q. at q j m ≡ lookup j old) ((e.beq_iff key k).0 same) refl in
            ground (arith, same, outer, within, moved, Bool-cases (inner_key == j))
        | inr other ↦ ground (arith, other, outer, within, Bool-cases (inner_key == j))
      ]
