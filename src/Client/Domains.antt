-- ===== src/Client/Domains.antt =====
-- The comparison and the matching of domain names in internal/client/defaultstorage.go.
pub mod Labels
pub mod Order
pub mod Subdomain
pub mod Joined
use ad_guard_dnscli.Base.{
  ℕ, zero, suc, ◌+◌, Bool, true, ◌||◌, Option, none, some, List, [], ◌∷◌, GoString, ◌==◌, string_eq,
  length, take, drop, last_index_byte,
}
use ad_guard_dnscli.Base.Compare.{Ordering, compare_strings}
use ad_guard_dnscli.Golibs.{Golibs}

-- `a[aLastDot+1:]`
abbrev after_dot : Option ℕ → GoString → GoString
after_dot none a = a
after_dot (some i) a = drop (i + 1) a

-- `a[:max(0, aLastDot)]`
abbrev before_dot : Option ℕ → GoString → GoString
before_dot none a = []
before_dot (some i) a = take i a

unfoldable pub last_label : GoString → GoString
last_label a = after_dot (last_index_byte a b'.') a

unfoldable pub parent : GoString → GoString
parent a = before_dot (last_index_byte a b'.') a

-- The loop, with fuel; `none` means that the fuel ran out.
unfoldable pub compare_loop : ℕ → GoString → GoString → Option Ordering
compare_loop zero a b = none
compare_loop (suc f) [] [] = some Ordering.eq
compare_loop (suc f) [] (d ∷ b) = some Ordering.gt
compare_loop (suc f) (c ∷ a) [] = some Ordering.lt
compare_loop (suc f) (c ∷ a) (d ∷ b) =
    let rest = compare_loop f (parent (c ∷ a)) (parent (d ∷ b)) in
    elim (compare_strings (last_label (c ∷ a)) (last_label (d ∷ b))) [
      | Ordering.eq ↦ rest
      | Ordering.lt ↦ some Ordering.lt
      | Ordering.gt ↦ some Ordering.gt
    ]

-- Each round drops the last label of both names, so that the length of the first is fuel enough.
unfoldable pub compare_domains : GoString → GoString → Ordering
compare_domains a b = elim (compare_loop (suc (length a)) a b) [ some o ↦ o | none ↦ Ordering.eq ]

unfoldable pub matches_domain : Golibs → GoString → GoString → Bool
matches_domain g question configured =
    configured == [] || question == configured || g.is_subdomain question configured
