-- ===== src/Client/Static/Within.antt =====
-- internal/client/defaultstorage.go: of two domains that match a question, the one that
-- `compareDomains` puts first is within the other.
use ad_guard_dnscli.Base.{
  ◌≡◌, ◌≢◌, ◌⊎◌, inl, inr, refl, sym, ◌∙◌, true, [], ◌∷◌, ◌++◌, arith, GoString, ◌==◌, string_eq,
  bool_eq, subst, bytes_eq_iff, Bool-cases,
}
use ad_guard_dnscli.Base.Compare.{Ordering}
use ad_guard_dnscli.Golibs.{Golibs}
use ad_guard_dnscli.Netip.{prefix_eq}
use ad_guard_dnscli.Client.Domains.{compare_domains, matches_domain}
use ad_guard_dnscli.Client.Domains.Labels.{NoLeadingDot}
use ad_guard_dnscli.Client.Domains.Order.{compare_domains-Lawful, compare_domains-nil}
use ad_guard_dnscli.Client.Domains.Subdomain.{compare_domains-subdomain, dotted_cases}

-- `d` is `e`, or below `e`; everything is below the empty domain.
abbrev pub IsWithin : GoString → GoString → Type 0
IsWithin d e = (e ≡ []) ⊎ (d ≡ e) ⊎ ((sub : GoString) × (d ≡ sub ++ b'.' ∷ e))

module _ (g : Golibs) where
  matches_domain-IsWithin : (q d : GoString) → matches_domain g q d ≡ true → IsWithin q d
  unfolding matches_domain
  matches_domain-IsWithin q d h = elim (Bool-cases (d == [])) [
    | inl e ↦ inl ((bytes_eq_iff d []).0 e)
    | inr e ↦ elim (Bool-cases (q == d)) [
      | inl e' ↦ inr (inl ((bytes_eq_iff q d).0 e'))
      | inr e' ↦ let (sub, _, p) = (g.is_subdomain_iff q d).0 (ground arith) in inr (inr (sub, p))
    ]
  ]

  -- `e` does not lie properly below `d` if `d` does not come after `e`.
  not_below :
      (d e m : GoString)
      → NoLeadingDot d
      → NoLeadingDot e
      → compare_domains d e ≢ Ordering.gt
      → e ≢ m ++ b'.' ∷ d
  not_below [] e [] nd ne le q = le (rw q (compare_domains-nil _ _))
  not_below [] e (x ∷ m) nd ne le q = le (rw q (compare_domains-nil _ _))
  not_below (c ∷ d) e [] nd ne le q = absurd (subst NoLeadingDot q ne refl)
  not_below (c ∷ d) e (x ∷ m) nd ne le q =
      let below = compare_domains-subdomain (x ∷ m) (c ∷ d) (λ z. cc) (λ z. cc) nd in
      le (
        rw q
          (ground (arith, below, compare_domains-Lawful.flips ((x ∷ m) ++ b'.' ∷ c ∷ d) (c ∷ d))))

  -- Of two domains that match a question, the one that comes first is within the other.
  pub first_IsWithin :
      (q d e : GoString)
      → NoLeadingDot d
      → NoLeadingDot e
      → matches_domain g q d ≡ true
      → matches_domain g q e ≡ true
      → compare_domains d e ≢ Ordering.gt
      → IsWithin d e
  first_IsWithin q d e nd ne h k le =
      cases (matches_domain-IsWithin q d h) (matches_domain-IsWithin q e k)
    where
      empty : (e' : GoString) → d ≡ [] → e' ≡ e → IsWithin d e
      empty [] z p = inl (sym p)
      empty (c ∷ e') z p = absurd (le (rw (z, ← p) (compare_domains-nil c e')))

      cases : IsWithin q d → IsWithin q e → IsWithin d e
      cases (inl z) w = empty e z refl
      cases w (inl z) = inl z
      cases (inr (inl p)) (inr (inl r)) = inr (inl (sym p ∙ r))
      cases (inr (inl p)) (inr (inr (m, r))) = inr (inr (m, sym p ∙ r))
      cases (inr (inr (m, p))) (inr (inl r)) = absurd (not_below d e m nd ne le (sym r ∙ p))
      cases (inr (inr (m, p))) (inr (inr (n, r))) = elim (dotted_cases m n d e (sym p ∙ r)) [
        | inl s ↦ inr (inl s)
        | inr (inl t) ↦ inr (inr t)
        | inr (inr (n', t)) ↦ absurd (not_below d e n' nd ne le t)
      ]
