-- ===== src/Cmd/Clients/Added.antt =====
-- What the loops of `newStaticClients` add to the static clients.
use ad_guard_dnscli.Base.{
  ◌≡◌, refl, sym, ap, subst, ◌∙◌, inl, inr, Bool, false, ◌&&◌, ◌||◌, Bool-cases, Option, none, some,
  List, [], ◌∷◌, GoString, string_eq, ◌==◌, if◌then◌else◌, arith, Eq,
}
use ad_guard_dnscli.Base.Compare.{Ordering, compare_strings}
use ad_guard_dnscli.Base.GoMap.{GoMap, keys, lookup}
use ad_guard_dnscli.Base.Nested.{inner, at, at-insert}
use ad_guard_dnscli.Base.Sort.{insert_sorted, sort}
use ad_guard_dnscli.Netip.{Prefix, prefix_eq, prefix_beq_iff}
use ad_guard_dnscli.Netip.Order.{compare_prefix}
use ad_guard_dnscli.Client.Autodevice.{Upstreams}
use ad_guard_dnscli.Cmd.Config.{CacheConfig}
use ad_guard_dnscli.Cmd.Clients.{
  StaticUpstreamConfigs, StaticClients, custom, add_static_client, add_if_there, add_domains,
  add_prefixes, new_static_clients,
}

-- The first of two options, or the second where there is no first.
abbrev over : {V : Type 0} → Option V → Option V → Option V
over none b = b
over (some v) b = some v

over_id : {V : Type 0} (a : Option V) → over a none ≡ a
over_id none = refl
over_id (some v) = refl

over_twice : {V : Type 0} (a b : Option V) → over a (over a b) ≡ over a b
over_twice none b = refl
over_twice (some v) b = refl

module _ {K : Type 0} ⦃e : Eq K⦄ where
  -- Whether a list has a key.
  unfoldable pub has : K → List K → Bool
  has k [] = false
  has k (x ∷ xs) = (x == k) || has k xs

  has-insert_sorted :
      (c : K → K → Ordering) (k x : K) (ys : List K)
      → has k (insert_sorted c x ys) ≡ ((x == k) || has k ys)
  unfolding has insert_sorted
  has-insert_sorted c k x [] = refl
  has-insert_sorted c k x (y ∷ ys) = ground (arith, has-insert_sorted c k x ys)

  has-sort : (c : K → K → Ordering) (k : K) (xs : List K) → has k (sort c xs) ≡ has k xs
  unfolding has sort
  has-sort c k [] = refl
  has-sort c k (x ∷ xs) =
      has-insert_sorted c k x (sort c xs) ∙ ap (λ b. (x == k) || b) (has-sort c k xs)

  lookup-missing : {V : Type 0} (k : K) (m : GoMap K V) → has k (keys m) ≡ false → lookup k m ≡ none
  unfolding has lookup
  lookup-missing k [] h = refl
  lookup-missing k ((j, v) ∷ m) h = elim (Bool-cases (j == k)) [
    | inl same ↦ absurd (ground (arith, h, same))
    | inr other ↦ rw other (lookup-missing k m (ground (arith, h, other)))
  ]

  -- What the sorted keys leave out is not in the map.
  pub sorted_keys-none :
      {V : Type 0} (c : K → K → Ordering) (k : K) (m : GoMap K V)
      → has k (sort c (keys m)) ≡ false
      → lookup k m ≡ none
  sorted_keys-none c k m h = lookup-missing k m (sym (has-sort c k (keys m)) ∙ h)

module _ (u : Upstreams) (c : CacheConfig) where
  -- The upstreams with the settings of the cache.
  abbrev pub made : Option (List u.Upstream) → Option u.CustomConfig
  made none = none
  made (some ups) = some (custom u c ups)

  at-add_static_client :
      (pref p : Prefix) (domain d : GoString) (ups : List u.Upstream) (cs : StaticClients u)
      → at p d (add_static_client u pref domain ups c cs)
        ≡ (if (pref == p) && (domain == d) then some (custom u c ups) else at p d cs)
  unfolding add_static_client
  at-add_static_client pref p domain d ups cs = at-insert pref p domain d (custom u c ups) cs

  at-add_option :
      (pref p : Prefix) (domain d : GoString) (ups : Option (List u.Upstream))
      (cs : StaticClients u)
      → at p d (add_if_there u pref domain c cs ups)
        ≡ (if (pref == p) && (domain == d) then over (made ups) (at p d cs) else at p d cs)
  at-add_option pref p domain d none cs = elim (Bool-cases ((pref == p) && (domain == d))) [
    | inl both ↦ rw both refl
    | inr apart ↦ rw apart refl
  ]
  at-add_option pref p domain d (some ups) cs = at-add_static_client pref p domain d ups cs

  at-add_if_there :
      (pref p : Prefix) (domain d : GoString) (ups : GoMap GoString (List u.Upstream))
      (cs : StaticClients u)
      → at p d (add_if_there u pref domain c cs (lookup domain ups)) ≡ (
          if (pref == p) && (domain == d)
          then over (made (lookup d ups)) (at p d cs)
          else at p d cs)
  at-add_if_there pref p domain d ups cs =
      let added = at-add_option pref p domain d (lookup domain ups) cs in
      elim (Bool-cases (domain == d)) [
        | inl same ↦
            subst
              (λ x. at p d (add_if_there u pref domain c cs (lookup domain ups)) ≡ (
                if (pref == p) && (domain == d)
                then over (made (lookup x ups)) (at p d cs)
                else at p d cs))
              ((string_eq.beq_iff domain d).0 same) added
        | inr other ↦ ground (arith, other, added)
      ]

  at-add_domains :
      (pref p : Prefix) (d : GoString) (ups : GoMap GoString (List u.Upstream))
      (domains : List GoString) (cs : StaticClients u)
      → at p d (add_domains u pref ups c domains cs) ≡ (
          if (pref == p) && has d domains
          then over (made (lookup d ups)) (at p d cs)
          else at p d cs)
  unfolding add_domains has
  at-add_domains pref p d ups [] cs = ground arith
  at-add_domains pref p d ups (x ∷ xs) cs =
      let cs' = add_if_there u pref x c cs (lookup x ups) in
      let first = at-add_if_there pref p x d ups cs in
      let rest = at-add_domains pref p d ups xs cs' in
      let twice = over_twice (made (lookup d ups)) (at p d cs) in ground (arith, first, rest, twice)

  at-add_prefix :
      (conf : StaticUpstreamConfigs u) (pref p : Prefix) (d : GoString) (cs : StaticClients u)
      → let ups = inner (lookup pref conf) in
        at p d (add_domains u pref ups c (sort compare_strings (keys ups)) cs)
        ≡ (if pref == p then over (made (at p d conf)) (at p d cs) else at p d cs)
  at-add_prefix conf pref p d cs =
      let ups = inner (lookup pref conf) in
      let domains = sort compare_strings (keys ups) in
      let added = at-add_domains pref p d ups domains cs in
      let left = sorted_keys-none compare_strings d ups in
      elim (Bool-cases (pref == p)) [
        | inl same ↦
            let moved : at p d conf ≡ lookup d ups =
              subst (λ q. at q d conf ≡ lookup d ups) ((prefix_beq_iff pref p).0 same) refl in
            elim (Bool-cases (has d domains)) [
              | inl listed ↦ ground (arith, same, listed, added, moved)
              | inr missing ↦ rw (same, moved, left missing) (rw (same, missing) at added)
            ]
        | inr other ↦ ground (arith, other, added)
      ]

  at-add_prefixes :
      (conf : StaticUpstreamConfigs u) (prefs : List Prefix) (p : Prefix) (d : GoString)
      (cs : StaticClients u)
      → at p d (add_prefixes u conf c prefs cs)
        ≡ (if has p prefs then over (made (at p d conf)) (at p d cs) else at p d cs)
  unfolding add_prefixes has
  at-add_prefixes conf [] p d cs = refl
  at-add_prefixes conf (x ∷ xs) p d cs =
      let ups = inner (lookup x conf) in
      let cs' = add_domains u x ups c (sort compare_strings (keys ups)) cs in
      let first = at-add_prefix conf x p d cs in
      let rest = at-add_prefixes conf xs p d cs' in
      let twice = over_twice (made (at p d conf)) (at p d cs) in ground (arith, first, rest, twice)

  -- The static clients of a configuration: for a prefix and a domain there is a client where there
  -- are upstreams, with those upstreams and the settings of the cache, and no other client.
  pub at-new_static_clients :
      (conf : StaticUpstreamConfigs u) (p : Prefix) (d : GoString)
      → at p d (new_static_clients u conf c) ≡ made (at p d conf)
  unfolding new_static_clients lookup
  at-new_static_clients conf p d =
      let whole = at-add_prefixes conf (sort compare_prefix (keys conf)) p d [] in
      elim (Bool-cases (has p (sort compare_prefix (keys conf)))) [
        | inl listed ↦ whole ∙ rw listed (over_id (made (at p d conf)))
        | inr missing ↦ whole ∙ rw (missing, sorted_keys-none compare_prefix p conf missing) refl
      ]
