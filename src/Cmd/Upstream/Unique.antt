-- ===== src/Cmd/Upstream/Unique.antt =====
-- A valid configuration has no two upstream groups for the same client and domain.
use ad_guard_dnscli.Base.{
  ℕ, suc, ap, to_lower, ◌≡◌, ◌≢◌, inl, inr, refl, subst, eq_refl, String, sym, Bool, true, false,
  Option, none, some, List, [], ◌∷◌, ◌++◌, arith, GoString, All, All-map, Bool-cases, pair_eq,
  string_eq, ◌==◌,
}
use ad_guard_dnscli.Base.GoMap.{lookup, insert, lookup-insert, keys}
use ad_guard_dnscli.Base.Compare.{compare_strings}
use ad_guard_dnscli.Base.Sort.{sort}
use ad_guard_dnscli.Errors.{Arg, Error, IsNil, join_iff, Result}
use ad_guard_dnscli.Golibs.{Golibs}
use ad_guard_dnscli.Netip.{prefix_eq, empty_prefix, prefix_beq_iff}
use ad_guard_dnscli.Cmd.Upstream.{
  IndexedMatch, MatchSet, UpstreamMatchConfig, UpstreamGroupConfig, UpstreamGroupsConfig,
  to_indexed_match, added, add_match, wrapped, validate_values, validate_match, validate_matches,
  is_empty_match, validate_as_custom, is_predefined, group_of, validate_group, validate_groups,
  validate_groups_config,
}

-- No element occurs twice.
unfoldable pub IsUnique : List IndexedMatch → Type 0
IsUnique [] = Unit
IsUnique (k ∷ ks) = All (λ j. j ≢ k) ks × IsUnique ks

All-join :
    (P : IndexedMatch → Type 0) (xs ys : List IndexedMatch) → All P xs → All P ys → All P (xs ++ ys)
All-join P [] ys h k = k
All-join P (x ∷ xs) ys (p, h) k = (p, All-join P xs ys h k)

append-IsUnique :
    (xs ys : List IndexedMatch)
    → IsUnique xs
    → IsUnique ys
    → All (λ y. All (λ x. x ≢ y) xs) ys
    → IsUnique (xs ++ ys)
unfolding IsUnique
append-IsUnique [] ys h k d = k
append-IsUnique (x ∷ xs) ys (a, h) k d = (
  All-join (λ j. j ≢ x) xs ys a (All-map (λ y p e. p.0 (sym e)) ys d),
  append-IsUnique xs ys h k (All-map (λ y p. p.1) ys d),
)

-- The key of the default group's autodevice, which no match has.
abbrev pub empty_match : IndexedMatch
empty_match = ([], empty_prefix)

-- The keys were not in the set, differ from each other and are of matches that are not empty; and they
-- are in the set afterwards.
record Absorbs (ks : List IndexedMatch) (s s' : MatchSet) : Type 0 where
  pub fresh : All (λ k. lookup k s ≡ none) ks
  pub unique : IsUnique ks
  pub proper : All (λ k. k ≢ empty_match) ks
  pub grows : (k : IndexedMatch) → lookup k s' ≡ none → (lookup k s ≡ none) × All (λ j. j ≢ k) ks

key_ne : (k j : IndexedMatch) → (k == j) ≡ false → k ≢ j
key_ne k j h e =
    let same : (k == j) ≡ true = subst (λ x. (k == x) ≡ true) e (eq_refl k) in
    absurd (ground (arith, h, same))

nil-Absorbs : (s : MatchSet) → Absorbs [] s s
unfolding IsUnique
nil-Absorbs s = record { fresh = tt; unique = tt; proper = tt; grows = λ k h. (h, tt) }

one-Absorbs :
    (k : IndexedMatch) (name : GoString) (s : MatchSet)
    → lookup k s ≡ none
    → k ≢ empty_match
    → Absorbs (k ∷ []) s (insert k name s)
unfolding IsUnique
one-Absorbs k name s h some_part = record {
  fresh = (h, tt);
  unique = (tt, tt);
  proper = (some_part, tt);
  grows = λ j l.
      let apart : (k == j) ≡ false = ground (arith, l, lookup-insert k j name s) in
      (ground (arith, l, apart, lookup-insert k j name s), (key_ne k j apart, tt));
}

append-Absorbs :
    (xs ys : List IndexedMatch) (s s' s'' : MatchSet)
    → Absorbs xs s s'
    → Absorbs ys s' s''
    → Absorbs (xs ++ ys) s s''
append-Absorbs xs ys s s' s'' a b = record {
  fresh =
      All-join (λ k. lookup k s ≡ none) xs ys a.fresh (All-map (λ k h. (a.grows k h).0) ys b.fresh);
  unique = append-IsUnique xs ys a.unique b.unique (All-map (λ k h. (a.grows k h).1) ys b.fresh);
  proper = All-join (λ k. k ≢ empty_match) xs ys a.proper b.proper;
  grows = λ k h.
      let (h', ny) = b.grows k h in
      let (h'', nx) = a.grows k h' in (h'', All-join (λ j. j ≢ k) xs ys nx ny);
}

-- The keys of the matches of a group, and of the groups that can have some.
unfoldable pub match_keys : List (Option UpstreamMatchConfig) → List IndexedMatch
match_keys [] = []
match_keys (none ∷ ms) = match_keys ms
match_keys (some m ∷ ms) = to_indexed_match m ∷ match_keys ms

abbrev pub keys_of : Bool → Option UpstreamGroupConfig → List IndexedMatch
keys_of true o = []
keys_of false none = []
keys_of false (some c) = match_keys c.matches

wrapped-none :
    (f : String) (args : List Arg) (e : Option Error) → wrapped f args e ≡ none → e ≡ none
wrapped-none f args none h = refl
wrapped-none f args (some e) h = absurd (ground arith)

added-Absorbs :
    (s : MatchSet) (name : GoString) (key : IndexedMatch) (o : Option GoString)
    → lookup key s ≡ o
    → (added s name key o).1 ≡ none
    → key ≢ empty_match
    → Absorbs (key ∷ []) s (added s name key o).0
added-Absorbs s name key none h k p = one-Absorbs key name s h p
added-Absorbs s name key (some another) h k p = absurd (ground (arith, k))

empty_of_lower : (s : GoString) → to_lower s ≡ [] → s ≡ []
unfolding to_lower
empty_of_lower [] h = refl
empty_of_lower (c ∷ s) h = absurd (ground (arith, h))

module _ (g : Golibs) where
  nonempty-proper :
      (c : UpstreamMatchConfig) → is_empty_match g c ≡ false → to_indexed_match c ≢ empty_match
  unfolding to_indexed_match
  nonempty-proper c b e =
      let domain = empty_of_lower c.question_domain (ap (λ (k : IndexedMatch). k.0) e) in
      let client : c.client ≡ empty_prefix = ap (λ (k : IndexedMatch). k.1) e in
      let both : is_empty_match g c ≡ true =
        rw ((string_eq.beq_iff c.question_domain []).1 domain)
          ((prefix_beq_iff c.client empty_prefix).1 client) in
      absurd (ground (arith, b, both))

  match-Absorbs :
      (c : UpstreamMatchConfig) (s : MatchSet) (name : GoString)
      → (validate_match g (some c) s name).1 ≡ none
      → Absorbs (to_indexed_match c ∷ []) s (validate_match g (some c) s name).0
  unfolding validate_match validate_values add_match
  match-Absorbs c s name h = elim (Bool-cases (is_empty_match g c)) [
    | inl b ↦ absurd (ground (arith, rw b at h))
    | inr b ↦ rw b (
        added-Absorbs s name (to_indexed_match c) (lookup (to_indexed_match c) s) refl
          (((join_iff _).0 (rw b at h)).1.1.0) (nonempty-proper c b))
  ]

  matches-Absorbs :
      (i : ℕ) (ms : List (Option UpstreamMatchConfig)) (s : MatchSet) (name : GoString)
      → All IsNil (validate_matches g i ms s name).1
      → Absorbs (match_keys ms) s (validate_matches g i ms s name).0
  unfolding validate_matches match_keys
  matches-Absorbs i [] s name h = nil-Absorbs s
  matches-Absorbs i (none ∷ ms) s name (h, hs) = matches-Absorbs (suc i) ms s name hs
  matches-Absorbs i (some m ∷ ms) s name (h, hs) =
      append-Absorbs (to_indexed_match m ∷ []) (match_keys ms) s
        (validate_match g (some m) s name).0 _ (match-Absorbs m s name (wrapped-none _ _ _ h))
        (matches-Absorbs (suc i) ms (validate_match g (some m) s name).0 name hs)

  group-Absorbs :
      (parse_scheme : GoString → Result GoString) (name : GoString) (o : Option UpstreamGroupConfig)
      (s : MatchSet)
      → (validate_group g parse_scheme name o s).1 ≡ none
      → Absorbs
          (keys_of (is_predefined g parse_scheme name) o)
          s
          (validate_group g parse_scheme name o s).0
  unfolding validate_as_custom
  group-Absorbs parse_scheme name none s h = elim (Bool-cases (is_predefined g parse_scheme name)) [
    | inl b ↦ rw b (nil-Absorbs s)
    | inr b ↦ absurd (ground (arith, rw b at h))
  ]
  group-Absorbs parse_scheme name (some c) s h =
      elim (Bool-cases (is_predefined g parse_scheme name)) [
        | inl b ↦ rw b (nil-Absorbs s)
        | inr b ↦ rw b (matches-Absorbs 0 c.matches s name ((join_iff _).0 (rw b at h)).1)
      ]

  -- The keys of all matches that the loop over the groups meets.
  unfoldable pub all_keys :
      (GoString → Result GoString) → UpstreamGroupsConfig → List GoString → List IndexedMatch
  all_keys parse_scheme c [] = []
  all_keys parse_scheme c (name ∷ names) =
      keys_of (is_predefined g parse_scheme name) (group_of g parse_scheme c name)
      ++ all_keys parse_scheme c names

  groups-Absorbs :
      (parse_scheme : GoString → Result GoString) (c : UpstreamGroupsConfig) (names : List GoString)
      (s : MatchSet)
      → All IsNil (validate_groups g parse_scheme c names s)
      → (s' : MatchSet) × Absorbs (all_keys parse_scheme c names) s s'
  unfolding validate_groups all_keys
  groups-Absorbs parse_scheme c [] s h = (s, nil-Absorbs s)
  groups-Absorbs parse_scheme c (name ∷ names) s (h, hs) =
      let first =
        group-Absorbs parse_scheme name (group_of g parse_scheme c name) s (wrapped-none _ _ _ h) in
      let (s', rest) =
        groups-Absorbs parse_scheme c names
          (validate_group g parse_scheme name (group_of g parse_scheme c name) s).0 hs in
      (s', append-Absorbs _ _ s _ s' first rest)

  valid-Absorbs :
      (parse_scheme : GoString → Result GoString) (c : UpstreamGroupsConfig)
      → validate_groups_config g parse_scheme (some c) ≡ none
      → (s : MatchSet) × Absorbs (all_keys parse_scheme c (sort compare_strings (keys c))) [] s
  unfolding validate_groups_config
  valid-Absorbs parse_scheme c h =
      groups-Absorbs parse_scheme c (sort compare_strings (keys c)) [] ((join_iff _).0 h).1

  -- In a valid configuration of the groups, no two matches of the groups, other than the predefined
  -- ones, which have none, have the same client and, in lower case, the same domain.
  pub validate_groups_config-IsUnique :
      (parse_scheme : GoString → Result GoString) (c : UpstreamGroupsConfig)
      → validate_groups_config g parse_scheme (some c) ≡ none
      → IsUnique (all_keys parse_scheme c (sort compare_strings (keys c)))
  validate_groups_config-IsUnique parse_scheme c h = (valid-Absorbs parse_scheme c h).1.unique

  -- Nor is any of them a match of every client and every domain.
  pub validate_groups_config-proper :
      (parse_scheme : GoString → Result GoString) (c : UpstreamGroupsConfig)
      → validate_groups_config g parse_scheme (some c) ≡ none
      → All (λ k. k ≢ empty_match) (all_keys parse_scheme c (sort compare_strings (keys c)))
  validate_groups_config-proper parse_scheme c h = (valid-Absorbs parse_scheme c h).1.proper
