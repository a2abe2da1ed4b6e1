-- ===== src/Cmd/Build/Configured.antt =====
-- The groups of a configuration as `newUpstreams` takes them, and the pairs of their matches.
use ad_guard_dnscli.Base.{
  ◌≡◌, ◌≢◌, refl, sym, inl, inr, Bool, true, false, Bool-cases, Option, none, some, List, [], ◌∷◌,
  ◌++◌, map, All, All-map, All-zip, GoString, ◌==◌, string_eq, pair_eq,
}
use ad_guard_dnscli.Base.GoMap.{GoMap, lookup, keys}
use ad_guard_dnscli.Netip.{prefix_eq}
use ad_guard_dnscli.Cmd.Upstream.{
  IndexedMatch, UpstreamMatchConfig, UpstreamGroupConfig, UpstreamGroupsConfig, to_indexed_match,
}
use ad_guard_dnscli.Cmd.Upstream.Unique.{IsUnique, keys_of, match_keys}
use ad_guard_dnscli.Cmd.Build.{ValidGroup}
use ad_guard_dnscli.Cmd.Build.Devices.{AreApart}

-- The configuration as it is decoded, in which no pointer is `nil`.
abbrev pub as_group : ValidGroup → UpstreamGroupConfig
as_group c = record {
  address = c.address;
  autodevice = some c.autodevice;
  matches = map (λ m. some m) c.matches;
}

abbrev pub as_config : GoMap GoString ValidGroup → UpstreamGroupsConfig
as_config [] = []
as_config ((name, c) ∷ groups) = (name, some (as_group c)) ∷ as_config groups

-- The pairs of the matches of a group that is not predefined.
abbrev pub own_keys : Bool → Option ValidGroup → List IndexedMatch
own_keys true o = []
own_keys false none = []
own_keys false (some c) = map to_indexed_match c.matches

match_keys-some :
    (ms : List UpstreamMatchConfig) → match_keys (map (λ m. some m) ms) ≡ map to_indexed_match ms
unfolding match_keys
match_keys-some [] = refl
match_keys-some (m ∷ ms) = rw (match_keys-some ms) refl

pub keys-as_config : (groups : GoMap GoString ValidGroup) → keys (as_config groups) ≡ keys groups
keys-as_config [] = refl
keys-as_config ((name, c) ∷ groups) = rw (keys-as_config groups) refl

pub All-of-map :
    (P : IndexedMatch → Type 0) (ms : List UpstreamMatchConfig)
    → All P (map to_indexed_match ms)
    → All (λ m. P (to_indexed_match m)) ms
All-of-map P [] h = tt
All-of-map P (m ∷ ms) (p, h) = (p, All-of-map P ms h)

abbrev pub pointers : Option ValidGroup → Option (Option UpstreamGroupConfig)
pointers none = none
pointers (some c) = some (some (as_group c))

pub lookup-as_config :
    (name : GoString) (groups : GoMap GoString ValidGroup)
    → lookup name (as_config groups) ≡ pointers (lookup name groups)
unfolding lookup
lookup-as_config name [] = refl
lookup-as_config name ((j, c) ∷ groups) = elim (Bool-cases (j == name)) [
  | inl e ↦ rw e refl
  | inr n ↦ rw n (lookup-as_config name groups)
]

pub keys_of-as_group :
    (b : Bool) (o : Option ValidGroup)
    → keys_of b (elim (pointers o) [ none ↦ none | some c ↦ c ]) ≡ own_keys b o
keys_of-as_group true o = refl
keys_of-as_group false none = refl
keys_of-as_group false (some c) = match_keys-some c.matches

All-tt : (ys : List IndexedMatch) → All (λ y. Unit {0}) ys
All-tt [] = tt
All-tt (y ∷ ys) = (tt, All-tt ys)

pub All-split :
    (P : IndexedMatch → Type 0) (xs ys : List IndexedMatch) → All P (xs ++ ys) → All P xs × All P ys
All-split P [] ys h = (tt, h)
All-split P (x ∷ xs) ys (p, h) = let (hx, hy) = All-split P xs ys h in ((p, hx), hy)

-- The parts of a list without repetitions have none, and nothing in common.
pub append-IsUnique_split :
    (xs ys : List IndexedMatch)
    → IsUnique (xs ++ ys)
    → IsUnique xs × IsUnique ys × All (λ y. All (λ x. x ≢ y) xs) ys
unfolding IsUnique
append-IsUnique_split [] ys h = (tt, h, All-tt ys)
append-IsUnique_split (x ∷ xs) ys (a, h) =
    let (ux, uy, d) = append-IsUnique_split xs ys h in
    let (ax, ay) = All-split (λ j. j ≢ x) xs ys a in
    ((ax, ux), uy, All-map (λ y p. ((λ e. p.0 (sym e)), p.1)) ys (All-zip _ _ ys ay d))

-- Unique keys in the words of the loops over the matches.
pub map-IsUnique :
    (ms : List UpstreamMatchConfig) → IsUnique (map to_indexed_match ms) → AreApart ms
unfolding IsUnique AreApart
map-IsUnique [] h = tt
map-IsUnique (m ∷ ms) (a, h) = (All-of-map (λ j. j ≢ to_indexed_match m) ms a, map-IsUnique ms h)
