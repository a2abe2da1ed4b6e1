-- ===== src/Cmd/Build/Devices.antt =====
-- What `addAutodeviceGroup` adds to the configured clients.
use ad_guard_dnscli.Base.{
  ℕ, suc, ◌≡◌, ◌≢◌, refl, ap, subst, sym, eq_refl, beq-false, All-zip, ◌∙◌, Option, none, some,
  List, [], ◌∷◌, arith, GoString, All, All-map, Bool-cases, ◌==◌, string_eq, pair_eq, to_lower,
  if◌then◌else◌,
}
use ad_guard_dnscli.Base.GoMap.{GoMap, lookup}
use ad_guard_dnscli.Base.Nested.{inner, at-insert}
use ad_guard_dnscli.Errors.{Result, Error}
use ad_guard_dnscli.Netip.{Prefix, prefix_eq}
use ad_guard_dnscli.Client.Autodevice.{Upstreams, AutodeviceUpstreamConfig}
use ad_guard_dnscli.Cmd.Upstream.{IndexedMatch, UpstreamMatchConfig, to_indexed_match}
use ad_guard_dnscli.Cmd.Build.{put_new, add_devices}

-- The matches are for different pairs of a domain and a prefix.
unfoldable pub AreApart : List UpstreamMatchConfig → Type 0
AreApart [] = Unit
AreApart (m ∷ ms) = All (λ n. to_indexed_match n ≢ to_indexed_match m) ms × AreApart ms

module _ (u : Upstreams) (parse_url : GoString → Result u.Url) where
  -- What is configured for a domain and a prefix.
  abbrev pub at : {V : Type 0} → IndexedMatch → GoMap Prefix (GoMap GoString V) → Option V
  at (domain, p) ups = lookup domain (inner (lookup p ups))

  pub put_new-fresh :
      {V : Type 0} (i : ℕ) (m : UpstreamMatchConfig) (v : V) (ups : GoMap Prefix (GoMap GoString V))
      → at (to_indexed_match m) ups ≡ none
      → (put_new u parse_url i m v ups).1 ≡ none
  unfolding to_indexed_match
  put_new-fresh i m v ups h =
      let h' : lookup (to_lower m.question_domain) (inner (lookup m.client ups)) ≡ none = h in
      ground (arith, h')

  pub at-put_new :
      {V : Type 0} (i : ℕ) (m : UpstreamMatchConfig) (v : V) (ups : GoMap Prefix (GoMap GoString V))
      (k : IndexedMatch)
      → at (to_indexed_match m) ups ≡ none
      → at k (put_new u parse_url i m v ups).0
        ≡ (if to_indexed_match m == k then some v else at k ups)
  unfolding to_indexed_match
  at-put_new i m v ups (domain, p) h =
      let key = to_lower m.question_domain in
      let h' : lookup key (inner (lookup m.client ups)) ≡ none = h in
      ground (
        arith,
        h',
        at-insert m.client p key domain v ups,
        Bool-cases (m.client == p),
        Bool-cases (key == domain),
      )

  -- The pairs of the matches are new and differ from each other: then no error is returned, every
  -- pair has the configuration, and all other pairs have what they had.
  pub record AddsAll (conf : AutodeviceUpstreamConfig u) (ms : List UpstreamMatchConfig)
      (ups : GoMap Prefix (GoMap GoString (AutodeviceUpstreamConfig u)))
      (r : GoMap Prefix (GoMap GoString (AutodeviceUpstreamConfig u)) × Option Error) : Type 0 where
    pub fine : r.1 ≡ none
    pub has : All (λ m. at (to_indexed_match m) r.0 ≡ some conf) ms
    pub kept : (k : IndexedMatch) → All (λ m. to_indexed_match m ≢ k) ms → at k r.0 ≡ at k ups

  -- The loop over the matches of a group that is created on demand: where their pairs of a domain in
  -- lower case and a prefix differ from each other and from those that are configured, there is no
  -- error, each pair gets the group's configuration, and all other pairs keep what they have.
  pub add_devices-AddsAll :
      (conf : AutodeviceUpstreamConfig u) (i : ℕ) (ms : List UpstreamMatchConfig)
      (ups : GoMap Prefix (GoMap GoString (AutodeviceUpstreamConfig u)))
      → AreApart ms
      → All (λ m. at (to_indexed_match m) ups ≡ none) ms
      → AddsAll conf ms ups (add_devices u parse_url conf i ms ups)
  unfolding add_devices AreApart
  add_devices-AddsAll conf i [] ups a f = record { fine = refl; has = tt; kept = λ k h. refl }
  add_devices-AddsAll conf i (m ∷ ms) ups (a, as') (f, fs) =
      let ups' = (put_new u parse_url i m conf ups).0 in
      let fine : (put_new u parse_url i m conf ups).1 ≡ none = put_new-fresh i m conf ups f in
      let elsewhere : (k : IndexedMatch) → to_indexed_match m ≢ k → at k ups' ≡ at k ups = λ k ne.
        at-put_new i m conf ups k f
        ∙ ap (λ b. if b then some conf else at k ups) (beq-false (to_indexed_match m) k ne) in
      let here : at (to_indexed_match m) ups' ≡ some conf =
        at-put_new i m conf ups (to_indexed_match m) f
        ∙ ap (λ b. if b then some conf else at (to_indexed_match m) ups)
            (eq_refl (to_indexed_match m)) in
      let rest = add_devices-AddsAll conf (suc i) ms ups' as' (
        All-map (λ n p. elsewhere (to_indexed_match n) (λ e. p.0 (sym e)) ∙ p.1) ms
          (All-zip (λ n. to_indexed_match n ≢ to_indexed_match m)
            (λ n. at (to_indexed_match n) ups ≡ none) ms a fs)) in
      subst
        (λ (e : Option Error). AddsAll conf (m ∷ ms) ups (elim e [
          | none ↦ add_devices u parse_url conf (suc i) ms ups'
          | some x ↦ (ups', some x)
        ]))
        (sym fine)
        (record {
          fine = rest.fine;
          has = (rest.kept (to_indexed_match m) a ∙ here, rest.has);
          kept = λ k h. rest.kept k h.1 ∙ elsewhere k h.0;
        })
