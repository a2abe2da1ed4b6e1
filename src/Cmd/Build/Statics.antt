-- ===== src/Cmd/Build/Statics.antt =====
-- What `addCommonGroup` adds to the static upstreams.
use ad_guard_dnscli.Base.{
  ℕ, suc, ◌≡◌, ◌≢◌, refl, sym, ap, ◌∙◌, eq_refl, beq-false, Option, none, some, List, [], ◌∷◌,
  GoString, All, All-map, All-zip, ◌==◌, if◌then◌else◌, pair_eq, string_eq, subst,
}
use ad_guard_dnscli.Base.GoMap.{GoMap}
use ad_guard_dnscli.Errors.{Result, Error, ok, err, wrapf, num}
use ad_guard_dnscli.Netip.{Prefix, prefix_eq}
use ad_guard_dnscli.Client.Autodevice.{Upstreams}
use ad_guard_dnscli.Cmd.Upstream.{IndexedMatch, UpstreamMatchConfig, to_indexed_match}
use ad_guard_dnscli.Cmd.Build.{put_new, add_static}
use ad_guard_dnscli.Cmd.Build.Devices.{at, AreApart, put_new-fresh, at-put_new}

module _ (u : Upstreams) (parse_url : GoString → Result u.Url) where
  -- The pairs of the matches get the upstream, without an error, and all others keep what they have.
  pub record AddsStatic (up : u.Upstream) (ms : List UpstreamMatchConfig)
      (ups : GoMap Prefix (GoMap GoString (List u.Upstream)))
      (r : GoMap Prefix (GoMap GoString (List u.Upstream)) × Option Error) : Type 0 where
    pub fine : r.1 ≡ none
    pub has : All (λ m. at u parse_url (to_indexed_match m) r.0 ≡ some (up ∷ [])) ms
    pub kept :
        (k : IndexedMatch)
        → All (λ m. to_indexed_match m ≢ k) ms
        → at u parse_url k r.0 ≡ at u parse_url k ups

  pub add_static-AddsStatic :
      (address : GoString) (opts : u.Options) (up : u.Upstream) (i : ℕ)
      (ms : List UpstreamMatchConfig) (ups : GoMap Prefix (GoMap GoString (List u.Upstream)))
      → u.address_to_upstream address opts ≡ ok up
      → AreApart ms
      → All (λ m. at u parse_url (to_indexed_match m) ups ≡ none) ms
      → AddsStatic up ms ups (add_static u parse_url address opts i ms ups)
  unfolding add_static AreApart
  add_static-AddsStatic address opts up i [] ups made a f = record {
    fine = refl;
    has = tt;
    kept = λ k h. refl;
  }
  add_static-AddsStatic address opts up i (m ∷ ms) ups made (a, as') (f, fs) =
      let v = up ∷ [] in
      let key = to_indexed_match m in
      let ups' = (put_new u parse_url i m v ups).0 in
      let fine : (put_new u parse_url i m v ups).1 ≡ none = put_new-fresh u parse_url i m v ups f in
      let put : (k : IndexedMatch)
          → at u parse_url k ups' ≡ (if key == k then some v else at u parse_url k ups) =
        λ k. at-put_new u parse_url i m v ups k f in
      let elsewhere : (k : IndexedMatch) → key ≢ k → at u parse_url k ups' ≡ at u parse_url k ups =
        λ k ne. put k ∙ ap (λ b. if b then some v else at u parse_url k ups) (beq-false key k ne) in
      let here : at u parse_url key ups' ≡ some v =
        put key ∙ ap (λ b. if b then some v else at u parse_url key ups) (eq_refl key) in
      let rest = add_static-AddsStatic address opts up (suc i) ms ups' made as' (
        All-map (λ n p. elsewhere (to_indexed_match n) (λ e. p.0 (sym e)) ∙ p.1) ms
          (All-zip (λ n. to_indexed_match n ≢ key)
            (λ n. at u parse_url (to_indexed_match n) ups ≡ none) ms a fs)) in
      subst
        (λ (r : Result u.Upstream). AddsStatic up (m ∷ ms) ups (elim r [
          | err e ↦ (ups, some (wrapf "match: at index %d: address: %w" (num i ∷ []) e))
          | ok up ↦
              let (ups', e) = put_new u parse_url i m (up ∷ []) ups in
              let rest = add_static u parse_url address opts (suc i) ms ups' in
              elim e [ none ↦ rest | some x ↦ (ups', some x) ]
        ]))
        (sym made)
        (subst
          (λ (e : Option Error). AddsStatic up (m ∷ ms) ups (elim e [
            | none ↦ add_static u parse_url address opts (suc i) ms ups'
            | some x ↦ (ups', some x)
          ]))
          (sym fine)
          (record {
            fine = rest.fine;
            has = (rest.kept key a ∙ here, rest.has);
            kept = λ k h. rest.kept k h.1 ∙ elsewhere k h.0;
          }))
