-- ===== src/Debugsvc.antt =====
-- internal/debugsvc: the routes of the debug service, and its shutdown. The HTTP server and the
-- patterns of `httputil.RoutePprof` are golibs', and `url.JoinPath` is a parameter.
use ad_guard_dnscli.Base.{
  ℕ, suc, ◌+◌, ◌≡◌, refl, sym, ◌∙◌, ap, Option, none, some, List, [], ◌∷◌, ◌++◌, arith, GoString,
  str, index, index_from, is_prefix, take, drop, length, take-append, nat_eq,
}
use ad_guard_dnscli.Errors.{Error, Result, ok, err}
use ad_guard_dnscli.Golibs.{Golibs}
use ad_guard_dnscli.Cmd.Service.Lines.{Without}

abbrev pub path_prefix_private : GoString
path_prefix_private = str "/private"

abbrev pub space : ℕ
space = b' '

-- `strings.Cut` around the first space.
abbrev cut_at : GoString → Option ℕ → Option (GoString × GoString)
cut_at s none = none
cut_at s (some i) = some (take i s, drop (i + 1) s)

module _ (join_path : GoString → GoString → Result GoString) where
  abbrev with_method : GoString → Result GoString → Option GoString
  with_method method (err e) = none
  with_method method (ok path) = some (method ++ space ∷ path)

  abbrev prefixed : GoString → Option (GoString × GoString) → Option GoString
  prefixed prefix none = none
  prefixed prefix (some (method, pat)) = with_method method (join_path prefix pat)

  -- `addPrefixToRoutePattern`; `none` is a panic.
  unfoldable pub add_prefix_to_route_pattern : GoString → GoString → Option GoString
  unfolding index
  add_prefix_to_route_pattern route_pattern prefix =
      prefixed prefix (cut_at route_pattern (index route_pattern (space ∷ [])))

  abbrev onto : Option GoString → Option (List GoString) → Option (List GoString)
  onto none rest = none
  onto (some p) none = none
  onto (some p) (some ps) = some (p ∷ ps)

  -- `route`: the patterns that are handled, for those of the profiler.
  unfoldable pub route : List GoString → Option (List GoString)
  unfolding add_prefix_to_route_pattern
  route [] = some []
  route (pattern ∷ patterns) =
      onto (add_prefix_to_route_pattern pattern path_prefix_private) (route patterns)

-- `Shutdown`, by the error of the server.
unfoldable pub shutdown_debug : Golibs → Option Error → Option Error
shutdown_debug g e = g.annotate e "debugsvc: shutting down server: %w" []

index-space :
    (i : ℕ) (method path : GoString)
    → Without space method
    → index_from i (method ++ space ∷ path) (space ∷ []) ≡ some (i + length method)
unfolding index_from is_prefix
index-space i [] path h = ground arith
index-space i (c ∷ method) path (other, h) =
    ground (arith, other, index-space (suc i) method path h)

drop_past :
    (method path : GoString) (c : ℕ) → drop (suc (length method)) (method ++ c ∷ path) ≡ path
drop_past [] path c = refl
drop_past (x ∷ method) path c = drop_past method path c

cut_at-space :
    (method path : GoString)
    → cut_at (method ++ space ∷ path) (some (0 + length method)) ≡ some (method, path)
cut_at-space method path =
    let s = method ++ space ∷ path in
    let before : take (0 + length method) s ≡ method =
      ap (λ n. take n s) (omega arith) ∙ take-append method (space ∷ path) in
    let behind : drop (0 + length method + 1) s ≡ path =
      ap (λ n. drop n s) {y = suc (length method)} (omega arith) ∙ drop_past method path space in
    rw (before, behind) refl

module _ (join_path : GoString → GoString → Result GoString) where
  -- A pattern with a method, and the pattern under the prefix.
  pub record Routes (pattern routed : GoString) : Type 0 where
    pub method : GoString
    pub path : GoString
    pub joined : GoString
    pub one_word : Without space method
    pub split : pattern ≡ method ++ space ∷ path
    pub joins : join_path path_prefix_private path ≡ ok joined
    pub result : routed ≡ method ++ space ∷ joined

  -- A pattern of a method and a path does not panic, and gets the prefix before its path.
  pub add_prefix_to_route_pattern_lem :
      (pattern routed : GoString)
      → Routes pattern routed
      → add_prefix_to_route_pattern join_path pattern path_prefix_private ≡ some routed
  unfolding add_prefix_to_route_pattern
  add_prefix_to_route_pattern_lem pattern routed r =
      let s = r.method ++ space ∷ r.path in
      ap (λ p. prefixed join_path path_prefix_private (cut_at p (index p (space ∷ [])))) r.split
      ∙ ap (λ i. prefixed join_path path_prefix_private (cut_at s i))
          (index-space 0 r.method r.path r.one_word)
      ∙ ap (prefixed join_path path_prefix_private) (cut_at-space r.method r.path)
      ∙ ap (with_method join_path r.method) r.joins
      ∙ ap (λ p. some p) (sym r.result)

  abbrev pub AllRoute : List GoString → List GoString → Type 0
  AllRoute [] [] = Unit
  AllRoute (p ∷ ps) [] = ⊥
  AllRoute [] (r ∷ rs) = ⊥
  AllRoute (p ∷ ps) (r ∷ rs) = Routes p r × AllRoute ps rs

  -- Where all patterns are of that form, the service is made without a panic, with all of them under
  -- the prefix.
  pub route-AllRoute :
      (patterns routed : List GoString)
      → AllRoute patterns routed
      → route join_path patterns ≡ some routed
  unfolding route
  route-AllRoute [] [] h = refl
  route-AllRoute (p ∷ ps) [] h = absurd h
  route-AllRoute [] (r ∷ rs) h = absurd h
  route-AllRoute (p ∷ ps) (r ∷ rs) (h, hs) =
      rw (add_prefix_to_route_pattern_lem p r h, route-AllRoute ps rs hs) refl
