-- ===== src/Agdcos.antt =====
-- internal/agdcos: the check of the path of an executable (service_darwin.go, service_others.go).
-- `filepath.EvalSymlinks` and `filepath.Abs` are parameters.
use ad_guard_dnscli.Base.{
  ◌≡◌, refl, ◌↔◌, ◌≢◌, subst, inl, inr, Option, none, some, [], ◌∷◌, true, if◌then◌else◌, arith,
  GoString, str, is_prefix, Bool-cases, ap, sym, ◌∙◌,
}
use ad_guard_dnscli.Errors.{
  Error, Result, ok, err, text, sentinel, bad_exec_path, errorv, ◌>>=◌, >>=-eq-ok,
}

-- `fmt.Errorf` with the cause under `%v`.
abbrev explained : Result GoString → (Error → Error) → Result GoString
explained (ok path) f = ok path
explained (err e) f = err (f e)

abbrev applications : GoString
applications = str "/Applications/"

-- The last test of `validateExecPath`.
abbrev pub within_applications : GoString → Option Error
within_applications path =
    if is_prefix applications path then none else some (sentinel bad_exec_path)

abbrev located : Result GoString → Option Error
located (err e) = some e
located (ok path) = within_applications path

-- `validateExecPath` outside of macOS.
unfoldable pub validate_exec_path_others : GoString → Option Error
validate_exec_path_others exec_path = none

module _ (eval_symlinks abs : GoString → Result GoString) where
  -- The path without symbolic links, made absolute; both errors leave the path empty.
  unfoldable pub resolve : GoString → Result GoString
  resolve exec_path =
      explained (eval_symlinks exec_path) (errorv "evaluating executable path symlinks: %v" [])
      >>= λ path. explained (abs path) (errorv "getting absolute path of %q: %v" (text [] ∷ []))

  -- `validateExecPath` on macOS.
  unfoldable pub validate_exec_path_darwin : GoString → Option Error
  validate_exec_path_darwin exec_path = located (resolve exec_path)

-- A result is in place exactly when it is a path in that directory.
within_iff :
    (path : GoString) → (within_applications path ≡ none) ↔ (is_prefix applications path ≡ true)
within_iff path = elim (Bool-cases (is_prefix applications path)) [
  | inl h ↦ ((λ _. h), λ _. ap (λ b. if b then none else some (sentinel bad_exec_path)) h)
  | inr h ↦ (
    (λ k.
        absurd (outside (sym (ap (λ b. if b then none else some (sentinel bad_exec_path)) h) ∙ k))),
    λ k. absurd (ground (arith, h, k)),
  )
]
  where
    outside : some (sentinel bad_exec_path) ≢ none
    outside h = ground arith

located_iff :
    (r : Result GoString)
    → (located r ≡ none)
      ↔ ((path : GoString) × (r ≡ ok path) × (is_prefix applications path ≡ true))
located_iff (err e) = ((λ h. absurd (ground arith)), λ h. absurd (ground (arith, h.1)))
located_iff (ok path) = (
  (λ h. (path, refl, (within_iff path).0 h)),
  λ (q, same, h). subst (λ r. located r ≡ none) (sym same) ((within_iff q).1 h),
)

explained-eq-ok :
    (r : Result GoString) (f : Error → Error) {path : GoString}
    → explained r f ≡ ok path
    → r ≡ ok path
explained-eq-ok (ok q) f h = h
explained-eq-ok (err e) f h = absurd (ground (arith, h))

module _ (eval_symlinks abs : GoString → Result GoString) where
  -- The path of the executable, resolved, is `path`.
  abbrev Resolves : GoString → GoString → Type 0
  Resolves exec_path path =
      (real : GoString) × (eval_symlinks exec_path ≡ ok real) × (abs real ≡ ok path)

  -- The path resolves exactly when its links do, to a path that can be made absolute.
  resolve_iff :
      (exec_path path : GoString)
      → (resolve eval_symlinks abs exec_path ≡ ok path) ↔ Resolves exec_path path
  unfolding resolve
  resolve_iff exec_path path = (
    (λ h.
        let (real, e, k) = >>=-eq-ok (explained (eval_symlinks exec_path) _) _ h in
        (real, explained-eq-ok (eval_symlinks exec_path) _ e, explained-eq-ok (abs real) _ k)),
    λ h. rw (h.1, h.2) refl,
  )

  -- An executable passes on macOS exactly when what its path resolves to is in /Applications.
  validate_exec_path_darwin_iff :
      (exec_path : GoString)
      → (validate_exec_path_darwin eval_symlinks abs exec_path ≡ none)
        ↔ ((path : GoString) × Resolves exec_path path × (is_prefix applications path ≡ true))
  unfolding validate_exec_path_darwin
  validate_exec_path_darwin_iff exec_path = (
    (λ h.
        let (path, r, k) = (located_iff (resolve eval_symlinks abs exec_path)).0 h in
        (path, (resolve_iff exec_path path).0 r, k)),
    λ (path, r, k).
        (located_iff (resolve eval_symlinks abs exec_path)).1
          (path, (resolve_iff exec_path path).1 r, k),
  )
