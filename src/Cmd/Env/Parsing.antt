-- ===== src/Cmd/Env/Parsing.antt =====
-- internal/cmd/env.go: when `parseLogEnvs` reports an error.
use ad_guard_dnscli.Base.{
  ◌≡◌, ◌↔◌, ◌⊎◌, refl, inl, inr, true, false, ◌||◌, Bool-cases, none, [], GoString, str, string_eq,
  ◌==◌, bytes_eq, arith, bytes_eq_iff,
}
use ad_guard_dnscli.Errors.{Error, ok, err, Result, Result-cases, join, join_iff}
use ad_guard_dnscli.Cmd.Env.{
  Os, is_special, env_bool, bool_error, env_output, env_format, parse_log_envs,
}

-- A value that is not set, or that is read.
abbrev pub IsRead {ℓ} : {A : Type ℓ} → (GoString → Result A) → GoString → Type ℓ
IsRead {A = A} read s = (s ≡ []) ⊎ ((a : A) × (read s ≡ ok a))

not_read {ℓ} :
    {A : Type ℓ} (s : GoString) {e : Error}
    → (s == []) ≡ false
    → (s ≡ []) ⊎ ((a : A) × (err e ≡ ok a))
    → ⊥
unfolding bytes_eq
not_read s set (inl same) = ground (arith, set, bytes_eq_iff s [])
not_read s set (inr (a, good)) = ground (arith, good)

module _ (os : Os) where
  bool_error_iff :
      (env : GoString)
      → (bool_error os env ((env_bool os env).1.1) ≡ none) ↔ IsRead os.parse_bool (os.getenv env)
  unfolding env_bool
  bool_error_iff env = elim (Bool-cases (os.getenv env == [])) [
    | inl unset ↦ rw unset ((λ _. inl ((bytes_eq_iff (os.getenv env) []).0 unset)), λ _. refl)
    | inr set ↦ elim (Result-cases (os.parse_bool (os.getenv env))) [
      | inl (b, read) ↦ rw (set, read) ((λ _. inr (b, refl)), λ _. refl)
      | inr (e, bad) ↦
          rw (set, bad)
            ((λ h. absurd (ground (arith, h))), λ h. absurd (not_read (os.getenv env) set h))
    ]
  ]

  env_format_iff : (s : GoString) → ((env_format os s).1 ≡ none) ↔ IsRead os.new_format s
  env_format_iff s = elim (Bool-cases (s == [])) [
    | inl unset ↦ rw unset ((λ _. inl ((bytes_eq_iff s []).0 unset)), λ _. refl)
    | inr set ↦ elim (Result-cases (os.new_format s)) [
      | inl (f, read) ↦ rw (set, read) ((λ _. inr (f, refl)), λ _. refl)
      | inr (e, bad) ↦
          rw (set, bad) ((λ h. absurd (ground (arith, h))), λ h. absurd (not_read s set h))
    ]
  ]

  -- The logs go to a special output or to a file with an absolute path, or the output is not set.
  abbrev pub IsOutput : GoString → Type 0
  IsOutput s = (is_special s || s == [] || os.is_abs s) ≡ true

  env_output_iff : (s : GoString) → ((env_output os s).1 ≡ none) ↔ IsOutput s
  env_output_iff s = ground arith

  -- The environment is read without an error exactly when the output is one of the special values,
  -- an absolute path or not set, the format is known or not set, and the two switches are Booleans
  -- or not set.
  pub parse_log_envs-join_iff : (join (parse_log_envs os).1 ≡ none) ↔ (
      IsOutput (os.getenv (str "LOG_OUTPUT"))
      × IsRead os.new_format (os.getenv (str "LOG_FORMAT"))
      × IsRead os.parse_bool (os.getenv (str "LOG_TIMESTAMP"))
      × IsRead os.parse_bool (os.getenv (str "VERBOSE")))
  unfolding parse_log_envs
  parse_log_envs-join_iff = (
    (λ h.
        let (out, (form, (stamp, (loud, _)))) = (join_iff (parse_log_envs os).1).0 h in
        (
          (env_output_iff _).0 out,
          (env_format_iff _).0 form,
          (bool_error_iff _).0 stamp,
          (bool_error_iff _).0 loud,
        )),
    (λ (out, form, stamp, loud). (join_iff (parse_log_envs os).1).1 (
      (env_output_iff _).1 out,
      ((env_format_iff _).1 form, ((bool_error_iff _).1 stamp, ((bool_error_iff _).1 loud, tt))),
    )),
  )
