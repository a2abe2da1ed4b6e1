-- ===== src/Cmd/Service/Launchd.antt =====
-- internal/cmd/service_darwin.go: the status of a launchd service, from the output of
-- `launchctl list`. `strings.TrimSpace` is a parameter.
use ad_guard_dnscli.Base.{
  ◌≡◌, ◌↔◌, refl, subst, inl, inr, Bool, true, false, not, ◌&&◌, Bool-cases, Option, none, some,
  List, [], ◌∷◌, GoString, string_eq, ◌==◌, leb, length, if◌then◌else◌, arith,
}
use ad_guard_dnscli.Errors.{Error, sentinel, not_installed, Result, ok, err}
use ad_guard_dnscli.Cmd.Service.Lines.{raw_lines, max_scan_token_size, too_long, drop_cr, cut}
use ad_guard_dnscli.Cmd.Service.Status.{
  Status, status_running, status_stopped, status_restart_on_fail,
}

-- `propNamePID`, with its quotes.
abbrev pub pid_name : GoString
pid_name = b'"' ∷ b'P' ∷ b'I' ∷ b'D' ∷ b'"' ∷ []

-- `isInstalled`, by the error of `os.Stat`.
abbrev pub is_installed : Option Error → Bool
is_installed none = true
is_installed (some e) = false

module _ (trim_space : GoString → GoString) where
  abbrev pub is_pid : Option (GoString × GoString) → Bool
  is_pid none = false
  is_pid (some (name, v)) = trim_space name == pid_name && not (trim_space v == [])

  -- The loop over the lines.
  unfoldable pub find_pid : List GoString → Result Status
  unfolding cut
  find_pid [] = ok status_restart_on_fail
  find_pid (l ∷ ls) =
      let rest = find_pid ls in
      if leb max_scan_token_size (length l)
      then err too_long
      else if is_pid (cut (drop_cr l))
      then ok status_running
      else rest

  unfoldable pub parse_launchctl_list : GoString → Result Status
  unfolding raw_lines find_pid
  parse_launchctl_list output = find_pid (raw_lines output)

  abbrev after_command : Result GoString → Result Status
  after_command (err e) = ok status_stopped
  after_command (ok output) = parse_launchctl_list output

  -- `Status`, by the errors of looking for the property list and what the command prints.
  unfoldable pub launchd_status : Option Error → Result GoString → Result Status
  unfolding parse_launchctl_list
  launchd_status stat run =
      if not (is_installed stat) then err (sentinel not_installed) else after_command run

  -- Some line has a process, and no line before it is too long.
  pub data HasPid : List GoString → Type 0 where
    here :
        {l : GoString} {ls : List GoString}
        → leb max_scan_token_size (length l) ≡ false
        → is_pid (cut (drop_cr l)) ≡ true
        → HasPid (l ∷ ls)
    there :
        {l : GoString} {ls : List GoString}
        → leb max_scan_token_size (length l) ≡ false
        → HasPid ls
        → HasPid (l ∷ ls)

  find_pid-HasPid : (ls : List GoString) → find_pid ls ≡ ok status_running → HasPid ls
  unfolding find_pid
  find_pid-HasPid [] h = absurd (ground (arith, h))
  find_pid-HasPid (l ∷ ls) h = elim (Bool-cases (leb max_scan_token_size (length l))) [
    | inl long ↦ absurd (ground (arith, h, long))
    | inr fits ↦ elim (Bool-cases (is_pid (cut (drop_cr l)))) [
      | inl pid ↦ here fits pid
      | inr other ↦ there fits (find_pid-HasPid ls (ground (arith, h, fits, other)))
    ]
  ]

  HasPid-find_pid : (ls : List GoString) → HasPid ls → find_pid ls ≡ ok status_running
  unfolding find_pid
  HasPid-find_pid [] h = elim h [ ]
  HasPid-find_pid (l ∷ ls) (here fits pid) = rw (fits, pid) refl
  HasPid-find_pid (l ∷ ls) (there fits rest) = elim (Bool-cases (is_pid (cut (drop_cr l)))) [
    | inl pid ↦ rw (fits, pid) refl
    | inr other ↦ rw (fits, other) (HasPid-find_pid ls rest)
  ]

  -- The service is reported as running exactly when it is installed, the command succeeds, and a
  -- line of its output gives a process, with no line before it that is too long for the scanner.
  pub launchd_status-running_iff :
      (stat : Option Error) (run : Result GoString)
      → (launchd_status stat run ≡ ok status_running)
        ↔ ((stat ≡ none) × ((output : GoString) × (run ≡ ok output) × HasPid (raw_lines output)))
  unfolding launchd_status parse_launchctl_list
  launchd_status-running_iff (some e) run =
      ((λ h. absurd (ground (arith, h))), λ h. absurd (ground (arith, h.0)))
  launchd_status-running_iff none (err e) =
      ((λ h. absurd (ground (arith, h))), λ h. absurd (ground (arith, h.1.1)))
  launchd_status-running_iff none (ok output) = (
    (λ h. (refl, (output, refl, find_pid-HasPid (raw_lines output) h))),
    (λ (exists, (found, same, h)). HasPid-find_pid (raw_lines output) (go found same h)),
  )
    where
      go :
          (found : GoString)
          → ok output ≡ ok found
          → HasPid (raw_lines found)
          → HasPid (raw_lines output)
      go found same h =
          let e : found ≡ output = ground (arith, same) in subst (λ s. HasPid (raw_lines s)) e h
