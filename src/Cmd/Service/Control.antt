-- ===== src/Cmd/Service/Control.antt =====
-- internal/cmd/osservice.go and options.go: the actions on the service of the operating system. The
-- service is package service's of kardianos, a parameter; the actions print to the two outputs.
use ad_guard_dnscli.Base.{
  ◌≡◌, ◌↔◌, refl, sym, subst, bytes_eq, inl, inr, Bool, true, ◌||◌, Bool-cases, Option, none, some,
  List, [], ◌∷◌, GoString, str, string_eq, ◌==◌, nat_eq, if◌then◌else◌, arith, bytes_eq_iff,
}
use ad_guard_dnscli.Errors.{
  Error, errorf, wrapf, sentinel, bad_enum_value, text, num, Result, ok, err,
}
use ad_guard_dnscli.Cmd.Service.Status.{
  Status, status_running, status_stopped, status_restart_on_fail,
}

abbrev pub action_install : GoString
action_install = str "install"

abbrev pub action_restart : GoString
action_restart = str "restart"

abbrev pub action_start : GoString
action_start = str "start"

abbrev pub action_status : GoString
action_status = str "status"

abbrev pub action_stop : GoString
action_stop = str "stop"

abbrev pub action_uninstall : GoString
action_uninstall = str "uninstall"

abbrev pub is_action : GoString → Bool
is_action s =
    s == action_install
    || s == action_restart
    || s == action_start
    || s == action_status
    || s == action_stop
    || s == action_uninstall

-- `Set`: the new value of the flag, or an error.
unfoldable pub set_action : GoString → Result GoString
set_action s = if is_action s then ok s else err (sentinel bad_enum_value)

pub record OsService : Type 0 where
  pub install : Option Error
  pub uninstall : Option Error
  pub start : Option Error
  pub stop : Option Error
  pub restart : Option Error
  pub status : Result Status

-- What `controlStatus` prints, and its error.
unfoldable pub control_status : Result Status → GoString × Option Error
control_status (err e) = (str "error", some (wrapf "retrieving status: %w" [] e))
control_status (ok status) =
    if status == status_running
    then (str "running", none)
    else if status == status_stopped
    then (str "stopped", none)
    else if status == status_restart_on_fail
    then (str "restart on fail", none)
    else (str "error", some (errorf "unexpected status %d" (num status ∷ [])))

-- `osutil.ExitCodeSuccess` and `osutil.ExitCodeFailure`.
pub data ExitCode : Type 0 where
  success failure : ExitCode

-- The lines on standard output, what goes to standard error, and the exit code.
pub record Controlled : Type 0 where
  pub printed : List GoString
  pub reported : Option Error
  pub exit_code : ExitCode

abbrev pub finished : GoString → List GoString → Option Error → Controlled
finished action out none = record { printed = out; reported = none; exit_code = success }
finished action out (some e) = record {
  printed = out;
  reported = some (wrapf "performing action %q: %s" (text action ∷ []) e);
  exit_code = failure;
}

-- A panic on an unknown action is an error.
unfoldable pub control : OsService → GoString → Result Controlled
unfolding control_status
control svc action =
    if action == action_install
    then ok (finished action [] svc.install)
    else if action == action_restart
    then ok (finished action [] svc.restart)
    else if action == action_start
    then ok (finished action [] svc.start)
    else if action == action_status
    then (let (msg, e) = control_status svc.status in ok (finished action (msg ∷ []) e))
    else if action == action_stop
    then ok (finished action [] svc.stop)
    else if action == action_uninstall
    then ok (finished action [] svc.uninstall)
    else err (wrapf "action: %w: %q" (text action ∷ []) (sentinel bad_enum_value))

-- The error that the operation of an action gives, for the six actions.
pub data Performs (svc : OsService) : GoString → Option Error → Type 0 where
  installs : Performs svc action_install svc.install
  restarts : Performs svc action_restart svc.restart
  starts : Performs svc action_start svc.start
  asks : Performs svc action_status (control_status svc.status).1
  stops : Performs svc action_stop svc.stop
  uninstalls : Performs svc action_uninstall svc.uninstall

finished-exit_code_iff :
    (action : GoString) (out : List GoString) (e : Option Error)
    → ((finished action out e).exit_code ≡ success) ↔ (e ≡ none)
finished-exit_code_iff action out none = ground arith
finished-exit_code_iff action out (some e) = ground arith

-- An action that performs one operation, with the exit code of its error.
abbrev pub Controls : OsService → GoString → Type 0
Controls svc action =
    (r : Controlled) × (e : Option Error) × (control svc action ≡ ok r)
    × Performs svc action e
    × ((r.exit_code ≡ success) ↔ (e ≡ none))

pub is_action-Controls : (svc : OsService) (s : GoString) → is_action s ≡ true → Controls svc s
unfolding control bytes_eq
is_action-Controls svc s known = elim (Bool-cases (s == action_install)) [
  | inl e ↦
      at_name action_install e
        (_, _, refl, installs, finished-exit_code_iff action_install [] svc.install)
  | inr a ↦ elim (Bool-cases (s == action_restart)) [
    | inl e ↦
        at_name action_restart e
          (_, _, refl, restarts, finished-exit_code_iff action_restart [] svc.restart)
    | inr b ↦ elim (Bool-cases (s == action_start)) [
      | inl e ↦
          at_name action_start e
            (_, _, refl, starts, finished-exit_code_iff action_start [] svc.start)
      | inr c ↦ elim (Bool-cases (s == action_status)) [
        | inl e ↦ at_name action_status e (
          _,
          _,
          refl,
          asks,
          finished-exit_code_iff action_status ((control_status svc.status).0 ∷ [])
              (control_status svc.status).1,
        )
        | inr d ↦ elim (Bool-cases (s == action_stop)) [
          | inl e ↦
              at_name action_stop e
                (_, _, refl, stops, finished-exit_code_iff action_stop [] svc.stop)
          | inr f ↦
              at_name action_uninstall (ground (arith, known, a, b, c, d, f))
                (_, _, refl, uninstalls, finished-exit_code_iff action_uninstall [] svc.uninstall)
        ]
      ]
    ]
  ]
]
  where
    at_name : (name : GoString) → (s == name) ≡ true → Controls svc name → Controls svc s
    at_name name e h = subst (Controls svc) (sym ((bytes_eq_iff s name).0 e)) h

-- An action that the flag accepts never panics: it performs one operation, and the exit code is a
-- success exactly when that operation has no error.
pub set_action-control :
    (svc : OsService) (s action : GoString)
    → set_action s ≡ ok action
    → (action ≡ s) × Controls svc action
unfolding set_action
set_action-control svc s action accepted = elim (Bool-cases (is_action s)) [
  | inl known ↦
      let same : action ≡ s = ground (arith, accepted, known) in
      (same, subst (Controls svc) (sym same) (is_action-Controls svc s known))
  | inr unknown ↦ absurd (ground (arith, accepted, unknown))
]
