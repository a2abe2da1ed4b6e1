-- ===== src/Cmd/Service/Systemd.antt =====
-- internal/cmd/service_linux.go: the status of a systemd unit, from the output of `systemctl show`.
pub mod Printing
use ad_guard_dnscli.Base.{
  ℕ, Bool, true, false, Option, none, some, List, [], ◌∷◌, ◌++◌, GoString, str, string_eq, ◌==◌,
  nat_eq, leb, length, trim_suffix, if◌then◌else◌,
}
use ad_guard_dnscli.Cmd.Service.Status.{
  Status, status_running, status_stopped, status_restart_on_fail,
}
use ad_guard_dnscli.Cmd.Service.Lines.{raw_lines, max_scan_token_size, too_long, drop_cr, cut}
use ad_guard_dnscli.Errors.{
  Error, errorf, sentinel, not_installed, text, Result, ok, err, ◌>>=◌, wrap,
}

pub record UnitState : Type 0 where
  pub load_state : GoString
  pub active_state : GoString
  pub sub_state : GoString

abbrev pub load_state_name : GoString
load_state_name = str "LoadState"

abbrev pub active_state_name : GoString
active_state_name = str "ActiveState"

abbrev pub sub_state_name : GoString
sub_state_name = str "SubState"

unfoldable pub with_property : GoString → GoString → UnitState → UnitState
with_property name v u =
    if name == load_state_name
    then record u { load_state = v }
    else if name == active_state_name
    then record u { active_state = v }
    else if name == sub_state_name
    then record u { sub_state = v }
    else u

abbrev pub property_of : GoString → Result (GoString × GoString)
property_of l = found l (cut l)
  where
    found : GoString → Option (GoString × GoString) → Result (GoString × GoString)
    found l none = err (errorf "unexpected line format: %q" (text l ∷ []))
    found l (some p) = ok p

-- The loop over the lines.
unfoldable pub read_lines : List GoString → UnitState → Result UnitState
unfolding cut with_property
read_lines [] u = ok u
read_lines (l ∷ ls) u =
    if leb max_scan_token_size (length l)
    then err too_long
    else (property_of (drop_cr l) >>= λ p. read_lines ls (with_property p.0 p.1 u))

unfoldable pub status_from_state : UnitState → Result Status
status_from_state u =
    if u.load_state == str "not-found"
    then err (sentinel not_installed)
    else if u.active_state == str "active"
    then ok status_running
    else if u.active_state == str "inactive"
    then ok status_stopped
    else if u.sub_state == str "auto-restart"
    then ok status_restart_on_fail
    else err (
        errorf "unexpected state: %s=%q, %s=%q, %s=%q" (
          text load_state_name
          ∷ text u.load_state
          ∷ text active_state_name
          ∷ text u.active_state
          ∷ text sub_state_name
          ∷ text u.sub_state
          ∷ []))

unfoldable pub parse_systemctl_show : GoString → Result Status
unfolding raw_lines read_lines status_from_state
parse_systemctl_show output =
    read_lines (raw_lines output) (record { load_state = []; active_state = []; sub_state = [] })
    >>= status_from_state

-- `Status`, by the output of the command or its error.
unfoldable pub systemd_status : Result GoString → Result Status
unfolding parse_systemctl_show
systemd_status run = do
  output ← wrap "executing command: %w" [] run
  wrap "parsing command output: %w" [] (parse_systemctl_show output)
