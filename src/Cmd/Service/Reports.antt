-- ===== src/Cmd/Service/Reports.antt =====
-- internal/cmd: what the status action prints for a systemd unit.
use ad_guard_dnscli.Base.{
  ◌≡◌, refl, inl, inr, Bool-cases, List, [], GoString, str, string_eq, ◌==◌, map, All,
  if◌then◌else◌,
}
use ad_guard_dnscli.Errors.{ok, wrap}
use ad_guard_dnscli.Cmd.Service.Lines.{print_lines}
use ad_guard_dnscli.Cmd.Service.Control.{control_status}
use ad_guard_dnscli.Cmd.Service.Systemd.{
  UnitState, status_from_state, systemd_status, load_state_name, active_state_name, sub_state_name,
}
use ad_guard_dnscli.Cmd.Service.Systemd.Printing.{
  IsProperty, property_line, last_value, parse_systemctl_show-print_lines,
}

-- The text for a unit in a state.
abbrev pub described : UnitState → GoString
described u =
    if u.load_state == str "not-found"
    then str "error"
    else if u.active_state == str "active"
    then str "running"
    else if u.active_state == str "inactive"
    then str "stopped"
    else if u.sub_state == str "auto-restart"
    then str "restart on fail"
    else str "error"

printed_for :
    (u : UnitState)
    → (control_status (wrap "parsing command output: %w" [] (status_from_state u))).0 ≡ described u
unfolding control_status status_from_state
printed_for u = elim (Bool-cases (u.load_state == str "not-found")) [
  | inl missing ↦ rw missing refl
  | inr loaded ↦ elim (Bool-cases (u.active_state == str "active")) [
    | inl active ↦ rw (loaded, active) refl
    | inr other ↦ elim (Bool-cases (u.active_state == str "inactive")) [
      | inl inactive ↦ rw (loaded, other, inactive) refl
      | inr changing ↦ elim (Bool-cases (u.sub_state == str "auto-restart")) [
        | inl restarts ↦ rw (loaded, other, changing, restarts) refl
        | inr unknown ↦ rw (loaded, other, changing, unknown) refl
      ]
    ]
  ]
]

-- For a unit whose properties are printed by the command, the status action prints the text of the
-- last state among them.
pub control_status-systemd_status :
    (ps : List (GoString × GoString))
    → All IsProperty ps
    → (control_status (systemd_status (ok (print_lines (map property_line ps))))).0
      ≡ described (record {
        load_state = last_value load_state_name ps [];
        active_state = last_value active_state_name ps [];
        sub_state = last_value sub_state_name ps [];
      })
unfolding systemd_status
control_status-systemd_status ps h = rw (parse_systemctl_show-print_lines ps h) (printed_for _)
