-- ===== src/Cmd/Service/Systemd/Printing.antt =====
-- internal/cmd/service_linux.go: the properties that `systemctl show` prints are the ones read.
use ad_guard_dnscli.Base.{
  ◌<◌, ◌≡◌, ◌≢◌, refl, sym, ap, ◌∙◌, inl, inr, Bool-cases, false, List, [], ◌∷◌, ◌++◌, map, All,
  GoString, string_eq, bytes_eq_iff, beq-false, ◌==◌, leb, arith, length, if◌then◌else◌,
}
use ad_guard_dnscli.Errors.{ok}
use ad_guard_dnscli.Cmd.Service.Lines.{
  max_scan_token_size, print_lines, Without, raw_lines-print_lines, cut-append, drop_cr_lem,
}
use ad_guard_dnscli.Cmd.Service.Systemd.{
  UnitState, load_state_name, active_state_name, sub_state_name, with_property, read_lines,
  status_from_state, parse_systemctl_show,
}

abbrev pub property_line : GoString × GoString → GoString
property_line (name, v) = name ++ b'=' ∷ v

-- A property whose line can be printed and is short enough for the scanner.
pub record IsProperty (p : GoString × GoString) : Type 0 where
  pub name : Without b'=' p.0
  pub ends : Without b'\n' (property_line p)
  pub returns : Without b'\r' (property_line p)
  pub short : length (property_line p) < max_scan_token_size

-- The last value of a property, if it is there.
unfoldable pub last_value : GoString → List (GoString × GoString) → GoString → GoString
last_value name [] before = before
last_value name ((n, v) ∷ ps) before = last_value name ps (if n == name then v else before)

abbrev pub state_after : List (GoString × GoString) → UnitState → UnitState
state_after ps u = record {
  load_state = last_value load_state_name ps u.load_state;
  active_state = last_value active_state_name ps u.active_state;
  sub_state = last_value sub_state_name ps u.sub_state;
}

ends_of :
    (ps : List (GoString × GoString))
    → All IsProperty ps
    → All (Without b'\n') (map property_line ps)
ends_of [] h = tt
ends_of (p ∷ ps) (h, hs) = (h.ends, ends_of ps hs)

load_is_not_active : load_state_name ≢ active_state_name
load_is_not_active e = ground (arith, e)

load_is_not_sub : load_state_name ≢ sub_state_name
load_is_not_sub e = ground (arith, e)

active_is_not_sub : active_state_name ≢ sub_state_name
active_is_not_sub e = ground (arith, e)

with_property_lem :
    (name v : GoString) (ps : List (GoString × GoString)) (u : UnitState)
    → state_after ps (with_property name v u) ≡ state_after ((name, v) ∷ ps) u
unfolding with_property last_value
with_property_lem name v ps u = elim (Bool-cases (name == load_state_name)) [
  | inl load ↦
      let is : name ≡ load_state_name = (bytes_eq_iff name load_state_name).0 load in
      rw
        (
          load,
          beq-false name active_state_name (λ e. load_is_not_active (sym is ∙ e)),
          beq-false name sub_state_name (λ e. load_is_not_sub (sym is ∙ e)),
        )
        refl
  | inr other ↦ elim (Bool-cases (name == active_state_name)) [
    | inl active ↦
        let is : name ≡ active_state_name = (bytes_eq_iff name active_state_name).0 active in
        rw (other, active, beq-false name sub_state_name (λ e. active_is_not_sub (sym is ∙ e))) refl
    | inr inactive ↦ elim (Bool-cases (name == sub_state_name)) [
      | inl sub ↦ rw (other, inactive, sub) refl
      | inr unknown ↦ rw (other, inactive, unknown) refl
    ]
  ]
]

read_lines-property_line :
    (ps : List (GoString × GoString)) (u : UnitState)
    → All IsProperty ps
    → read_lines (map property_line ps) u ≡ ok (state_after ps u)
unfolding read_lines last_value
read_lines-property_line [] u h = refl
read_lines-property_line ((name, v) ∷ ps) u (h, hs) =
    let fits : leb max_scan_token_size (length (property_line (name, v))) ≡ false =
      ground (arith, h.short) in
    rw (fits, drop_cr_lem (property_line (name, v)) h.returns, cut-append name v h.name)
      (read_lines-property_line ps (with_property name v u) hs
        ∙ ap ok (with_property_lem name v ps u))

-- Printed properties are read back: the status comes from the last value of each of the three
-- properties, and an empty value for one that is not printed.
pub parse_systemctl_show-print_lines :
    (ps : List (GoString × GoString))
    → All IsProperty ps
    → parse_systemctl_show (print_lines (map property_line ps))
      ≡ status_from_state (record {
        load_state = last_value load_state_name ps [];
        active_state = last_value active_state_name ps [];
        sub_state = last_value sub_state_name ps [];
      })
unfolding parse_systemctl_show
parse_systemctl_show-print_lines ps h =
    rw
      (raw_lines-print_lines (map property_line ps) (ends_of ps h), read_lines-property_line ps _ h)
      refl
