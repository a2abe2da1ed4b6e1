-- ===== src/Tests/Services.antt =====
-- The services of the program and of the operating system at concrete values.
use ad_guard_dnscli.Base.{
  ℕ, ◌≡◌, refl, true, none, some, List, [], ◌∷◌, map, All, GoString, str, arith, bytes_eq,
  string_eq,
}
use ad_guard_dnscli.Errors.{ok, errorf, join}
use ad_guard_dnscli.Netip.{v4}
use ad_guard_dnscli.Cmd.Config.{IpPortConfig}
use ad_guard_dnscli.Cmd.Service.Lines.{print_lines}
use ad_guard_dnscli.Cmd.Service.Status.{status_running}
use ad_guard_dnscli.Cmd.Service.Systemd.{
  parse_systemctl_show, status_from_state, load_state_name, active_state_name, sub_state_name,
}
use ad_guard_dnscli.Cmd.Service.Systemd.Printing.{
  IsProperty, property_line, last_value, parse_systemctl_show-print_lines,
}
use ad_guard_dnscli.Cmd.Service.Control.{OsService, set_action, Controls, set_action-control}
use ad_guard_dnscli.Cmd.Service.Shutdown.{shutdown}
use ad_guard_dnscli.Cmd.Service.Start.{
  debug_svc, closers, client_storage, dns_svc, Parts, Handler, returned, start_program,
}
use ad_guard_dnscli.Cmd.Service.Start.Order.{Resolved, debug_first, start_program-shutdown}
use ad_guard_dnscli.Cmd.Service.Stopping

abbrev printed : List (GoString × GoString)
printed = (str "LoadState", str "loaded") ∷ (str "ActiveState", str "active") ∷ []

printed_properties : All IsProperty printed
printed_properties = (loaded, (active, tt))
  where
    loaded : IsProperty (str "LoadState", str "loaded")
    loaded = record {
      name = ground arith;
      ends = ground arith;
      returns = ground arith;
      short = omega arith;
    }

    active : IsProperty (str "ActiveState", str "active")
    active = record {
      name = ground arith;
      ends = ground arith;
      returns = ground arith;
      short = omega arith;
    }

parse_systemctl_show-print_lines_example :
    parse_systemctl_show (print_lines (map property_line printed))
    ≡ status_from_state (record {
      load_state = last_value load_state_name printed [];
      active_state = last_value active_state_name printed [];
      sub_state = last_value sub_state_name printed [];
    })
parse_systemctl_show-print_lines_example =
    parse_systemctl_show-print_lines printed printed_properties

abbrev pub os_service : OsService
os_service = record {
  install = none;
  uninstall = none;
  start = some (errorf "denied" []);
  stop = none;
  restart = none;
  status = ok status_running;
}

start_accepted : set_action (str "start") ≡ ok (str "start")
unfolding set_action bytes_eq
start_accepted = refl

set_action-control_example : (str "start" ≡ str "start") × Controls os_service (str "start")
set_action-control_example =
    set_action-control os_service (str "start") (str "start") start_accepted

abbrev server : IpPortConfig
server = record { ip = v4 134_744_072; port = 53 }

abbrev parts : Parts ℕ
parts = record {
  new_resolver = λ c. ok c.port;
  pprof_enabled = true;
  debug_start = none;
  new_upstreams = none;
  storage_start = none;
  new_dns_svc = none;
  dns_start = none;
}

abbrev running : Handler ℕ
running = record { services = debug_svc ∷ closers (53 ∷ []) ∷ client_storage ∷ dns_svc ∷ [] }

program_started : start_program ℕ parts (server ∷ []) ≡ returned running none
unfolding start_program join
program_started = refl

start_program-shutdown_example :
    (rs : List ℕ) × Resolved ℕ parts.new_resolver (server ∷ []) rs
    × ((shutdown (λ s. none) running).0
        ≡ dns_svc ∷ client_storage ∷ closers rs ∷ debug_first ℕ parts.pprof_enabled)
start_program-shutdown_example =
    start_program-shutdown ℕ parts (server ∷ []) running (λ s. none) program_started

-- `Stop` has been called, and the shutdown has panicked.
abbrev panicked : Stopping.State
panicked = record { done_closed = true; handling = Stopping.ended; stopping = Stopping.receives }

panicked_reached : Stopping.Reach Stopping.panics panicked
panicked_reached =
    Stopping.next (Stopping.next (Stopping.next Stopping.here Stopping.calls) Stopping.wakes)
      (Stopping.recovers refl)

Reach-Stands_example : Stopping.Stands Stopping.panics panicked
Reach-Stands_example = Stopping.Reach-Stands Stopping.panics panicked panicked_reached
