-- ===== src/Cmd/Service/Status.antt =====
-- internal/cmd/osservice.go: the status of the service.
use ad_guard_dnscli.Base.{ℕ}

-- `service.Status`, a number.
abbrev pub Status : Type 0
Status = ℕ

abbrev pub status_unknown : Status
status_unknown = 0

abbrev pub status_running : Status
status_running = 1

abbrev pub status_stopped : Status
status_stopped = 2

-- `statusRestartOnFail`.
abbrev pub status_restart_on_fail : Status
status_restart_on_fail = 3
