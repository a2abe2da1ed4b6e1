-- ===== src/Agdcslog/Darwin/Making.antt =====
-- A log of macOS is made with all of its processes, or none of them is left behind.
use mathlib.Core.List.{append-nil, append_assoc}
use ad_guard_dnscli.Base.{
  ◌≡◌, ◌↔◌, refl, ◌∙◌, sym, ap, inl, inr, Bool, true, false, ◌&&◌, Option, none, some, List, [],
  ◌∷◌, ◌++◌, arith, All, GoString, if◌then◌else◌, map, Bool-cases,
}
use ad_guard_dnscli.Errors.{Error, Result, ok, err, join, join_iff}
use ad_guard_dnscli.Golibs.{Golibs}
use ad_guard_dnscli.Agdcslog.Darwin.{
  Severity, sev_debug, sev_info, sev_warning, sev_error, started, closed_stdin, waited, Calls,
  Commands, DarwinLogger, created, creation_error, new_os_process, new_process, close_processes,
  close_system_logger, concluded, new_system_logger,
}

abbrev is_nil : Option Error → Bool
is_nil none = true
is_nil (some e) = false

abbrev pub severities : List Severity
severities = sev_debug ∷ sev_info ∷ sev_warning ∷ sev_error ∷ []

regrouped : (c a b x y : Calls) → (((c ++ a) ++ b) ++ x) ++ y ≡ c ++ (a ++ (b ++ (x ++ (y ++ []))))
regrouped c a b x y = simp (append_assoc, append-nil)

module _ (g : Golibs) (os : Commands) where
  -- The process of a severity can be created and started.
  abbrev pub starts : Severity → Bool
  starts sev = is_nil (os.new_error sev) && is_nil (os.start_error sev)

  abbrev launch : Severity → Calls
  launch s = if starts s then started s ∷ [] else []

  -- The calls that start the processes which can be started.
  abbrev pub starting : List Severity → Calls
  starting [] = []
  starting (s ∷ ss) = launch s ++ starting ss

  -- The calls that close the processes which have been started, and wait for them.
  abbrev pub stopping : List Severity → Calls
  stopping [] = []
  stopping (s ∷ ss) = (if starts s then closed_stdin s ∷ waited s ∷ [] else []) ++ stopping ss

  -- A logger has all processes, in the order of the severities; an error leaves none.
  abbrev pub IsMade : GoString → Calls → Calls × Result DarwinLogger → Type 0
  IsMade tag calls (calls', ok l) =
      All (λ s. starts s ≡ true) severities
      × (l ≡ record {
        tag = tag;
        debug = some sev_debug;
        info = some sev_info;
        warning = some sev_warning;
        error = some sev_error;
      })
      × (calls' ≡ calls ++ map started severities)
  IsMade tag calls (calls', err e) =
      (All (λ s. starts s ≡ true) severities → ⊥)
      × (calls' ≡ (calls ++ starting severities) ++ stopping severities)

  abbrev there_if : Bool → Severity → Option Severity
  there_if b s = if b then some s else none

  -- One process: the call that starts it, the pointer to it, and the error.
  record IsTried (sev : Severity) (calls : Calls) (b : Bool) (r : Calls × Result Severity)
      : Type 0 where
    calls_of : r.0 ≡ calls ++ (if b then started sev ∷ [] else [])
    pointer : created r.1 ≡ there_if b sev
    fine_iff : (creation_error sev r.1 ≡ none) ↔ (b ≡ true)

  new_process-IsTried :
      (sev : Severity) (calls : Calls) (e s : Option Error)
      → IsTried sev calls (is_nil e && is_nil s) (new_process g os sev calls e s)
  new_process-IsTried sev calls (some x) s = record {
    calls_of = sym (append-nil calls);
    pointer = refl;
    fine_iff = ground arith;
  }
  new_process-IsTried sev calls none (some x) = record {
    calls_of = sym (append-nil calls);
    pointer = refl;
    fine_iff = ground arith;
  }
  new_process-IsTried sev calls none none = record {
    calls_of = refl;
    pointer = refl;
    fine_iff = ground arith;
  }

  new_os_process-IsTried :
      (sev : Severity) (calls : Calls)
      → IsTried sev calls (starts sev) (new_os_process g os sev calls)
  unfolding new_os_process
  new_os_process-IsTried sev calls =
      new_process-IsTried sev calls (os.new_error sev) (os.start_error sev)

  abbrev closing : List (Option Severity) → Calls
  closing [] = []
  closing (none ∷ ps) = closing ps
  closing (some p ∷ ps) = closed_stdin p ∷ waited p ∷ closing ps

  calls-close_processes :
      (ps : List (Option Severity)) (calls : Calls)
      → (close_processes g os ps calls).0 ≡ calls ++ closing ps
  unfolding close_processes
  calls-close_processes [] calls = sym (append-nil calls)
  calls-close_processes (none ∷ ps) calls = calls-close_processes ps calls
  calls-close_processes (some p ∷ ps) calls =
      let stdin = closed_stdin p ∷ [] in
      let wait = waited p ∷ [] in
      calls-close_processes ps ((calls ++ stdin) ++ wait)
      ∙ append_assoc (calls ++ stdin) wait (closing ps)
      ∙ append_assoc calls stdin (wait ++ closing ps)

  closing-stopping :
      (ss : List Severity) → closing (map (λ s. there_if (starts s) s) ss) ≡ stopping ss
  closing-stopping [] = refl
  closing-stopping (s ∷ ss) = elim (Bool-cases (starts s)) [
    | inl b ↦ rw (b, closing-stopping ss) refl
    | inr b ↦ rw (b, closing-stopping ss) refl
  ]

  starting_all : (ss : List Severity) → All (λ s. starts s ≡ true) ss → starting ss ≡ map started ss
  starting_all [] h = refl
  starting_all (s ∷ ss) (p, h) = rw (p, starting_all ss h) refl

  -- The end of the constructor, by the pointers and the joined error.
  concluded-IsMade :
      (tag : GoString) (calls calls' : Calls) (d i w e : Option Severity) (joined : Option Error)
      → d ≡ there_if (starts sev_debug) sev_debug
      → i ≡ there_if (starts sev_info) sev_info
      → w ≡ there_if (starts sev_warning) sev_warning
      → e ≡ there_if (starts sev_error) sev_error
      → calls' ≡ calls ++ starting severities
      → ((joined ≡ none) ↔ All (λ s. starts s ≡ true) severities)
      → IsMade tag calls (
          concluded g os
            (record { tag = tag; debug = d; info = i; warning = w; error = e })
            calls'
            joined)
  unfolding close_system_logger
  concluded-IsMade tag calls calls' d i w e none hd hi hw he made fine =
      let all = fine.0 refl in
      (all, ground (arith, all), made ∙ ap (λ c. calls ++ c) (starting_all severities all))
  concluded-IsMade tag calls calls' d i w e (some x) hd hi hw he made fine =
      let ps = d ∷ i ∷ w ∷ e ∷ [] in
      let same : ps ≡ map (λ s. there_if (starts s) s) severities = rw (hd, hi, hw, he) refl in
      (
        (λ all. absurd (ground (arith, fine.1 all))),
        calls-close_processes ps calls'
            ∙ ap (λ ps. calls' ++ closing ps) same
            ∙ ap (λ c. calls' ++ c) (closing-stopping severities)
            ∙ ap (λ c. c ++ stopping severities) made,
      )

  -- Where a process cannot be created or started, an error is returned, and every process that has
  -- been started is closed and waited for; otherwise all four are started, and nothing else is done.
  pub new_system_logger-IsMade :
      (tag : GoString) (calls : Calls) → IsMade tag calls (new_system_logger g os tag calls)
  unfolding new_system_logger
  new_system_logger-IsMade tag calls =
      let rd = new_os_process g os sev_debug calls in
      let ri = new_os_process g os sev_info rd.0 in
      let rw' = new_os_process g os sev_warning ri.0 in
      let re = new_os_process g os sev_error rw'.0 in
      let d = new_os_process-IsTried sev_debug calls in
      let i = new_os_process-IsTried sev_info rd.0 in
      let w = new_os_process-IsTried sev_warning ri.0 in
      let e = new_os_process-IsTried sev_error rw'.0 in
      let errs =
        creation_error sev_debug rd.1
        ∷ creation_error sev_info ri.1
        ∷ creation_error sev_warning rw'.1
        ∷ creation_error sev_error re.1
        ∷ [] in
      concluded-IsMade tag calls re.0 (created rd.1) (created ri.1) (created rw'.1) (created re.1)
        (join errs) d.pointer i.pointer w.pointer e.pointer
        (e.calls_of
          ∙ ap (λ c. c ++ launch sev_error)
              (w.calls_of
                ∙ ap (λ c. c ++ launch sev_warning)
                    (i.calls_of ∙ ap (λ c. c ++ launch sev_info) d.calls_of))
          ∙ regrouped calls (launch sev_debug) (launch sev_info) (launch sev_warning)
              (launch sev_error))
        (
          (λ h.
              let all = (join_iff errs).0 h in
              (
                d.fine_iff.0 all.0,
                (i.fine_iff.0 all.1.0, (w.fine_iff.0 all.1.1.0, (e.fine_iff.0 all.1.1.1.0, tt))),
              )),
          (λ h. (join_iff errs).1 (
            d.fine_iff.1 h.0,
            (i.fine_iff.1 h.1.0, (w.fine_iff.1 h.1.1.0, (e.fine_iff.1 h.1.1.1.0, tt))),
          )),
        )
