-- ===== src/Cmd/Service/Stopping.antt =====
-- internal/cmd/program.go and servicehandler.go: `Stop` and the goroutine of `handle`, which meet on
-- the channels `done` and `errCh`. The error channel has no buffer.
use ad_guard_dnscli.Base.{ℕ, ◌+◌, ◌<◌, ◌≤◌, ◌≡◌, refl, Bool, true, false, Option, arith}
use ad_guard_dnscli.Errors.{Error}

-- What the goroutine of `handle` does: it waits for the shutdown signal, shuts the services down,
-- sends the error, and ends.
pub data Handling : Type 0 where
  waits : Handling
  shuts : Handling
  sends : Option Error → Handling
  ended : Handling

-- What the caller of `Stop` does: it has not called it, it waits for the error, or it has it.
pub data Stopping : Type 0 where
  idle : Stopping
  receives : Stopping
  returned : Option Error → Stopping

pub record State : Type 0 where
  pub done_closed : Bool
  pub handling : Handling
  pub stopping : Stopping

abbrev pub started : State
started = record { done_closed = false; handling = waits; stopping = idle }

-- How a call of `shutdown` ends.
pub data Shutdown : Type 0 where
  returns : Option Error → Shutdown
  panics : Shutdown

-- The steps, where `end` is how `shutdown` ends.
pub data Step (end : Shutdown) : State → State → Type 0 where
  -- `close(prog.done)`.
  calls :
      {c : Bool} {h : Handling}
      → Step end
          (record { done_closed = c; handling = h; stopping = idle })
          (record { done_closed = true; handling = h; stopping = receives })
  -- `<-h.done` returns on the closed channel.
  wakes :
      {s : Stopping}
      → Step end
          (record { done_closed = true; handling = waits; stopping = s })
          (record { done_closed = true; handling = shuts; stopping = s })
  -- `h.shutdown` returns.
  shuts_down :
      {c : Bool} {s : Stopping} {e : Option Error}
      → end ≡ returns e
      → Step end
          (record { done_closed = c; handling = shuts; stopping = s })
          (record { done_closed = c; handling = sends e; stopping = s })
  -- `h.shutdown` panics, and the deferred `RecoverAndLog` ends the goroutine without a send.
  recovers :
      {c : Bool} {s : Stopping}
      → end ≡ panics
      → Step end
          (record { done_closed = c; handling = shuts; stopping = s })
          (record { done_closed = c; handling = ended; stopping = s })
  -- The send on `errCh` meets the receive.
  hands_over :
      {c : Bool} {e : Option Error}
      → Step end
          (record { done_closed = c; handling = sends e; stopping = receives })
          (record { done_closed = c; handling = ended; stopping = returned e })

pub data Reach (end : Shutdown) : State → Type 0 where
  here : Reach end started
  next : {s s' : State} → Reach end s → Step end s s' → Reach end s'

-- The steps that are left at most.
abbrev pub handling_left : Handling → ℕ
handling_left waits = 3
handling_left shuts = 2
handling_left (sends e) = 1
handling_left ended = 0

abbrev pub stopping_left : Stopping → ℕ
stopping_left idle = 1
stopping_left _ = 0

abbrev pub left : State → ℕ
left s = handling_left s.handling + stopping_left s.stopping

-- The states that can be reached: the signal is there once `Stop` is called, and the goroutine ends
-- with the caller's receive, which gets the result of the shutdown, or with a panic.
data IsPhase (end : Shutdown) : State → Type 0 where
  before : IsPhase end started
  called : IsPhase end (record { done_closed = true; handling = waits; stopping = receives })
  shutting : IsPhase end (record { done_closed = true; handling = shuts; stopping = receives })
  sending :
      {e : Option Error}
      → end ≡ returns e
      → IsPhase end (record { done_closed = true; handling = sends e; stopping = receives })
  lost :
      end ≡ panics
      → IsPhase end (record { done_closed = true; handling = ended; stopping = receives })
  over :
      {e : Option Error}
      → end ≡ returns e
      → IsPhase end (record { done_closed = true; handling = ended; stopping = returned e })

Step-IsPhase : (end : Shutdown) (s s' : State) → Step end s s' → IsPhase end s → IsPhase end s'
Step-IsPhase end s s' calls before = called
Step-IsPhase end s s' wakes called = shutting
Step-IsPhase end s s' (shuts_down is) shutting = sending is
Step-IsPhase end s s' (recovers is) shutting = lost is
Step-IsPhase end s s' hands_over (sending is) = over is

Reach-IsPhase : (end : Shutdown) (s : State) → Reach end s → IsPhase end s
Reach-IsPhase end s here = before
Reach-IsPhase end s (next r step) = Step-IsPhase end _ s step (Reach-IsPhase end _ r)

-- Each step leaves fewer steps.
pub Step-left : (end : Shutdown) (s s' : State) → Step end s s' → left s' < left s
Step-left end s s' calls = omega arith
Step-left end s s' wakes = omega arith
Step-left end s s' (shuts_down is) = omega arith
Step-left end s s' (recovers is) = omega arith
Step-left end s s' hands_over = omega arith

-- Where a call of `Stop` stands: it has not been made, it has the result of a shutdown that has
-- returned, it waits for ever after one that has panicked, or there is a step, and each step leaves
-- fewer steps.
pub data Stands (end : Shutdown) (s : State) : Type 0 where
  not_called : s.stopping ≡ idle → s.handling ≡ waits → Stands end s
  has_result :
      (e : Option Error)
      → end ≡ returns e
      → s.stopping ≡ returned e
      → s.handling ≡ ended
      → Stands end s
  blocked :
      end ≡ panics
      → s.stopping ≡ receives
      → s.handling ≡ ended
      → ((s' : State) → ¬ Step end s s')
      → Stands end s
  runs :
      s.stopping ≡ receives
      → left s ≤ 3
      → (s' : State) × Step end s s'
      → ((s' : State) → Step end s s' → left s' < left s)
      → Stands end s

no-Step :
    (c : Bool) (end : Shutdown) (s' : State)
    → ¬ Step end (record { done_closed = c; handling = ended; stopping = receives }) s'
no-Step c end s' step = elim step [ ]

-- In a state that can be reached, `Stop` has not been called, or it has returned the result of a
-- shutdown that returns, or it waits for ever, as the shutdown has panicked and the goroutine has
-- ended without a send, or it waits and there is a step, of at most three that are left, and each
-- step leaves fewer. A shutdown that neither returns nor panics is not considered.
pub Reach-Stands : (end : Shutdown) (s : State) → Reach end s → Stands end s
Reach-Stands end s r = go end s (Reach-IsPhase end s r)
  where
    shutting_runs :
        (end : Shutdown)
        → Stands end (record { done_closed = true; handling = shuts; stopping = receives })
    shutting_runs (returns e) = runs refl (omega arith) (_, shuts_down refl) (Step-left _ _)
    shutting_runs panics = runs refl (omega arith) (_, recovers refl) (Step-left _ _)

    go : (end : Shutdown) (s : State) → IsPhase end s → Stands end s
    go end _ before = not_called refl refl
    go end _ called = runs refl (omega arith) (_, wakes) (Step-left end _)
    go end _ shutting = shutting_runs end
    go end _ (sending is) = runs refl (omega arith) (_, hands_over) (Step-left end _)
    go end _ (lost is) = blocked is refl refl (no-Step true end)
    go end _ (over is) = has_result _ is refl refl
