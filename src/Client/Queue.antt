-- ===== src/Client/Queue.antt =====
-- internal/client/queue.go: one operation at a time for each key, its result shared with the callers
-- that came while it was in progress. Results live on a heap, as goroutines hold pointers to them.
pub mod Protocol
pub mod Steps
pub mod Sharing
use ad_guard_dnscli.Base.{
  ℕ, suc, ◌+◌, Bool, true, false, Option, none, some, [], Eq, ◌==◌, nat_eq, if◌then◌else◌,
}
use ad_guard_dnscli.Base.GoMap.{GoMap, lookup, insert, delete}
use ad_guard_dnscli.Errors.{Error}

-- `done` tells whether the channel is closed.
pub record QueueResult (V : Type 0) : Type 0 where
  pub done : Bool
  pub res : Option V
  pub err : Option Error

pub record Queue (K V : Type 0) : Type 0 where
  pub cell : ℕ → QueueResult V
  pub next : ℕ
  pub map : GoMap K ℕ

-- What a caller does after `LoadOrStore`: run the operation, or wait for the result at a pointer.
pub data Pushed : Type 0 where
  leads : Pushed
  waits : ℕ → Pushed

abbrev pub fresh_result : {V : Type 0} → QueueResult V
fresh_result = record { done = false; res = none; err = none }

abbrev pub new_queue : {K V : Type 0} → Queue K V
new_queue = record { cell = λ _. fresh_result; next = 0; map = [] }

-- A write through a pointer.
abbrev pub set_cell : {V : Type 0} → (ℕ → QueueResult V) → ℕ → QueueResult V → ℕ → QueueResult V
set_cell cell i r j = if i == j then r else cell j

module _ {K V : Type 0} ⦃e : Eq K⦄ where
  abbrev load_or_store : K → Option ℕ → Queue K V → Pushed × Queue K V
  load_or_store key (some i) q = (waits i, q)
  load_or_store key none q = (
    leads,
    record q {
      cell = set_cell q.cell q.next fresh_result;
      next = suc q.next;
      map = insert key q.next q.map;
    },
  )

  -- `push` up to the point where it waits.
  unfoldable pub push : K → Queue K V → Pushed × Queue K V
  push key q = load_or_store key (lookup key q.map) q

  -- The rest of `push` for a caller that waits: `none` while the channel is open.
  unfoldable pub receive : ℕ → Queue K V → Option (Option V × Option Error)
  receive i q = if (q.cell i).done then some ((q.cell i).res, (q.cell i).err) else none

  abbrev close_result : K → Option V → Option Error → Option ℕ → Queue K V → Option (Queue K V)
  close_result key res err none q = none
  close_result key res err (some i) q =
      if (q.cell i).done
      then none
      else some (record q {
        cell = set_cell q.cell i (record { done = true; res = res; err = err });
        map = delete key q.map;
      })

  -- `done`; `none` is a panic: no result is queued, or its channel is closed already.
  unfoldable pub finish : K → Option V → Option Error → Queue K V → Option (Queue K V)
  finish key res err q = close_result key res err (lookup key q.map) q
