-- ===== src/Client/Queue/Protocol.antt =====
-- The goroutines around a queue of internal/client/queue.go, as steps of one of them at a time.
use ad_guard_dnscli.Base.{
  ℕ, ◌+◌, ◌-◌, ◌<◌, ◌≡◌, ◌⊎◌, refl, true, false, Option, none, some, List, [], ◌∷◌, ◌++◌, arith, Eq,
  ◌==◌, nat_eq, if◌then◌else◌, All,
}
use ad_guard_dnscli.Base.GoMap.{lookup}
use ad_guard_dnscli.Errors.{Error}
use ad_guard_dnscli.Client.Queue.{Queue, leads, waits, new_queue, push, finish}

-- `leading` counts the goroutines that must still call `done` for a key; `waiting` lists the
-- others with the pointer that each waits at.
pub record State (K V : Type 0) : Type 0 where
  pub queue : Queue K V
  pub leading : K → ℕ
  pub waiting : List (K × ℕ)

abbrev pub count : Option ℕ → ℕ
count none = 0
count (some i) = 1

module _ {K V : Type 0} ⦃e : Eq K⦄ where
  abbrev pub start : State K V
  start = record { queue = new_queue; leading = λ _. 0; waiting = [] }

  pub data Step : State K V → State K V → Type 0 where
    lead :
        {s : State K V} (key : K) (q : Queue K V)
        → push key s.queue ≡ (leads, q)
        → Step s (record s {
          queue = q;
          leading = λ j. if key == j then s.leading j + 1 else s.leading j;
        })
    wait :
        {s : State K V} (key : K) (i : ℕ) (q : Queue K V)
        → push key s.queue ≡ (waits i, q)
        → Step s (record s { queue = q; waiting = (key, i) ∷ s.waiting })
    complete :
        {s : State K V} (key : K) (res : Option V) (err : Option Error) (q : Queue K V)
        → 0 < s.leading key
        → finish key res err s.queue ≡ some q
        → Step s (record s {
          queue = q;
          leading = λ j. if key == j then s.leading j - 1 else s.leading j;
        })
    -- A goroutine has its result, or its context is done.
    leave :
        {s : State K V} (before : List (K × ℕ)) (w : K × ℕ) (after : List (K × ℕ))
        → s.waiting ≡ before ++ w ∷ after
        → Step s (record s { waiting = before ++ after })

  -- A waiting goroutine can go on, or the operation that it waits for is still in progress.
  abbrev pub IsServed : Queue K V → K × ℕ → Type 0
  IsServed q w = ((q.cell w.1).done ≡ true) ⊎ (lookup w.0 q.map ≡ some w.1)

  pub record IsSound (s : State K V) : Type 0 where
    pub one_leader : (k : K) → s.leading k ≡ count (lookup k s.queue.map)
    pub allocated : (k : K) (i : ℕ) → lookup k s.queue.map ≡ some i → i < s.queue.next
    pub is_open : (k : K) (i : ℕ) → lookup k s.queue.map ≡ some i → (s.queue.cell i).done ≡ false
    pub apart :
        (k j : K) (i : ℕ) → lookup k s.queue.map ≡ some i → lookup j s.queue.map ≡ some i → k ≡ j
    pub used : All (λ w. w.1 < s.queue.next) s.waiting
    pub served : All (IsServed s.queue) s.waiting

  pub start-IsSound : IsSound start
  unfolding lookup
  start-IsSound = record {
    one_leader = λ k. refl;
    allocated = λ k i h. absurd (ground arith);
    is_open = λ k i h. refl;
    apart = λ k j i h h'. absurd (ground arith);
    used = tt;
    served = tt;
  }
