-- ===== src/Client/Queue/Sharing.antt =====
-- No goroutine around a queue of internal/client/queue.go panics or waits in vain.
use ad_guard_dnscli.Base.{
  ℕ, ◌+◌, ◌-◌, ◌≤◌, ◌<◌, ◌≡◌, ◌≢◌, ◌⊎◌, inl, inr, refl, true, Option, none, some, ◌∷◌, subst, ap,
  arith, Eq, ◌==◌, nat_eq, if◌then◌else◌, All, All-map, All-remove, Option-cases,
}
use ad_guard_dnscli.Base.GoMap.{lookup}
use ad_guard_dnscli.Errors.{Error}
use ad_guard_dnscli.Client.Queue.{Queue, receive, finish}
use ad_guard_dnscli.Client.Queue.Protocol.{
  State, Step, lead, wait, complete, leave, start, start-IsSound, IsSound, IsServed,
}
use ad_guard_dnscli.Client.Queue.Steps.{
  push-leads, push-waits, finish-some, lead-IsSound, complete-IsSound,
}

module _ {K V : Type 0} ⦃e : Eq K⦄ where
  -- Every step of a goroutine keeps the queue sound.
  pub Step-IsSound : {s t : State K V} → Step s t → IsSound s → IsSound t
  Step-IsSound (lead {s} key q h) v =
      let (missing, same) = push-leads key s.queue q h in
      subst
        (λ q'. IsSound (record s {
          queue = q';
          leading = λ j. if key == j then s.leading j + 1 else s.leading j;
        }))
        same (lead-IsSound s key v missing)
  Step-IsSound (wait {s} key i q h) v =
      let (present, same) = push-waits key i s.queue q h in
      subst (λ q'. IsSound (record s { queue = q'; waiting = (key, i) ∷ s.waiting })) same
        (record {
          one_leader = v.one_leader;
          allocated = v.allocated;
          is_open = v.is_open;
          apart = v.apart;
          used = (v.allocated key i present, v.used);
          served = (inr present, v.served);
        })
  Step-IsSound (complete {s} key res err q busy h) v =
      let (i, present, _, same) = finish-some key res err s.queue q h in
      subst
        (λ q'. IsSound (record s {
          queue = q';
          leading = λ j. if key == j then s.leading j - 1 else s.leading j;
        }))
        same (complete-IsSound s key i _ v present refl)
  Step-IsSound (leave {s} before w after h) v = record {
    one_leader = v.one_leader;
    allocated = v.allocated;
    is_open = v.is_open;
    apart = v.apart;
    used = All-remove (λ w'. w'.1 < s.queue.next) before w after (rw h at (v.used));
    served = All-remove (IsServed s.queue) before w after (rw h at (v.served));
  }

  -- The states that goroutines can bring about.
  pub data Reach : State K V → Type 0 where
    here : Reach start
    next : {s t : State K V} → Reach s → Step s t → Reach t

  pub Reach-IsSound : {s : State K V} → Reach s → IsSound s
  Reach-IsSound here = start-IsSound
  Reach-IsSound (next r st) = Step-IsSound st (Reach-IsSound r)

  -- At any time a key has one goroutine at most that runs its operation, and when that goroutine
  -- calls `done`, there is no panic.
  pub one_operation :
      (s : State K V) (key : K) (res : Option V) (err : Option Error)
      → Reach s
      → (s.leading key ≤ 1) × (0 < s.leading key → finish key res err s.queue ≢ none)
  unfolding finish
  one_operation s key res err r =
      let v = Reach-IsSound r in
      let n = v.one_leader key in
      elim (Option-cases (lookup key s.queue.map)) [
        | inl m ↦ (ground arith, (λ b. absurd (ground arith)))
        | inr (i, m) ↦ (ground arith, (λ b q. absurd (ground (arith, v.is_open key i m))))
      ]

  -- What a waiting goroutine can rely on.
  abbrev pub GetsResult : State K V → K × ℕ → Type 0
  GetsResult s w =
      ((s.queue.cell w.1).done ≡ true)
      ⊎ ((s.leading w.0 ≡ 1)
          × ((res : Option V) (err : Option Error) (q : Queue K V)
              → finish w.0 res err s.queue ≡ some q
              → receive w.1 q ≡ some (res, err)))

  gets_result : (s : State K V) (w : K × ℕ) → IsSound s → IsServed s.queue w → GetsResult s w
  unfolding receive
  gets_result s w v (inl d) = inl d
  gets_result s w v (inr m) = inr (
    ground (arith, v.one_leader w.0),
    λ res err q h.
        let (i, present, _, same) = finish-some w.0 res err s.queue q h in
        ground (arith, ap (λ (q' : Queue K V). q'.cell w.1) same),
  )

  -- No goroutine waits in vain: its channel is closed already, or exactly one other goroutine runs
  -- the operation for its key, and the result which that one hands to `done` is what it receives.
  pub no_lost_result : (s : State K V) → Reach s → All (GetsResult s) s.waiting
  no_lost_result s r =
      let v = Reach-IsSound r in All-map (λ w p. gets_result s w v p) s.waiting v.served
