-- ===== src/Client/Queue/Steps.antt =====
-- What each operation of internal/client/queue.go does to a sound queue.
use ad_guard_dnscli.Base.{
  ℕ, suc, ◌+◌, ◌-◌, ◌<◌, ◌≡◌, inl, inr, true, false, Option, none, some, arith, Eq, ◌==◌, nat_eq,
  if◌then◌else◌, All-map, All-zip, Option-cases,
}
use ad_guard_dnscli.Base.GoMap.{lookup, insert, delete, lookup-insert, lookup-delete}
use ad_guard_dnscli.Errors.{Error}
use ad_guard_dnscli.Client.Queue.{
  QueueResult, Queue, leads, waits, set_cell, fresh_result, push, finish,
}
use ad_guard_dnscli.Client.Queue.Protocol.{State, IsSound, IsServed}

module _ {K V : Type 0} ⦃e : Eq K⦄ where
  -- What `push` does for a key that is not there, and for one that is.
  pub push-leads :
      (key : K) (q q' : Queue K V)
      → push key q ≡ (leads, q')
      → (lookup key q.map ≡ none)
        × (record q {
          cell = set_cell q.cell q.next fresh_result;
          next = suc q.next;
          map = insert key q.next q.map;
        }
            ≡ q')
  unfolding push
  push-leads key q q' h = ground arith

  pub push-waits :
      (key : K) (i : ℕ) (q q' : Queue K V)
      → push key q ≡ (waits i, q')
      → (lookup key q.map ≡ some i) × (q ≡ q')
  unfolding push
  push-waits key i q q' h = ground arith

  pub finish-some :
      (key : K) (res : Option V) (err : Option Error) (q q' : Queue K V)
      → finish key res err q ≡ some q'
      → (i : ℕ) × (lookup key q.map ≡ some i)
        × ((q.cell i).done ≡ false)
        × (record q {
          cell = set_cell q.cell i (record { done = true; res = res; err = err });
          map = delete key q.map;
        }
            ≡ q')
  unfolding finish
  finish-some key res err q q' h = elim (Option-cases (lookup key q.map)) [
    | inl e' ↦ absurd (ground arith)
    | inr (i, e') ↦ (i, e', ground arith, ground arith)
  ]

  pub lead-IsSound :
      (s : State K V) (key : K)
      → IsSound s
      → lookup key s.queue.map ≡ none
      → IsSound (record s {
        queue = record s.queue {
          cell = set_cell s.queue.cell s.queue.next fresh_result;
          next = suc s.queue.next;
          map = insert key s.queue.next s.queue.map;
        };
        leading = λ j. if key == j then s.leading j + 1 else s.leading j;
      })
  lead-IsSound s key v h = record {
    one_leader = λ k.
        ground
          (arith, lookup-insert key k s.queue.next s.queue.map, v.one_leader k, e.beq_iff key k);
    allocated =
        λ k i p. ground (arith, lookup-insert key k s.queue.next s.queue.map, v.allocated k i);
    is_open = λ k i p.
        ground
          (arith, lookup-insert key k s.queue.next s.queue.map, v.allocated k i, v.is_open k i);
    apart = λ k j i p p'. ground (
      arith,
      lookup-insert key k s.queue.next s.queue.map,
      lookup-insert key j s.queue.next s.queue.map,
      v.allocated k i,
      v.allocated j i,
      v.apart k j i,
      e.beq_iff key k,
      e.beq_iff key j,
    );
    used = All-map (λ w p. omega arith) s.waiting v.used;
    served =
        All-map
          (λ w (p : (w.1 < s.queue.next) × IsServed s.queue w).
            ground (arith, lookup-insert key w.0 s.queue.next s.queue.map, e.beq_iff key w.0))
          s.waiting (All-zip _ _ s.waiting v.used v.served);
  }

  pub complete-IsSound :
      (s : State K V) (key : K) (i : ℕ) (r : QueueResult V)
      → IsSound s
      → lookup key s.queue.map ≡ some i
      → r.done ≡ true
      → IsSound (record s {
        queue = record s.queue { cell = set_cell s.queue.cell i r; map = delete key s.queue.map };
        leading = λ j. if key == j then s.leading j - 1 else s.leading j;
      })
  complete-IsSound s key i r v h d = record {
    one_leader =
        λ k. ground (arith, lookup-delete key k s.queue.map, v.one_leader k, e.beq_iff key k);
    allocated = λ k n p. ground (arith, lookup-delete key k s.queue.map, v.allocated k n);
    is_open = λ k n p.
        ground
          (arith, lookup-delete key k s.queue.map, v.is_open k n, v.apart key k i, e.beq_iff key k);
    apart = λ k j n p p'.
        ground
          (arith, lookup-delete key k s.queue.map, lookup-delete key j s.queue.map, v.apart k j n);
    used = v.used;
    served =
        All-map
          (λ w (p : IsServed s.queue w).
            ground (arith, lookup-delete key w.0 s.queue.map, e.beq_iff key w.0))
          s.waiting v.served;
  }
