-- ===== src/Client/Storage/Exclusive.antt =====
-- No identifier is given to two addresses at the same time (`identify` and `cleanExpired`).
use ad_guard_dnscli.Base.{
  ℕ, ◌≤◌, ◌≡◌, ◌⊎◌, inl, inr, refl, ap, sym, subst, ◌∙◌, false, Option, none, some, List, [], ◌∷◌,
  arith, GoString, string_eq, ◌==◌, Bool-cases, if◌then◌else◌, ltb,
}
use ad_guard_dnscli.Base.GoMap.{IsMap, lookup, insert, lookup-insert}
use ad_guard_dnscli.Errors.{Error, Result, ok, err}
use ad_guard_dnscli.Netip.{Addr, addr_eq}
use ad_guard_dnscli.Client.Autodevice.{ValidHumanId}
use ad_guard_dnscli.Client.Storage.{
  HumanIdSource, Identity, Identified, leads, conflicts, register, Published, identify,
}
use ad_guard_dnscli.Client.Storage.Clean.{clean_identified}
use ad_guard_dnscli.Client.Storage.Cleaning.{
  IsRegistry, clean_identified-IsRegistry, clean_identified-lookup, insert-IsRegistry,
}

-- An identifier that was given to an address, and when.
pub record Issue : Type 0 where
  pub identity : Identity
  pub time : ℕ

-- The map, the issues with the newest first, and the time of the last step.
pub record State : Type 0 where
  pub identified : Identified
  pub history : List Issue
  pub clock : ℕ

-- The steps of the storage, in the order of their times `at`. Each reads the clock, at `now`, some
-- time before it locks the map, so that steps can overtake each other in between; an answer of the
-- source can be anything.
pub data Step : State → State → Type 0 where
  issues :
      {s : State} {m : Identified} {hid : ValidHumanId} {p : Published ValidHumanId}
      (source : HumanIdSource) (address : Addr) (now at : ℕ)
      → s.clock ≤ at
      → now ≤ at
      → identify source leads address now s.identified ≡ (m, ok hid, p)
      → Step s (record {
        identified = m;
        history =
            record { identity = record { address = address; hid = hid }; time = at } ∷ s.history;
        clock = at;
      })
  fails :
      {s : State} {m : Identified} {e : Error} {p : Published ValidHumanId} (source : HumanIdSource)
      (address : Addr) (now at : ℕ)
      → s.clock ≤ at
      → now ≤ at
      → identify source leads address now s.identified ≡ (m, err e, p)
      → Step s (record { identified = m; history = s.history; clock = at })
  cleans :
      {s : State} (now at : ℕ)
      → s.clock ≤ at
      → now ≤ at
      → Step s (record {
        identified = clean_identified s.identified now s.identified;
        history = s.history;
        clock = at;
      })

-- The last issue of an identifier.
unfoldable pub latest : GoString → List Issue → Option Issue
latest id [] = none
latest id (i ∷ is) = if i.identity.hid.id == id then some i else latest id is

-- Whenever an identifier is given to another address than before, it has expired by then.
pub data IsExclusive : List Issue → Type 0 where
  start : IsExclusive []
  next :
      {i : Issue} {is : List Issue}
      → IsExclusive is
      → ((j : Issue)
          → latest i.identity.hid.id is ≡ some j
          → (j.identity.address ≡ i.identity.address) ⊎ (j.identity.hid.until ≤ i.time))
      → IsExclusive (i ∷ is)

-- The map has the last issue of each identifier, if it has not expired.
pub record IsTracked (s : State) : Type 0 where
  pub registry : IsRegistry s.identified
  pub exclusive : IsExclusive s.history
  pub tracked :
      (id : GoString) (j : Issue)
      → latest id s.history ≡ some j
      → (lookup id s.identified ≡ some j.identity) ⊎ (j.identity.hid.until ≤ s.clock)

-- What a successful registration has checked and has written.
register-ok :
    (address : Addr) (now : ℕ) (m : Identified) (r : Result ValidHumanId) (hid : ValidHumanId)
    → (register address now m r).1 ≡ ok hid
    → (conflicts address now (lookup hid.id m) ≡ false)
      × ((register address now m r).0 ≡ insert hid.id (record { address = address; hid = hid }) m)
register-ok address now m (err e) hid h = absurd (ground arith)
register-ok address now m (ok v) hid h = elim (Bool-cases (conflicts address now (lookup v.id m))) [
  | inl bad ↦ absurd (ground (arith, rw bad at h))
  | inr fine ↦
      let same : v ≡ hid = ground (arith, rw fine at h) in
      subst
        (λ (x : ValidHumanId).
          (conflicts address now (lookup x.id m) ≡ false)
          × ((register address now m (ok v)).0
              ≡ insert x.id (record { address = address; hid = x }) m))
        same (fine, rw fine)
]

register-err :
    (address : Addr) (now : ℕ) (m : Identified) (r : Result ValidHumanId) (e : Error)
    → (register address now m r).1 ≡ err e
    → (register address now m r).0 ≡ m
register-err address now m (err x) e h = refl
register-err address now m (ok v) e h = elim (Bool-cases (conflicts address now (lookup v.id m))) [
  | inl bad ↦ rw bad
  | inr fine ↦ absurd (ground (arith, rw fine at h))
]

unconflicted :
    (address : Addr) (now : ℕ) (o : Option Identity) (x : Identity)
    → conflicts address now o ≡ false
    → o ≡ some x
    → (x.address ≡ address) ⊎ (x.hid.until ≤ now)
unconflicted address now none x h k = absurd (ground arith)
unconflicted address now (some y) x h k = elim (Bool-cases (y.address == address)) [
  | inl same ↦ inl (ground (arith, k, same, addr_eq.beq_iff y.address address))
  | inr other ↦ inr (ground (arith, k, h, other))
]

issue-IsTracked :
    (s : State) (address : Addr) (now at : ℕ) (hid : ValidHumanId)
    → s.clock ≤ at
    → now ≤ at
    → conflicts address now (lookup hid.id s.identified) ≡ false
    → IsTracked s
    → IsTracked (record {
      identified = insert hid.id (record { address = address; hid = hid }) s.identified;
      history =
          record { identity = record { address = address; hid = hid }; time = at } ∷ s.history;
      clock = at;
    })
unfolding latest
issue-IsTracked s address now at hid le early free t = record {
  registry = insert-IsRegistry (record { address = address; hid = hid }) s.identified t.registry;
  exclusive =
      next {i = record { identity = record { address = address; hid = hid }; time = at }}
        t.exclusive
        (λ j l. elim (t.tracked hid.id j l) [
          | inl there ↦
              elim (unconflicted address now (lookup hid.id s.identified) j.identity free there) [
                | inl same ↦ inl same
                | inr late ↦ inr (omega (arith, late, early))
              ]
          | inr late ↦ inr (omega (arith, late, le))
        ]);
  tracked = λ id j l. elim (Bool-cases (hid.id == id)) [
    | inl same ↦ inl (
        ground (
          arith,
          l,
          same,
          lookup-insert hid.id id (record { address = address; hid = hid }) s.identified,
        ))
    | inr other ↦ elim (t.tracked id j (ground (arith, l, other))) [
      | inl there ↦ inl (
          ground (
            arith,
            there,
            other,
            lookup-insert hid.id id (record { address = address; hid = hid }) s.identified,
          ))
      | inr late ↦ inr (omega (arith, late, le))
    ]
  ];
}

later-IsTracked :
    (s : State) (at : ℕ)
    → s.clock ≤ at
    → IsTracked s
    → IsTracked (record { identified = s.identified; history = s.history; clock = at })
later-IsTracked s at le t = record {
  registry = t.registry;
  exclusive = t.exclusive;
  tracked = λ id j l. elim (t.tracked id j l) [
    | inl there ↦ inl there
    | inr late ↦ inr (omega (arith, late, le))
  ];
}

cleaned-IsTracked :
    (s : State) (now at : ℕ)
    → s.clock ≤ at
    → now ≤ at
    → IsTracked s
    → IsTracked (record {
      identified = clean_identified s.identified now s.identified;
      history = s.history;
      clock = at;
    })
cleaned-IsTracked s now at le early t = record {
  registry = clean_identified-IsRegistry s.identified now t.registry;
  exclusive = t.exclusive;
  tracked = λ id j l.
      let cleaned = clean_identified-lookup s.identified now id t.registry.0 t.registry.1 in
      elim (t.tracked id j l) [
        | inl there ↦ elim (Bool-cases (ltb j.identity.hid.until now)) [
          | inl late ↦ inr (ground (arith, late, early))
          | inr live ↦ inl (ground (arith, there, live, cleaned))
        ]
        | inr late ↦ inr (omega (arith, late, le))
      ];
}

Step-IsTracked : {s s' : State} → Step s s' → IsTracked s → IsTracked s'
unfolding identify
Step-IsTracked {s = s} (issues {m = m} {hid = hid} source address now at le early h) t =
    let (free, e) = register-ok address now s.identified (source address) hid (ap (λ x. x.1) h) in
    subst
      (λ i. IsTracked (record {
        identified = i;
        history =
            record { identity = record { address = address; hid = hid }; time = at } ∷ s.history;
        clock = at;
      }))
      (sym e ∙ ap (λ x. x.0) h) (issue-IsTracked s address now at hid le early free t)
Step-IsTracked {s = s} (fails {m = m} {e = x} source address now at le early h) t =
    let e = register-err address now s.identified (source address) x (ap (λ y. y.1) h) in
    subst (λ i. IsTracked (record { identified = i; history = s.history; clock = at }))
      (sym e ∙ ap (λ x. x.0) h) (later-IsTracked s at le t)
Step-IsTracked {s = s} (cleans now at le early) t = cleaned-IsTracked s now at le early t

-- The states that the storage can get into.
pub data Reach : State → Type 0 where
  begin : Reach (record { identified = []; history = []; clock = 0 })
  after : {s s' : State} → Reach s → Step s s' → Reach s'

Reach-IsTracked : {s : State} → Reach s → IsTracked s
unfolding latest IsMap
Reach-IsTracked begin = record {
  registry = (tt, tt);
  exclusive = start;
  tracked = λ id j l. absurd (ground (arith, l));
}
Reach-IsTracked (after r st) = Step-IsTracked st (Reach-IsTracked r)

-- In each reachable state, for any answers of the source and any cleaning: when an identifier was
-- given to another address than the one that got it last, its last validity had ended by then.
pub Reach-IsExclusive : (s : State) → Reach s → IsExclusive s.history
Reach-IsExclusive s r = (Reach-IsTracked r).exclusive
