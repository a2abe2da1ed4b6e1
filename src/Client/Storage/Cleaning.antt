-- ===== src/Client/Storage/Cleaning.antt =====
-- What `cleanExpired` removes, and what it keeps.
use ad_guard_dnscli.Base.{
  ℕ, ◌≡◌, inl, inr, refl, subst, Option, none, some, [], ◌∷◌, arith, ltb, Bool-cases, Option-cases,
  All, GoString, string_eq, ◌==◌, bytes_eq_iff, if◌then◌else◌,
}
use ad_guard_dnscli.Base.GoMap.{
  GoMap, lookup, insert, delete, insert-IsMap, lookup-delete, IsMap, delete-IsMap,
}
use ad_guard_dnscli.Netip.{Addr, addr_eq}
use ad_guard_dnscli.Client.Autodevice.{Upstreams, AutodeviceClient, StoredAutodevice}
use ad_guard_dnscli.Client.Storage.{Identified, Identity}
use ad_guard_dnscli.Client.Storage.Clean.{delete_expired, clean_expired_clients, clean_identified}

-- Each identity is stored at its own identifier.
abbrev pub IsKeyed : Identified → Type 0
IsKeyed m = All (λ (kv : GoString × Identity). kv.1.hid.id ≡ kv.0) m

-- What a removal at `now` leaves of an entry.
abbrev pub unexpired : ℕ → Option Identity → Option Identity
unexpired now none = none
unexpired now (some x) = if ltb x.hid.until now then none else some x

abbrev left : ℕ → Option Identity → Option Identity → Option Identity
left now none o = o
left now (some x) o = if ltb x.hid.until now then none else o

clean_loop-lookup :
    (rest : Identified) (now : ℕ) (m : Identified) (id : GoString)
    → IsMap rest
    → IsKeyed rest
    → lookup id (clean_identified rest now m) ≡ left now (lookup id rest) (lookup id m)
unfolding clean_identified lookup IsMap
clean_loop-lookup [] now m id h k = refl
clean_loop-lookup ((key, x) ∷ rest) now m id (h, hs) (k, ks) =
    let later = clean_loop-lookup rest now m id hs ks in
    let later' = clean_loop-lookup rest now (delete x.hid.id m) id hs ks in
    elim (Bool-cases (key == id)) [
      | inl same ↦
          let gone : lookup id rest ≡ none =
            subst (λ i. lookup i rest ≡ none) ((bytes_eq_iff key id).0 same) h in
          ground (
            arith,
            same,
            gone,
            k,
            later,
            later',
            lookup-delete key id m,
            lookup-delete x.hid.id id m,
            bytes_eq_iff x.hid.id id,
            bytes_eq_iff key id,
          )
      | inr other ↦ ground (
        arith,
        other,
        k,
        later,
        later',
        lookup-delete x.hid.id id m,
        bytes_eq_iff x.hid.id id,
        bytes_eq_iff key id,
      )
    ]

-- In a map in which each identity is at its own identifier, the removal deletes exactly the identities that have expired before `now`.
pub clean_identified-lookup :
    (m : Identified) (now : ℕ) (id : GoString)
    → IsMap m
    → IsKeyed m
    → lookup id (clean_identified m now m) ≡ unexpired now (lookup id m)
clean_identified-lookup m now id h k =
    ground (arith, clean_loop-lookup m now m id h k, Option-cases (lookup id m))

clean_loop-IsMap :
    (rest : Identified) (now : ℕ) (m : Identified) → IsMap m → IsMap (clean_identified rest now m)
unfolding clean_identified
clean_loop-IsMap [] now m h = h
clean_loop-IsMap ((key, x) ∷ rest) now m h = elim (Bool-cases (ltb x.hid.until now)) [
  | inl late ↦ rw late (clean_loop-IsMap rest now (delete x.hid.id m) (delete-IsMap x.hid.id m h))
  | inr live ↦ rw live (clean_loop-IsMap rest now m h)
]

delete-IsKeyed : (id : GoString) (m : Identified) → IsKeyed m → IsKeyed (delete id m)
unfolding delete
delete-IsKeyed id [] h = tt
delete-IsKeyed id ((key, x) ∷ m) (h, hs) = elim (Bool-cases (key == id)) [
  | inl same ↦ rw same (delete-IsKeyed id m hs)
  | inr other ↦ rw other (h, delete-IsKeyed id m hs)
]

clean_loop-IsKeyed :
    (rest : Identified) (now : ℕ) (m : Identified)
    → IsKeyed m
    → IsKeyed (clean_identified rest now m)
unfolding clean_identified
clean_loop-IsKeyed [] now m h = h
clean_loop-IsKeyed ((key, x) ∷ rest) now m h = elim (Bool-cases (ltb x.hid.until now)) [
  | inl late ↦
      rw late (clean_loop-IsKeyed rest now (delete x.hid.id m) (delete-IsKeyed x.hid.id m h))
  | inr live ↦ rw live (clean_loop-IsKeyed rest now m h)
]

-- The map of identities: no repeated keys, and each identity at its own identifier.
abbrev pub IsRegistry : Identified → Type 0
IsRegistry m = IsMap m × IsKeyed m

pub clean_identified-IsRegistry :
    (m : Identified) (now : ℕ) → IsRegistry m → IsRegistry (clean_identified m now m)
clean_identified-IsRegistry m now (h, k) =
    (clean_loop-IsMap m now m h, clean_loop-IsKeyed m now m k)

insert-IsKeyed :
    (id : GoString) (x : Identity) (m : Identified)
    → x.hid.id ≡ id
    → IsKeyed m
    → IsKeyed (insert id x m)
unfolding insert
insert-IsKeyed id x [] h k = (h, tt)
insert-IsKeyed id x ((key, y) ∷ m) h (k, ks) = elim (Bool-cases (key == id)) [
  | inl same ↦ rw same (h, ks)
  | inr other ↦ rw other (k, insert-IsKeyed id x m h ks)
]

pub insert-IsRegistry :
    (x : Identity) (m : Identified) → IsRegistry m → IsRegistry (insert x.hid.id x m)
insert-IsRegistry x m (h, k) = (insert-IsMap x.hid.id x m h, insert-IsKeyed x.hid.id x m refl k)

module _ (u : Upstreams) where
  abbrev pub live_client : ℕ → Option (AutodeviceClient u) → Option (AutodeviceClient u)
  live_client now none = none
  live_client now (some c) = if ltb now c.valid_until then some c else none

  abbrev remaining :
      ℕ → Option (AutodeviceClient u) → Option (AutodeviceClient u) → Option (AutodeviceClient u)
  remaining now none o = o
  remaining now (some c) o = if ltb now c.valid_until then o else none

  delete_loop-lookup :
      (rest : GoMap Addr (AutodeviceClient u)) (now : ℕ) (m : GoMap Addr (AutodeviceClient u))
      (a : Addr)
      → IsMap rest
      → lookup a (delete_expired u rest now m) ≡ remaining now (lookup a rest) (lookup a m)
  unfolding delete_expired lookup IsMap
  delete_loop-lookup [] now m a h = refl
  delete_loop-lookup ((key, x) ∷ rest) now m a (h, hs) =
      let later = delete_loop-lookup rest now m a hs in
      let later' = delete_loop-lookup rest now (delete key m) a hs in
      elim (Bool-cases (key == a)) [
        | inl same ↦
            let gone : lookup a rest ≡ none =
              subst (λ i. lookup i rest ≡ none) ((addr_eq.beq_iff key a).0 same) h in
            ground (arith, same, gone, later, later', lookup-delete key a m)
        | inr other ↦ ground (arith, other, later, later', lookup-delete key a m)
      ]

  -- Where no address has two clients, the removal of expired clients keeps exactly those that are
  -- valid after `now`.
  pub clean_expired_clients-lookup :
      (c : StoredAutodevice u) (now : ℕ) (a : Addr)
      → IsMap c.clients
      → lookup a (clean_expired_clients u c now).clients ≡ live_client now (lookup a c.clients)
  unfolding clean_expired_clients
  clean_expired_clients-lookup c now a h =
      ground
        (arith, delete_loop-lookup c.clients now c.clients a h, Option-cases (lookup a c.clients))
