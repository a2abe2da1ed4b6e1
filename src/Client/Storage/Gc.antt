-- ===== src/Client/Storage/Gc.antt =====
-- `runGC` of internal/client/defaultstorage.go: the goroutine that collects garbage.
use ad_guard_dnscli.Base.{
  ℕ, ◌≡◌, inl, inr, refl, ap, ◌∙◌, Bool, true, false, Option, List, [], ◌∷◌, GoString, string_eq,
  ltb, Bool-cases, All,
}
use ad_guard_dnscli.Base.GoMap.{GoMap, lookup, IsMap, delete-IsMap}
use ad_guard_dnscli.Netip.{Addr, addr_eq}
use ad_guard_dnscli.Client.Autodevice.{Upstreams, AutodeviceClient, StoredAutodevice}
use ad_guard_dnscli.Client.Storage.{Identity}
use ad_guard_dnscli.Client.Storage.Clean.{delete_expired, clean_each}
use ad_guard_dnscli.Client.Storage.Cleaning.{
  unexpired, live_client, clean_expired_clients-lookup, clean_identified-lookup, IsRegistry,
  clean_identified-IsRegistry,
}
use ad_guard_dnscli.Client.Storage.Default.{DefaultStorage, clean_expired}

-- The cases of the loop's `select`: a tick of the clock at a time, the end of the context, and the
-- channel that `Shutdown` closes.
pub data Selected : Type 0 where
  after : ℕ → Selected
  ctx_done : Selected
  gc_done : Selected

-- The times at which garbage is collected before the loop ends.
abbrev pub collections : List Selected → List ℕ
collections [] = []
collections (after now ∷ es) = now ∷ collections es
collections (ctx_done ∷ es) = []
collections (gc_done ∷ es) = []

-- What is left of an identity after collections at some times.
abbrev pub left_identity : List ℕ → Option Identity → Option Identity
left_identity [] o = o
left_identity (now ∷ times) o = left_identity times (unexpired now o)

module _ (u : Upstreams) where
  -- The loop by the cases that it selects: the storage, and whether the goroutine has returned.
  unfoldable pub run_gc : List Selected → DefaultStorage u → DefaultStorage u × Bool
  run_gc [] d = (d, false)
  run_gc (after now ∷ es) d = run_gc es (clean_expired u d now)
  run_gc (ctx_done ∷ es) d = (d, true)
  run_gc (gc_done ∷ es) d = (d, true)

  -- What is left of a client after collections at some times.
  abbrev pub left_client : List ℕ → Option (AutodeviceClient u) → Option (AutodeviceClient u)
  left_client [] o = o
  left_client (now ∷ times) o = left_client times (live_client u now o)

  delete_loop-IsMap :
      (rest : GoMap Addr (AutodeviceClient u)) (now : ℕ) (m : GoMap Addr (AutodeviceClient u))
      → IsMap m
      → IsMap (delete_expired u rest now m)
  unfolding delete_expired
  delete_loop-IsMap [] now m h = h
  delete_loop-IsMap ((key, x) ∷ rest) now m h = elim (Bool-cases (ltb now x.valid_until)) [
    | inl live ↦ rw live (delete_loop-IsMap rest now m h)
    | inr late ↦ rw late (delete_loop-IsMap rest now _ (delete-IsMap key m h))
  ]

  -- No address has two clients in one group, and the identities are well-formed.
  pub record IsStore (d : DefaultStorage u) : Type 0 where
    pub maps : All (λ (c : StoredAutodevice u). IsMap c.clients) d.autodevice
    pub registry : IsRegistry d.identified

  clean_each-maps :
      (cs : List (StoredAutodevice u)) (now : ℕ)
      → All (λ (c : StoredAutodevice u). IsMap c.clients) cs
      → All (λ (c : StoredAutodevice u). IsMap c.clients) (clean_each u cs now)
  unfolding clean_each
  clean_each-maps [] now h = tt
  clean_each-maps (c ∷ cs) now (h, hs) =
      (delete_loop-IsMap c.clients now c.clients h, clean_each-maps cs now hs)

  clean_expired-IsStore :
      (d : DefaultStorage u) (now : ℕ) → IsStore d → IsStore (clean_expired u d now)
  unfolding clean_expired
  clean_expired-IsStore d now s = record {
    maps = clean_each-maps d.autodevice now s.maps;
    registry = clean_identified-IsRegistry d.identified now s.registry;
  }

  -- A group after collections at some times: nothing but its clients has changed.
  pub record IsLeft (times : List ℕ) (c c' : StoredAutodevice u) : Type 0 where
    pub same : c' ≡ record c { clients = c'.clients }
    pub left : (a : Addr) → lookup a c'.clients ≡ left_client times (lookup a c.clients)

  -- The groups after collections at some times, in the same order.
  abbrev pub AreLeft : List ℕ → List (StoredAutodevice u) → List (StoredAutodevice u) → Type 0
  AreLeft times [] [] = Unit
  AreLeft times (c ∷ cs) [] = ⊥
  AreLeft times [] (c' ∷ cs') = ⊥
  AreLeft times (c ∷ cs) (c' ∷ cs') = IsLeft times c c' × AreLeft times cs cs'

  AreLeft-refl : (cs : List (StoredAutodevice u)) → AreLeft [] cs cs
  AreLeft-refl [] = tt
  AreLeft-refl (c ∷ cs) = (record { same = refl; left = λ a. refl }, AreLeft-refl cs)

  clean_each-AreLeft :
      (cs cs' : List (StoredAutodevice u)) (now : ℕ) (times : List ℕ)
      → All (λ (c : StoredAutodevice u). IsMap c.clients) cs
      → AreLeft times (clean_each u cs now) cs'
      → AreLeft (now ∷ times) cs cs'
  unfolding clean_each
  clean_each-AreLeft [] [] now times h l = tt
  clean_each-AreLeft [] (c' ∷ cs') now times h l = l
  clean_each-AreLeft (c ∷ cs) [] now times h l = l
  clean_each-AreLeft (c ∷ cs) (c' ∷ cs') now times (h, hs) (l, ls) = (
    record {
      same = l.same;
      left = λ a. l.left a ∙ ap (left_client times) (clean_expired_clients-lookup u c now a h);
    },
    clean_each-AreLeft cs cs' now times hs ls,
  )

  -- The storage after collections at some times.
  pub record IsCollected (times : List ℕ) (d d' : DefaultStorage u) : Type 0 where
    pub devices : AreLeft times d.autodevice d'.autodevice
    pub identities :
        (id : GoString) → lookup id d'.identified ≡ left_identity times (lookup id d.identified)
    pub static_kept : d'.static ≡ d.static

  kept : (d : DefaultStorage u) → IsCollected [] d d
  kept d = record {
    devices = AreLeft-refl d.autodevice;
    identities = λ id. refl;
    static_kept = refl;
  }

  cleaned :
      (d : DefaultStorage u) (now : ℕ)
      → IsStore d
      → (times : List ℕ) (d' : DefaultStorage u) → IsCollected times (clean_expired u d now) d'
      → IsCollected (now ∷ times) d d'
  unfolding clean_expired
  cleaned d now s times d' rest = record {
    devices = clean_each-AreLeft d.autodevice d'.autodevice now times s.maps rest.devices;
    identities = λ id.
        rest.identities id
        ∙ ap (left_identity times)
            (clean_identified-lookup d.identified now id s.registry.0 s.registry.1);
    static_kept = rest.static_kept;
  }

  -- The garbage collection, whatever its loop selects, takes exactly what has expired at one of the
  -- times at which it has collected before its end: of the clients those that are not valid after
  -- the time, of the identities those that were only valid before. All else stays.
  pub run_gc-IsCollected :
      (es : List Selected) (d : DefaultStorage u)
      → IsStore d
      → IsCollected (collections es) d (run_gc es d).0
  unfolding run_gc
  run_gc-IsCollected [] d s = kept d
  run_gc-IsCollected (after now ∷ es) d s =
      let rest = run_gc-IsCollected es (clean_expired u d now) (clean_expired-IsStore d now s) in
      cleaned d now s _ _ rest
  run_gc-IsCollected (ctx_done ∷ es) d s = kept d
  run_gc-IsCollected (gc_done ∷ es) d s = kept d
