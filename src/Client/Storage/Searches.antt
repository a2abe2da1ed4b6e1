-- ===== src/Client/Storage/Searches.antt =====
-- What a search for a client of an address leaves (`newAutodeviceOrStored`).
use ad_guard_dnscli.Base.{
  ℕ, ◌<◌, ◌≡◌, ◌≢◌, inl, inr, refl, ◌∙◌, Option, none, some, [], ◌∷◌, arith, ltb, Bool-cases,
  string_eq,
}
use ad_guard_dnscli.Base.GoMap.{lookup, delete, lookup-insert, lookup-delete}
use ad_guard_dnscli.Errors.{Error, Result, ok, err}
use ad_guard_dnscli.Netip.{Addr, addr_eq}
use ad_guard_dnscli.Client.Autodevice.{Upstreams, ValidHumanId, AutodeviceClient, StoredAutodevice}
use ad_guard_dnscli.Client.Storage.{
  HumanIdSource, Identified, Pushed, leads, Search, find_valid_autodevice_client, create_client,
  new_autodevice_or_stored, store, valid_client, create_after,
}

module _ (u : Upstreams) (source : HumanIdSource) (id_push : Pushed ValidHumanId) where
  -- What a search that leads does with the stored clients.
  pub record IsSearched (address : Addr) (now : ℕ) (sac : StoredAutodevice u) (m : Identified)
      (s : Search u) : Type 0 where
    -- The client that is returned is the one that is stored.
    pub kept : (c : AutodeviceClient u) → s.client ≡ ok c → lookup address s.stored.clients ≡ some c
    -- Without a client, none is stored.
    pub dropped : (e : Error) → s.client ≡ err e → lookup address s.stored.clients ≡ none
    -- A stored client that has not expired is returned, and nothing else changes.
    pub reused :
        (c : AutodeviceClient u)
        → lookup address sac.clients ≡ some c
        → now < c.valid_until
        → (s.client ≡ ok c) × (s.stored ≡ sac) × (s.identified ≡ m) × (s.finalized ≡ [])
    -- One that has expired is to be closed.
    pub expired :
        (c : AutodeviceClient u)
        → lookup address sac.clients ≡ some c
        → ¬ (now < c.valid_until)
        → s.finalized ≡ c.upstreams ∷ []
    -- Other addresses keep their clients.
    pub others : (a : Addr) → a ≢ address → lookup a s.stored.clients ≡ lookup a sac.clients

  store-lookup :
      (address a : Addr) (sac : StoredAutodevice u) (r : Result (AutodeviceClient u))
      (c : AutodeviceClient u)
      → r ≡ ok c
      → lookup address (store u address sac r).clients ≡ some c
  store-lookup address a sac (err e) c h = absurd (ground arith)
  store-lookup address a sac (ok auto) c h =
      ground
        (arith, h, lookup-insert address address auto sac.clients, addr_eq.beq_iff address address)

  store-others :
      (address a : Addr) (sac : StoredAutodevice u) (r : Result (AutodeviceClient u))
      → a ≢ address
      → lookup a (store u address sac r).clients ≡ lookup a sac.clients
  store-others address a sac (err e) ne = refl
  store-others address a sac (ok auto) ne =
      ground (arith, ne, lookup-insert address a auto sac.clients, addr_eq.beq_iff address a)

  store-none :
      (address : Addr) (sac : StoredAutodevice u) (r : Result (AutodeviceClient u)) (e : Error)
      → lookup address sac.clients ≡ none
      → r ≡ err e
      → lookup address (store u address sac r).clients ≡ none
  store-none address sac (err e) x h k = h
  store-none address sac (ok auto) x h k = absurd (ground arith)

  search-IsSearched :
      (address : Addr) (sac : StoredAutodevice u) (now : ℕ) (m : Identified)
      (o : Option (AutodeviceClient u))
      → lookup address sac.clients ≡ o
      → IsSearched address now sac m
          (create_after u source id_push address now m (valid_client u address sac now o))
  unfolding create_client
  search-IsSearched address sac now m none h = record {
    kept = λ c k. store-lookup address address sac _ c k;
    dropped = λ e k. store-none address sac _ e h k;
    reused = λ c k l. absurd (ground (arith, h, k));
    expired = λ c k l. absurd (ground (arith, h, k));
    others = λ a ne. store-others address a sac _ ne;
  }
  search-IsSearched address sac now m (some auto) h = elim (Bool-cases (ltb now auto.valid_until)) [
    | inl live ↦ rw live (record {
      kept = λ c k. ground (arith, h, k);
      dropped = λ e k. absurd (ground (arith, k));
      reused = λ c k l. (ground (arith, h, k), refl, refl, refl);
      expired = λ c k l. absurd (ground (arith, h, k, l, live));
      others = λ a ne. refl;
    })
    | inr late ↦
        let less : StoredAutodevice u = record sac { clients = delete address sac.clients } in
        let gone : lookup address less.clients ≡ none =
          ground
            (arith, lookup-delete address address sac.clients, addr_eq.beq_iff address address) in
        rw late (record {
          kept = λ c k. store-lookup address address less _ c k;
          dropped = λ e k. store-none address less _ e gone k;
          reused = λ c k l. absurd (ground (arith, h, k, l, late));
          expired = λ c k l. ground (arith, h, k);
          others = λ a ne.
              store-others address a less _ ne
              ∙ ground (arith, ne, lookup-delete address a sac.clients, addr_eq.beq_iff address a);
        })
  ]

  -- A search that leads returns the client that it leaves stored for the address, or an error and
  -- none is stored; a stored client that has not expired is returned, and nothing changes; one that
  -- has expired is given to the finalizer; and other addresses keep their clients.
  pub new_autodevice_or_stored-IsSearched :
      (address : Addr) (sac : StoredAutodevice u) (now : ℕ) (m : Identified)
      → IsSearched address now sac m
          (new_autodevice_or_stored u source id_push leads address sac now m)
  unfolding new_autodevice_or_stored find_valid_autodevice_client
  new_autodevice_or_stored-IsSearched address sac now m =
      search-IsSearched address sac now m (lookup address sac.clients) refl
