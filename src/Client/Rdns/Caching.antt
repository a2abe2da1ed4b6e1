-- ===== src/Client/Rdns/Caching.antt =====
-- internal/client/rdnsidsource.go: what `Identify` registers, and what it keeps in the cache.
use ad_guard_dnscli.Base.{
  ◌++◌, ℕ, ◌+◌, suc, ◌≤◌, ◌≡◌, refl, ◌⊎◌, inl, inr, false, Bool-cases, Option, none, some,
  Option-cases, List, [], ◌∷◌, GoString, string_eq, arith, pos,
}
use ad_guard_dnscli.Base.GoMap.{lookup, insert}
use ad_guard_dnscli.Errors.{Error, Errs, wrapf, num, Result, ok, err, Result-cases}
use ad_guard_dnscli.Golibs.{Golibs}
use ad_guard_dnscli.Netip.{Addr}
use ad_guard_dnscli.Client.HumanId.{fqdn_to_human_id}
use ad_guard_dnscli.Client.HumanId.Laws.{IsHumanId, fqdn_to_human_id_valid}
use ad_guard_dnscli.Client.Autodevice.{ValidHumanId}
use ad_guard_dnscli.Client.Rdns.{
  Cache, Network, Response, Answer, ptr, other, ExistingIds, is_tracked, check_duplicates, ptr_ttl,
  registered, human_id_from_ptr, first_id, RdnsIdSource, keep_answer, human_id_from_response,
  received, send_dns_request, reply_from_cache, answered, identify_rdns, default_cache_ttl,
  rcode_success,
}

module _ (g : Golibs) where
  -- The identifier is valid, was free, and is tracked from now on, for some time.
  pub record Registers (now : ℕ) (ids ids' : ExistingIds) (id : GoString) (ttl : ℕ) : Type 0 where
    pub valid : IsHumanId g id
    pub free : is_tracked now (lookup id ids) ≡ false
    pub added : ids' ≡ insert id (now + ttl) ids
    pub lasts : 1 ≤ ttl

  -- What a registration leaves, whether it succeeds or not.
  abbrev pub Registered : ℕ → ExistingIds → ExistingIds × Result (GoString × ℕ) → Type 0
  Registered now ids (ids', ok (id, ttl)) = Registers now ids ids' id ttl
  Registered now ids (ids', err e) = ids' ≡ ids

  registered_lem :
      (id : GoString) (now ttl : ℕ) (ids : ExistingIds)
      → IsHumanId g id
      → 1 ≤ ttl
      → Registered now ids (registered g id ttl (check_duplicates id now ttl ids))
  unfolding check_duplicates
  registered_lem id now ttl ids valid lasts = elim (Bool-cases (is_tracked now (lookup id ids))) [
    | inl taken ↦ rw taken refl
    | inr free ↦ rw free (record { valid = valid; free = free; added = refl; lasts = lasts })
  ]

  human_id_from_ptr_lem :
      (name : GoString) (ttl now : ℕ) (ids : ExistingIds)
      → Registered now ids (human_id_from_ptr g name ttl now ids)
  unfolding human_id_from_ptr
  human_id_from_ptr_lem name ttl now ids =
      elim (Option-cases (g.not_zero "ptr ttl" (ptr_ttl ttl))) [
        | inr (e, zero) ↦ rw zero refl
        | inl nonzero ↦ elim (Result-cases (fqdn_to_human_id g name)) [
          | inl (id, valid) ↦
              rw (nonzero, valid)
                (registered_lem id now (ptr_ttl ttl) ids (fqdn_to_human_id_valid g name id valid).1
                  (ground (arith, (g.not_zero_iff "ptr ttl" (ptr_ttl ttl)).0 nonzero)))
          | inr (e, bad) ↦ rw (nonzero, bad) refl
        ]
      ]

  -- What the loop over the answers leaves.
  abbrev pub Found : ℕ → ExistingIds → ExistingIds × (Option (GoString × ℕ) × Errs) → Type 0
  Found now ids (ids', (some (id, ttl), errs)) = Registers now ids ids' id ttl
  Found now ids (ids', (none, errs)) = ids' ≡ ids

  first_id_lem :
      (i : ℕ) (answers : List Answer) (now : ℕ) (ids : ExistingIds) (errs : Errs)
      → Found now ids (first_id g i answers now ids errs)
  unfolding first_id
  first_id_lem i [] now ids errs = refl
  first_id_lem i (other ∷ answers) now ids errs = first_id_lem (suc i) answers now ids errs
  first_id_lem i (ptr name ttl ∷ answers) now ids errs =
      go (λ later. first_id_lem (suc i) answers now ids later)
        (human_id_from_ptr g name ttl now ids) (human_id_from_ptr_lem name ttl now ids)
    where
      go :
          ((later : Errs) → Found now ids (first_id g (suc i) answers now ids later))
          → (out : ExistingIds × Result (GoString × ℕ)) → Registered now ids out
          → Found now ids (
              let (ids', r) = out in
              let wrong : Error → Errs =
                λ e. errs ++ some (wrapf "answer: at index %d: %w" (num i ∷ []) e) ∷ [] in
              elim r [
                | ok found ↦ (ids', (some found, errs))
                | err e ↦ first_id g (suc i) answers now ids' (wrong e)
              ])
      go rest (ids', ok found) h = h
      go rest (ids', err e) h = rw h (rest _)

  module _ (c : Cache) (net : Network) where
    -- What a fresh answer of the source registers and stores.
    pub record Gives (address : Addr) (now : ℕ) (r r' : RdnsIdSource g c net) (hid : ValidHumanId)
        : Type 0 where
      pub ttl : ℕ
      pub until : hid.until ≡ now + ttl
      pub registers : Registers now r.existing_ids r'.existing_ids hid.id ttl
      pub stored : r'.cache ≡ c.set (net.addr_string address) (some hid) ttl now r.cache

    abbrev pub Answered :
        Addr → ℕ → RdnsIdSource g c net → RdnsIdSource g c net × Result ValidHumanId → Type 0
    Answered address now r (r', ok hid) = Gives address now r r' hid
    Answered address now r (r', err e) =
        ((r'.existing_ids ≡ r.existing_ids)
          × ((r'.cache ≡ r.cache)
              ⊎ (r'.cache ≡ c.set (net.addr_string address) none default_cache_ttl now r.cache)))

    keep_answer_lem :
        (address : Addr) (now : ℕ) (r : RdnsIdSource g c net)
        (found : ExistingIds × (Option (GoString × ℕ) × Errs))
        → Found now r.existing_ids found
        → Answered address now r (keep_answer g c net address now r.cache found)
    keep_answer_lem address now r (ids, (some (id, ttl), errs)) h = record {
      ttl = ttl;
      until = refl;
      registers = h;
      stored = refl;
    }
    keep_answer_lem address now r (ids, (none, errs)) h = (h, inr refl)

    answered_lem :
        (address : Addr) (now : ℕ) (r : RdnsIdSource g c net) (resp : Result Response)
        → Answered address now r
            (answered g c net address now (received g c net address now r resp))
    unfolding human_id_from_response
    answered_lem address now r (err e) = (refl, inl refl)
    answered_lem address now r (ok resp) =
        elim (Option-cases (g.equal "response code" (pos resp.rcode) (pos rcode_success))) [
          | inl good ↦
              rw good
                (keep_answer_lem address now r _ (first_id_lem 0 resp.answer now r.existing_ids []))
          | inr (e, bad) ↦ rw bad (refl, inr refl)
        ]

    -- When the cache has nothing for the address, an answer is an identifier that is valid, that was
    -- not tracked at that time, that lasts for a time after it, is tracked until then and is stored
    -- for that time; an error leaves the tracked identifiers as they are, and at most stores for the
    -- default time that the address has none.
    pub identify_rdns_lem :
        (address : Addr) (now : ℕ) (r : RdnsIdSource g c net)
        → reply_from_cache g c net address now r ≡ none
        → Answered address now r (identify_rdns g c net address now r)
    unfolding identify_rdns send_dns_request
    identify_rdns_lem address now r miss = rw miss (answered_lem address now r _)
