-- ===== src/Client/Rdns/Replies.antt =====
-- internal/client/rdnsidsource.go: the replies from the cache, and the callback of its evictions.
use ad_guard_dnscli.Base.{
  ℕ, ◌+◌, ◌≤◌, ◌<◌, ◌≡◌, ◌≢◌, refl, ap, ◌∙◌, subst, inl, inr, true, false, Option, none, some, pos,
  Option-cases, GoString, string_eq, eq_refl, arith,
}
use ad_guard_dnscli.Base.GoMap.{lookup, insert, lookup-insert, lookup-delete}
use ad_guard_dnscli.Errors.{Error, Errs, Result, ok, err}
use ad_guard_dnscli.Golibs.{Golibs}
use ad_guard_dnscli.Netip.{Addr}
use ad_guard_dnscli.Client.Autodevice.{ValidHumanId}
use ad_guard_dnscli.Client.Rdns.{
  Cache, Network, ExistingIds, is_tracked, check_duplicates, on_evicted, RdnsIdSource,
  reply_from_cache, no_valid_response, keep_answer, human_id_from_response, send_dns_request,
  Response, rcode_success, identify_rdns, default_cache_ttl,
}
use ad_guard_dnscli.Client.Rdns.Caching.{Answered, Gives, identify_rdns_lem}

module _ (g : Golibs) (c : Cache) (net : Network) where
  -- Identifications of addresses that have other texts than `address`.
  pub data Others (address : Addr) : RdnsIdSource g c net → RdnsIdSource g c net → Type 0 where
    done : {r : RdnsIdSource g c net} → Others address r r
    next :
        {r r' : RdnsIdSource g c net} (asked : Addr) (at : ℕ)
        → net.addr_string asked ≢ net.addr_string address
        → Others address (identify_rdns g c net asked at r).0 r'
        → Others address r r'

  hit :
      (address : Addr) (now : ℕ) (r : RdnsIdSource g c net) (kept : Option ValidHumanId)
      → reply_from_cache g c net address now r ≡ some kept
      → (identify_rdns g c net address now r).0 ≡ r
  unfolding identify_rdns
  hit address now r none found = rw found refl
  hit address now r (some hid) found = rw found refl

  Answered-get_other :
      (address asked : Addr) (at later : ℕ) (r : RdnsIdSource g c net)
      (out : RdnsIdSource g c net × Result ValidHumanId)
      → net.addr_string asked ≢ net.addr_string address
      → Answered g c net asked at r out
      → reply_from_cache g c net address later out.0 ≡ reply_from_cache g c net address later r
  unfolding reply_from_cache
  Answered-get_other address asked at later r (r', ok hid) differ gives =
      rw gives.stored (c.get-set_other _ _ (some hid) gives.ttl at later r.cache differ)
  Answered-get_other address asked at later r (r', err e) differ (_, inl same) = rw same refl
  Answered-get_other address asked at later r (r', err e) differ (_, inr same) =
      rw same (c.get-set_other _ _ none default_cache_ttl at later r.cache differ)

  identify_rdns-get_other :
      (address asked : Addr) (at later : ℕ) (r : RdnsIdSource g c net)
      → net.addr_string asked ≢ net.addr_string address
      → reply_from_cache g c net address later (identify_rdns g c net asked at r).0
        ≡ reply_from_cache g c net address later r
  identify_rdns-get_other address asked at later r differ =
      elim (Option-cases (reply_from_cache g c net asked at r)) [
        | inl miss ↦
            Answered-get_other address asked at later r _ differ
              (identify_rdns_lem g c net asked at r miss)
        | inr (kept, found) ↦
            ap (reply_from_cache g c net address later) (hit asked at r kept found)
      ]

  Others-get :
      (address : Addr) (later : ℕ) (r r' : RdnsIdSource g c net)
      → Others address r r'
      → reply_from_cache g c net address later r' ≡ reply_from_cache g c net address later r
  Others-get address later r r' done = refl
  Others-get address later r r' (next asked at differ rest) =
      Others-get address later _ r' rest ∙ identify_rdns-get_other address asked at later r differ

  reply_stored :
      (address : Addr) (now later : ℕ) (r r' : RdnsIdSource g c net) (v : Option ValidHumanId)
      (ttl : ℕ)
      → r'.cache ≡ c.set (net.addr_string address) v ttl now r.cache
      → now ≤ later
      → later ≤ now + ttl
      → reply_from_cache g c net address later r' ≡ some v
  unfolding reply_from_cache
  reply_stored address now later r r' v ttl stored after bound =
      rw stored (c.get-set _ v ttl now later r.cache after bound)

  reply_known :
      (address : Addr) (now : ℕ) (r : RdnsIdSource g c net) (hid : ValidHumanId)
      → reply_from_cache g c net address now r ≡ some (some hid)
      → identify_rdns g c net address now r ≡ (r, ok hid)
  unfolding identify_rdns
  reply_known address now r hid found = rw found refl

  reply_refused :
      (address : Addr) (now : ℕ) (r : RdnsIdSource g c net)
      → reply_from_cache g c net address now r ≡ some none
      → identify_rdns g c net address now r ≡ (r, err no_valid_response)
  unfolding identify_rdns
  reply_refused address now r found = rw found refl

  -- An error has been stored.
  abbrev Kept :
      Addr → ℕ → RdnsIdSource g c net → RdnsIdSource g c net × Result ValidHumanId → Type 0
  Kept address now r (r', ok hid) = Unit
  Kept address now r (r', err e) =
      r'.cache ≡ c.set (net.addr_string address) none default_cache_ttl now r.cache

  keep_answer-Kept :
      (address : Addr) (now : ℕ) (r : RdnsIdSource g c net)
      (found : ExistingIds × (Option (GoString × ℕ) × Errs))
      → Kept address now r (keep_answer g c net address now r.cache found)
  keep_answer-Kept address now r (ids, (some (id, ttl), errs)) = tt
  keep_answer-Kept address now r (ids, (none, errs)) = refl

  identify_rdns-Kept :
      (address : Addr) (now : ℕ) (r : RdnsIdSource g c net) (name : GoString) (resp : Response)
      → reply_from_cache g c net address now r ≡ none
      → net.reversed address ≡ ok name
      → net.exchange name now ≡ ok resp
      → Kept address now r (identify_rdns g c net address now r)
  unfolding identify_rdns send_dns_request human_id_from_response
  identify_rdns-Kept address now r name resp miss reversed answer =
      elim (Option-cases (g.equal "response code" (pos resp.rcode) (pos rcode_success))) [
        | inl good ↦ rw (miss, reversed, answer, good) (keep_answer-Kept address now r _)
        | inr (e, bad) ↦ rw (miss, reversed, answer, bad) refl
      ]

  -- Once an address has an answer that was not in the cache, it has the same one until that is no
  -- longer valid, whatever other addresses are identified in between, and asking again changes
  -- nothing.
  pub identify_rdns-again :
      (address : Addr) (now later : ℕ) (hid : ValidHumanId) (r r' r'' : RdnsIdSource g c net)
      → reply_from_cache g c net address now r ≡ none
      → identify_rdns g c net address now r ≡ (r', ok hid)
      → Others address r' r''
      → now ≤ later
      → later ≤ hid.until
      → identify_rdns g c net address later r'' ≡ (r'', ok hid)
  identify_rdns-again address now later hid r r' r'' miss gave others after valid =
      let gives : Gives g c net address now r r' hid =
        subst (Answered g c net address now r) gave
          (identify_rdns_lem g c net address now r miss) in
      let bound : later ≤ now + gives.ttl = omega (arith, valid, gives.until) in
      reply_known address later r'' hid (
        Others-get address later r' r'' others
        ∙ reply_stored address now later r r' (some hid) gives.ttl gives.stored after bound)

  -- Once the DNS has answered for an address that was not in the cache, but with no identifier, the
  -- address has none for the default time, whatever other addresses are identified in between, and
  -- asking again changes nothing.
  pub identify_rdns-none_again :
      (address : Addr) (now later : ℕ) (e : Error) (name : GoString) (resp : Response)
      (r r' r'' : RdnsIdSource g c net)
      → reply_from_cache g c net address now r ≡ none
      → net.reversed address ≡ ok name
      → net.exchange name now ≡ ok resp
      → identify_rdns g c net address now r ≡ (r', err e)
      → Others address r' r''
      → now ≤ later
      → later ≤ now + default_cache_ttl
      → identify_rdns g c net address later r'' ≡ (r'', err no_valid_response)
  identify_rdns-none_again address now later e name resp r r' r'' miss reversed answer gave others
        after bound =
      reply_refused address later r'' (
        Others-get address later r' r'' others
        ∙ reply_stored address now later r r' none default_cache_ttl
            (subst (Kept address now r) gave
              (identify_rdns-Kept address now r name resp miss reversed answer))
            after bound)

-- An eviction of an identifier that has expired can come after another address has got it: then a
-- third address gets it too, while the second's is valid.
pub on_evicted-check_duplicates :
    (id : GoString) (first_until second_now ttl third_now : ℕ) (ids : ExistingIds)
    → lookup id ids ≡ some first_until
    → first_until ≤ second_now
    → second_now ≤ third_now
    → third_now < second_now + ttl
    → let (tracked, given) = check_duplicates id second_now ttl ids in
      let evicted : ExistingIds =
        on_evicted (some (record { until = first_until; id = id })) tracked in
      (given ≡ none)
      × (is_tracked third_now (lookup id tracked) ≡ true)
      × ((check_duplicates id third_now ttl evicted).1 ≡ none)
unfolding check_duplicates on_evicted
on_evicted-check_duplicates id first_until second_now ttl third_now ids was expired after before =
    let free : is_tracked second_now (lookup id ids) ≡ false = ground (arith, was) in
    rw free (
      refl,
      ground (arith, lookup-insert id id (second_now + ttl) ids, eq_refl id),
      ground (arith, lookup-delete id id (insert id (second_now + ttl) ids), eq_refl id),
    )
