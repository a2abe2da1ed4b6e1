-- ===== src/Client/Rdns.antt =====
-- internal/client/rdnsidsource.go: identifiers from the names that PTR records give to addresses.
-- Times and durations are in nanoseconds. The cache of go-cache, the DNS messages and their exchange
-- are parameters.
pub mod Caching
pub mod Replies
use ad_guard_dnscli.Base.{
  ℕ, suc, ◌+◌, ◌*◌, ◌≤◌, ◌≡◌, ◌≢◌, Bool, true, false, Option, none, some, List, [], ◌∷◌, ◌++◌,
  GoString, String, string_eq, ltb, nat_beq, if◌then◌else◌, pos,
}
use ad_guard_dnscli.Base.GoMap.{GoMap, lookup, insert, delete}
use ad_guard_dnscli.Errors.{
  Error, Errs, errorf, wrapf, sentinel, no_value, duplicated, text, num, addr, Result, ok, err,
  ◌>>=◌, ◌>>◌, check, wrap, join,
}
use ad_guard_dnscli.Golibs.{Golibs}
use ad_guard_dnscli.Netip.{Addr}
use ad_guard_dnscli.Client.HumanId.{fqdn_to_human_id}
use ad_guard_dnscli.Client.Autodevice.{ValidHumanId}

abbrev pub second : ℕ
second = 1_000_000_000

abbrev pub default_cache_ttl : ℕ
default_cache_ttl = 300 * second

-- `cache.Cache`: an item that is set is found until its time to live has passed, and other keys are
-- not affected.
pub record Cache : Type 1 where
  pub Store : Type 0
  pub get : GoString → ℕ → Store → Option (Option ValidHumanId)
  pub set : GoString → Option ValidHumanId → ℕ → ℕ → Store → Store
  pub get-set :
      (key : GoString) (v : Option ValidHumanId) (ttl now later : ℕ) (s : Store)
      → now ≤ later
      → later ≤ now + ttl
      → get key later (set key v ttl now s) ≡ some v
  pub get-set_other :
      (key other : GoString) (v : Option ValidHumanId) (ttl now later : ℕ) (s : Store)
      → key ≢ other
      → get other later (set key v ttl now s) ≡ get other later s

-- A record of a response: a PTR record with its name and time to live, or any other.
pub data Answer : Type 0 where
  ptr : (name : GoString) (ttl : ℕ) → Answer
  other : Answer

pub record Response : Type 0 where
  pub rcode : ℕ
  pub answer : List Answer

-- `dns.RcodeSuccess`.
abbrev pub rcode_success : ℕ
rcode_success = 0

-- `addr.String()`, `dns.Fqdn(netutil.IPToReversedAddr(…))` and the exchange, at some time, of a
-- question for the PTR records of a name.
pub record Network : Type 0 where
  pub addr_string : Addr → GoString
  pub reversed : Addr → Result GoString
  pub exchange : GoString → ℕ → Result Response

-- The times until which the identifiers are tracked.
abbrev pub ExistingIds : Type 0
ExistingIds = GoMap GoString ℕ

abbrev pub is_tracked : ℕ → Option ℕ → Bool
is_tracked now none = false
is_tracked now (some until) = ltb now until

unfoldable pub check_duplicates : GoString → ℕ → ℕ → ExistingIds → ExistingIds × Option Error
check_duplicates id now ttl ids =
    if is_tracked now (lookup id ids)
    then (ids, some (sentinel duplicated))
    else (insert id (now + ttl) ids, none)

-- The callback of `OnEvicted`.
unfoldable pub on_evicted : Option ValidHumanId → ExistingIds → ExistingIds
on_evicted none ids = ids
on_evicted (some hid) ids = delete hid.id ids

-- `time.Duration(ptr.Hdr.Ttl) * time.Second`.
unfoldable pub ptr_ttl : ℕ → ℕ
ptr_ttl ttl = ttl * second

abbrev pub no_valid_response : Error
no_valid_response = errorf "no valid response was received from dns" []

module _ (g : Golibs) where
  abbrev pub registered :
      GoString → ℕ → ExistingIds × Option Error → ExistingIds × Result (GoString × ℕ)
  registered id ttl (ids, none) = (ids, ok (id, ttl))
  registered id ttl (ids, some e) = (ids, err (wrapf "human id %q: %w" (text id ∷ []) e))

  abbrev pub from_id : ℕ → ℕ → ExistingIds → Result GoString → ExistingIds × Result (GoString × ℕ)
  from_id now ttl ids (err e) = (ids, err e)
  from_id now ttl ids (ok id) = registered id ttl (check_duplicates id now ttl ids)

  -- `validate.NotEmpty` on a duration is `NotZero`.
  unfoldable pub human_id_from_ptr :
      GoString → ℕ → ℕ → ExistingIds → ExistingIds × Result (GoString × ℕ)
  unfolding check_duplicates ptr_ttl
  human_id_from_ptr name ttl now ids = from_id now (ptr_ttl ttl) ids (do
    check (g.not_zero "ptr ttl" (ptr_ttl ttl))
    wrap "converting fqdn: %w" [] (fqdn_to_human_id g name))

  -- The loop over the answers, from the index `i` on: the identifier and its time to live of the
  -- first record that gives one, or the errors.
  unfoldable pub first_id :
      ℕ → List Answer → ℕ → ExistingIds → Errs → ExistingIds × (Option (GoString × ℕ) × Errs)
  unfolding human_id_from_ptr
  first_id i [] now ids errs = (ids, (none, errs))
  first_id i (other ∷ answers) now ids errs = first_id (suc i) answers now ids errs
  first_id i (ptr name ttl ∷ answers) now ids errs =
      let (ids', r) = human_id_from_ptr name ttl now ids in
      let wrong : Error → Errs =
        λ e. errs ++ some (wrapf "answer: at index %d: %w" (num i ∷ []) e) ∷ [] in
      elim r [
        | ok found ↦ (ids', (some found, errs))
        | err e ↦ first_id (suc i) answers now ids' (wrong e)
      ]

  module _ (c : Cache) (net : Network) where
    pub record RdnsIdSource : Type 0 where
      pub existing_ids : ExistingIds
      pub cache : c.Store

    abbrev none_found : Addr → Errs → Option Error → Error
    none_found address errs none =
        wrapf "ptr responses for %s: %w" (addr address ∷ []) (sentinel no_value)
    none_found address errs (some e) = wrapf "ptr responses for %s: %w" (addr address ∷ []) e

    -- `humanIDFromResponse` after its loop.
    abbrev pub keep_answer :
        Addr
        → ℕ
        → c.Store
        → ExistingIds × (Option (GoString × ℕ) × Errs)
        → RdnsIdSource × Result ValidHumanId
    keep_answer address now store (ids, (some (id, ttl), errs)) =
        let hid : ValidHumanId = record { until = now + ttl; id = id } in
        (
          record {
            existing_ids = ids;
            cache = c.set (net.addr_string address) (some hid) ttl now store;
          },
          ok hid,
        )
    keep_answer address now store (ids, (none, errs)) = (
      record {
        existing_ids = ids;
        cache = c.set (net.addr_string address) none default_cache_ttl now store;
      },
      err (none_found address errs (join errs)),
    )

    unfoldable pub human_id_from_response :
        Response → Addr → ℕ → RdnsIdSource → RdnsIdSource × Result ValidHumanId
    unfolding first_id
    human_id_from_response resp address now r =
        keep_answer address now r.cache (first_id 0 resp.answer now r.existing_ids [])

    abbrev pub checked_response :
        Addr → ℕ → RdnsIdSource → Response → Option Error → RdnsIdSource × Result Response
    checked_response address now r resp none = (r, ok resp)
    checked_response address now r resp (some e) = (
      record r { cache = c.set (net.addr_string address) none default_cache_ttl now r.cache },
      err e,
    )

    abbrev pub received : Addr → ℕ → RdnsIdSource → Result Response → RdnsIdSource × Result Response
    received address now r (err e) = (r, err e)
    received address now r (ok resp) =
        checked_response address now r resp
          (g.equal "response code" (pos resp.rcode) (pos rcode_success))

    unfoldable pub send_dns_request : Addr → ℕ → RdnsIdSource → RdnsIdSource × Result Response
    send_dns_request address now r = received address now r (do
      name ← wrap "reversing addr: %w" [] (net.reversed address)
      wrap "sending ptr dns request: %w" [] (net.exchange name now))

    unfoldable pub reply_from_cache : Addr → ℕ → RdnsIdSource → Option (Option ValidHumanId)
    reply_from_cache address now r = c.get (net.addr_string address) now r.cache

    abbrev pub answered :
        Addr → ℕ → RdnsIdSource × Result Response → RdnsIdSource × Result ValidHumanId
    answered address now (r, err e) = (r, err e)
    answered address now (r, ok resp) = human_id_from_response resp address now r

    abbrev pub identified_by :
        Addr → ℕ → RdnsIdSource → Option (Option ValidHumanId) → RdnsIdSource × Result ValidHumanId
    identified_by address now r (some (some hid)) = (r, ok hid)
    identified_by address now r (some none) = (r, err no_valid_response)
    identified_by address now r none = answered address now (send_dns_request address now r)

    -- `Identify`; the one time stands for the clock's and for the cache's own.
    unfoldable pub identify_rdns : Addr → ℕ → RdnsIdSource → RdnsIdSource × Result ValidHumanId
    unfolding reply_from_cache send_dns_request human_id_from_response
    identify_rdns address now r = identified_by address now r (reply_from_cache address now r)
