-- ===== src/Tests/Rdns.antt =====
-- The source of identifiers from PTR records at concrete values.
use ad_guard_dnscli.Base.{
  ℕ, ◌+◌, ◌≤◌, ◌≡◌, ◌≢◌, refl, true, Option, none, some, [], ◌∷◌, arith, GoString, str, string_eq,
  bytes_eq, trim_suffix, replace_all, index, bytes_eq_iff, if◌then◌else◌, leb,
}
use ad_guard_dnscli.Base.GoMap.{GoMap, lookup, insert, lookup-insert}
use ad_guard_dnscli.Errors.{Error, ok, err}
use ad_guard_dnscli.Netip.{Addr, v4}
use ad_guard_dnscli.Client.HumanId.{fqdn_to_human_id, new_human_id}
use ad_guard_dnscli.Client.Autodevice.{ValidHumanId}
use ad_guard_dnscli.Client.Rdns.{
  Cache, Network, ExistingIds, ptr, other, RdnsIdSource, reply_from_cache, identify_rdns,
  no_valid_response, check_duplicates, on_evicted, is_tracked,
}
use ad_guard_dnscli.Client.Rdns.Caching.{Answered, identify_rdns_lem}
use ad_guard_dnscli.Client.Rdns.Replies.{
  Others, done, next, identify_rdns-again, identify_rdns-none_again, on_evicted-check_duplicates,
}
use ad_guard_dnscli.Tests.Library.{library}

abbrev Items : Type 0
Items = GoMap GoString (Option ValidHumanId × ℕ)

abbrev fresh : ℕ → Option (Option ValidHumanId × ℕ) → Option (Option ValidHumanId)
fresh now none = none
fresh now (some (v, until)) = if leb now until then some v else none

abbrev item : GoString → ℕ → Items → Option (Option ValidHumanId)
item key now m = fresh now (lookup key m)

abbrev with_item : GoString → Option ValidHumanId → ℕ → ℕ → Items → Items
with_item key v ttl now m = insert key (v, now + ttl) m

item-with_item :
    (key : GoString) (v : Option ValidHumanId) (ttl now later : ℕ) (m : Items)
    → now ≤ later
    → later ≤ now + ttl
    → item key later (with_item key v ttl now m) ≡ some v
item-with_item key v ttl now later m after bound =
    ground (arith, lookup-insert key key (v, now + ttl) m, bytes_eq_iff key key)

item-with_item_other :
    (key read : GoString) (v : Option ValidHumanId) (ttl now later : ℕ) (m : Items)
    → key ≢ read
    → item read later (with_item key v ttl now m) ≡ item read later m
item-with_item_other key read v ttl now later m differ =
    ground (arith, lookup-insert key read (v, now + ttl) m, bytes_eq_iff key read)

abbrev items : Cache
items = record {
  Store = Items;
  get = item;
  set = with_item;
  get-set = item-with_item;
  get-set_other = item-with_item_other;
}

abbrev name_of : Addr → GoString
name_of (v4 n) = n ∷ []
name_of _ = []

-- A network that calls each address `pc.lan` for a minute, and one that has no names.
abbrev named : Network
named = record {
  addr_string = name_of;
  reversed = λ a. ok (name_of a);
  exchange = λ q now. ok (record { rcode = 0; answer = other ∷ ptr (str "pc.lan.") 60 ∷ [] });
}

abbrev nameless : Network
nameless = record {
  addr_string = name_of;
  reversed = λ a. ok (name_of a);
  exchange = λ q now. ok (record { rcode = 3; answer = [] });
}

abbrev empty : (net : Network) → RdnsIdSource library items net
empty net = record { existing_ids = []; cache = [] }

abbrev pc : ValidHumanId
pc = record { until = 60_000_000_007; id = str "pc-lan" }

empty_misses : (net : Network) → reply_from_cache library items net (v4 1) 7 (empty net) ≡ none
unfolding reply_from_cache lookup
empty_misses net = refl

identify_rdns_lem_example :
    Answered library items named
      (v4 1)
      7
      (empty named)
      (identify_rdns library items named (v4 1) 7 (empty named))
identify_rdns_lem_example =
    identify_rdns_lem library items named (v4 1) 7 (empty named) (empty_misses named)

-- The source after the answer for 1, and the same after a question for 2.
abbrev known : RdnsIdSource library items named
known = (identify_rdns library items named (v4 1) 7 (empty named)).0

abbrev known_later : RdnsIdSource library items named
known_later = (identify_rdns library items named (v4 2) 8 known).0

pc_given : identify_rdns library items named (v4 1) 7 (empty named) ≡ (known, ok pc)
unfolding identify_rdns lookup fqdn_to_human_id trim_suffix new_human_id replace_all index insert
pc_given = refl

asked_two : Others library items named (v4 1) known known_later
asked_two = next (v4 2) 8 (λ e. absurd (ground (arith, e))) done

identify_rdns-again_example :
    identify_rdns library items named (v4 1) 1_000 known_later ≡ (known_later, ok pc)
identify_rdns-again_example =
    identify_rdns-again library items named (v4 1) 7 1_000 pc (empty named) known known_later
      (empty_misses named) pc_given asked_two (ground arith) (ground arith)

abbrev unknown : RdnsIdSource library items nameless
unknown = (identify_rdns library items nameless (v4 1) 7 (empty nameless)).0

refused :
    (e : Error) × (identify_rdns library items nameless (v4 1) 7 (empty nameless)
      ≡ (unknown, err e))
unfolding identify_rdns lookup
refused = (_, refl)

identify_rdns-none_again_example :
    identify_rdns library items nameless (v4 1) 1_000 unknown ≡ (unknown, err no_valid_response)
identify_rdns-none_again_example =
    identify_rdns-none_again library items nameless (v4 1) 7 1_000 refused.0 (1 ∷ [])
      (record { rcode = 3; answer = [] }) (empty nameless) unknown unknown (empty_misses nameless)
      refl refl refused.1 done (ground arith) (ground arith)

abbrev tracking : ExistingIds
tracking = (str "pc", 9) ∷ []

pc_tracked : lookup (str "pc") tracking ≡ some 9
unfolding lookup bytes_eq
pc_tracked = refl

on_evicted-check_duplicates_example :
    let (tracked, given) = check_duplicates (str "pc") 20 10 tracking in
    let evicted : ExistingIds = on_evicted (some (record { until = 9; id = str "pc" })) tracked in
    (given ≡ none)
    × (is_tracked 25 (lookup (str "pc") tracked) ≡ true)
    × ((check_duplicates (str "pc") 25 10 evicted).1 ≡ none)
on_evicted-check_duplicates_example =
    on_evicted-check_duplicates (str "pc") 9 20 10 25 tracking pc_tracked (ground arith)
      (ground arith) (ground arith)
