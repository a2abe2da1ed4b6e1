-- ===== src/Tests/Clients.antt =====
-- The queue, the static clients and the storage at concrete values.
use mathlib.Core.List.{Permᴰ}
use ad_guard_dnscli.Base.{
  pos, negsuc, ◌+◌, ◌==◌, if◌then◌else◌, ℕ, ◌≡◌, ◌≢◌, ◌≤◌, ◌<◌, ◌++◌, refl, arith, true, none, some,
  [], ◌∷◌, All, GoString, str, nat_eq, string_eq, bytes_eq,
}
use ad_guard_dnscli.Base.GoMap.{GoMap, lookup, insert, IsMap}
use ad_guard_dnscli.Errors.{ok}
use ad_guard_dnscli.Base.Sort.{first, sort}
use ad_guard_dnscli.Client.Domains.{matches_domain}
use ad_guard_dnscli.Netip.Order.{compare_prefix, compare_addr}
use ad_guard_dnscli.Netip.{
  is_single_ip, masked, prefix_beq, addr_beq, contains, Addr, v4, Prefix, empty_prefix, addr_eq,
}
use ad_guard_dnscli.Client.Static.{
  StoredClient, StaticClientConfig, stored_clients, stored_of, new_static, find_static_client,
  matches, compare_stored,
}
use ad_guard_dnscli.Client.Static.Order.{HasDistinctKeys, HasValidDomains, new_static-order}
use ad_guard_dnscli.Client.Static.FirstMatch.{IsFirstMatch, find_static_client-IsFirstMatch}
use ad_guard_dnscli.Client.Queue.{Queue, push, new_queue, finish}
use ad_guard_dnscli.Client.Queue
use ad_guard_dnscli.Client.Queue.Protocol.{start}
use ad_guard_dnscli.Client.Queue.Sharing.{GetsResult, one_operation, no_lost_result}
use ad_guard_dnscli.Client.Autodevice.{Upstreams, ValidHumanId, AutodeviceClient, StoredAutodevice}
use ad_guard_dnscli.Client.Storage.{
  HumanIdSource, Identity, Identified, leads, identify, new_autodevice_or_stored,
}
use ad_guard_dnscli.Client.Storage.Searches.{IsSearched, new_autodevice_or_stored-IsSearched}
use ad_guard_dnscli.Client.Storage.Default.{DefaultStorage}
use ad_guard_dnscli.Client.Storage.Gc.{after, gc_done, IsCollected, run_gc, run_gc-IsCollected}
use ad_guard_dnscli.Client.Storage
use ad_guard_dnscli.Client.Storage.Exclusive.{IsExclusive, Reach-IsExclusive}
use ad_guard_dnscli.Tests.Library.{library}

-- 192.168.1.0/24 and an address in it.
abbrev subnet : Prefix
subnet = record { ip = v4 3_232_235_776; bits_plus_one = 25 }

abbrev pub device : Addr
device = v4 3_232_235_777

abbrev lan_then_all : GoMap Prefix (StaticClientConfig ℕ)
lan_then_all = (subnet, (str "lan", 7) ∷ []) ∷ (empty_prefix, ([], 9) ∷ []) ∷ []

abbrev all_then_lan : GoMap Prefix (StaticClientConfig ℕ)
all_then_lan = (empty_prefix, ([], 9) ∷ []) ∷ (subnet, (str "lan", 7) ∷ []) ∷ []

same_entries : Permᴰ (stored_clients lan_then_all) (stored_clients all_then_lan)
unfolding stored_clients stored_of
same_entries = Permᴰ.swap refl refl

distinct : HasDistinctKeys (stored_clients lan_then_all)
unfolding stored_clients stored_of
distinct = (((λ e. absurd (ground (arith, e.1))), tt), (tt, tt))

domains : HasValidDomains (stored_clients lan_then_all)
unfolding stored_clients stored_of
domains = ((λ e. absurd (ground (arith, e))), (tt, tt))

new_static-order_example : new_static lan_then_all ≡ new_static all_then_lan
new_static-order_example = new_static-order lan_then_all all_then_lan same_entries distinct domains

-- 192.168.0.0/16, which comes before 192.168.1.0/24.
abbrev wide : Prefix
wide = record { ip = v4 3_232_235_520; bits_plus_one = 17 }

abbrev overlapping : GoMap Prefix (StaticClientConfig ℕ)
overlapping =
    (empty_prefix, ([], 9) ∷ []) ∷ (subnet, (str "lan", 7) ∷ []) ∷ (wide, ([], 8) ∷ []) ∷ []

found_wide : find_static_client library (new_static overlapping) device (str "pc.lan") ≡ some 8
unfolding find_static_client new_static first sort compare_stored prefix_beq addr_beq matches
    contains bytes_eq matches_domain is_single_ip compare_prefix compare_addr masked
found_wide = refl

overlapping-domains : HasValidDomains (stored_clients overlapping)
unfolding stored_clients stored_of
overlapping-domains = (tt, ((λ e. absurd (ground (arith, e))), (tt, tt)))

find_static_client-IsFirstMatch_example :
    (found : StoredClient ℕ) × (found.client ≡ 8)
    × IsFirstMatch library (stored_clients overlapping) device (str "pc.lan") found
find_static_client-IsFirstMatch_example =
    find_static_client-IsFirstMatch library overlapping device (str "pc.lan") 8 overlapping-domains
      found_wide

-- One goroutine leads for the key 3, and another one waits for it.
abbrev led : Queue.Protocol.State ℕ ℕ
led = record start { queue = (push 3 new_queue).1; leading = λ j. if 3 == j then 0 + 1 else 0 }

abbrev shared : Queue.Protocol.State ℕ ℕ
shared = record led { queue = (push 3 led.queue).1; waiting = (3, 0) ∷ [] }

led_reached : Queue.Sharing.Reach led
unfolding push lookup
led_reached =
    Queue.Sharing.next Queue.Sharing.here (Queue.Protocol.lead 3 (push 3 new_queue).1 refl)

shared_reached : Queue.Sharing.Reach shared
unfolding push lookup insert
shared_reached = Queue.Sharing.next led_reached (Queue.Protocol.wait 3 0 (push 3 led.queue).1 refl)

one_operation_example :
    (shared.leading 3 ≤ 1) × (0 < shared.leading 3 → finish 3 (some 8) none shared.queue ≢ none)
one_operation_example = one_operation shared 3 (some 8) none shared_reached

no_lost_result_example : All (GetsResult shared) shared.waiting
no_lost_result_example = no_lost_result shared shared_reached

-- Upstreams that are numbers.
abbrev pub numbers : Upstreams
numbers = record {
  Url = GoString;
  scheme = λ url. str "https";
  host = λ url. url;
  join_path = λ url p. url ++ str "/" ++ p;
  with_host = λ url h. h;
  to_string = λ url. url;
  Options = ℕ;
  Upstream = ℕ;
  address_to_upstream = λ url opts. ok opts;
  CustomConfig = ℕ;
  new_custom_config = λ ups enabled size. elim size [ pos n ↦ n | negsuc n ↦ 0 ];
  close = λ c. none;
}

abbrev pub laptop_id : ValidHumanId
laptop_id = record { until = 100; id = str "laptop" }

abbrev pub source : HumanIdSource
source address = ok laptop_id

abbrev cached : AutodeviceClient numbers
cached = record { upstreams = 5; valid_until = 40 }

abbrev stored : StoredAutodevice numbers
stored = record {
  clients = (device, cached) ∷ [];
  conf = record {
    upstream_template = str "u";
    options = 1;
    device_type = str "ios";
    profile_id = str "ab12cd34";
  };
  prefix = empty_prefix;
  domain = [];
  cache_size = pos 5;
  cache_enabled = true;
}

new_autodevice_or_stored-IsSearched_example :
    IsSearched numbers source leads device 50 stored []
      (new_autodevice_or_stored numbers source leads leads device stored 50 [])
new_autodevice_or_stored-IsSearched_example =
    new_autodevice_or_stored-IsSearched numbers source leads device stored 50 []

one_client : IsMap stored.clients
unfolding IsMap lookup
one_client = (refl, tt)

abbrev identities : Identified
identities = (str "laptop", record { address = device; hid = laptop_id }) ∷ []

one_identity : IsMap identities
unfolding IsMap lookup
one_identity = (refl, tt)

-- A storage of one client and one identity, which is cleaned twice before the shutdown.
abbrev kept_storage : DefaultStorage numbers
kept_storage = record { autodevice = stored ∷ []; identified = identities; static = [] }

run_gc-IsCollected_example :
    IsCollected numbers
      (30 ∷ 50 ∷ [])
      kept_storage
      (run_gc numbers (after 30 ∷ after 50 ∷ gc_done ∷ after 70 ∷ []) kept_storage).0
run_gc-IsCollected_example =
    run_gc-IsCollected numbers (after 30 ∷ after 50 ∷ gc_done ∷ after 70 ∷ []) kept_storage
      (record { maps = (one_client, tt); registry = (one_identity, (refl, tt)) })

-- The laptop gets its identifier at the time 10, and the storage is cleaned at 200.
abbrev issued : Storage.Exclusive.State
issued = record {
  identified = identities;
  history = record { identity = record { address = device; hid = laptop_id }; time = 10 } ∷ [];
  clock = 10;
}

issued_reached : Storage.Exclusive.Reach issued
unfolding identify lookup insert
issued_reached =
    Storage.Exclusive.after Storage.Exclusive.begin
      (Storage.Exclusive.issues source device 9 10 (ground arith) (ground arith) refl)

Reach-IsExclusive_example : IsExclusive issued.history
Reach-IsExclusive_example = Reach-IsExclusive issued issued_reached
