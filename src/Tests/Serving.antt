-- ===== src/Tests/Serving.antt =====
-- The DNS service at concrete values.
use ad_guard_dnscli.Base.{
  ◌++◌, ℕ, ◌≤◌, ◌≡◌, ◌⊎◌, refl, true, false, none, some, [], ◌∷◌, All, str, pos, to_lower,
}
use ad_guard_dnscli.Base.GoMap.{GoMap}
use ad_guard_dnscli.Errors.{join, ok}
use ad_guard_dnscli.Netip.{Prefix, empty_prefix, unmap}
use ad_guard_dnscli.Client.Static.{
  StaticClientConfig, stored_clients, stored_of, new_static, matches,
}
use ad_guard_dnscli.Client.Static.Order.{HasValidDomains}
use ad_guard_dnscli.Client.Storage.{leads}
use ad_guard_dnscli.Client.Storage.Default.{DefaultStorage}
use ad_guard_dnscli.Dnssvc.{DnsContext, ClientStorage, Peers, default_address, serve_dns, trim_dots}
use ad_guard_dnscli.Dnssvc.Serving.{
  respelled, serve_dns-respelled, default_clients, Gets, serve_dns-static,
}
use ad_guard_dnscli.Cmd.Config.{CacheConfig, validate_cache}
use ad_guard_dnscli.Cmd.Internal.{int_of_uint64}
use ad_guard_dnscli.Cmd.Internal.Converted.{validate_cache-int_of_uint64}
use ad_guard_dnscli.Debugsvc.{route}
use ad_guard_dnscli.Tests.Library.{library}
use ad_guard_dnscli.Tests.Clients.{numbers, source, device}

abbrev everything : GoMap Prefix (StaticClientConfig ℕ)
everything = (empty_prefix, ([], 9) ∷ []) ∷ []

everything_valid : HasValidDomains (stored_clients everything)
unfolding stored_clients stored_of
everything_valid = (tt, tt)

abbrev storage : DefaultStorage numbers
storage = record { autodevice = []; identified = []; static = new_static everything }

abbrev request : DnsContext ℕ
request = record {
  addr = record { ip = device; port = 1_234 };
  is_private_client = true;
  requested_private_rdns = empty_prefix;
  question = str "PC.example.";
  custom_upstream_config = none;
}

abbrev peers : Peers ℕ
peers = record {
  address = default_address ℕ;
  private_subnets = λ a. true;
  resolve = λ d. none;
  shutdown = none;
}

abbrev clients : ClientStorage ℕ (DefaultStorage numbers)
clients = default_clients numbers library (λ a. true) source leads leads 50

serve_dns-respelled_example :
    ((serve_dns ℕ clients peers storage (respelled ℕ clients peers request)).storage
      ≡ (serve_dns ℕ clients peers storage request).storage)
    × ((serve_dns ℕ clients peers storage
          (respelled ℕ clients peers request)).resolved.custom_upstream_config
        ≡ (serve_dns ℕ clients peers storage request).resolved.custom_upstream_config)
serve_dns-respelled_example = serve_dns-respelled ℕ clients peers storage request refl

serve_dns-static_example :
    All
      (λ y. matches library y (unmap device) (to_lower (trim_dots (str "PC.example."))) ≡ false)
      (stored_clients everything)
    ⊎ Gets numbers library everything storage request (serve_dns ℕ clients peers storage request)
serve_dns-static_example =
    serve_dns-static numbers library (λ a. true) source leads leads 50 peers everything storage
      request refl everything_valid refl

abbrev cache : CacheConfig
cache = record { enabled = true; size = 128; client_size = 4 }

cache_valid : validate_cache library (some cache) ≡ none
unfolding validate_cache join
cache_valid = refl

validate_cache-int_of_uint64_example :
    ((int_of_uint64 128 ≡ pos 128) × (1 ≤ 128)) × ((int_of_uint64 4 ≡ pos 4) × (1 ≤ 4))
validate_cache-int_of_uint64_example = validate_cache-int_of_uint64 library cache cache_valid refl

-- The patterns of the profiler under the prefix.
debug_routes :
    route (λ prefix path. ok (prefix ++ path)) (str "GET /debug/pprof/" ∷ [])
    ≡ some (str "GET /private/debug/pprof/" ∷ [])
unfolding route
debug_routes = refl
