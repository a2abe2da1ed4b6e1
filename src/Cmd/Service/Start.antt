-- ===== src/Cmd/Service/Start.antt =====
-- internal/cmd/program.go, dns.go and bootstrap.go: how the program starts its services and hands
-- them to the handler that shuts them down. What starting a part returns is a parameter.
pub mod Order
use ad_guard_dnscli.Base.{ℕ, suc, Bool, Option, none, some, List, [], ◌∷◌, ◌++◌, if◌then◌else◌}
use ad_guard_dnscli.Errors.{Error, Errs, wrapf, num, Result, ok, err, join}
use ad_guard_dnscli.Cmd.Config.{IpPortConfig}
use ad_guard_dnscli.Cmd.Service.Shutdown.{ServiceHandler, add}

module _ (R : Type 0) where
  -- The services that the program runs; `closers` are the resolvers of the bootstrap.
  pub data Service : Type 0 where
    debug_svc : Service
    closers : List R → Service
    client_storage : Service
    dns_svc : Service

  -- `upstream.NewUpstreamResolver`, the results of `newUpstreams`, of the constructor of the DNS
  -- service and of the `Start` methods.
  pub record Parts : Type 0 where
    pub new_resolver : IpPortConfig → Result R
    pub pprof_enabled : Bool
    pub debug_start : Option Error
    pub new_upstreams : Option Error
    pub storage_start : Option Error
    pub new_dns_svc : Option Error
    pub dns_start : Option Error

  abbrev pub add_resolver : ℕ → Result R → List R × Errs → List R × Errs
  add_resolver i (ok r) (rs, errs) = (r ∷ rs, errs)
  add_resolver i (err e) (rs, errs) =
      (rs, some (wrapf "resolvers: at index %d: %w" (num i ∷ []) e) ∷ errs)

  -- The loop of `newResolvers`, from the index `i` on: the resolvers, which are the closers too, and
  -- the errors.
  unfoldable pub resolve_from : (IpPortConfig → Result R) → ℕ → List IpPortConfig → List R × Errs
  resolve_from new_resolver i [] = ([], [])
  resolve_from new_resolver i (c ∷ cs) =
      add_resolver i (new_resolver c) (resolve_from new_resolver (suc i) cs)

  abbrev annotated : List R → Option Error → Result (List R)
  annotated rs none = ok rs
  annotated rs (some e) = err (wrapf "creating bootstraps: %w" [] e)

  unfoldable pub new_resolvers : (IpPortConfig → Result R) → List IpPortConfig → Result (List R)
  unfolding resolve_from
  new_resolvers new_resolver cs =
      let (rs, errs) = resolve_from new_resolver 0 cs in annotated rs (join errs)

  abbrev pub Handler : Type 0
  Handler = ServiceHandler Service

  -- `Start`: a panic of `errors.Check`, or the handler and an error.
  pub data Started : Type 0 where
    panicked : Error → Started
    returned : Handler → Option Error → Started

  module _ (p : Parts) where
    abbrev pub storage_started : Handler → Option Error → Handler × Option Error
    storage_started h (some e) = (h, some (wrapf "starting client storage: %w" [] e))
    storage_started h none = (add (client_storage ∷ []) h, none)

    abbrev pub upstreams_made : Handler → Option Error → Handler × Option Error
    upstreams_made h (some e) = (h, some (wrapf "classifying upstreams: %w" [] e))
    upstreams_made h none = storage_started h p.storage_start

    abbrev pub resolvers_made : Handler → Result (List R) → Handler × Option Error
    resolvers_made h (err e) = (h, some (wrapf "creating resolvers: %w" [] e))
    resolvers_made h (ok rs) = upstreams_made (add (closers rs ∷ []) h) p.new_upstreams

    -- `newDNSServiceConfig`, without the configuration that it returns.
    unfoldable pub new_dns_service_config : List IpPortConfig → Handler → Handler × Option Error
    unfolding new_resolvers add
    new_dns_service_config servers h = resolvers_made h (new_resolvers p.new_resolver servers)

    abbrev pub dns_started : Handler → Option Error → Handler × Option Error
    dns_started h (some e) = (h, some (wrapf "starting dns service: %w" [] e))
    dns_started h none = (add (dns_svc ∷ []) h, none)

    abbrev pub dns_made : Handler → Option Error → Handler × Option Error
    dns_made h (some e) = (h, some (wrapf "creating dns service: %w" [] e))
    dns_made h none = dns_started h p.dns_start

    abbrev pub configured : Handler × Option Error → Handler × Option Error
    configured (h, some e) = (h, some e)
    configured (h, none) = dns_made h p.new_dns_svc

    unfoldable pub init_dns_service : List IpPortConfig → Handler → Handler × Option Error
    unfolding new_dns_service_config
    init_dns_service servers h = configured (new_dns_service_config servers h)

    abbrev pub init_after : List IpPortConfig → Handler → Started
    init_after servers h = let (h', e) = init_dns_service servers h in returned h' e

    abbrev pub debug_started : List IpPortConfig → Option Error → Started
    debug_started servers (some e) = panicked e
    debug_started servers none =
        init_after servers (add (debug_svc ∷ []) (record { services = [] }))

    unfoldable pub start_program : List IpPortConfig → Started
    unfolding init_dns_service add
    start_program servers =
        if p.pprof_enabled
        then debug_started servers p.debug_start
        else init_after servers (record { services = [] })
