-- ===== src/Dnssvc.antt =====
-- internal/dnssvc: the DNS service between the proxy and the storage of clients. The proxy of
-- dnsproxy, its parser of upstreams and the storage are parameters.
pub mod Proxy
pub mod Serving
use ad_guard_dnscli.Base.{
  ℕ, Bool, true, false, not, ◌&&◌, Option, none, some, List, [], ◌∷◌, GoString, string_eq, ◌==◌,
  nat_eq, to_lower, if◌then◌else◌,
}
use ad_guard_dnscli.Errors.{Error, wrapf}
use ad_guard_dnscli.Netip.{Addr, Prefix, empty_prefix, prefix_eq, unmap}

-- `netip.AddrPort`.
pub record AddrPort : Type 0 where
  pub ip : Addr
  pub port : ℕ

-- `strings.TrimRight` with the dot as its set.
unfoldable pub trim_dots : GoString → GoString
trim_dots [] = []
trim_dots (c ∷ s) = let rest = trim_dots s in if rest == [] && c == b'.' then [] else c ∷ rest

module _ (CustomConfig : Type 0) where
  -- The parts of `proxy.DNSContext` that the service reads and writes; the name of the question is
  -- the one of the first question.
  pub record DnsContext : Type 0 where
    pub addr : AddrPort
    pub is_private_client : Bool
    pub requested_private_rdns : Prefix
    pub question : GoString
    pub custom_upstream_config : Option CustomConfig

  -- `client.Storage`: the configuration of the client that `Get` finds.
  pub record ClientStorage {ℓ} (S : Type ℓ) : Type ℓ where
    pub get : S → Addr → GoString → S × Option CustomConfig

  -- `ClientGetter`, the set of the private subnets, and the proxy's `Resolve` and `Shutdown`.
  pub record Peers : Type 0 where
    pub address : DnsContext → AddrPort
    pub private_subnets : Addr → Bool
    pub resolve : DnsContext → Option Error
    pub shutdown : Option Error

  abbrev pub with_client : DnsContext → Option CustomConfig → DnsContext
  with_client dctx none = dctx
  with_client dctx (some c) = record dctx { custom_upstream_config = some c }

  -- The storage, the request that the proxy resolves, and its error.
  pub record Served {ℓ} (S : Type ℓ) : Type ℓ where
    pub storage : S
    pub resolved : DnsContext
    pub error : Option Error

  -- `DefaultClientGetter`.
  abbrev pub default_address : DnsContext → AddrPort
  default_address dctx = dctx.addr

  abbrev pub resolved_with {ℓ} :
      {S : Type ℓ} → Peers → DnsContext → S × Option CustomConfig → Served S
  resolved_with p dctx (s, found) = record {
    storage = s;
    resolved = with_client dctx found;
    error = p.resolve (with_client dctx found);
  }

  module _ {ℓ} {S : Type ℓ} (cs : ClientStorage S) (p : Peers) where
    unfoldable pub serve_dns : S → DnsContext → Served S
    unfolding trim_dots
    serve_dns s dctx =
        if not (dctx.requested_private_rdns == empty_prefix)
        then record { storage = s; resolved = dctx; error = p.resolve dctx }
        else resolved_with p dctx
            (cs.get s (unmap dctx.addr.ip) (to_lower (trim_dots dctx.question)))

    -- `Wrap`, around the service itself as in `New`.
    unfoldable pub wrapped_serve : S → DnsContext → Served S
    unfolding serve_dns
    wrapped_serve s dctx =
        let address = p.address dctx in
        serve_dns s
          (record dctx { addr = address; is_private_client = p.private_subnets address.ip })

  abbrev stopped : Option Error → Option Error
  stopped none = none
  stopped (some e) = some (wrapf "stopping proxy: %w" [] e)

  unfoldable pub shutdown_service : Peers → Option Error
  shutdown_service p = stopped p.shutdown
