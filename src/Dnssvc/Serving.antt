-- ===== src/Dnssvc/Serving.antt =====
-- internal/dnssvc and internal/client: which upstreams a request of a client gets.
use ad_guard_dnscli.Base.{
  ℕ, ◌/◌, ◌^◌, ◌≡◌, ◌⊎◌, refl, sym, ap, subst, ◌∙◌, inl, inr, Bool, true, false, ◌&&◌, Bool-cases,
  Option, none, some, Option-cases, [], ◌∷◌, ◌++◌, All, GoString, string_eq, bytes_eq, ◌==◌, nat_eq,
  to_lower, to_lower_byte, if◌then◌else◌, arith,
}
use ad_guard_dnscli.Base.GoMap.{GoMap}
use ad_guard_dnscli.Golibs.{Golibs}
use ad_guard_dnscli.Netip.{Addr, v4, v6, zero_addr, Prefix, empty_prefix, prefix_eq, unmap}
use ad_guard_dnscli.Client.Static.{
  StoredClient, StaticClientConfig, stored_clients, new_static, find_static_client, matches,
}
use ad_guard_dnscli.Client.Static.Order.{HasValidDomains}
use ad_guard_dnscli.Client.Static.FirstMatch.{
  IsFirstMatch, find_static_client-IsFirstMatch, find_static_client-none_iff,
}
use ad_guard_dnscli.Client.Autodevice.{Upstreams, ValidHumanId, AutodeviceClient}
use ad_guard_dnscli.Client.Storage.{HumanIdSource, Pushed}
use ad_guard_dnscli.Client.Storage.Default.{
  DefaultStorage, Client, static_client, autodevice_client, get,
}
use ad_guard_dnscli.Dnssvc.{
  trim_dots, DnsContext, ClientStorage, Peers, resolved_with, Served, serve_dns,
}

to_lower_byte_twice : (c : ℕ) → to_lower_byte (to_lower_byte c) ≡ to_lower_byte c
unfolding to_lower_byte
to_lower_byte_twice c = ground arith

to_lower_twice : (s : GoString) → to_lower (to_lower s) ≡ to_lower s
unfolding to_lower
to_lower_twice [] = refl
to_lower_twice (c ∷ s) = rw (to_lower_byte_twice c, to_lower_twice s) refl

to_lower_byte-dot : (c : ℕ) → (to_lower_byte c == b'.') ≡ (c == b'.')
unfolding to_lower_byte
to_lower_byte-dot c = ground arith

-- The round of `trim_dots` for a byte before what is left of the rest.
abbrev onto_rest : ℕ → GoString → GoString
onto_rest c rest = if rest == [] && c == b'.' then [] else c ∷ rest

onto_rest-to_lower :
    (c : ℕ) (rest : GoString)
    → onto_rest (to_lower_byte c) (to_lower rest) ≡ to_lower (onto_rest c rest)
unfolding to_lower bytes_eq
onto_rest-to_lower c [] = elim (Bool-cases (c == b'.')) [
  | inl dot ↦ rw (to_lower_byte-dot c ∙ dot, dot) refl
  | inr other ↦ rw (to_lower_byte-dot c ∙ other, other) refl
]
onto_rest-to_lower c (x ∷ rest) = refl

trim_dots-to_lower : (s : GoString) → trim_dots (to_lower s) ≡ to_lower (trim_dots s)
unfolding trim_dots to_lower
trim_dots-to_lower [] = refl
trim_dots-to_lower (c ∷ s) =
    ap (onto_rest (to_lower_byte c)) (trim_dots-to_lower s) ∙ onto_rest-to_lower c (trim_dots s)

trim_dots-append : (s : GoString) → trim_dots (s ++ b'.' ∷ []) ≡ trim_dots s
unfolding trim_dots bytes_eq
trim_dots-append [] = refl
trim_dots-append (c ∷ s) = rw (trim_dots-append s) refl

unmap_twice : (a : Addr) → unmap (unmap a) ≡ unmap a
unfolding unmap
unmap_twice zero_addr = refl
unmap_twice (v4 n) = refl
unmap_twice (v6 n z) = elim (Bool-cases (n / 2 ^ 32 == 0xffff)) [
  | inl mapped ↦ rw mapped refl
  | inr other ↦ rw (other, other) refl
]

-- The name that the storage is asked for is the same for other cases of the letters and with or
-- without a dot at the end.
name_eq : (q : GoString) → to_lower (trim_dots (to_lower q ++ b'.' ∷ [])) ≡ to_lower (trim_dots q)
name_eq q =
    ap to_lower (trim_dots-append (to_lower q) ∙ trim_dots-to_lower q)
    ∙ to_lower_twice (trim_dots q)

module _ {ℓ} (CC : Type 0) {S : Type ℓ} (cs : ClientStorage CC S) (p : Peers CC) where
  -- A public request is resolved with what the storage has for the unmapped address and the name.
  serve_dns-get :
      (s : S) (dctx : DnsContext CC)
      → dctx.requested_private_rdns ≡ empty_prefix
      → serve_dns CC cs p s dctx
        ≡ resolved_with CC p dctx
            (cs.get s (unmap dctx.addr.ip) (to_lower (trim_dots dctx.question)))
  unfolding serve_dns
  serve_dns-get s dctx public =
      let is_public : (dctx.requested_private_rdns == empty_prefix) ≡ true =
        (prefix_eq.beq_iff dctx.requested_private_rdns empty_prefix).1 public in
      rw is_public refl

  -- The same request under another spelling of the name and of the client's address.
  abbrev pub respelled : DnsContext CC → DnsContext CC
  respelled dctx = record dctx {
    addr = record dctx.addr { ip = unmap dctx.addr.ip };
    question = to_lower dctx.question ++ b'.' ∷ [];
  }

  abbrev client_of : Served CC S → S × Option CC
  client_of served = (served.storage, served.resolved.custom_upstream_config)

  resolved_with-respelled :
      (dctx : DnsContext CC) (out : S × Option CC)
      → client_of (resolved_with CC p (respelled dctx) out)
        ≡ client_of (resolved_with CC p dctx out)
  resolved_with-respelled dctx (s, none) = refl
  resolved_with-respelled dctx (s, some c) = refl

  get-respelled :
      (s : S) (a : Addr) (q : GoString)
      → cs.get s (unmap (unmap a)) (to_lower (trim_dots (to_lower q ++ b'.' ∷ [])))
        ≡ cs.get s (unmap a) (to_lower (trim_dots q))
  get-respelled s a q = rw (unmap_twice a, name_eq q) refl

  -- A public request has the same effect on the storage and gets the same upstreams whatever the case
  -- of the letters of its name is, whether a dot ends it, and whether the client's IPv4 address is
  -- written as an IPv6 one.
  pub serve_dns-respelled :
      (s : S) (dctx : DnsContext CC)
      → dctx.requested_private_rdns ≡ empty_prefix
      → ((serve_dns CC cs p s (respelled dctx)).storage ≡ (serve_dns CC cs p s dctx).storage)
        × ((serve_dns CC cs p s (respelled dctx)).resolved.custom_upstream_config
            ≡ (serve_dns CC cs p s dctx).resolved.custom_upstream_config)
  serve_dns-respelled s dctx public =
      let same : client_of (serve_dns CC cs p s (respelled dctx))
          ≡ client_of (serve_dns CC cs p s dctx) =
        ap client_of (serve_dns-get s (respelled dctx) public)
        ∙ ap (λ out. client_of (resolved_with CC p (respelled dctx) out))
            (get-respelled s dctx.addr.ip dctx.question)
        ∙ resolved_with-respelled dctx _
        ∙ ap client_of (sym (serve_dns-get s dctx public)) in
      (ap (λ c. c.0) same, ap (λ c. c.1) same)

module _ (u : Upstreams) (g : Golibs) where
  abbrev pub upstreams_of : Option (Client u) → Option u.CustomConfig
  upstreams_of none = none
  upstreams_of (some (static_client c)) = some c
  upstreams_of (some (autodevice_client a)) = some a.upstreams

  abbrev found_in : DefaultStorage u × Option (Client u) → DefaultStorage u × Option u.CustomConfig
  found_in (d, c) = (d, upstreams_of c)

  -- The storage of internal/client, at a time and with queues.
  abbrev pub default_clients :
      (Addr → Bool)
      → HumanIdSource
      → Pushed ValidHumanId
      → Pushed (AutodeviceClient u)
      → ℕ
      → ClientStorage u.CustomConfig (DefaultStorage u)
  default_clients identifiable source id_push push now = record {
    get = λ d a domain. found_in (get u g identifiable source id_push push now d a domain);
  }

  -- What a request gets.
  abbrev pub Gets :
      (static : GoMap Prefix (StaticClientConfig u.CustomConfig))
      → DefaultStorage u
      → DnsContext u.CustomConfig
      → Served u.CustomConfig (DefaultStorage u)
      → Type 0
  Gets static d dctx served =
      (served.storage ≡ d)
      × ((found : StoredClient u.CustomConfig) × (served.resolved
            ≡ record dctx { custom_upstream_config = some found.client })
          × IsFirstMatch g (stored_clients static) (unmap dctx.addr.ip)
              (to_lower (trim_dots dctx.question)) found)

  static_get :
      (identifiable : Addr → Bool) (source : HumanIdSource) (id_push : Pushed ValidHumanId)
      (push : Pushed (AutodeviceClient u)) (now : ℕ) (d : DefaultStorage u) (a : Addr)
      (domain : GoString) {c : u.CustomConfig}
      → find_static_client g d.static a domain ≡ some c
      → (default_clients identifiable source id_push push now).get d a domain ≡ (d, some c)
  unfolding get
  static_get identifiable source id_push push now d a domain hit = rw hit refl

  -- Where the storage is made of static clients whose domains do not begin with a dot, a request that
  -- is not a private one is resolved with the upstreams of the first matching static
  -- client for the unmapped address and the name in lower case without a dot at its end, without a
  -- change of the storage, unless no static client matches. The first one is for a single address
  -- if any that matches is, and for the empty prefix only if all are; of the matching subnets, its
  -- own is the first in the order of package netip, by address and then by the number of bits; and
  -- its domain lies within those of the others for its prefix.
  pub serve_dns-static :
      (identifiable : Addr → Bool) (source : HumanIdSource) (id_push : Pushed ValidHumanId)
      (push : Pushed (AutodeviceClient u)) (now : ℕ) (p : Peers u.CustomConfig)
      (static : GoMap Prefix (StaticClientConfig u.CustomConfig)) (d : DefaultStorage u)
      (dctx : DnsContext u.CustomConfig)
      → d.static ≡ new_static static
      → HasValidDomains (stored_clients static)
      → dctx.requested_private_rdns ≡ empty_prefix
      → let name : GoString = to_lower (trim_dots dctx.question) in
        All (λ y. matches g y (unmap dctx.addr.ip) name ≡ false) (stored_clients static)
        ⊎ Gets static d dctx (
            serve_dns u.CustomConfig
              (default_clients identifiable source id_push push now)
              p
              d
              dctx)
  serve_dns-static identifiable source id_push push now p static d dctx same valid public =
      let address : Addr = unmap dctx.addr.ip in
      let name : GoString = to_lower (trim_dots dctx.question) in
      let cs : ClientStorage u.CustomConfig (DefaultStorage u) =
        default_clients identifiable source id_push push now in
      elim (Option-cases (find_static_client g (new_static static) address name)) [
        | inl missing ↦ inl ((find_static_client-none_iff g static address name).0 missing)
        | inr (c, hit) ↦
            let (found, is, specific) =
              find_static_client-IsFirstMatch g static address name c valid hit in
            let hit' : find_static_client g d.static address name ≡ some c = rw same hit in
            let served =
              serve_dns-get u.CustomConfig cs p d dctx public
              ∙ ap (resolved_with u.CustomConfig p dctx)
                  (static_get identifiable source id_push push now d address name hit') in
            inr (subst (Gets static d dctx) (sym served) (refl, (found, rw is refl, specific)))
      ]
