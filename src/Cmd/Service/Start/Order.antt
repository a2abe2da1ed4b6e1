-- ===== src/Cmd/Service/Start/Order.antt =====
-- internal/cmd: the order in which the services of the program are shut down.
use mathlib.Core.List.{reverse}
use ad_guard_dnscli.Base.{
  ℕ, suc, ◌≡◌, refl, subst, ap, ◌∙◌, inl, inr, Bool, true, false, Bool-cases, Option, none, some,
  Option-cases, List, [], ◌∷◌, if◌then◌else◌, arith, All,
}
use ad_guard_dnscli.Errors.{Error, Errs, IsNil, Result, ok, err, Result-cases, join, join_iff}
use ad_guard_dnscli.Cmd.Config.{IpPortConfig}
use ad_guard_dnscli.Cmd.Service.Shutdown.{add, shutdown, shutdown-reverse}
use ad_guard_dnscli.Cmd.Service.Start.{
  Service, debug_svc, closers, client_storage, dns_svc, Parts, add_resolver, resolve_from,
  new_resolvers, Handler, init_dns_service, returned, init_after, start_program,
}

module _ (R : Type 0) where
  -- A list of resolvers, one for each server in order.
  pub data Resolved (new_resolver : IpPortConfig → Result R)
      : List IpPortConfig → List R → Type 0 where
    none_left : Resolved new_resolver [] []
    one_more :
        {c : IpPortConfig} {cs : List IpPortConfig} {r : R} {rs : List R}
        → new_resolver c ≡ ok r
        → Resolved new_resolver cs rs
        → Resolved new_resolver (c ∷ cs) (r ∷ rs)

  resolve_from-Resolved :
      (new_resolver : IpPortConfig → Result R) (i : ℕ) (cs : List IpPortConfig)
      → All IsNil (resolve_from R new_resolver i cs).1
      → Resolved new_resolver cs (resolve_from R new_resolver i cs).0
  unfolding resolve_from
  resolve_from-Resolved new_resolver i [] = λ fine. none_left
  resolve_from-Resolved new_resolver i (c ∷ cs) =
      go (new_resolver c) refl (resolve_from-Resolved new_resolver (suc i) cs)
    where
      go :
          (r : Result R)
          → new_resolver c ≡ r
          → (All IsNil (resolve_from R new_resolver (suc i) cs).1
              → Resolved new_resolver cs (resolve_from R new_resolver (suc i) cs).0)
          → All IsNil (add_resolver R i r (resolve_from R new_resolver (suc i) cs)).1
          → Resolved new_resolver
              (c ∷ cs)
              (add_resolver R i r (resolve_from R new_resolver (suc i) cs)).0
      go (ok r) made rest fine = one_more made (rest fine)
      go (err e) failed rest (bad, fine) = absurd (ground (arith, bad))

  -- The bootstrap has resolvers only when every server has one, in the order of the servers.
  pub new_resolvers-Resolved :
      (new_resolver : IpPortConfig → Result R) (cs : List IpPortConfig) (rs : List R)
      → new_resolvers R new_resolver cs ≡ ok rs
      → Resolved new_resolver cs rs
  unfolding new_resolvers
  new_resolvers-Resolved new_resolver cs rs made =
      let out : List R × Errs = resolve_from R new_resolver 0 cs in
      elim (Option-cases (join out.1)) [
        | inl fine ↦
            let same : out.0 ≡ rs = ground (arith, made, fine) in
            subst (Resolved new_resolver cs) same
              (resolve_from-Resolved new_resolver 0 cs ((join_iff out.1).0 fine))
        | inr (e, bad) ↦ absurd (ground (arith, made, bad))
      ]

  -- What a start that succeeds has added to the handler.
  abbrev Adds : Parts R → List IpPortConfig → Handler R → Handler R × Option Error → Type 0
  Adds p servers h (h', some e) = Unit
  Adds p servers h (h', none) =
      (rs : List R) × (new_resolvers R p.new_resolver servers ≡ ok rs)
      × (h' ≡ add (dns_svc ∷ []) (add (client_storage ∷ []) (add (closers rs ∷ []) h)))

  init_dns_service-Adds :
      (p : Parts R) (servers : List IpPortConfig) (h : Handler R)
      → Adds p servers h (init_dns_service R p servers h)
  unfolding init_dns_service
  init_dns_service-Adds p servers h = elim (Result-cases (new_resolvers R p.new_resolver servers)) [
    | inr (e, bad) ↦ rw bad tt
    | inl (rs, made) ↦ elim (Option-cases p.new_upstreams) [
      | inr (e, bad) ↦ rw (made, bad) tt
      | inl classified ↦ elim (Option-cases p.storage_start) [
        | inr (e, bad) ↦ rw (made, classified, bad) tt
        | inl stored ↦ elim (Option-cases p.new_dns_svc) [
          | inr (e, bad) ↦ rw (made, classified, stored, bad) tt
          | inl created ↦ elim (Option-cases p.dns_start) [
            | inr (e, bad) ↦ rw (made, classified, stored, created, bad) tt
            | inl started ↦ rw (made, classified, stored, created, started) (rs, made, refl)
          ]
        ]
      ]
    ]
  ]

  abbrev pub debug_first : Bool → List (Service R)
  debug_first enabled = if enabled then debug_svc ∷ [] else []

  abbrev first_handler : Bool → Handler R
  first_handler enabled = record { services = debug_first enabled }

  reverse-add :
      (enabled : Bool) (rs : List R)
      → reverse
          (add
            (dns_svc ∷ [])
            (add (client_storage ∷ []) (add (closers rs ∷ []) (first_handler enabled)))).services
        ≡ dns_svc ∷ client_storage ∷ closers rs ∷ debug_first enabled
  unfolding add
  reverse-add true rs = refl
  reverse-add false rs = refl

  of_returned :
      (h : Handler R) (out : Handler R × Option Error)
      → (let (h', e) = out in returned h' e) ≡ returned h none
      → out ≡ (h, none)
  of_returned h (h', e) same = cc

  init_dns_service-shutdown :
      (p : Parts R) (servers : List IpPortConfig) (enabled : Bool) (h : Handler R)
      (stop : Service R → Option Error)
      → init_after R p servers (first_handler enabled) ≡ returned h none
      → (rs : List R) × Resolved p.new_resolver servers rs
        × ((shutdown stop h).0 ≡ dns_svc ∷ client_storage ∷ closers rs ∷ debug_first enabled)
  init_dns_service-shutdown p servers enabled h stop started =
      let (rs, made, added) =
        subst (Adds p servers (first_handler enabled)) (of_returned h _ started)
          (init_dns_service-Adds p servers (first_handler enabled)) in
      (
        rs,
        new_resolvers-Resolved p.new_resolver servers rs made,
        (shutdown-reverse stop h).0 ∙ ap (λ h. reverse h.services) added ∙ reverse-add enabled rs,
      )

  -- When the program has started, it shuts down the DNS service first, then the client storage that
  -- the DNS service uses, then the resolvers, one for each bootstrap server, and the debug service at the end if it
  -- is enabled.
  pub start_program-shutdown :
      (p : Parts R) (servers : List IpPortConfig) (h : Handler R) (stop : Service R → Option Error)
      → start_program R p servers ≡ returned h none
      → (rs : List R) × Resolved p.new_resolver servers rs
        × ((shutdown stop h).0
            ≡ dns_svc ∷ client_storage ∷ closers rs ∷ debug_first p.pprof_enabled)
  unfolding start_program
  start_program-shutdown p servers h stop started = elim (Bool-cases p.pprof_enabled) [
    | inr off ↦
        rw off (init_dns_service-shutdown p servers false h stop (ground (arith, started, off)))
    | inl on ↦ elim (Option-cases p.debug_start) [
      | inr (e, bad) ↦ absurd (ground (arith, started, on, bad))
      | inl fine ↦
          rw on
            (init_dns_service-shutdown p servers true h stop (ground (arith, started, on, fine)))
    ]
  ]
