-- ===== src/Client/Sources.antt =====
-- internal/client/humanidsource.go: a source of identifiers that has none, one that makes them of
-- addresses, and one that is made of others.
use ad_guard_dnscli.Base.{
  ℕ, ◌+◌, str, replace_all, if◌then◌else◌, ◌≡◌, ◌↔◌, inl, inr, refl, ap, sym, subst, List, [], ◌∷◌,
  ◌++◌, arith, All,
}
use ad_guard_dnscli.Errors.{Error, sentinel, no_value, ok, err, Result-cases}
use ad_guard_dnscli.Netip.{Addr, unmap, is_4}
use ad_guard_dnscli.Netip.Text.{string_expanded}
use ad_guard_dnscli.Client.Autodevice.{ValidHumanId}
use ad_guard_dnscli.Client.Storage.{HumanIdSource}

-- `EmptyHumanIDSource`.
unfoldable pub empty_source : HumanIdSource
empty_source address = err (sentinel no_value)

-- `DefaultHumanIDSource`: the identifier is the text of the address, at a time and for an interval.
unfoldable pub default_source : ℕ → ℕ → HumanIdSource
unfolding unmap is_4 string_expanded replace_all
default_source now validity_ivl address =
    let addr = unmap address in
    let hostname = string_expanded addr in
    let dashed =
      if is_4 addr then replace_all hostname b'.' b'-' else replace_all hostname b':' b'-' in
    ok (record { id = str "dev-" ++ dashed; until = now + validity_ivl })

-- `ConsequentHumanIDSource`: errors of its sources are ignored.
unfoldable pub consequent_source : List HumanIdSource → HumanIdSource
consequent_source [] address = err (sentinel no_value)
consequent_source (src ∷ rest) address =
    let later = consequent_source rest address in
    elim (src address) [ ok id ↦ ok id | err e ↦ later ]

-- The source does not identify the address.
abbrev pub Fails : Addr → HumanIdSource → Type 0
Fails address src = (e : Error) × (src address ≡ err e)

-- The identifier is that of the first source which has one.
pub record IsFirst (address : Addr) (id : ValidHumanId) (sources : List HumanIdSource)
    : Type 0 where
  pub before : List HumanIdSource
  pub source : HumanIdSource
  pub after : List HumanIdSource
  pub split : sources ≡ before ++ source ∷ after
  pub failed : All (Fails address) before
  pub identified : source address ≡ ok id

consequent_source-IsFirst :
    (address : Addr) (id : ValidHumanId) (sources : List HumanIdSource)
    → consequent_source sources address ≡ ok id
    → IsFirst address id sources
unfolding consequent_source
consequent_source-IsFirst address id [] h = absurd (ground (arith, h))
consequent_source-IsFirst address id (src ∷ rest) h = elim (Result-cases (src address)) [
  | inl (v, e) ↦ record {
    before = [];
    source = src;
    after = rest;
    split = refl;
    failed = tt;
    identified = ground (arith, h, e);
  }
  | inr (x, e) ↦
      let f = consequent_source-IsFirst address id rest (ground (arith, h, e)) in
      record {
        before = src ∷ f.before;
        source = f.source;
        after = f.after;
        split = ap (λ l. src ∷ l) f.split;
        failed = ((x, e), f.failed);
        identified = f.identified;
      }
]

consequent_source-append :
    (address : Addr) (id : ValidHumanId) (before : List HumanIdSource) (src : HumanIdSource)
    (after : List HumanIdSource)
    → All (Fails address) before
    → src address ≡ ok id
    → consequent_source (before ++ src ∷ after) address ≡ ok id
unfolding consequent_source
consequent_source-append address id [] src after f h = ground (arith, h)
consequent_source-append address id (b ∷ before) src after ((x, e), f) h =
    ground (arith, e, consequent_source-append address id before src after f h)

-- The combined source identifies an address exactly when one of its sources does, and the result is
-- that of the first one that does.
pub consequent_source_iff :
    (address : Addr) (id : ValidHumanId) (sources : List HumanIdSource)
    → (consequent_source sources address ≡ ok id) ↔ IsFirst address id sources
consequent_source_iff address id sources = (
  consequent_source-IsFirst address id sources,
  λ f.
      subst (λ l. consequent_source l address ≡ ok id) (sym f.split)
        (consequent_source-append address id f.before f.source f.after f.failed f.identified),
)
