-- ===== src/ConfigMigrate/Additions.antt =====
-- `migrateTo2` and `migrateTo3` of internal/configmigrate: what they change in the configuration.
use ad_guard_dnscli.Base.{
  ℕ, ◌≡◌, ◌≢◌, refl, eq_refl, Option, none, some, [], ◌∷◌, arith, GoString, string_eq, bytes_eq,
  bytes_eq_iff,
}
use ad_guard_dnscli.Errors.{Error, Result, ok, err}
use ad_guard_dnscli.Golibs.{Golibs}
use ad_guard_dnscli.ConfigMigrate.{
  Value, obj, version, Fields, get, put, modify, as_obj, field_chain_val,
}
use ad_guard_dnscli.ConfigMigrate.Versions.{
  schema_version_key, dns_key, server_key, bind_retry_key, bind_retry_default, pending_requests_key,
  pending_requests_default, Migrated, add_checked, add_to_server, migrate_to2, migrate_to3,
}
use ad_guard_dnscli.ConfigMigrate.Frame.{get-put, get-modify, field_chain_val_iff}

-- The configuration has an object at dns.server, without the field.
abbrev pub CanAdd : GoString → Fields → Type 0
CanAdd key conf =
    (dns : Fields) × (server : Fields) × (get dns_key conf ≡ some (obj dns))
    × (get server_key dns ≡ some (obj server))
    × (get key server ≡ none)

-- What adding a field to the object at dns.server does to the configuration.
pub record AddsToServer (key : GoString) (value : Value) (target : ℕ) (conf conf' : Fields)
    : Type 0 where
  pub dns : Fields
  pub server : Fields
  pub had_dns : get dns_key conf ≡ some (obj dns)
  pub had_server : get server_key dns ≡ some (obj server)
  pub was_missing : get key server ≡ none
  pub versioned : get schema_version_key conf' ≡ some (version target)
  pub dns' : Fields
  pub server' : Fields
  pub has_dns : get dns_key conf' ≡ some (obj dns')
  pub has_server : get server_key dns' ≡ some (obj server')
  pub added : get key server' ≡ some value
  pub server_kept : (k : GoString) → k ≢ key → get k server' ≡ get k server
  pub dns_kept : (k : GoString) → k ≢ server_key → get k dns' ≡ get k dns
  pub conf_kept : (k : GoString) → k ≢ schema_version_key → k ≢ dns_key → get k conf' ≡ get k conf

abbrev added_to : GoString → Value → ℕ → Fields → Fields
added_to key value target conf =
    put schema_version_key (version target)
      (modify dns_key (λ dns. modify server_key (put key value) dns) conf)

adds :
    (key : GoString) (value : Value) (target : ℕ) (conf dns server : Fields)
    → get dns_key conf ≡ some (obj dns)
    → get server_key dns ≡ some (obj server)
    → get key server ≡ none
    → AddsToServer key value target conf (added_to key value target conf)
unfolding bytes_eq
adds key value target conf dns server h k m =
    let changed : Fields → Fields = λ d. modify server_key (put key value) d in
    record {
      dns = dns;
      server = server;
      had_dns = h;
      had_server = k;
      was_missing = m;
      versioned = ground (
        arith,
        get-put schema_version_key schema_version_key (version target)
            (modify dns_key changed conf),
      );
      dns' = changed dns;
      server' = put key value server;
      has_dns = ground (
        arith,
        h,
        get-put schema_version_key dns_key (version target) (modify dns_key changed conf),
        get-modify dns_key dns_key changed conf,
      );
      has_server = ground (arith, k, get-modify server_key server_key (put key value) dns);
      added = ground (arith, get-put key key value server, eq_refl key);
      server_kept = λ i ne. ground (arith, ne, get-put key i value server, bytes_eq_iff key i);
      dns_kept = λ i ne.
          ground
            (arith, ne, get-modify server_key i (put key value) dns, bytes_eq_iff server_key i);
      conf_kept = λ i ne ne'. ground (
        arith,
        ne,
        ne',
        get-put schema_version_key i (version target) (modify dns_key changed conf),
        get-modify dns_key i changed conf,
        bytes_eq_iff schema_version_key i,
        bytes_eq_iff dns_key i,
      );
    }

-- Success adds the field, and an error leaves the configuration as it was.
pub data IsAddition (key : GoString) (value : Value) (target : ℕ) (conf : Fields)
    : Migrated → Type 0 where
  addition :
      {conf' : Fields}
      → AddsToServer key value target conf conf'
      → IsAddition key value target conf (conf', none)
  failure : {e : Error} → ¬ CanAdd key conf → IsAddition key value target conf (conf, some e)

module _ (g : Golibs) (key : GoString) (value : Value) (target : ℕ) (conf : Fields) where
  add_checked-IsAddition :
      (dns server : Fields)
      → get dns_key conf ≡ some (obj dns)
      → get server_key dns ≡ some (obj server)
      → (o : Option Value) → get key server ≡ o
      → IsAddition key value target conf (add_checked key value target conf o)
  add_checked-IsAddition dns server d s none m =
      addition (adds key value target conf dns server d s m)
  add_checked-IsAddition dns server d s (some v) m =
      failure (λ (dns', server', d', s', m'). absurd (ground arith))

  add_to_server-IsAddition :
      (r : Result Fields)
      → field_chain_val g as_obj conf dns_key (server_key ∷ []) ≡ r
      → IsAddition key value target conf (add_to_server key value target conf r)
  add_to_server-IsAddition (err e) h = failure (λ (dns, server, d, s, m).
      absurd (ground (arith, (field_chain_val_iff g conf dns_key server_key server).1 (dns, d, s))))
  add_to_server-IsAddition (ok server) h =
      let (dns, d, s) = (field_chain_val_iff g conf dns_key server_key server).0 h in
      add_checked-IsAddition dns server d s (get key server) refl

module _ (g : Golibs) where
  -- `migrateTo2` either adds the default `bind_retry` to the object at dns.server and sets the
  -- version to 2, where that object is there and has no such field, and keeps all other fields; or
  -- it fails, exactly where this is not so, and leaves the configuration unchanged.
  pub migrate_to2-IsAddition :
      (conf : Fields) → IsAddition bind_retry_key bind_retry_default 2 conf (migrate_to2 g conf)
  unfolding migrate_to2
  migrate_to2-IsAddition conf =
      add_to_server-IsAddition g bind_retry_key bind_retry_default 2 conf
        (field_chain_val g as_obj conf dns_key (server_key ∷ [])) refl

  -- `migrateTo3` does the same with `pending_requests` and the version 3.
  pub migrate_to3-IsAddition :
      (conf : Fields)
      → IsAddition pending_requests_key pending_requests_default 3 conf (migrate_to3 g conf)
  unfolding migrate_to3
  migrate_to3-IsAddition conf =
      add_to_server-IsAddition g pending_requests_key pending_requests_default 3 conf
        (field_chain_val g as_obj conf dns_key (server_key ∷ [])) refl
