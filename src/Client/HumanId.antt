-- ===== src/Client/HumanId.antt =====
-- internal/client/humanid.go: identifiers of clients, profiles and device types.
pub mod Laws
pub mod Made
use ad_guard_dnscli.Base.{
  ℕ, suc, ◌-◌, ◌*◌, ◌||◌, Bool, false, Option, none, some, List, [], ◌∷◌, GoString, str, ◌==◌,
  string_eq, ltb, if◌then◌else◌, length, take, trim_suffix, index, replace_all, pos,
}
use ad_guard_dnscli.Errors.{
  Error, errorf, wrapf, text, num, sentinel, bad_enum_value, Result, ok, err, ◌>>=◌, ◌>>◌, check,
  wrap,
}
use ad_guard_dnscli.Golibs.{Golibs}

abbrev pub device_type_len : ℕ
device_type_len = 3

abbrev pub profile_id_len : ℕ
profile_id_len = 8

abbrev pub min_human_id_len : ℕ
min_human_id_len = 1

-- The device types, in the order of the source.
abbrev pub device_types : List GoString
device_types =
    str "adr"
    ∷ str "gam"
    ∷ str "ios"
    ∷ str "lnx"
    ∷ str "mac"
    ∷ str "otr"
    ∷ str "rtr"
    ∷ str "stv"
    ∷ str "win"
    ∷ []

unfoldable pub has : List GoString → GoString → Bool
has [] s = false
has (t ∷ ts) s = t == s || has ts s

unfoldable pub new_device_type : GoString → Result GoString
unfolding has
new_device_type s =
    if has device_types s
    then ok s
    else err (wrapf "device type: %w: %q" (text s ∷ []) (sentinel bad_enum_value))

-- The loop over the characters; the index and the first byte of the bad one are in the error.
unfoldable pub check_printable : ℕ → GoString → Option Error
check_printable i [] = none
check_printable i (r ∷ s) =
    let rest = check_printable (suc i) s in
    if ltb r b'!' || ltb b'~' r
    then some (errorf "bad profile id: bad char %q at index %d" (num r ∷ num i ∷ []))
    else rest

module _ (g : Golibs) where
  abbrev pub max_human_id_len : ℕ
  max_human_id_len =
      g.max_domain_label_len - device_type_len - profile_id_len - 2 * length (str "-")

  abbrev pub reject_hyphens : GoString → Option ℕ → Result GoString
  reject_hyphens s none = ok s
  reject_hyphens s (some i) =
      err (errorf "at index %d: max 2 consecutive hyphens are allowed" (num i ∷ []))

  unfoldable pub new_human_id : GoString → Result GoString
  new_human_id s = do
    check (
        g.in_range "human id length" (pos (length s)) (pos min_human_id_len) (pos max_human_id_len))
    check (g.validate_hostname_label s)
    reject_hyphens s (index s (str "---"))

  -- The domain cut to the length of an identifier, without a dot at its end.
  abbrev pub cut_domain : GoString → GoString
  cut_domain domain =
      if ltb max_human_id_len (length domain)
      then trim_suffix (take max_human_id_len domain) (str ".")
      else domain

  unfoldable pub fqdn_to_human_id : GoString → Result GoString
  fqdn_to_human_id fqdn = do
    let domain = trim_suffix fqdn (str ".")
    check (g.no_less_than "domain" (pos (length domain)) (pos min_human_id_len))
    new_human_id (replace_all (cut_domain domain) b'.' b'-')

  unfoldable pub new_profile_id : GoString → Result GoString
  new_profile_id s = do
    wrap "bad profile id %q: %w" (text s ∷ [])
        (check (g.equal "profile id length" (pos (length s)) (pos profile_id_len)))
    check (check_printable 0 s)
    wrap "bad profile id %q: %w" (text s ∷ []) (check (g.validate_hostname_label s))
    ok s
