-- ===== src/Client/HumanId/Laws.antt =====
-- What the identifiers of internal/client/humanid.go satisfy.
use ad_guard_dnscli.Base.{
  ℕ, suc, ◌≤◌, ◌≡◌, ◌≢◌, ◌↔◌, inl, inr, refl, true, none, some, List, [], ◌∷◌, ◌++◌, arith,
  GoString, str, All, Any, here, there, bytes_eq_iff, Bool-cases, Option-cases, length,
  length-append, take-append, drop-append, eq_refl, ap, sym, ◌-◌, string_eq, is_prefix, index_from,
  index, replace_all, trim_suffix, pos, bytes_eq,
}
use ad_guard_dnscli.Errors.{ok}
use ad_guard_dnscli.Golibs.{Golibs, IsLabelByte}
use ad_guard_dnscli.Client.HumanId.{
  device_types, has, new_device_type, check_printable, max_human_id_len, new_human_id,
  fqdn_to_human_id, new_profile_id, cut_domain,
}

is_prefix-append : (p s : GoString) → is_prefix p (p ++ s) ≡ true
unfolding is_prefix
is_prefix-append [] s = refl
is_prefix-append (c ∷ p) s = ground (arith, is_prefix-append p s)

-- `s` has `p` inside it.
abbrev pub Contains : GoString → GoString → Type 0
Contains s p = (a : GoString) × (b : GoString) × (s ≡ a ++ (p ++ b))

index_from-append : (i c : ℕ) (p a b : GoString) → index_from i (a ++ ((c ∷ p) ++ b)) (c ∷ p) ≢ none
unfolding index_from
index_from-append i c p [] b e = ground (arith, is_prefix-append (c ∷ p) b)
index_from-append i c p (y ∷ a) b e = ground (arith, index_from-append (suc i) c p a b)

is_prefix_split : (p s : GoString) → is_prefix p s ≡ true → (b : GoString) × (s ≡ p ++ b)
unfolding is_prefix
is_prefix_split [] s h = (s, refl)
is_prefix_split (c ∷ p) [] h = absurd (ground arith)
is_prefix_split (c ∷ p) (x ∷ s) h =
    let (b, e) = is_prefix_split p s (ground arith) in (b, ground arith)

index_from-some : (i k : ℕ) (s p : GoString) → index_from i s p ≡ some k → Contains s p
unfolding index_from
index_from-some i k [] p e = absurd (ground arith)
index_from-some i k (x ∷ s) p e = elim (Bool-cases (is_prefix p (x ∷ s))) [
  | inl h ↦ let (b, q) = is_prefix_split p (x ∷ s) h in ([], b, q)
  | inr h ↦ let (a, b, q) = index_from-some (suc i) k s p (ground arith) in (x ∷ a, b, ground arith)
]

-- `strings.Index` fails exactly when the pattern is not inside the text.
index-none_iff : (c : ℕ) (p s : GoString) → (index s (c ∷ p) ≡ none) ↔ (¬ Contains s (c ∷ p))
unfolding index
index-none_iff c p s = (
  (λ e (a, b, q). index_from-append 0 c p a b (rw q at e)),
  (λ h. elim (Option-cases (index_from 0 s (c ∷ p))) [
    | inl e ↦ e
    | inr (k, e) ↦ absurd (h (index_from-some 0 k s (c ∷ p) e))
  ]),
)

pub trim_suffix-append : (d s : GoString) → trim_suffix (d ++ s) s ≡ d
unfolding trim_suffix
trim_suffix-append d s =
    let cut : length (d ++ s) - length s ≡ length d = omega (arith, length-append d s) in
    rw (cut, drop-append d s, take-append d s, eq_refl s) (ground (arith, length-append d s))

check_printable_iff :
    (i : ℕ) (s : GoString) → (check_printable i s ≡ none) ↔ All (λ c. (b'!' ≤ c) × (c ≤ b'~')) s
unfolding check_printable
check_printable_iff i [] = ((λ _. tt), (λ _. refl))
check_printable_iff i (c ∷ s) = (
  (λ h. (ground arith, (check_printable_iff (suc i) s).0 (ground arith))),
  (λ h. ground (arith, (check_printable_iff (suc i) s).1 h.1)),
)

module _ (g : Golibs) where
  pub max_human_id_len_lem : max_human_id_len g ≡ 50
  max_human_id_len_lem = omega (arith, g.max_domain_label_len_eq)

  -- What the checks of an identifier ask for.
  pub record IsHumanId (s : GoString) : Type 0 where
    pub shortest : 1 ≤ length s
    pub longest : length s ≤ 50
    pub label : g.validate_hostname_label s ≡ none
    pub hyphens : ¬ Contains s (str "---")

  -- A text is accepted as an identifier exactly when it has 1 to 50 bytes, is a host name's label,
  -- and has no three hyphens in a row; what is accepted is the text itself.
  pub new_human_id_iff : (s id : GoString) → (new_human_id g s ≡ ok id) ↔ ((id ≡ s) × IsHumanId s)
  unfolding new_human_id
  new_human_id_iff s id = (to, from)
    where
      to : new_human_id g s ≡ ok id → (id ≡ s) × IsHumanId s
      to h = (
        ground arith,
        record {
          shortest = ground (
            arith,
            max_human_id_len_lem,
            g.in_range_iff "human id length" (pos (length s)) (pos 1) (pos (max_human_id_len g)),
          );
          longest = ground (
            arith,
            max_human_id_len_lem,
            g.in_range_iff "human id length" (pos (length s)) (pos 1) (pos (max_human_id_len g)),
          );
          label = ground arith;
          hyphens = (index-none_iff b'-' (str "--") s).0 (ground arith);
        },
      )

      from : (id ≡ s) × IsHumanId s → new_human_id g s ≡ ok id
      from (e, v) =
          let absent : index s (str "---") ≡ none =
            (index-none_iff b'-' (str "--") s).1 v.hyphens in
          ground (
            arith,
            absent,
            max_human_id_len_lem,
            g.in_range_iff "human id length" (pos (length s)) (pos 1) (pos (max_human_id_len g)),
          )

  no_dot : (s : GoString) → All IsLabelByte s → All (λ c. c ≢ b'.') s
  no_dot [] h = tt
  no_dot (c ∷ s) (l, h) = (ground arith, no_dot s h)

  -- An identifier made from a domain name passes the checks of an identifier by itself, and has no
  -- dot.
  pub fqdn_to_human_id_valid :
      (fqdn id : GoString)
      → fqdn_to_human_id g fqdn ≡ ok id
      → (new_human_id g id ≡ ok id) × IsHumanId id × All (λ c. c ≢ b'.') id
  unfolding fqdn_to_human_id
  fqdn_to_human_id_valid fqdn id h =
      let id_str : GoString = replace_all (cut_domain g (trim_suffix fqdn (str "."))) b'.' b'-' in
      let passed : new_human_id g id_str ≡ ok id = ground arith in
      let (same, v) = (new_human_id_iff id_str id).0 passed in
      let v' : IsHumanId id = rw same v in
      ((new_human_id_iff id id).1 (refl, v'), v', no_dot id (g.hostname_label_bytes id v'.label).1)

  -- A dot at the end of the name does not matter.
  pub fqdn_to_human_id-trailing_dot :
      (domain : GoString)
      → trim_suffix domain (str ".") ≡ domain
      → fqdn_to_human_id g (domain ++ str ".") ≡ fqdn_to_human_id g domain
  unfolding fqdn_to_human_id
  fqdn_to_human_id-trailing_dot domain e = rw (trim_suffix-append domain (str "."), e)

  -- A profile's identifier is accepted exactly when it has 8 bytes, all of them printable and not
  -- a space, and is a host name's label.
  pub new_profile_id_iff :
      (s id : GoString)
      → (new_profile_id g s ≡ ok id) ↔ (
          (id ≡ s)
          × (length s ≡ 8)
          × All (λ c. (b'!' ≤ c) × (c ≤ b'~')) s
          × (g.validate_hostname_label s ≡ none))
  unfolding new_profile_id
  new_profile_id_iff s id = (
    (λ h. (
      ground arith,
      ground (arith, g.equal_iff "profile id length" (pos (length s)) (pos 8)),
      (check_printable_iff 0 s).0 (ground arith),
      ground arith,
    )),
    (λ h.
        let printable : check_printable 0 s ≡ none = (check_printable_iff 0 s).1 h.2 in
        ground (arith, printable, g.equal_iff "profile id length" (pos (length s)) (pos 8))),
  )

has_iff : (ts : List GoString) (s : GoString) → (has ts s ≡ true) ↔ Any (λ t. t ≡ s) ts
unfolding has
has_iff ts s = (to ts, from ts)
  where
    to : (ts : List GoString) → has ts s ≡ true → Any (λ t. t ≡ s) ts
    to [] h = absurd (ground arith)
    to (t ∷ ts) h = elim (Bool-cases (bytes_eq t s)) [
      | inl e ↦ here ((bytes_eq_iff t s).0 e)
      | inr e ↦ there (to ts (ground arith))
    ]

    from : (ts : List GoString) → Any (λ t. t ≡ s) ts → has ts s ≡ true
    from [] a = elim a [ ]
    from (t ∷ ts) (here e) = ground (arith, bytes_eq_iff t s)
    from (t ∷ ts) (there a) = ground (arith, from ts a)

-- A device type is accepted exactly when it is one of the nine that are listed.
pub new_device_type_iff :
    (s dt : GoString) → (new_device_type s ≡ ok dt) ↔ ((dt ≡ s) × Any (λ t. t ≡ s) device_types)
unfolding new_device_type
new_device_type_iff s dt = (
  (λ h. (ground arith, (has_iff device_types s).0 (ground arith))),
  (λ h.
      let listed : has device_types s ≡ true = (has_iff device_types s).1 h.1 in
      rw listed (ap ok (sym h.0))),
)
