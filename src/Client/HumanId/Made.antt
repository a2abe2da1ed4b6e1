-- ===== src/Client/HumanId/Made.antt =====
-- internal/client/humanid.go: which identifier is made of a domain name (`fqdnToHumanID`).
use ad_guard_dnscli.Base.{
  ℕ, ◌≤◌, ◌<◌, ◌≡◌, ◌≢◌, ◌↔◌, ◌⊎◌, inl, inr, none, refl, ap, sym, ◌∙◌, true, [], ◌∷◌, ◌++◌, arith,
  GoString, str, Bool-cases, length, take, drop, ltb, replace_all, trim_suffix, pos, ◌-◌, leb,
  bytes_eq, bytes_eq_iff, nat_beq, take-append-drop, ◌&&◌, length-append, subst, length-take,
  length-drop, take-append,
}
use ad_guard_dnscli.Errors.{ok}
use ad_guard_dnscli.Golibs.{Golibs}
use ad_guard_dnscli.Client.HumanId.{max_human_id_len, fqdn_to_human_id, new_human_id, cut_domain}
use ad_guard_dnscli.Client.HumanId.Laws.{
  IsHumanId, new_human_id_iff, trim_suffix-append, max_human_id_len_lem,
}

-- `s` without a dot at its end.
abbrev pub IsUndotted : GoString → GoString → Type 0
IsUndotted s t = (s ≡ t ++ str ".") ⊎ ((s ≡ t) × ((a : GoString) → s ≢ a ++ str "."))

-- `t` is `s`, or the first 50 bytes of a longer `s` without a dot at their end.
abbrev pub IsCut : GoString → GoString → Type 0
IsCut s t =
    ((s ≡ t) × (length s ≤ 50))
    ⊎ ((head : GoString) × (rest : GoString) × (s ≡ head ++ rest)
        × (length head ≡ 50)
        × (rest ≢ [])
        × IsUndotted head t)

-- Byte by byte, a dot becomes a hyphen and any other byte stays.
abbrev pub IsHyphened : GoString → GoString → Type 0
IsHyphened [] [] = Unit
IsHyphened [] (d ∷ t) = ⊥
IsHyphened (c ∷ s) [] = ⊥
IsHyphened (c ∷ s) (d ∷ t) = (((c ≡ b'.') × (d ≡ b'-')) ⊎ ((c ≢ b'.') × (d ≡ c))) × IsHyphened s t

hyphened : (s : GoString) → IsHyphened s (replace_all s b'.' b'-')
unfolding replace_all
hyphened [] = tt
hyphened (c ∷ s) = elim (Bool-cases (nat_beq c b'.')) [
  | inl dot ↦ (inl (ground (arith, dot), ground (arith, dot)), hyphened s)
  | inr other ↦ (inr ((λ e. ground (arith, other, e)), ground (arith, other)), hyphened s)
]

-- There is one way to put the hyphens.
hyphened_unique : (s t u : GoString) → IsHyphened s t → IsHyphened s u → t ≡ u
hyphened_unique [] [] [] h k = refl
hyphened_unique [] [] (x ∷ u) h k = elim k [ ]
hyphened_unique [] (d ∷ t) u h k = elim h [ ]
hyphened_unique (c ∷ s) [] u h k = elim h [ ]
hyphened_unique (c ∷ s) (d ∷ t) [] h k = elim k [ ]
hyphened_unique (c ∷ s) (d ∷ t) (x ∷ u) (h, hs) (k, ks) =
    ground (arith, hyphened_unique s t u hs ks, h, k)

undotted : (s : GoString) → IsUndotted s (trim_suffix s (str "."))
unfolding trim_suffix
undotted s = elim (Bool-cases (leb 1 (length s) && bytes_eq (drop (length s - 1) s) (str "."))) [
  | inl cuts ↦
      let last : drop (length s - 1) s ≡ str "." =
        (bytes_eq_iff (drop (length s - 1) s) (str ".")).0 (ground (arith, cuts)) in
      rw cuts
        (inl (sym (take-append-drop (length s - 1) s) ∙ ap (λ t. take (length s - 1) s ++ t) last))
  | inr kept ↦
      let same : trim_suffix s (str ".") ≡ s = rw kept refl in
      rw kept (
        inr (
          refl,
          λ a e. absurd (
              omega (
                arith,
                length-append a (str "."),
                ap length e,
                ap length (
                    sym same
                    ∙ ap (λ t. trim_suffix t (str ".")) e
                    ∙ trim_suffix-append a (str ".")),
              )),
        ))
]

undotted_unique : (s t u : GoString) → IsUndotted s t → IsUndotted s u → t ≡ u
undotted_unique s t u (inl e) (inl e') =
    sym (trim_suffix-append t (str "."))
    ∙ ap (λ r. trim_suffix r (str ".")) (sym e ∙ e')
    ∙ trim_suffix-append u (str ".")
undotted_unique s t u (inl e) (inr (e', free)) = absurd (free t e)
undotted_unique s t u (inr (e, free)) (inl e') = absurd (free u e')
undotted_unique s t u (inr (e, free)) (inr (e', free')) = sym e ∙ e'

-- What is cut is longer than 50 bytes, and its first 50 bytes are the ones that are kept.
cut_longer :
    (s head rest : GoString)
    → s ≡ head ++ rest
    → length head ≡ 50
    → rest ≢ []
    → (50 < length s) × (take 50 s ≡ head)
cut_longer s head [] e l ne = absurd (ne refl)
cut_longer s head (c ∷ rest) e l ne = (
  omega (arith, ap length e, l, length-append head (c ∷ rest)),
  ap (λ n. take n s) (sym l) ∙ ap (λ t. take (length head) t) e ∙ take-append head (c ∷ rest),
)

cut_unique : (s t u : GoString) → IsCut s t → IsCut s u → t ≡ u
cut_unique s t u (inl (e, le)) (inl (e', le')) = sym e ∙ e'
cut_unique s t u (inl (e, le)) (inr (head, rest, e', l, ne, h)) =
    absurd (omega (arith, le, (cut_longer s head rest e' l ne).0))
cut_unique s t u (inr (head, rest, e', l, ne, h)) (inl (e, le)) =
    absurd (omega (arith, le, (cut_longer s head rest e' l ne).0))
cut_unique s t u (inr (head, rest, e, l, ne, h)) (inr (head', rest', e', l', ne', h')) =
    let same : head ≡ head' =
      sym (cut_longer s head rest e l ne).1 ∙ (cut_longer s head' rest' e' l' ne').1 in
    undotted_unique head' t u (subst (λ x. IsUndotted x t) same h) h'

hyphened_nil : (u : GoString) → IsHyphened [] u → length u ≡ 0
hyphened_nil [] h = refl
hyphened_nil (d ∷ u) h = elim h [ ]

cut_nil : (t : GoString) → IsCut [] t → t ≡ []
cut_nil t (inl (e, le)) = sym e
cut_nil t (inr (head, rest, e, l, ne, h)) =
    absurd (omega (arith, (cut_longer [] head rest e l ne).0))

-- Nothing is made of an empty name.
made_longer : (s t u : GoString) → IsCut s t → IsHyphened t u → 1 ≤ length u → 1 ≤ length s
made_longer [] t u c h l =
    absurd (omega (arith, l, hyphened_nil u (subst (λ x. IsHyphened x u) (cut_nil t c) h)))
made_longer (x ∷ s) t u c h l = omega arith

long_enough : (m n : ℕ) → ltb m n ≡ true → m < n
long_enough m n h = ground (arith, h)

module _ (g : Golibs) where
  is_cut : (s : GoString) → IsCut s (cut_domain g s)
  is_cut s = elim (Bool-cases (ltb (max_human_id_len g) (length s))) [
    | inl long ↦
        let head : GoString = take (max_human_id_len g) s in
        let fits : max_human_id_len g ≤ length s = ground (arith, long) in
        rw long (
          inr (
            head,
            drop (max_human_id_len g) s,
            sym (take-append-drop (max_human_id_len g) s),
            length-take (max_human_id_len g) s fits ∙ max_human_id_len_lem g,
            (λ e. omega (
              arith,
              long_enough (max_human_id_len g) (length s) long,
              length-drop (max_human_id_len g) s,
              ap length e,
            )),
            undotted head,
          ))
    | inr short ↦ rw short (inl (refl, ground (arith, short, max_human_id_len_lem g)))
  ]

  -- The identifiers that names are made into, exactly: the name without a dot at its end, cut to 50
  -- bytes where it is longer, again without a dot at its end, and with hyphens for its dots, where that
  -- is an identifier, which has 1 to 50 bytes, is a host name's label, and has no three hyphens in a
  -- row.
  pub fqdn_to_human_id_iff :
      (fqdn id : GoString)
      → (fqdn_to_human_id g fqdn ≡ ok id) ↔ (
          (domain : GoString) × (kept : GoString) × IsUndotted fqdn domain
          × IsCut domain kept
          × IsHyphened kept id
          × IsHumanId g id)
  unfolding fqdn_to_human_id
  fqdn_to_human_id_iff fqdn id =
      let domain : GoString = trim_suffix fqdn (str ".") in
      let kept : GoString = cut_domain g domain in
      let made : GoString = replace_all kept b'.' b'-' in
      (
        (λ h.
            let passed : new_human_id g made ≡ ok id = ground (arith, h) in
            let (same, v) = (new_human_id_iff g made id).0 passed in
            (
              domain,
              kept,
              undotted fqdn,
              is_cut domain,
              subst (IsHyphened kept) (sym same) (hyphened kept),
              subst (IsHumanId g) (sym same) v,
            )),
        (λ (domain', kept', undot, is_cut', hyphens, v).
            let domain_same : domain' ≡ domain =
              undotted_unique fqdn domain' domain undot (undotted fqdn) in
            let kept_same : kept' ≡ kept =
              cut_unique domain kept' kept (subst (λ x. IsCut x kept') domain_same is_cut')
                (is_cut domain) in
            let same : id ≡ made =
              hyphened_unique kept id made (subst (λ x. IsHyphened x id) kept_same hyphens)
                (hyphened kept) in
            let there : 1 ≤ length domain =
              subst (λ x. 1 ≤ length x) domain_same
                (made_longer domain' kept' id is_cut' hyphens v.shortest) in
            let enough : g.no_less_than "domain" (pos (length domain)) (pos 1) ≡ none =
              (g.no_less_than_iff "domain" (pos (length domain)) (pos 1)).1
                (ground (arith, there)) in
            let passed : new_human_id g made ≡ ok id =
              (new_human_id_iff g made id).1 (same, subst (IsHumanId g) same v) in
            ground (arith, enough, passed)),
      )
