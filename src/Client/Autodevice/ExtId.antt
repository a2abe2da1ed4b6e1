-- ===== src/Client/Autodevice/ExtId.antt =====
-- The external identifiers of internal/client/autodevice.go, which are labels of a domain name.
use ad_guard_dnscli.Base.{
  ◌≡◌, ◌≤◌, ◌+◌, refl, ◌∙◌, sym, arith, [], ◌∷◌, ◌++◌, GoString, str, length, length-append, All-at,
}
use ad_guard_dnscli.Errors.{ok}
use ad_guard_dnscli.Golibs.{Golibs}
use ad_guard_dnscli.Client.HumanId.{
  new_human_id, new_profile_id, new_device_type, device_types, device_type_len, profile_id_len,
}
use ad_guard_dnscli.Client.HumanId.Laws.{new_human_id_iff, new_profile_id_iff, new_device_type_iff}
use ad_guard_dnscli.Client.Autodevice.{ext_id}

append-injective :
    (xs ys us vs : GoString) → length xs ≡ length ys → xs ++ us ≡ ys ++ vs → (xs ≡ ys) × (us ≡ vs)
append-injective [] [] us vs h e = (refl, e)
append-injective [] (y ∷ ys) us vs h e = absurd (omega (arith, h))
append-injective (x ∷ xs) [] us vs h e = absurd (omega (arith, h))
append-injective (x ∷ xs) (y ∷ ys) us vs h e =
    let rest = append-injective xs ys us vs (omega (arith, h)) (ground (arith, e)) in
    (ground (arith, e, rest), rest.1)

length-ext_id : (a b c : GoString) → length (ext_id a b c) ≡ length a + length b + length c + 2
unfolding ext_id
length-ext_id a b c =
    omega
      (arith, length-append a (str "-" ++ (b ++ (str "-" ++ c))), length-append b (str "-" ++ c))

module _ (g : Golibs) where
  -- What the constructors of the three parts accept.
  pub record AreParts (device_type profile_id id : GoString) : Type 0 where
    pub type_ok : new_device_type device_type ≡ ok device_type
    pub profile_ok : new_profile_id g profile_id ≡ ok profile_id
    pub id_ok : new_human_id g id ≡ ok id

  type_len : (dt : GoString) → new_device_type dt ≡ ok dt → length dt ≡ device_type_len
  type_len dt h =
      All-at (λ t. length t ≡ 3) dt device_types
        (refl, (refl, (refl, (refl, (refl, (refl, (refl, (refl, (refl, tt)))))))))
        ((new_device_type_iff dt dt).0 h).1

  profile_len : (p : GoString) → new_profile_id g p ≡ ok p → length p ≡ profile_id_len
  profile_len p h = ((new_profile_id_iff g p p).0 h).1

  -- The external identifier of accepted parts is not longer than a label of a domain name may be.
  pub ext_id-length-le :
      (device_type profile_id id : GoString)
      → AreParts device_type profile_id id
      → length (ext_id device_type profile_id id) ≤ g.max_domain_label_len
  ext_id-length-le device_type profile_id id p = omega (
    arith,
    length-ext_id device_type profile_id id,
    type_len device_type p.type_ok,
    profile_len profile_id p.profile_ok,
    ((new_human_id_iff g id id).0 p.id_ok).1.longest,
    g.max_domain_label_len_eq,
  )

  -- Accepted parts are determined by their external identifier.
  pub ext_id-injective :
      (device_type profile_id id device_type' profile_id' id' : GoString)
      → AreParts device_type profile_id id
      → AreParts device_type' profile_id' id'
      → ext_id device_type profile_id id ≡ ext_id device_type' profile_id' id'
      → (device_type ≡ device_type') × (profile_id ≡ profile_id') × (id ≡ id')
  unfolding ext_id
  ext_id-injective d p i d' p' i' v w e =
      let (same_d, e') =
        append-injective d d' (str "-" ++ (p ++ (str "-" ++ i)))
          (str "-" ++ (p' ++ (str "-" ++ i'))) (type_len d v.type_ok ∙ sym (type_len d' w.type_ok))
          e in
      let (same_p, e'') =
        append-injective p p' (str "-" ++ i) (str "-" ++ i')
          (profile_len p v.profile_ok ∙ sym (profile_len p' w.profile_ok)) (ground (arith, e')) in
      (same_d, same_p, ground (arith, e''))
