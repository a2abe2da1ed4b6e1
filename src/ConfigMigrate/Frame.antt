-- ===== src/ConfigMigrate/Frame.antt =====
-- What the migrations of internal/configmigrate change in the configuration, and what they keep.
use mathlib.Core.Option
use ad_guard_dnscli.Base.{
  ℤ, ◌≡◌, ◌↔◌, inl, inr, refl, ap, ◌∙◌, false, some, [], ◌∷◌, arith, GoString, ◌==◌, string_eq,
  bytes_eq_iff, Option-cases, if◌then◌else◌,
}
use ad_guard_dnscli.Errors.{ok, Result-cases}
use ad_guard_dnscli.Golibs.{Golibs}
use ad_guard_dnscli.ConfigMigrate.{
  found_val, Value, obj, int, as_int, Fields, end, field, get, put, modify, modify_value, as_obj,
  field_val, field_chain_val,
}

pub get-put :
    (k j : GoString) (v : Value) (o : Fields)
    → get j (put k v o) ≡ (if k == j then some v else get j o)
unfolding get put
get-put k j v end = refl
get-put k j v (field i w o) =
    ground (arith, bytes_eq_iff k j, bytes_eq_iff i k, bytes_eq_iff i j, get-put k j v o)

pub get-modify :
    (k j : GoString) (f : Fields → Fields) (o : Fields)
    → get j (modify k f o) ≡ (if k == j then Option.map (modify_value f) (get j o) else get j o)
unfolding get modify
get-modify k j f end = ground arith
get-modify k j f (field i w o) =
    ground (arith, bytes_eq_iff k j, bytes_eq_iff i k, bytes_eq_iff i j, get-modify k j f o)

module _ (g : Golibs) where
  found_val-obj :
      (key : GoString) (val : Value) (v : Fields)
      → found_val g as_obj key (some val) ≡ ok v
      → val ≡ obj v
  found_val-obj key (obj w) v h = ground arith
  found_val-obj key val v h = ground arith

  found_val-int :
      (key : GoString) (val : Value) (n : ℤ)
      → found_val g as_int key (some val) ≡ ok n
      → val ≡ int n
  found_val-int key (int n) v h = ground arith
  found_val-int key val v h = ground arith

  pub field_val-int :
      (o : Fields) (key : GoString) (n : ℤ)
      → field_val g as_int o key ≡ ok n
      → get key o ≡ some (int n)
  unfolding field_val
  field_val-int o key n h = elim (Option-cases (get key o)) [
    | inl e ↦ absurd (ground arith)
    | inr (val, e) ↦ e ∙ ap some (found_val-int key val n (rw e at h))
  ]

  field_val-obj :
      (o : Fields) (key : GoString) (v : Fields)
      → field_val g as_obj o key ≡ ok v
      → get key o ≡ some (obj v)
  unfolding field_val
  field_val-obj o key v h = elim (Option-cases (get key o)) [
    | inl e ↦ absurd (ground arith)
    | inr (val, e) ↦ e ∙ ap some (found_val-obj key val v (rw e at h))
  ]

  -- A field is read as an object exactly when it is one.
  pub field_val_iff :
      (o : Fields) (key : GoString) (v : Fields)
      → (field_val g as_obj o key ≡ ok v) ↔ (get key o ≡ some (obj v))
  unfolding field_val
  field_val_iff o key v =
      (field_val-obj o key v, λ h. ground (arith, h, g.not_nil_interface_iff key false))

  -- So with the object that a chain of two keys leads to.
  pub field_chain_val_iff :
      (o : Fields) (key next : GoString) (v : Fields)
      → (field_chain_val g as_obj o key (next ∷ []) ≡ ok v)
        ↔ ((inner : Fields) × (get key o ≡ some (obj inner)) × (get next inner ≡ some (obj v)))
  unfolding field_chain_val
  field_chain_val_iff o key next v = (to, from)
    where
      to :
          field_chain_val g as_obj o key (next ∷ []) ≡ ok v
          → (inner : Fields) × (get key o ≡ some (obj inner)) × (get next inner ≡ some (obj v))
      to h = elim (Result-cases (field_val g as_obj o key)) [
        | inl (inner, e) ↦ (
          inner,
          (field_val_iff o key inner).0 e,
          (field_val_iff inner next v).0 (ground (arith, e)),
        )
        | inr (er, e) ↦ absurd (ground arith)
      ]

      from :
          ((inner : Fields) × (get key o ≡ some (obj inner)) × (get next inner ≡ some (obj v)))
          → field_chain_val g as_obj o key (next ∷ []) ≡ ok v
      from (inner, h, k) =
          let outer = (field_val_iff o key inner).1 h in
          let last = (field_val_iff inner next v).1 k in ground (arith, outer, last)

  -- The objects on the way along a chain of three keys.
  pub field_chain_val-objects :
      (o : Fields) (key next last : GoString) (v : Fields)
      → field_chain_val g as_obj o key (next ∷ last ∷ []) ≡ ok v
      → (a b : Fields) × (get key o ≡ some (obj a))
        × (get next a ≡ some (obj b))
        × (get last b ≡ some (obj v))
  unfolding field_chain_val
  field_chain_val-objects o key next last v h = elim (Result-cases (field_val g as_obj o key)) [
    | inl (a, e) ↦ elim (Result-cases (field_val g as_obj a next)) [
      | inl (b, e') ↦ (
        a,
        b,
        (field_val_iff o key a).0 e,
        (field_val_iff a next b).0 e',
        (field_val_iff b last v).0 (ground (arith, e, e')),
      )
      | inr (er, e') ↦ absurd (ground arith)
    ]
    | inr (er, e) ↦ absurd (ground arith)
  ]
