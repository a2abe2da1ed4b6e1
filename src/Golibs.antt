-- ===== src/Golibs.antt =====
-- github.com/AdguardTeam/golibs, which the repository does not contain: the functions that the
-- program calls, and what their documentation says of them.
use ad_guard_dnscli.Base.{
  ℕ, ◌≤◌, ◌≡◌, ◌≢◌, ◌↔◌, ◌⊎◌, String, Option, none, List, [], ◌∷◌, ◌++◌, All, Bool, true, false,
  GoString, ℤ, pos, ◌≤ℤ◌,
}
use ad_guard_dnscli.Errors.{Error, Errs, Arg, IsNil}

-- The bytes of a host name's label.
abbrev pub IsLabelByte : ℕ → Type 0
IsLabelByte c =
    (c ≡ b'-') ⊎ ((b'0' ≤ c) × (c ≤ b'9')) ⊎ ((b'A' ≤ c) × (c ≤ b'Z')) ⊎ ((b'a' ≤ c) × (c ≤ b'z'))

pub record Golibs : Type 0 where
  -- Package errors: `Annotate` leaves `nil` alone and wraps any other error.
  pub annotate : Option Error → String → List Arg → Option Error
  pub annotate_iff :
      (e : Option Error) (f : String) (l : List Arg) → (annotate e f l ≡ none) ↔ (e ≡ none)
  -- Package validate: each function returns `nil` exactly when the value is as its name says.
  pub in_range : String → ℤ → ℤ → ℤ → Option Error
  pub in_range_iff :
      (n : String) (v lo hi : ℤ) → (in_range n v lo hi ≡ none) ↔ ((lo ≤ℤ v) × (v ≤ℤ hi))
  pub no_less_than : String → ℤ → ℤ → Option Error
  pub no_less_than_iff : (n : String) (v lo : ℤ) → (no_less_than n v lo ≡ none) ↔ (lo ≤ℤ v)
  pub equal : String → ℤ → ℤ → Option Error
  pub equal_iff : (n : String) (v w : ℤ) → (equal n v w ≡ none) ↔ (v ≡ w)
  pub positive : String → ℤ → Option Error
  pub positive_iff : (n : String) (v : ℤ) → (positive n v ≡ none) ↔ (pos 1 ≤ℤ v)
  pub not_empty : String → GoString → Option Error
  pub not_empty_iff : (n : String) (s : GoString) → (not_empty n s ≡ none) ↔ (s ≢ [])
  pub not_zero : String → ℕ → Option Error
  pub not_zero_iff : (n : String) (v : ℕ) → (not_zero n v ≡ none) ↔ (v ≢ 0)
  -- `EmptySlice`, by the slice's length, and `NotNilInterface`, by whether the value is `nil`.
  pub empty_slice : String → ℕ → Option Error
  pub empty_slice_iff : (n : String) (len : ℕ) → (empty_slice n len ≡ none) ↔ (len ≡ 0)
  pub not_nil_interface : GoString → Bool → Option Error
  pub not_nil_interface_iff :
      (n : GoString) (is_nil : Bool) → (not_nil_interface n is_nil ≡ none) ↔ (is_nil ≡ false)
  -- `Append` and `AppendSlice`, by the results of the values' `Validate` methods.
  pub append : Errs → String → Option Error → Errs
  pub append_iff :
      (errs : Errs) (n : String) (e : Option Error)
      → All IsNil (append errs n e) ↔ (All IsNil errs × (e ≡ none))
  pub append_slice : Errs → String → Errs → Errs
  pub append_slice_iff :
      (errs : Errs) (n : String) (es : Errs)
      → All IsNil (append_slice errs n es) ↔ (All IsNil errs × All IsNil es)
  -- Package netutil; the constant is `MaxDomainLabelLen`.
  pub max_domain_label_len : ℕ
  pub max_domain_label_len_eq : max_domain_label_len ≡ 63
  pub validate_hostname_label : GoString → Option Error
  pub hostname_label_bytes :
      (s : GoString) → validate_hostname_label s ≡ none → (s ≢ []) × All IsLabelByte s
  pub validate_domain_name : GoString → Option Error
  pub is_subdomain : GoString → GoString → Bool
  pub is_subdomain_iff :
      (domain top : GoString)
      → (is_subdomain domain top ≡ true)
        ↔ ((sub : GoString) × (sub ≢ []) × (domain ≡ sub ++ b'.' ∷ top))
