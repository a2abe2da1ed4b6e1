-- ===== src/Tests/Library.antt =====
-- A concrete library in the place of golibs, for the tests.
use ad_guard_dnscli.Base.{
  ℕ, ◌≡◌, ◌≢◌, ◌↔◌, inl, inr, refl, ap, String, Bool, true, false, not, ◌&&◌, ◌||◌, Option, none,
  some, List, [], ◌∷◌, ◌++◌, arith, All, GoString, string_eq, bytes_eq_iff, ◌==◌, ℤ, pos, leb,
  nat_beq, leb_int, if◌then◌else◌, Bool-cases, Option-cases,
}
use ad_guard_dnscli.Errors.{Error, Arg, errorf, wrapf, All-append_iff}
use ad_guard_dnscli.Golibs.{Golibs, IsLabelByte}

abbrev problem : String → Bool → Option Error
problem n holds = if holds then none else some (errorf n [])

problem_iff : (n : String) (b : Bool) → (problem n b ≡ none) ↔ (b ≡ true)
problem_iff n b = ground arith

abbrev annotated : Option Error → String → List Arg → Option Error
annotated none f l = none
annotated (some e) f l = some (wrapf f l e)

abbrev int_eq : ℤ → ℤ → Bool
int_eq a b = leb_int a b && leb_int b a

pub int_eq_iff : (a b : ℤ) → (int_eq a b ≡ true) ↔ (a ≡ b)
int_eq_iff a b = ground arith

abbrev is_label_byte : ℕ → Bool
is_label_byte c =
    nat_beq c b'-'
    || (leb b'0' c && leb c b'9')
    || (leb b'A' c && leb c b'Z')
    || (leb b'a' c && leb c b'z')

abbrev all_label_bytes : GoString → Bool
all_label_bytes [] = true
all_label_bytes (c ∷ s) = is_label_byte c && all_label_bytes s

abbrev is_label : GoString → Bool
is_label s = not (s == []) && all_label_bytes s

pub label_bytes : (s : GoString) → all_label_bytes s ≡ true → All IsLabelByte s
label_bytes [] h = tt
label_bytes (c ∷ s) h = (ground arith, label_bytes s (ground arith))

abbrev is_sub : GoString → GoString → Bool
is_sub [] top = false
is_sub (c ∷ cs) top = cs == (b'.' ∷ top) || is_sub cs top

pub sub_of :
    (domain top : GoString)
    → is_sub domain top ≡ true
    → (sub : GoString) × (sub ≢ []) × (domain ≡ sub ++ b'.' ∷ top)
sub_of [] top h = absurd (ground (arith, h))
sub_of (c ∷ cs) top h = elim (Bool-cases (cs == (b'.' ∷ top))) [
  | inl same ↦ (
    c ∷ [],
    (λ e. absurd (ground (arith, e))),
    ap (λ s. c ∷ s) ((bytes_eq_iff cs (b'.' ∷ top)).0 same),
  )
  | inr other ↦
      let (sub, ne, e) = sub_of cs top (ground (arith, h, other)) in
      (c ∷ sub, (λ e'. absurd (ground (arith, e'))), ap (λ s. c ∷ s) e)
]

pub is_sub-of :
    (domain sub top : GoString) → sub ≢ [] → domain ≡ sub ++ b'.' ∷ top → is_sub domain top ≡ true
is_sub-of domain [] top ne e = absurd (ne refl)
is_sub-of [] (x ∷ sub) top ne e = absurd (ground (arith, e))
is_sub-of (c ∷ cs) (x ∷ []) top ne e =
    let same : (cs == (b'.' ∷ top)) ≡ true = (bytes_eq_iff cs (b'.' ∷ top)).1 (ground (arith, e)) in
    ground (arith, same)
is_sub-of (c ∷ cs) (x ∷ y ∷ sub) top ne e =
    let rest = is_sub-of cs (y ∷ sub) top (λ e'. absurd (ground (arith, e'))) (ground (arith, e)) in
    ground (arith, rest)

abbrev pub library : Golibs
library = record {
  annotate = annotated;
  annotate_iff = λ e f l. ground (arith, Option-cases e);
  in_range = λ n v lo hi. problem n (leb_int lo v && leb_int v hi);
  in_range_iff = λ n v lo hi. ground arith;
  no_less_than = λ n v lo. problem n (leb_int lo v);
  no_less_than_iff = λ n v lo. ground arith;
  equal = λ n v w. problem n (int_eq v w);
  equal_iff = λ n v w. ground (arith, int_eq_iff v w);
  positive = λ n v. problem n (leb_int (pos 1) v);
  positive_iff = λ n v. ground arith;
  not_empty = λ n s. problem n (not (s == []));
  not_empty_iff = λ n s. ground (arith, bytes_eq_iff s []);
  not_zero = λ n v. problem n (not (nat_beq v 0));
  not_zero_iff = λ n v. ground arith;
  empty_slice = λ n len. problem n (nat_beq len 0);
  empty_slice_iff = λ n len. ground arith;
  not_nil_interface = λ n is_nil. problem "not_nil" (not is_nil);
  not_nil_interface_iff = λ n is_nil. ground arith;
  append = λ errs n e. errs ++ e ∷ [];
  append_iff = λ errs n e. (
    (λ h. (((All-append_iff errs (e ∷ [])).0 h).0, ((All-append_iff errs (e ∷ [])).0 h).1.0)),
    (λ h. (All-append_iff errs (e ∷ [])).1 (h.0, (h.1, tt))),
  );
  append_slice = λ errs n es. errs ++ es;
  append_slice_iff = λ errs n es. All-append_iff errs es;
  max_domain_label_len = 63;
  max_domain_label_len_eq = refl;
  validate_hostname_label = λ s. problem "label" (is_label s);
  hostname_label_bytes =
      λ s h. (ground (arith, h, bytes_eq_iff s []), label_bytes s (ground (arith, h)));
  validate_domain_name = λ s. problem "domain" (is_label s);
  is_subdomain = is_sub;
  is_subdomain_iff =
      λ domain top. (sub_of domain top, λ (sub, ne, e). is_sub-of domain sub top ne e);
}
