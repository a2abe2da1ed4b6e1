-- ===== src/Errors.antt =====
-- Go errors: what `fmt.Errorf` and `errors.Join` build, with formats and arguments left as they are.
use ad_guard_dnscli.Base.{
  ℕ, ◌≡◌, refl, ◌↔◌, String, Option, none, some, List, [], ◌∷◌, ◌++◌, arith, All, GoString, Bool,
  true, false, ◌||◌, ℤ, ◌⊎◌, inl, inr,
}
use ad_guard_dnscli.Netip.{Addr, Prefix}

-- The error values that the program compares or wraps by name.
pub data Sentinel : Type 0 where
  no_value empty_value bad_enum_value duplicated unexpected_value : Sentinel
  not_exist not_installed bad_exec_path : Sentinel

-- An argument of a format.
pub data Arg : Type 0 where
  text : GoString → Arg
  num : ℕ → Arg
  int : ℤ → Arg
  addr : Addr → Arg
  prefix : Prefix → Arg

mutual
  pub data Error : Type 0 where
    sentinel : Sentinel → Error
    errorf : String → List Arg → Error
    wrapf : String → List Arg → Error → Error
    -- A cause under `%v`, which leaves its text and not the error.
    errorv : String → List Arg → Error → Error
    joined : Joined → Error

  pub data Joined : Type 0 where
    one : Error → Joined
    more : Error → Joined → Joined

-- A slice of errors; `nil` errors are `none`.
abbrev pub Errs : Type 0
Errs = List (Option Error)

join_onto : Error → Errs → Joined
join_onto e [] = one e
join_onto e (none ∷ errs) = join_onto e errs
join_onto e (some f ∷ errs) = more e (join_onto f errs)

-- `errors.Join`: `nil` errors are left out, and nothing left is `nil`.
unfoldable pub join : Errs → Option Error
unfolding join_onto
join [] = none
join (none ∷ errs) = join errs
join (some e ∷ errs) = some (joined (join_onto e errs))

abbrev pub IsNil : Option Error → Type 0
IsNil e = e ≡ none

-- The joined error is `nil` exactly when all are.
pub join_iff : (errs : Errs) → (join errs ≡ none) ↔ All IsNil errs
unfolding join
join_iff [] = (λ _. tt, λ _. refl)
join_iff (none ∷ errs) = ((λ e. (refl, (join_iff errs).0 e)), λ h. (join_iff errs).1 h.1)
join_iff (some e ∷ errs) = ((λ h. absurd (ground arith)), (λ h. absurd (ground arith)))

pub All-append_iff : (xs ys : Errs) → All IsNil (xs ++ ys) ↔ (All IsNil xs × All IsNil ys)
All-append_iff [] ys = ((λ h. (tt, h)), λ h. h.1)
All-append_iff (x ∷ xs) ys = (
  (λ h. ((h.0, ((All-append_iff xs ys).0 h.1).0), ((All-append_iff xs ys).0 h.1).1)),
  (λ h. (h.0.0, (All-append_iff xs ys).1 (h.0.1, h.1))),
)

-- `errors.Is` for a named error.
unfoldable mutual
  pub is_not_exist : Error → Bool
  is_not_exist (sentinel not_exist) = true
  is_not_exist (sentinel _) = false
  is_not_exist (errorf f args) = false
  is_not_exist (wrapf f args e) = is_not_exist e
  is_not_exist (errorv f args e) = false
  is_not_exist (joined es) = any_not_exist es

  pub any_not_exist : Joined → Bool
  any_not_exist (one e) = is_not_exist e
  any_not_exist (more e es) = is_not_exist e || any_not_exist es

-- Go's `(v, err)`: a value and no error, or the zero value and an error.
pub data Result {ℓ} (V : Type ℓ) : Type ℓ where
  err : Error → Result V
  ok : V → Result V

infixl 5 ◌>>=◌ ◌>>◌
abbrev pub ◌>>=◌ {ℓ κ} : {V : Type ℓ} {W : Type κ} → Result V → (V → Result W) → Result W
err e >>= next = err e
ok v >>= next = next v

abbrev pub ◌>>◌ {κ} : {W : Type κ} → Result (Unit {0}) → Result W → Result W
first >> next = first >>= λ _. next

-- `if err != nil { return …, err }`.
abbrev pub check : Option Error → Result (Unit {0})
check none = ok tt
check (some e) = err e

-- The same, with the error wrapped.
abbrev pub wrap {ℓ} : {A : Type ℓ} → String → List Arg → Result A → Result A
wrap f args (ok a) = ok a
wrap f args (err e) = err (wrapf f args e)

-- The error of a result.
abbrev pub error_of {ℓ} : {A : Type ℓ} → Result A → Option Error
error_of (ok a) = none
error_of (err e) = some e

pub Result-cases {ℓ} :
    {A : Type ℓ} (r : Result A) → ((a : A) × (r ≡ ok a)) ⊎ ((e : Error) × (r ≡ err e))
Result-cases (ok a) = inl (a, refl)
Result-cases (err e) = inr (e, refl)

pub >>=-eq-ok {ℓ κ} :
    {V : Type ℓ} {W : Type κ} (r : Result V) (next : V → Result W) {w : W}
    → (r >>= next) ≡ ok w
    → (v : V) × (r ≡ ok v) × (next v ≡ ok w)
>>=-eq-ok (err e) next same = cc
>>=-eq-ok (ok v) next same = (v, refl, same)
