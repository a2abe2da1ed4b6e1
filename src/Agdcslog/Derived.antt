-- ===== src/Agdcslog/Derived.antt =====
-- Handlers that `WithAttrs` derives from one another share their arrays of attributes, and still have
-- the attributes that they would have as values.
use mathlib.Core.Option
use mathlib.Core.List.{map-append}
use ad_guard_dnscli.Base.{
  ℕ, zero, suc, Option, ◌≡◌, refl, ◌∙◌, ap, none, some, List, [], ◌∷◌, ◌++◌, map, arith, subst,
  Option-cases, inl, inr, All, get_elem?,
}
use ad_guard_dnscli.Agdcslog.Slices.{
  Arrays, contents, IsLive, Keeps, append-clip-IsAppended, append, clip,
}
use ad_guard_dnscli.Agdcslog.Handler.{SyslogHandler, with_attrs}

get_elem?-map :
    {B C : Type 0} (f : B → C) (xs : List B) (i : ℕ)
    → get_elem? (map f xs) i ≡ Option.map f (get_elem? xs i)
get_elem?-map f [] i = refl
get_elem?-map f (x ∷ xs) zero = refl
get_elem?-map f (x ∷ xs) (suc i) = get_elem?-map f xs i

All-get_elem? :
    {B : Type 0} (P : B → Type 0) (xs : List B) (i : ℕ) (x : B)
    → All P xs
    → get_elem? xs i ≡ some x
    → P x
All-get_elem? P [] i x h e = absurd (ground (arith, e))
All-get_elem? P (y ∷ ys) zero x (p, h) e = subst P (ground (arith, e)) p
All-get_elem? P (y ∷ ys) (suc i) x (p, h) e = All-get_elem? P ys i x h e

All-snoc :
    {B : Type 0} (P : B → Type 0) (xs : List B) (x : B) → All P xs → P x → All P (xs ++ x ∷ [])
All-snoc P [] x h p = (p, tt)
All-snoc P (y ∷ ys) x (q, h) p = (q, All-snoc P ys x h p)

module _ (A : Type 0) where
  -- A log and its handlers, oldest first.
  pub record Handlers : Type 0 where
    pub arrays : Arrays A
    pub all : List SyslogHandler

  -- The handler at a place, and the attributes for a new one.
  abbrev pub Derivation : Type 0
  Derivation = ℕ × List A

module _ {A : Type 0} where
  abbrev derive_from : (ℕ → ℕ) → List A → Handlers A → Option SyslogHandler → Handlers A
  derive_from spare attrs hs none = hs
  derive_from spare attrs hs (some h) =
      let (st, h') = with_attrs spare attrs hs.arrays h in
      record { arrays = st; all = hs.all ++ h' ∷ [] }

  unfoldable pub derive : (ℕ → ℕ) → List (Derivation A) → Handlers A → Handlers A
  derive spare [] hs = hs
  derive spare ((i, attrs) ∷ ds) hs =
      derive spare ds (derive_from spare attrs hs (get_elem? hs.all i))

  abbrev extend_from : List A → List (List A) → Option (List A) → List (List A)
  extend_from attrs ls none = ls
  extend_from attrs ls (some l) = ls ++ (l ++ attrs) ∷ []

  -- The handlers as lists of attributes, which are values.
  abbrev pub derived : List (Derivation A) → List (List A) → List (List A)
  derived [] ls = ls
  derived ((i, attrs) ∷ ds) ls = derived ds (extend_from attrs ls (get_elem? ls i))

  abbrev pub attrs_of : Handlers A → List (List A)
  attrs_of hs = map (λ h. contents hs.arrays h.attrs) hs.all

  abbrev pub AreLive : Handlers A → Type 0
  AreLive hs = All (λ h. IsLive hs.arrays h.attrs) hs.all

  -- Every handler has what it had.
  Keeps-attrs :
      (st st' : Arrays A)
      → Keeps st st'
      → (hs : List SyslogHandler) → All (λ h. IsLive st h.attrs) hs
      → All (λ h. IsLive st' h.attrs) hs
        × (map (λ h. contents st' h.attrs) hs ≡ map (λ h. contents st h.attrs) hs)
  Keeps-attrs st st' keeps [] live = (tt, refl)
  Keeps-attrs st st' keeps (h ∷ hs) (l, ls) =
      let (same_live, same) = keeps h.attrs l in
      let (lives, sames) = Keeps-attrs st st' keeps hs ls in
      ((same_live, lives), rw (same, sames) refl)

  from_found :
      (spare : ℕ → ℕ) (attrs : List A) (hs : Handlers A) (h : SyslogHandler)
      → AreLive hs
      → IsLive hs.arrays h.attrs
      → let hs' = derive_from spare attrs hs (some h) in
        AreLive hs' × (attrs_of hs' ≡ attrs_of hs ++ (contents hs.arrays h.attrs ++ attrs) ∷ [])
  unfolding with_attrs
  from_found spare attrs hs h live found =
      let appended = append-clip-IsAppended spare attrs hs.arrays h.attrs found in
      let (st, s) = append spare attrs hs.arrays (clip h.attrs) in
      let h' = record h { attrs = s } in
      let (lives, sames) = Keeps-attrs hs.arrays st appended.keeps hs.all live in
      (
        All-snoc (λ h. IsLive st h.attrs) hs.all h' lives appended.live,
        map-append (λ h. contents st h.attrs) hs.all (h' ∷ []) ∙ rw (sames, appended.holds) refl,
      )

  -- One derivation: the handlers stay live, and their attributes are derived as values.
  derive_from-attrs :
      (spare : ℕ → ℕ) (i : ℕ) (attrs : List A) (hs : Handlers A)
      → AreLive hs
      → let hs' = derive_from spare attrs hs (get_elem? hs.all i) in
        AreLive hs' × (attrs_of hs' ≡ extend_from attrs (attrs_of hs) (get_elem? (attrs_of hs) i))
  derive_from-attrs spare i attrs hs live =
      let found = get_elem?-map (λ h. contents hs.arrays h.attrs) hs.all i in
      elim (Option-cases (get_elem? hs.all i)) [
        | inl e ↦ rw (found, e) (live, refl)
        | inr (h, e) ↦
            rw (found, e)
              (from_found spare attrs hs h live
                (All-get_elem? (λ h. IsLive hs.arrays h.attrs) hs.all i h live e))
      ]

  -- Derived handlers, in any order and from one another, have the attributes that they would have if
  -- each had a copy of its own, whatever room the arrays have to spare.
  pub derive-attrs :
      (spare : ℕ → ℕ) (ds : List (Derivation A)) (hs : Handlers A)
      → AreLive hs
      → attrs_of (derive spare ds hs) ≡ derived ds (attrs_of hs)
  unfolding derive
  derive-attrs spare [] hs live = refl
  derive-attrs spare ((i, attrs) ∷ ds) hs live =
      let (live', same) = derive_from-attrs spare i attrs hs live in
      derive-attrs spare ds (derive_from spare attrs hs (get_elem? hs.all i)) live'
      ∙ ap (derived ds) same
