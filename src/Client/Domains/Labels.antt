-- ===== src/Client/Domains/Labels.antt =====
-- The labels of a domain name, as `compareDomains` of internal/client/defaultstorage.go cuts them.
use ad_guard_dnscli.Base.{
  ℕ, zero, suc, ◌≤◌, ◌<◌, ◌≡◌, ◌≢◌, ◌⊎◌, inl, inr, refl, ap, ◌∙◌, some, List, [], ◌∷◌, ◌++◌, arith,
  GoString, Option-cases, length, take, drop, length-take-le, last_index_byte,
}
use ad_guard_dnscli.Client.Domains.{last_label, parent}

-- The labels of a domain name, the last one first.
pub labels_from : ℕ → GoString → List GoString
labels_from zero s = []
labels_from (suc f) [] = []
labels_from (suc f) (c ∷ s) = last_label (c ∷ s) ∷ labels_from f (parent (c ∷ s))

pub labels : GoString → List GoString
unfolding labels_from
labels s = labels_from (length s) s

pub last_index_byte-lt : (s : GoString) (c i : ℕ) → last_index_byte s c ≡ some i → i < length s
unfolding last_index_byte
last_index_byte-lt [] c i h = absurd (ground arith)
last_index_byte-lt (x ∷ s) c i h = elim (Option-cases (last_index_byte s c)) [
  | inl e ↦ ground arith
  | inr (j, e) ↦ ground (arith, last_index_byte-lt s c j e)
]

-- A name with its last label cut off is shorter.
pub parent-shorter : (c : ℕ) (s : GoString) → length (parent (c ∷ s)) ≤ length s
unfolding parent
parent-shorter c s = elim (Option-cases (last_index_byte (c ∷ s) b'.')) [
  | inl e ↦ rw e (omega arith)
  | inr (i, e) ↦ rw e (omega (arith, length-take-le i (c ∷ s), last_index_byte-lt (c ∷ s) b'.' i e))
]

pub labels_from-enough :
    (f k : ℕ) (s : GoString) → length s ≤ f → length s ≤ k → labels_from f s ≡ labels_from k s
unfolding labels_from
labels_from-enough zero zero s h h' = refl
labels_from-enough zero (suc k) [] h h' = refl
labels_from-enough zero (suc k) (c ∷ s) h h' = absurd (omega arith)
labels_from-enough (suc f) zero [] h h' = refl
labels_from-enough (suc f) zero (c ∷ s) h h' = absurd (omega arith)
labels_from-enough (suc f) (suc k) [] h h' = refl
labels_from-enough (suc f) (suc k) (c ∷ s) h h' =
    ap (λ l. last_label (c ∷ s) ∷ l)
      (labels_from-enough f k (parent (c ∷ s)) (omega (arith, parent-shorter c s))
        (omega (arith, parent-shorter c s)))

pub labels-nil : labels [] ≡ []
unfolding labels
labels-nil = refl

pub labels-cons :
    (c : ℕ) (s : GoString) → labels (c ∷ s) ≡ last_label (c ∷ s) ∷ labels (parent (c ∷ s))
unfolding labels
labels-cons c s =
    ap (λ l. last_label (c ∷ s) ∷ l)
      (labels_from-enough (length s) _ (parent (c ∷ s)) (parent-shorter c s) (omega arith))

-- A name that has no empty first label.
abbrev pub NoLeadingDot : GoString → Type 0
NoLeadingDot [] = Unit
NoLeadingDot (c ∷ s) = c ≢ b'.'

pub last_index_byte_split :
    (s : GoString) (c i : ℕ) → last_index_byte s c ≡ some i → s ≡ take i s ++ c ∷ drop (suc i) s
unfolding last_index_byte
last_index_byte_split [] c i h = absurd (ground arith)
last_index_byte_split (x ∷ s) c i h = elim (Option-cases (last_index_byte s c)) [
  | inl e ↦ ground arith
  | inr (j, e) ↦ ground (arith, last_index_byte_split s c j e)
]

-- A name is its last label, or its parent, a dot and its last label.
pub label_split :
    (c : ℕ) (s : GoString)
    → NoLeadingDot (c ∷ s)
    → ((last_label (c ∷ s) ≡ c ∷ s) × (parent (c ∷ s) ≡ []))
      ⊎ ((p : GoString) × (parent (c ∷ s) ≡ c ∷ p) × (c ∷ s ≡ (c ∷ p) ++ b'.' ∷ last_label (c ∷ s)))
unfolding last_label parent
label_split c s n = elim (Option-cases (last_index_byte (c ∷ s) b'.')) [
  | inl e ↦ inl (rw e, rw e)
  | inr (zero, e) ↦ absurd (n (ground (arith, last_index_byte_split (c ∷ s) b'.' 0 e)))
  | inr (suc i, e) ↦ inr (
    take i s,
    rw e,
    rw e (
        last_index_byte_split (c ∷ s) b'.' (suc i) e
        ∙ ap (λ k. (c ∷ take i s) ++ b'.' ∷ drop k (c ∷ s)) {x = suc (suc i)} (omega arith)),
  )
]
