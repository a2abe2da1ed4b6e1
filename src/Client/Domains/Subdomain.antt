-- ===== src/Client/Domains/Subdomain.antt =====
-- `compareDomains` puts a subdomain before the name that it belongs to.
use Prim.Native.Nat.add
use mathlib.Core.List.{append-nil}
use ad_guard_dnscli.Base.{
  ℕ, zero, suc, ◌+◌, ◌≤◌, ◌≡◌, ◌≢◌, ◌⊎◌, inl, inr, refl, ap, ◌∙◌, none, some, List, [], ◌∷◌, ◌++◌,
  arith, GoString, Option-cases, length, take, drop, last_index_byte,
}
use ad_guard_dnscli.Base.Compare.{Ordering, compare_lists, compare_strings-Lawful, compare_self}
use ad_guard_dnscli.Client.Domains.{last_label, parent, compare_domains}
use ad_guard_dnscli.Client.Domains.Labels.{
  labels, labels-nil, labels-cons, parent-shorter, NoLeadingDot, last_index_byte_split,
}
use ad_guard_dnscli.Client.Domains.Order.{compare_labels, compare_domains-labels}

last_index_byte-append :
    (s t : GoString) (c i : ℕ)
    → last_index_byte t c ≡ some i
    → last_index_byte (s ++ t) c ≡ some (length s + i)
unfolding last_index_byte
last_index_byte-append [] t c i e = ground arith
last_index_byte-append (x ∷ s) t c i e = ground (arith, last_index_byte-append s t c i e)

drop-append : (s t : GoString) (i : ℕ) → drop (length s + i) (s ++ t) ≡ drop i t
drop-append [] t i = ground arith
drop-append (x ∷ s) t i = rw add.suc (drop-append s t i)

take-append : (s t : GoString) (i : ℕ) → take (length s + i) (s ++ t) ≡ s ++ take i t
take-append [] t i = ground arith
take-append (x ∷ s) t i = rw add.suc (ap (◌∷◌ x) (take-append s t i))

pub labels-step : (s : GoString) → s ≢ [] → labels s ≡ last_label s ∷ labels (parent s)
labels-step [] h = absurd (h refl)
labels-step (c ∷ s) h = labels-cons c s

pub dotted-ne : (sub top : GoString) → sub ++ b'.' ∷ top ≢ []
dotted-ne [] top e = ground arith
dotted-ne (x ∷ sub) top e = ground arith

-- Where a subdomain is cut: inside the name above it, or before that name's only label.
dotted_cut :
    (sub top : GoString) (i : ℕ)
    → last_index_byte top b'.' ≡ some i
    → (last_label (sub ++ b'.' ∷ top) ≡ drop (suc i) top)
      × (parent (sub ++ b'.' ∷ top) ≡ sub ++ b'.' ∷ take i top)
unfolding last_label parent
dotted_cut sub top i e =
    let inner : last_index_byte (b'.' ∷ top) b'.' ≡ some (suc i) =
      unfold last_index_byte in ground arith in
    let cut = last_index_byte-append sub (b'.' ∷ top) b'.' (suc i) inner in
    let next : length sub + suc i + 1 ≡ length sub + suc (suc i) = omega arith in
    (
      rw (cut, next) (drop-append sub (b'.' ∷ top) (suc (suc i))),
      rw cut (take-append sub (b'.' ∷ top) (suc i)),
    )

pub dotted_whole :
    (sub top : GoString)
    → last_index_byte top b'.' ≡ none
    → (last_label (sub ++ b'.' ∷ top) ≡ top) × (parent (sub ++ b'.' ∷ top) ≡ sub)
unfolding last_label parent
dotted_whole sub top e =
    let inner : last_index_byte (b'.' ∷ top) b'.' ≡ some 0 =
      unfold last_index_byte in ground arith in
    let cut = last_index_byte-append sub (b'.' ∷ top) b'.' 0 inner in
    let next : length sub + 0 + 1 ≡ length sub + 1 = omega arith in
    (
      rw (cut, next) (drop-append sub (b'.' ∷ top) 1),
      rw cut (take-append sub (b'.' ∷ top) 0 ∙ append-nil sub),
    )

pub whole_name :
    (s : GoString) → last_index_byte s b'.' ≡ none → (last_label s ≡ s) × (parent s ≡ [])
unfolding last_label parent
whole_name s e = (rw e, rw e)

cut_name :
    (s : GoString) (i : ℕ)
    → last_index_byte s b'.' ≡ some i
    → (last_label s ≡ drop (suc i) s) × (parent s ≡ take i s)
unfolding last_label parent
cut_name s i e = let next : i + 1 ≡ suc i = omega arith in (rw (e, next), rw e)

pub labels-dotted_from :
    (f : ℕ) (sub top : GoString)
    → length top ≤ f
    → top ≢ []
    → NoLeadingDot top
    → labels (sub ++ b'.' ∷ top) ≡ labels top ++ labels sub
labels-dotted_from f sub [] h ne n = absurd (ne refl)
labels-dotted_from zero sub (c ∷ t) h ne n = absurd (omega arith)
labels-dotted_from (suc f) sub (c ∷ t) h ne n = elim (Option-cases (last_index_byte (c ∷ t) b'.')) [
  | inl e ↦
      let (l, p) = dotted_whole sub (c ∷ t) e in
      let (l', p') = whole_name (c ∷ t) e in
      rw (labels-step _ (dotted-ne sub (c ∷ t)), labels-cons, l, p, l', p', labels-nil)
  | inr (zero, e) ↦ absurd (n (ground (arith, last_index_byte_split (c ∷ t) b'.' 0 e)))
  | inr (suc i, e) ↦
      let (l, p) = dotted_cut sub (c ∷ t) (suc i) e in
      let (l', p') = cut_name (c ∷ t) (suc i) e in
      rw (labels-step _ (dotted-ne sub (c ∷ t)), labels-cons, l, p, l', p')
        (ap (λ ls. drop (suc i) t ∷ ls)
          (labels-dotted_from f sub (c ∷ take i t) (omega (arith, parent-shorter c t, ap length p'))
            (λ q. cc) n))
]

compare_lists-append :
    (xs : List GoString) (y : GoString) (ys : List GoString)
    → compare_labels (xs ++ (y ∷ ys)) xs ≡ Ordering.lt
unfolding compare_lists
compare_lists-append [] y ys = refl
compare_lists-append (x ∷ xs) y ys =
    ground (arith, compare_self compare_strings-Lawful x, compare_lists-append xs y ys)

-- A subdomain comes before the name that it belongs to.
pub compare_domains-subdomain :
    (sub top : GoString)
    → sub ≢ []
    → top ≢ []
    → NoLeadingDot top
    → compare_domains (sub ++ b'.' ∷ top) top ≡ Ordering.lt
compare_domains-subdomain sub top ne ne' n =
    rw
      (
        compare_domains-labels,
        labels-dotted_from (length top) sub top (omega arith) ne' n,
        labels-step sub ne,
      )
      (compare_lists-append (labels top) (last_label sub) (labels (parent sub)))

-- Of two names that both end the same text after a dot, one ends the other.
pub dotted_cases :
    (s t d e : GoString)
    → s ++ b'.' ∷ d ≡ t ++ b'.' ∷ e
    → (d ≡ e) ⊎ ((m : GoString) × (d ≡ m ++ b'.' ∷ e)) ⊎ ((m : GoString) × (e ≡ m ++ b'.' ∷ d))
dotted_cases [] [] d e h = inl (ground arith)
dotted_cases [] (x ∷ t) d e h = inr (inl (t, ground arith))
dotted_cases (x ∷ s) [] d e h = inr (inr (s, ground arith))
dotted_cases (x ∷ s) (y ∷ t) d e h = dotted_cases s t d e (ground arith)
