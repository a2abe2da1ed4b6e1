-- ===== src/Client/Domains/Order.antt =====
-- The loop of `compareDomains` ends, and orders domain names by their labels from right to left.
use mathlib.Core.Path.{fun_ext}
use ad_guard_dnscli.Base.{
  ℕ, zero, suc, ◌≤◌, ◌<◌, ◌≡◌, inl, inr, refl, sym, ap, ◌∙◌, some, List, [], ◌∷◌, ◌++◌, arith,
  GoString, length,
}
use ad_guard_dnscli.Base.Compare.{
  Ordering, Lawful, on-Lawful, compare_lists, compare_lists-Lawful, eq_of_compare_lists,
  compare_strings, compare_strings-Lawful, eq_of_compare_strings,
}
use ad_guard_dnscli.Client.Domains.{parent, compare_loop, compare_domains}
use ad_guard_dnscli.Client.Domains.Labels.{
  labels, labels-nil, labels-cons, parent-shorter, label_split, NoLeadingDot,
}

-- Label by label; the name that ends first comes last.
abbrev pub compare_labels : List GoString → List GoString → Ordering
compare_labels = compare_lists Ordering.gt compare_strings

compare_loop_lem :
    (f : ℕ) (a b : GoString)
    → length a < f
    → compare_loop f a b ≡ some (compare_labels (labels a) (labels b))
unfolding compare_loop compare_lists
compare_loop_lem zero a b h = absurd (omega arith)
compare_loop_lem (suc f) [] [] h = rw labels-nil
compare_loop_lem (suc f) [] (d ∷ b) h = rw (labels-nil, labels-cons d b)
compare_loop_lem (suc f) (c ∷ a) [] h = rw (labels-nil, labels-cons c a)
compare_loop_lem (suc f) (c ∷ a) (d ∷ b) h =
    rw (labels-cons c a, labels-cons d b)
      (ground (
        arith,
        compare_loop_lem f (parent (c ∷ a)) (parent (d ∷ b)) (omega (arith, parent-shorter c a)),
      ))

-- Comparing two names is comparing the labels that are cut off them.
pub compare_domains-labels :
    (a b : GoString) → compare_domains a b ≡ compare_labels (labels a) (labels b)
unfolding compare_domains compare_lists
compare_domains-labels a b =
    rw (compare_domains, compare_loop_lem (suc (length a)) a b (omega arith))

-- More fuel than the first name is long is enough for the loop to end, and gives the same result.
pub compare_loop-ends :
    (f : ℕ) (a b : GoString) → length a < f → compare_loop f a b ≡ some (compare_domains a b)
compare_loop-ends f a b h =
    compare_loop_lem f a b h ∙ ap (λ o. some o) (sym (compare_domains-labels a b))

compare_labels-Lawful : Lawful compare_labels
compare_labels-Lawful =
    compare_lists-Lawful Ordering.gt compare_strings compare_strings-Lawful (λ e. cc)

pub compare_domains-Lawful : Lawful compare_domains
compare_domains-Lawful =
    rw (fun_ext (λ a. fun_ext (compare_domains-labels a)))
      (on-Lawful labels compare_labels compare_labels-Lawful)

-- The empty name comes last.
pub compare_domains-nil : (c : ℕ) (s : GoString) → compare_domains [] (c ∷ s) ≡ Ordering.gt
unfolding compare_domains compare_loop
compare_domains-nil c s = refl

-- The name that is joined of labels, the last one first.
unfoldable pub unlabels : List GoString → GoString
unlabels [] = []
unlabels (l ∷ []) = l
unlabels (l ∷ m ∷ ls) = unlabels (m ∷ ls) ++ b'.' ∷ l

unlabels-cons :
    (l : GoString) (c : ℕ) (p : GoString)
    → unlabels (l ∷ labels (c ∷ p)) ≡ unlabels (labels (c ∷ p)) ++ b'.' ∷ l
unfolding unlabels
unlabels-cons l c p = rw labels-cons

unlabels-labels_from :
    (f : ℕ) (s : GoString) → length s ≤ f → NoLeadingDot s → unlabels (labels s) ≡ s
unfolding unlabels
unlabels-labels_from f [] h n = rw labels-nil
unlabels-labels_from zero (c ∷ s) h n = absurd (omega arith)
unlabels-labels_from (suc f) (c ∷ s) h n = elim (label_split c s n) [
  | inl (e, q) ↦ rw (labels-cons, q, labels-nil) e
  | inr (p, q, e) ↦
      rw (labels-cons, q, unlabels-cons)
        (rw (unlabels-labels_from f (c ∷ p) (omega (arith, parent-shorter c s, ap length q)) n)
          (sym e))
]

-- Names with the same labels are the same.
pub eq_of_compare_domains :
    (a b : GoString) → NoLeadingDot a → NoLeadingDot b → compare_domains a b ≡ Ordering.eq → a ≡ b
eq_of_compare_domains a b m n e =
    let same : labels a ≡ labels b =
      eq_of_compare_lists Ordering.gt compare_strings (λ q. cc) eq_of_compare_strings _ _
        (sym (compare_domains-labels a b) ∙ e) in
    sym (unlabels-labels_from (length a) a (omega arith) m)
    ∙ ap unlabels same
    ∙ unlabels-labels_from (length b) b (omega arith) n
