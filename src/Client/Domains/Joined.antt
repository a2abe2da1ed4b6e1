-- ===== src/Client/Domains/Joined.antt =====
-- The order of `compareDomains` in internal/client/defaultstorage.go on names that are joined of
-- labels, without a word of how it cuts a name.
use ad_guard_dnscli.Base.{
  ℕ, ◌≡◌, ◌≢◌, refl, ap, none, List, [], ◌∷◌, arith, GoString, last_index_byte,
}
use ad_guard_dnscli.Cmd.Service.Lines.{Without}
use ad_guard_dnscli.Client.Domains.{compare_domains}
use ad_guard_dnscli.Client.Domains.Labels.{labels, labels-nil}
use ad_guard_dnscli.Client.Domains.Order.{compare_labels, compare_domains-labels, unlabels}
use ad_guard_dnscli.Client.Domains.Subdomain.{dotted_whole, whole_name, labels-step, dotted-ne}

-- The labels of a name, the last one first: none has a dot, and the name does not begin with one.
abbrev pub AreLabels : List GoString → Type 0
AreLabels [] = Unit
AreLabels (l ∷ []) = (l ≢ []) × Without b'.' l
AreLabels (l ∷ m ∷ ls) = Without b'.' l × AreLabels (m ∷ ls)

last_index_byte_absent : (c : ℕ) (s : GoString) → Without c s → last_index_byte s c ≡ none
unfolding last_index_byte
last_index_byte_absent c [] h = refl
last_index_byte_absent c (x ∷ s) (other, h) = ground (arith, other, last_index_byte_absent c s h)

-- Cutting a joined name gives its labels back.
labels-unlabels : (ls : List GoString) → AreLabels ls → labels (unlabels ls) ≡ ls
unfolding unlabels
labels-unlabels [] h = labels-nil
labels-unlabels (l ∷ []) (ne, h) =
    let (cut, rest) = whole_name l (last_index_byte_absent b'.' l h) in
    rw (labels-step l ne, cut, rest, labels-nil) refl
labels-unlabels (l ∷ m ∷ ls) (h, hs) =
    let (cut, rest) = dotted_whole (unlabels (m ∷ ls)) l (last_index_byte_absent b'.' l h) in
    rw (labels-step _ (dotted-ne (unlabels (m ∷ ls)) l), cut, rest)
      (ap (λ t. l ∷ t) (labels-unlabels (m ∷ ls) hs))

-- Two names that are joined of labels by dots compare as their labels do from the last one on: the
-- first labels that differ decide by their bytes, and of two names of which one ends there, that
-- one, which is the parent, comes second. The labels have no dots, and those at the names' beginnings are not empty.
pub compare_domains-unlabels :
    (xs ys : List GoString)
    → AreLabels xs
    → AreLabels ys
    → compare_domains (unlabels xs) (unlabels ys) ≡ compare_labels xs ys
compare_domains-unlabels xs ys h k =
    rw (compare_domains-labels, labels-unlabels xs h, labels-unlabels ys k) refl
