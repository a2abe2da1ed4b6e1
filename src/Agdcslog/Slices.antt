-- ===== src/Agdcslog/Slices.antt =====
-- Go's slices with a shared store of arrays, as far as the attributes of a handler need them: all
-- slices begin at the first cell of their arrays.
use mathlib.Core.List.{append-nil}
use ad_guard_dnscli.Base.{
  ℕ, zero, suc, ◌+◌, ◌≤◌, ◌<◌, ◌≡◌, refl, ◌∙◌, sym, ap, List, [], ◌∷◌, ◌++◌, arith, true, false,
  subst, take-append-drop, length-take, length-append, if◌then◌else◌, leb, nat_beq, length, take,
  drop,
}

module _ (A : Type 0) where
  -- The arrays by their addresses; those below `next` are in use.
  pub record Arrays : Type 0 where
    pub cells : ℕ → List A
    pub next : ℕ

-- The first `len` cells of an array, where `cap` cells can be written.
pub record Slice : Type 0 where
  pub array : ℕ
  pub len : ℕ
  pub cap : ℕ

-- `slices.Clip`.
abbrev pub clip : Slice → Slice
clip s = record s { cap = s.len }

module _ {A : Type 0} where
  abbrev update : (ℕ → List A) → ℕ → List A → ℕ → List A
  update cells p v q = if nat_beq p q then v else cells q

  -- The elements of a slice.
  abbrev pub contents : Arrays A → Slice → List A
  contents st s = take s.len (st.cells s.array)

  abbrev in_place : List A → Arrays A → Slice → ℕ → Arrays A × Slice
  in_place xs st s n =
      let old = st.cells s.array in
      (
        record st { cells = update st.cells s.array (take s.len old ++ (xs ++ drop n old)) },
        record s { len = n },
      )

  abbrev in_new_array : (ℕ → ℕ) → List A → Arrays A → Slice → ℕ → Arrays A × Slice
  in_new_array spare xs st s n = (
    record {
      cells = update st.cells st.next (take s.len (st.cells s.array) ++ xs);
      next = suc st.next;
    },
    record { array = st.next; len = n; cap = n + spare n },
  )

  -- `append`: in place where the capacity allows it. How much a new array has to spare is up to Go.
  unfoldable pub append : (ℕ → ℕ) → List A → Arrays A → Slice → Arrays A × Slice
  append spare xs st s =
      let n = s.len + length xs in
      if leb n s.cap then in_place xs st s n else in_new_array spare xs st s n

  -- The slice is of an array in use, which has all of its elements.
  pub record IsLive (st : Arrays A) (s : Slice) : Type 0 where
    pub used : s.array < st.next
    pub filled : s.len ≤ length (st.cells s.array)

  -- What every slice had, it still has.
  abbrev pub Keeps : Arrays A → Arrays A → Type 0
  Keeps st st' = (t : Slice) → IsLive st t → IsLive st' t × (contents st' t ≡ contents st t)

  -- The slice is a new one of all elements, and no other slice has changed.
  pub record IsAppended (st : Arrays A) (s : Slice) (xs : List A) (r : Arrays A × Slice)
      : Type 0 where
    pub live : IsLive r.0 r.1
    pub holds : contents r.0 r.1 ≡ contents st s ++ xs
    pub keeps : Keeps st r.0

  take_all : (n : ℕ) (l : List A) → length l ≡ n → take n l ≡ l
  take_all zero [] h = refl
  take_all zero (x ∷ l) h = absurd (omega arith)
  take_all (suc n) [] h = refl
  take_all (suc n) (x ∷ l) h = rw (take_all n l (omega arith))

  in_place-IsAppended :
      (st : Arrays A) (s : Slice) (n : ℕ)
      → n ≡ s.len
      → IsLive st s
      → IsAppended st s [] (in_place [] st (clip s) n)
  in_place-IsAppended st s n e live =
      let old = st.cells s.array in
      let whole : take s.len old ++ drop n old ≡ old = rw e (take-append-drop s.len old) in
      let same : (q : ℕ) → st.cells q ≡ (in_place [] st (clip s) n).0.cells q =
        λ q. ground (arith, whole) in
      record {
        live = record {
          used = live.used;
          filled = subst (λ l. n ≤ length l) (same s.array) (omega (arith, e, live.filled));
        };
        holds =
            ap (take n) (sym (same s.array))
            ∙ ap (λ k. take k old) e
            ∙ sym (append-nil (contents st s));
        keeps = λ t l. (
          record { used = l.used; filled = subst (λ l. t.len ≤ length l) (same t.array) l.filled },
          ap (take t.len) (sym (same t.array)),
        );
      }

  in_new_array-IsAppended :
      (spare : ℕ → ℕ) (xs : List A) (st : Arrays A) (s : Slice)
      → IsLive st s
      → IsAppended st s xs (in_new_array spare xs st (clip s) (s.len + length xs))
  in_new_array-IsAppended spare xs st s live =
      let old = st.cells s.array in
      let n = s.len + length xs in
      let st' = (in_new_array spare xs st (clip s) n).0 in
      let fresh : st'.cells st.next ≡ take s.len old ++ xs = ground arith in
      let all : length (take s.len old ++ xs) ≡ n =
        omega (arith, length-append (take s.len old) xs, length-take s.len old live.filled) in
      let same : (q : ℕ) → q < st.next → st.cells q ≡ st'.cells q = λ q h. ground arith in
      record {
        live = record {
          used = omega arith;
          filled = subst (λ l. n ≤ length l) (sym fresh) (omega (arith, all));
        };
        holds = ap (take n) fresh ∙ take_all n (take s.len old ++ xs) all;
        keeps = λ t l. (
          record {
            used = omega (arith, l.used);
            filled = subst (λ l. t.len ≤ length l) (same t.array l.used) l.filled;
          },
          ap (take t.len) (sym (same t.array l.used)),
        );
      }

  -- After `slices.Clip` no element is written where another slice can see it.
  pub append-clip-IsAppended :
      (spare : ℕ → ℕ) (xs : List A) (st : Arrays A) (s : Slice)
      → IsLive st s
      → IsAppended st s xs (append spare xs st (clip s))
  unfolding append
  append-clip-IsAppended spare [] st s live =
      let full : leb (s.len + 0) s.len ≡ true = ground arith in
      rw full (in_place-IsAppended st s (s.len + 0) (omega arith) live)
  append-clip-IsAppended spare (x ∷ xs) st s live =
      let full : leb (s.len + suc (length xs)) s.len ≡ false = ground arith in
      rw full (in_new_array-IsAppended spare (x ∷ xs) st s live)
