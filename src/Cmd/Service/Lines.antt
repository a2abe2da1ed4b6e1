-- ===== src/Cmd/Service/Lines.antt =====
-- The lines of `bufio.Scanner` and the cuts of package strings, for the outputs of commands.
use ad_guard_dnscli.Base.{
  ℕ, zero, suc, subst, ◌-◌, ◌≡◌, ◌≢◌, refl, inl, inr, All, Bool-cases, ◌&&◌, Option, none, some,
  List, [], ◌∷◌, ◌++◌, GoString, nat_eq, ◌==◌, leb, arith, length, drop, trim_suffix, if◌then◌else◌,
  bytes_eq, bytes_eq_iff, string_eq, beq-false,
}
use ad_guard_dnscli.Errors.{Error, errorf}

-- The lines of a text, without their ends, as `bufio.Scanner` cuts them.
abbrev pub onto_first : ℕ → List GoString → List GoString
onto_first c [] = (c ∷ []) ∷ []
onto_first c (l ∷ ls) = (c ∷ l) ∷ ls

unfoldable pub raw_lines : GoString → List GoString
raw_lines [] = []
raw_lines (c ∷ s) = let rest = raw_lines s in if c == b'\n' then [] ∷ rest else onto_first c rest

-- `bufio.MaxScanTokenSize`, with which the scanner stops.
abbrev pub max_scan_token_size : ℕ
max_scan_token_size = 65_536

abbrev pub too_long : Error
too_long = errorf "bufio.Scanner: token too long" []

abbrev pub drop_cr : GoString → GoString
drop_cr l = trim_suffix l (b'\r' ∷ [])

-- `strings.Cut` around the first `=`.
abbrev pub onto_name : ℕ → Option (GoString × GoString) → Option (GoString × GoString)
onto_name c none = none
onto_name c (some (name, v)) = some (c ∷ name, v)

unfoldable pub cut : GoString → Option (GoString × GoString)
cut [] = none
cut (c ∷ s) = let rest = cut s in if c == b'=' then some ([], s) else onto_name c rest

-- The lines with their ends.
abbrev pub print_lines : List GoString → GoString
print_lines [] = []
print_lines (l ∷ ls) = l ++ b'\n' ∷ print_lines ls

abbrev pub Without : ℕ → GoString → Type 0
Without c s = All (λ x. x ≢ c) s

raw_lines-append : (l s : GoString) → Without b'\n' l → raw_lines (l ++ b'\n' ∷ s) ≡ l ∷ raw_lines s
unfolding raw_lines
raw_lines-append [] s h = refl
raw_lines-append (c ∷ l) s (other, h) = rw (beq-false c b'\n' other, raw_lines-append l s h) refl

pub raw_lines-print_lines :
    (ls : List GoString) → All (Without b'\n') ls → raw_lines (print_lines ls) ≡ ls
unfolding raw_lines
raw_lines-print_lines [] h = refl
raw_lines-print_lines (l ∷ ls) (h, hs) =
    rw (raw_lines-append l (print_lines ls) h, raw_lines-print_lines ls hs) refl

pub cut-append : (name v : GoString) → Without b'=' name → cut (name ++ b'=' ∷ v) ≡ some (name, v)
unfolding cut
cut-append [] v h = refl
cut-append (c ∷ name) v (other, h) = rw (beq-false c b'=' other, cut-append name v h) refl

Without-drop : (c n : ℕ) (s : GoString) → Without c s → Without c (drop n s)
Without-drop c zero s h = h
Without-drop c (suc n) [] h = tt
Without-drop c (suc n) (x ∷ s) (other, h) = Without-drop c n s h

-- A suffix that the text does not hold is not cut off.
pub trim_suffix_absent : (c : ℕ) (l : GoString) → Without c l → trim_suffix l (c ∷ []) ≡ l
unfolding trim_suffix
trim_suffix_absent c l h =
    elim (Bool-cases (leb 1 (length l) && bytes_eq (drop (length l - 1) l) (c ∷ []))) [
      | inr kept ↦ rw kept refl
      | inl cuts ↦
          let last : drop (length l - 1) l ≡ c ∷ [] =
            (bytes_eq_iff (drop (length l - 1) l) (c ∷ [])).0 (ground (arith, cuts)) in
          absurd ((subst (Without c) last (Without-drop c (length l - 1) l h)).0 refl)
    ]

pub drop_cr_lem : (l : GoString) → Without b'\r' l → drop_cr l ≡ l
drop_cr_lem = trim_suffix_absent b'\r'
