-- ===== src/Base/Bytes.antt =====
-- A Go string is its bytes. The functions of package strings that the program calls, on bytes.
use Prim.Native.Nat.{ℕ, suc, ◌+◌, ◌-◌}
use Prim.Native.Char.{code}
use Prim.Native.String.{String}
use mathlib.Core.Bool.{Bool, true, false, ◌&&◌, ◌||◌}
use mathlib.Core.Option.{Option, none, some}
use mathlib.Core.List.{List, [], ◌∷◌, map}
use ad_guard_dnscli.Base.Tests.{nat_beq, leb, if◌then◌else◌, length, take, drop}
use ad_guard_dnscli.Base.Classes.{bytes_eq}

abbrev pub GoString : Type 0
GoString = List ℕ

-- The bytes of an ASCII literal.
abbrev pub str : String → GoString
str String.[] = []
str (String.◌∷◌ c s) = code c ∷ str s

unfoldable pub contains_byte : ℕ → GoString → Bool
contains_byte c [] = false
contains_byte c (x ∷ s) = nat_beq x c || contains_byte c s

-- `strings.HasPrefix`, the prefix first.
unfoldable pub is_prefix : GoString → GoString → Bool
is_prefix [] s = true
is_prefix (c ∷ p) [] = false
is_prefix (c ∷ p) (x ∷ s) = nat_beq x c && is_prefix p s

-- `strings.TrimSuffix`.
unfoldable pub trim_suffix : GoString → GoString → GoString
unfolding bytes_eq
trim_suffix s suffix =
    let n = length s - length suffix in
    if leb (length suffix) (length s) && bytes_eq (drop n s) suffix then take n s else s

-- `strings.Index` for a non-empty pattern, from a given index on; `none` is -1.
unfoldable pub index_from : ℕ → GoString → GoString → Option ℕ
unfolding is_prefix
index_from i [] p = none
index_from i (x ∷ s) p =
    let rest = index_from (suc i) s p in if is_prefix p (x ∷ s) then some i else rest

unfoldable pub index : GoString → GoString → Option ℕ
unfolding index_from
index s p = index_from 0 s p

-- `strings.ReplaceAll` for two one-byte texts.
unfoldable pub replace_all : GoString → ℕ → ℕ → GoString
replace_all s old new = map (λ c. if nat_beq c old then new else c) s

-- `strings.LastIndexByte`; `none` is -1.
unfoldable pub last_index_byte : GoString → ℕ → Option ℕ
last_index_byte [] c = none
last_index_byte (x ∷ s) c = elim (last_index_byte s c) [
  | some i ↦ some (suc i)
  | none ↦ if nat_beq x c then some 0 else none
]

-- `strings.ToLower` on ASCII; other bytes stay.
unfoldable pub to_lower_byte : ℕ → ℕ
to_lower_byte c = if leb b'A' c && leb c b'Z' then c + 32 else c

unfoldable pub to_lower : GoString → GoString
unfolding to_lower_byte
to_lower = map to_lower_byte
