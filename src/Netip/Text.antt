-- ===== src/Netip/Text.antt =====
-- `Addr.StringExpanded`.
use ad_guard_dnscli.Base.{
  ℕ, zero, suc, ◌+◌, ◌*◌, ◌/◌, ◌%◌, ◌^◌, [], ◌∷◌, ◌++◌, GoString, str, ltb, if◌then◌else◌,
}
use ad_guard_dnscli.Netip.{Addr, zero_addr, v4, v6}

-- A digit below 16, in lower case.
abbrev digit : ℕ → ℕ
digit n = if ltb n 10 then b'0' + n else 87 + n

-- A number below 256, without leading zeros.
abbrev decimal : ℕ → GoString
decimal n =
    if ltb n 10
    then digit n ∷ []
    else if ltb n 100
    then digit (n / 10) ∷ digit (n % 10) ∷ []
    else digit (n / 100) ∷ digit (n / 10 % 10) ∷ digit (n % 10) ∷ []

-- A group of 16 bits, with leading zeros.
abbrev hex : ℕ → GoString
hex n = digit (n / 4_096) ∷ digit (n / 256 % 16) ∷ digit (n / 16 % 16) ∷ digit (n % 16) ∷ []

-- The four bytes of a number of 32 bits.
unfoldable pub dotted : ℕ → GoString
dotted n =
    decimal (n / 2 ^ 24)
    ++ str "."
    ++ decimal (n / 2 ^ 16 % 256)
    ++ str "."
    ++ decimal (n / 2 ^ 8 % 256)
    ++ str "."
    ++ decimal (n % 256)

-- The given number of groups of 16 bits above the last one, and the last one.
unfoldable pub groups : ℕ → ℕ → GoString
groups zero n = hex (n % 2 ^ 16)
groups (suc i) n = hex (n / 2 ^ (16 * (i + 1)) % 2 ^ 16) ++ str ":" ++ groups i n

-- The addresses that `unmap` returns: an IPv4 address in an IPv6 one is written in another way.
unfoldable pub string_expanded : Addr → GoString
unfolding dotted groups
string_expanded zero_addr = str "invalid IP"
string_expanded (v4 n) = dotted n
string_expanded (v6 n []) = groups 7 n
string_expanded (v6 n (c ∷ z)) = groups 7 n ++ str "%" ++ c ∷ z
