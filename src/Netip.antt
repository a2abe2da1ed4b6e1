-- ===== src/Netip.antt =====
-- The parts of Go's package net/netip that the program calls: addresses, prefixes, their orders.
pub mod Order
pub mod Text
use ad_guard_dnscli.Base.{
  ℕ, ◌+◌, ◌-◌, ◌*◌, ◌/◌, ◌%◌, ◌^◌, ◌≡◌, ◌↔◌, Bool, true, false, not, ◌&&◌, ◌||◌, Option, none, some,
  [], arith, GoString, Eq, ◌==◌, bytes_eq_iff, string_eq, nat_eq, leb, ltb, if◌then◌else◌, pair_eq,
}

-- `netip.Addr`: the zero value, 32 bits, or 128 bits with a zone.
pub data Addr : Type 0 where
  zero_addr : Addr
  v4 : ℕ → Addr
  v6 : ℕ → GoString → Addr

unfoldable pub addr_beq : Addr → Addr → Bool
addr_beq zero_addr zero_addr = true
addr_beq (v4 n) (v4 m) = n == m
addr_beq (v6 n z) (v6 m y) = n == m && z == y
addr_beq _ _ = false

pub addr_beq_iff : (a b : Addr) → (addr_beq a b ≡ true) ↔ (a ≡ b)
unfolding addr_beq
addr_beq_iff zero_addr zero_addr = ground arith
addr_beq_iff zero_addr (v4 m) = ground arith
addr_beq_iff zero_addr (v6 m y) = ground arith
addr_beq_iff (v4 n) zero_addr = ground arith
addr_beq_iff (v4 n) (v4 m) = ground arith
addr_beq_iff (v4 n) (v6 m y) = ground arith
addr_beq_iff (v6 n z) zero_addr = ground arith
addr_beq_iff (v6 n z) (v4 m) = ground arith
addr_beq_iff (v6 n z) (v6 m y) = ground (arith, bytes_eq_iff z y)

instance abbrev pub addr_eq : Eq Addr
addr_eq = record { beq = addr_beq; beq_iff = addr_beq_iff }

unfoldable pub bit_len : Addr → ℕ
bit_len zero_addr = 0
bit_len (v4 n) = 32
bit_len (v6 n z) = 128

abbrev pub bits_of : Addr → ℕ
bits_of zero_addr = 0
bits_of (v4 n) = n
bits_of (v6 n z) = n

abbrev pub zone : Addr → GoString
zone zero_addr = []
zone (v4 n) = []
zone (v6 n z) = z

unfoldable pub is_4 : Addr → Bool
is_4 (v4 n) = true
is_4 _ = false

-- `::ffff:0:0/96` holds the IPv4 addresses.
unfoldable pub unmap : Addr → Addr
unmap zero_addr = zero_addr
unmap (v4 n) = v4 n
unmap (v6 n z) = if n / 2 ^ 32 == 0xffff then v4 (n % 2 ^ 32) else v6 n z

-- `netip.Prefix`, with its fields: `bits_plus_one` is 0 in an invalid prefix.
pub record Prefix : Type 0 where
  pub ip : Addr
  pub bits_plus_one : ℕ

abbrev pub empty_prefix : Prefix
empty_prefix = record { ip = zero_addr; bits_plus_one = 0 }

unfoldable pub prefix_beq : Prefix → Prefix → Bool
prefix_beq p q = p.ip == q.ip && p.bits_plus_one == q.bits_plus_one

pub prefix_beq_iff : (p q : Prefix) → (prefix_beq p q ≡ true) ↔ (p ≡ q)
unfolding prefix_beq
prefix_beq_iff p q = ground (arith, addr_beq_iff p.ip q.ip)

instance abbrev pub prefix_eq : Eq Prefix
prefix_eq = record { beq = prefix_beq; beq_iff = prefix_beq_iff }

-- `Prefix.Bits` of a valid prefix.
abbrev pub bits : Prefix → ℕ
bits p = p.bits_plus_one - 1

abbrev pub is_valid : Prefix → Bool
is_valid p = not (p.bits_plus_one == 0)

-- The leading bits of a number of `width` bits, the rest set to 0.
abbrev pub mask : ℕ → ℕ → ℕ → ℕ
mask width count n = n / 2 ^ (width - count) * 2 ^ (width - count)

unfoldable pub masked_addr : ℕ → Addr → Addr
masked_addr count zero_addr = zero_addr
masked_addr count (v4 n) = v4 (mask 32 count n)
masked_addr count (v6 n z) = v6 (mask 128 count n) []

-- `Prefix.Masked`; the zero prefix for an invalid one.
unfoldable pub masked : Prefix → Prefix
unfolding masked_addr bit_len
masked p =
    if is_valid p && not (p.ip == zero_addr) && leb (bits p) (bit_len p.ip)
    then record p { ip = masked_addr (bits p) p.ip }
    else empty_prefix

-- `Prefix.Contains`.
unfoldable pub contains : Prefix → Addr → Bool
unfolding bit_len masked_addr
contains p a =
    is_valid p
    && zone a == []
    && not (bit_len a == 0)
    && bit_len a == bit_len p.ip
    && masked_addr (bits p) a == masked_addr (bits p) p.ip

-- `Prefix.IsSingleIP`.
unfoldable pub is_single_ip : Prefix → Bool
unfolding bit_len
is_single_ip p = is_valid p && bits p == bit_len p.ip
