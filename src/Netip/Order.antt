-- ===== src/Netip/Order.antt =====
-- `Addr.Compare` and `Prefix.Compare`, and that they are comparators of a total order.
use Prim.Native.Nat.{compare}
use ad_guard_dnscli.Base.{◌≡◌, refl, arith}
use ad_guard_dnscli.Base.Compare.{
  Ordering, or_else, Lawful, or_else-Lawful, on-Lawful, compare-Lawful, compare_strings,
  compare_strings-Lawful, eq_of_compare_strings,
}
use ad_guard_dnscli.Netip.{Addr, zero_addr, v4, v6, Prefix, bit_len, bits_of, zone, masked}

-- By length, by value, and by zone.
unfoldable pub compare_addr : Addr → Addr → Ordering
compare_addr a b =
    or_else (compare (bit_len a) (bit_len b))
      (or_else (compare (bits_of a) (bits_of b)) (compare_strings (zone a) (zone b)))

pub compare_addr-Lawful : Lawful compare_addr
unfolding compare_addr
compare_addr-Lawful = or_else-Lawful _ _ (on-Lawful bit_len compare compare-Lawful) (
    or_else-Lawful _ _ (on-Lawful bits_of compare compare-Lawful)
      (on-Lawful zone compare_strings compare_strings-Lawful))

pub eq_of_compare_addr : (a b : Addr) → compare_addr a b ≡ Ordering.eq → a ≡ b
unfolding compare_addr bit_len
eq_of_compare_addr zero_addr zero_addr e = refl
eq_of_compare_addr (v4 n) (v4 m) e = ground arith
eq_of_compare_addr (v6 n z) (v6 m y) e = ground (arith, eq_of_compare_strings z y)
eq_of_compare_addr _ _ e = ground arith

-- By the masked address, by the number of bits (an invalid prefix has -1), and by the address.
unfoldable pub compare_prefix : Prefix → Prefix → Ordering
compare_prefix p q =
    or_else (compare_addr (masked p).ip (masked q).ip)
      (or_else (compare p.bits_plus_one q.bits_plus_one) (compare_addr p.ip q.ip))

pub compare_prefix-Lawful : Lawful compare_prefix
unfolding compare_prefix
compare_prefix-Lawful =
    or_else-Lawful _ _ (on-Lawful (λ (p : Prefix). (masked p).ip) compare_addr compare_addr-Lawful)
      (or_else-Lawful _ _ (on-Lawful (λ (p : Prefix). p.bits_plus_one) compare compare-Lawful)
        (on-Lawful (λ (p : Prefix). p.ip) compare_addr compare_addr-Lawful))

pub eq_of_compare_prefix : (p q : Prefix) → compare_prefix p q ≡ Ordering.eq → p ≡ q
unfolding compare_prefix
eq_of_compare_prefix p q e = ground (arith, eq_of_compare_addr p.ip q.ip)
