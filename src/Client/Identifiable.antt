-- ===== src/Client/Identifiable.antt =====
-- internal/client/humanidsource.go and storage.go: the addresses that a source of identifiers may
-- identify, and the storage without clients. The tests of package net/netip are parameters.
use ad_guard_dnscli.Base.{◌≡◌, Option, none, Bool, true, not, ◌&&◌, ◌||◌, arith, GoString}
use ad_guard_dnscli.Netip.{Addr}

-- `EmptyStorage.Get`.
unfoldable pub get_empty {ℓ} : {Client : Type ℓ} → Addr → GoString → Option Client
get_empty addr question_domain = none

module _ (is_private is_loopback is_global_unicast : Addr → Bool) where
  -- `IsIdentifiable`.
  unfoldable pub is_identifiable : Addr → Bool
  is_identifiable addr = (is_private addr && not (is_loopback addr)) || is_global_unicast addr

  -- Where private addresses are global unicast ones, as package netip says of them, the test is that
  -- of a global unicast address.
  is_identifiable-global :
      (private : (a : Addr) → is_private a ≡ true → is_global_unicast a ≡ true) (addr : Addr)
      → is_identifiable addr ≡ is_global_unicast addr
  unfolding is_identifiable
  is_identifiable-global private addr = ground (arith, private addr)
