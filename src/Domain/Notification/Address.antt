-- ===== src/Domain/Notification/Address.antt =====
-- The literal addresses that a webhook may name: `is_public_ipv4` and `is_public_ipv6` of
-- src/domain/notification.rs.
pub mod Blocks
use Prim.Native.Nat.{bit_and}
use silicon_commit.Base.{ℕ, Bool, not, ◌&&◌, ◌||◌, nat_beq, leb}

-- `Ipv4Addr::octets`
pub record Ipv4Addr : Type 0 where
  pub first : ℕ
  pub second : ℕ
  pub third : ℕ
  pub fourth : ℕ

unfoldable pub is_public_ipv4 : Ipv4Addr → Bool
is_public_ipv4 address =
    let first = address.first in
    let second = address.second in
    let third = address.third in
    not (
      nat_beq first 0
      || nat_beq first 10
      || nat_beq first 127
      || (nat_beq first 100 && leb 64 second && leb second 127)
      || (nat_beq first 169 && nat_beq second 254)
      || (nat_beq first 172 && leb 16 second && leb second 31)
      || (nat_beq first 192 && nat_beq second 0 && nat_beq third 0)
      || (nat_beq first 192 && nat_beq second 0 && nat_beq third 2)
      || (nat_beq first 192 && nat_beq second 88 && nat_beq third 99)
      || (nat_beq first 192 && nat_beq second 168)
      || (nat_beq first 198 && (nat_beq second 18 || nat_beq second 19))
      || (nat_beq first 198 && nat_beq second 51 && nat_beq third 100)
      || (nat_beq first 203 && nat_beq second 0 && nat_beq third 113)
      || leb 224 first)

-- The first two of `Ipv6Addr::segments`; the others are not read.
unfoldable pub is_public_ipv6 : (segment0 segment1 : ℕ) → Bool
is_public_ipv6 segment0 segment1 =
    let in_global_unicast_block = nat_beq (bit_and segment0 0xe000) 0x2000 in
    let documentation = nat_beq segment0 0x2001 && nat_beq segment1 0x0db8 in
    let benchmarking = nat_beq segment0 0x2001 && nat_beq segment1 0x0002 in
    let orchid = nat_beq segment0 0x2001 && (nat_beq segment1 0x0010 || nat_beq segment1 0x0020) in
    in_global_unicast_block && not documentation && not benchmarking && not orchid
