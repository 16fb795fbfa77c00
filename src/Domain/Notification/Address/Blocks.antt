-- ===== src/Domain/Notification/Address/Blocks.antt =====
-- The address tests against tables of address blocks in prefix notation.
use Prim.Native.Nat.{bit_and}
use silicon_commit.Base.{
  if◌then◌else◌, ℕ, zero, suc, ◌+◌, ◌-◌, ◌*◌, ◌/◌, ◌^◌, ◌<◌, ◌≡◌, refl, Bool, true, false, not,
  ◌&&◌, ◌||◌, List, [], ◌∷◌, nat_beq, leb, ltb, any, arith,
}
use silicon_commit.Domain.Notification.Address.{Ipv4Addr, is_public_ipv4, is_public_ipv6}

-- A block a.b.c.d/bits.
pub record Cidr : Type 0 where
  pub a : ℕ
  pub b : ℕ
  pub c : ℕ
  pub bits : ℕ

-- The address as one number.
abbrev pub to_number : ℕ → ℕ → ℕ → ℕ → ℕ
to_number a b c d = a * 0x1000000 + b * 0x10000 + c * 0x100 + d

abbrev pub in_block : Ipv4Addr → Cidr → Bool
in_block x k =
    nat_beq (to_number x.first x.second x.third x.fourth / 2 ^ (32 - k.bits))
      (to_number k.a k.b k.c 0 / 2 ^ (32 - k.bits))

abbrev block : ℕ → ℕ → ℕ → ℕ → Cidr
block a b c bits = record { a = a; b = b; c = c; bits = bits }

-- This network, private, loopback, shared, link-local, protocol assignments, documentation, 6to4
-- relay, benchmarking, and multicast with reserved.
abbrev pub special_blocks : List Cidr
special_blocks =
    block 0 0 0 8
    ∷ block 10 0 0 8
    ∷ block 127 0 0 8
    ∷ block 100 64 0 10
    ∷ block 169 254 0 16
    ∷ block 172 16 0 12
    ∷ block 192 0 0 24
    ∷ block 192 0 2 24
    ∷ block 192 88 99 24
    ∷ block 192 168 0 16
    ∷ block 198 18 0 15
    ∷ block 198 51 100 24
    ∷ block 203 0 113 24
    ∷ block 224 0 0 3
    ∷ []

pub record IsOctets (x : Ipv4Addr) : Type 0 where
  pub first : x.first < 256
  pub second : x.second < 256
  pub third : x.third < 256
  pub fourth : x.fourth < 256

module _ (x : Ipv4Addr) (o : IsOctets x) where
  octet_8 : (a : ℕ) → a < 256 → in_block x (block a 0 0 8) ≡ nat_beq x.first a
  octet_8 a h = ground arith

  octet_16 :
      (a b : ℕ)
      → a < 256
      → b < 256
      → in_block x (block a b 0 16) ≡ (nat_beq x.first a && nat_beq x.second b)
  octet_16 a b h k = ground arith

  octet_24 :
      (a b c : ℕ)
      → a < 256
      → b < 256
      → c < 256
      → in_block x (block a b c 24) ≡ (nat_beq x.first a && nat_beq x.second b && nat_beq x.third c)
  octet_24 a b c h k l = ground arith

  shared :
      in_block x (block 100 64 0 10) ≡ (nat_beq x.first 100 && leb 64 x.second && leb x.second 127)
  shared = ground arith

  private_12 :
      in_block x (block 172 16 0 12) ≡ (nat_beq x.first 172 && leb 16 x.second && leb x.second 31)
  private_12 = ground arith

  benchmark :
      in_block x (block 198 18 0 15)
      ≡ (nat_beq x.first 198 && (nat_beq x.second 18 || nat_beq x.second 19))
  benchmark = ground arith

  multicast : in_block x (block 224 0 0 3) ≡ leb 224 x.first
  multicast = ground arith

or-false : (b : Bool) → (b || false) ≡ b
or-false b = ground arith

or_assoc : (a b c : Bool) → ((a || b) || c) ≡ (a || (b || c))
or_assoc a b c = ground arith

-- A literal IPv4 address of four octets is public exactly when it lies in none of the special
-- blocks of the table.
pub is_public_ipv4_iff :
    (x : Ipv4Addr) → IsOctets x → is_public_ipv4 x ≡ not (any (in_block x) special_blocks)
unfolding is_public_ipv4
is_public_ipv4_iff x o =
    rw
      (
        octet_8 x o 0 (omega arith),
        octet_8 x o 10 (omega arith),
        octet_8 x o 127 (omega arith),
        shared x o,
        octet_16 x o 169 254 (omega arith) (omega arith),
        private_12 x o,
        octet_24 x o 192 0 0 (omega arith) (omega arith) (omega arith),
        octet_24 x o 192 0 2 (omega arith) (omega arith) (omega arith),
        octet_24 x o 192 88 99 (omega arith) (omega arith) (omega arith),
        octet_16 x o 192 168 (omega arith) (omega arith),
        benchmark x o,
        octet_24 x o 198 51 100 (omega arith) (omega arith) (omega arith),
        octet_24 x o 203 0 113 (omega arith) (omega arith) (omega arith),
        multicast x o,
        or-false,
      )
      (simp or_assoc)

-- A test on the numbers under a bound, by evaluation.
holds_under : (ℕ → Bool) → ℕ → Bool
holds_under test zero = true
holds_under test (suc bound) = if test bound then holds_under test bound else false

holds_under-at :
    (test : ℕ → Bool) (bound : ℕ)
    → holds_under test bound ≡ true
    → (k : ℕ) → k < bound
    → test k ≡ true
unfolding holds_under
holds_under-at test zero good k small = absurd (omega arith)
holds_under-at test (suc bound) good k small =
    let rest : holds_under test bound ≡ true = ground arith in
    ground (arith, holds_under-at test bound rest k)

bool_same : Bool → Bool → Bool
bool_same true b = b
bool_same false b = not b

bool_same_eq : (a b : Bool) → bool_same a b ≡ true → a ≡ b
unfolding bool_same
bool_same_eq a b h = ground arith

-- The mask test on a segment is the test for the block 2000::/3.
mask_table :
    holds_under
      (λ s. bool_same (nat_beq (bit_and s 0xe000) 0x2000) (leb 0x2000 s && ltb s 0x4000))
      0x10000
    ≡ true
unfolding holds_under bool_same
mask_table = refl

mask_lem :
    (s : ℕ) → s < 0x10000 → nat_beq (bit_and s 0xe000) 0x2000 ≡ (leb 0x2000 s && ltb s 0x4000)
mask_lem s h = bool_same_eq _ _ (holds_under-at _ 0x10000 mask_table s h)

-- A literal IPv6 address is public exactly when it lies in 2000::/3 and in none of 2001:db8::/32,
-- 2001:2::/32, 2001:10::/32 and 2001:20::/32.
pub is_public_ipv6_iff :
    (s0 s1 : ℕ)
    → s0 < 0x10000
    → s1 < 0x10000
    → is_public_ipv6 s0 s1 ≡ (
        leb 0x2000 s0
        && ltb s0 0x4000
        && not (
            any
              (nat_beq (s0 * 0x10000 + s1))
              (0x20010db8 ∷ 0x20010002 ∷ 0x20010010 ∷ 0x20010020 ∷ [])))
unfolding is_public_ipv6
is_public_ipv6_iff s0 s1 h k = rw (mask_lem s0 h) (ground arith)
