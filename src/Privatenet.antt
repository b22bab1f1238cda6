-- ===== src/Privatenet.antt =====
-- internal/privatenet/privatenet.go: which addresses are on a private network.
pub mod Dial
pub mod Laws
use protobuf_interceptors.Base.{
  ℕ, ◌+◌, ◌-◌, ◌*◌, ◌/◌, ◌%◌, ◌^◌, Bool, true, false, not, ◌&&◌, ◌||◌, List, [], ◌∷◌, ◌==◌, any,
  leb, ltb, if◌then◌else◌, Option, none, some, length,
}
use protobuf_interceptors.Base.Outcomes.{Outcome}
use protobuf_interceptors.Text.Bytes.{Bytes, bytes, equal}

-- netip.Addr: 32 bits, or 128 bits and a zone.
pub data Addr : Type 0 where
  v4 : ℕ → Addr
  v6 : ℕ → Bytes → Addr

-- `Zone() != ""`
unfoldable pub is_zoned : Addr → Bool
is_zoned (v4 a) = false
is_zoned (v6 a []) = false
is_zoned (v6 a (_ ∷ _)) = true

-- `Unmap`
unfoldable pub unmap : Addr → Addr
unmap (v4 a) = v4 a
unmap (v6 a zone) = if a / 2 ^ 32 == 0xFFFF then v4 (a % 2 ^ 32) else v6 a zone

-- netip.Prefix: a base address and the number of its bits that count.
pub data Prefix : Type 0 where
  prefix4 : ℕ → ℕ → Prefix
  prefix6 : ℕ → ℕ → Prefix

-- `Prefix.Contains` of an address without a zone
unfoldable pub prefix_contains : Prefix → Addr → Bool
prefix_contains (prefix4 base bits) (v4 a) = a / 2 ^ (32 - bits) == base / 2 ^ (32 - bits)
prefix_contains (prefix6 base bits) (v6 a zone) = a / 2 ^ (128 - bits) == base / 2 ^ (128 - bits)
prefix_contains _ _ = false

abbrev pub octets : ℕ → ℕ → ℕ → ℕ → ℕ
octets a b c d = a * 2 ^ 24 + b * 2 ^ 16 + c * 2 ^ 8 + d

abbrev pub private_ranges : List Prefix
private_ranges =
    prefix4 (octets 10 0 0 0) 8
    ∷ prefix4 (octets 100 64 0 0) 10
    ∷ prefix4 (octets 172 16 0 0) 12
    ∷ prefix4 (octets 192 168 0 0) 16
    ∷ prefix6 (0xFC00 * 2 ^ 112) 7
    ∷ []

unfoldable pub same_addr : Addr → Addr → Bool
unfolding equal
same_addr (v4 a) (v4 b) = a == b
same_addr (v6 a zone) (v6 b zone') = a == b && equal zone zone'
same_addr _ _ = false

abbrev pub metadata_addresses : List Addr
metadata_addresses =
    v4 (octets 100 100 100 200)
    ∷ v6 (0xFD00 * 2 ^ 112 + 0xEC2 * 2 ^ 96 + 0x254) []
    ∷ v6 (0xFD00 * 2 ^ 112 + 0xEC2 * 2 ^ 96 + 0x23) []
    ∷ v6 (0xFD20 * 2 ^ 112 + 0xCE * 2 ^ 96 + 0x254) []
    ∷ v6 (0xFD00 * 2 ^ 112 + 0xA9FE * 2 ^ 96 + 0xA9FE * 2 ^ 80 + 1) []
    ∷ []

-- `Contains` of an address that is unmapped
unfoldable pub contains_unmapped : Addr → Bool
unfolding same_addr prefix_contains
contains_unmapped addr =
    if any (same_addr addr) metadata_addresses
    then false
    else any (λ p. prefix_contains p addr) private_ranges

-- `Contains`
unfoldable pub contains_private : Addr → Bool
unfolding is_zoned unmap contains_unmapped
contains_private addr = if is_zoned addr then false else contains_unmapped (unmap addr)

-- `lookupNetwork`
unfoldable pub lookup_network : Bytes → Bytes
unfolding equal
lookup_network network =
    if equal network (bytes "tcp4") || equal network (bytes "udp4")
    then bytes "ip4"
    else if equal network (bytes "tcp6") || equal network (bytes "udp6")
    then bytes "ip6"
    else bytes "ip"

-- In nanoseconds
abbrev pub min_attempt : ℕ
min_attempt = 2 * 1000000000

-- The timeout that `attemptContext` adds to a context, `none` where it leaves it alone; the time
-- left until the context's deadline is `none` where it has no deadline.
unfoldable pub attempt_timeout : Option ℕ → ℕ → Option ℕ
attempt_timeout none remaining = none
attempt_timeout (some left) remaining =
    if leb remaining 1
    then none
    else let share = if ltb (left / remaining) min_attempt then min_attempt else left / remaining in
      if leb left share then none else some share
