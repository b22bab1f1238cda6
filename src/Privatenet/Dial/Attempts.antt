-- ===== src/Privatenet/Dial/Attempts.antt =====
-- internal/privatenet/privatenet.go: the address and the timeout of one of `DialContext`'s attempts, and
-- the addresses it asks the resolver for.
use protobuf_interceptors.Base.{
  ℕ, zero, suc, ◌+◌, ◌-◌, ◌/◌, ◌≡◌, ◌≢◌, refl, Bool, true, false, Option, none, some, between, ltb,
  if◌then◌else◌, arith,
}
use protobuf_interceptors.Text.Bytes.{Bytes, bytes, equal, equal_sound}
use protobuf_interceptors.Privatenet.{Addr, v4, v6, unmap, lookup_network, attempt_timeout}

-- The address that a connection to `addr` is made at: an IPv4 address where an IPv6 one maps it.
abbrev pub reached : Addr → Addr
reached (v4 a) = v4 a
reached (v6 a zone) =
    if between 0xFFFF00000000 0xFFFFFFFFFFFF a then v4 (a - 0xFFFF00000000) else v6 a zone

pub unmap-reached : (addr : Addr) → unmap addr ≡ reached addr
unfolding unmap
unmap-reached (v4 a) = refl
unmap-reached (v6 a zone) = ground arith

-- An attempt's timeout, with this many addresses left after it: the last attempt, and one without a
-- deadline, has none of its own; any other has an equal share of what is left, but two seconds at
-- least, where that is less than what is left.
abbrev pub share : Option ℕ → ℕ → Option ℕ
share none others = none
share (some left) zero = none
share (some left) (suc n) =
    let part = if ltb (left / (n + 2)) 2000000000 then 2000000000 else left / (n + 2) in
    if ltb part left then some part else none

pub attempt_timeout-share :
    (t : Option ℕ) (others : ℕ) → attempt_timeout t (suc others) ≡ share t others
unfolding attempt_timeout
attempt_timeout-share none others = refl
attempt_timeout-share (some left) zero = refl
attempt_timeout-share (some left) (suc n) = ground arith

-- The addresses that a network's connections can use, as LookupNetIP names them
pub data IsFamily : Bytes → Bytes → Type 0 where
  tcp4_family : IsFamily (bytes "tcp4") (bytes "ip4")
  udp4_family : IsFamily (bytes "udp4") (bytes "ip4")
  tcp6_family : IsFamily (bytes "tcp6") (bytes "ip6")
  udp6_family : IsFamily (bytes "udp6") (bytes "ip6")
  either_family :
      (network : Bytes)
      → network ≢ bytes "tcp4"
      → network ≢ bytes "udp4"
      → network ≢ bytes "tcp6"
      → network ≢ bytes "udp6"
      → IsFamily network (bytes "ip")

equal-other : (xs ys : Bytes) → xs ≢ ys → equal xs ys ≡ false
equal-other xs ys h = go (equal xs ys) refl
  where
    go : (b : Bool) → equal xs ys ≡ b → equal xs ys ≡ false
    go false e = e
    go true e = absurd (h (equal_sound xs ys e))

pub lookup_network-IsFamily :
    (network family : Bytes) → IsFamily network family → lookup_network network ≡ family
unfolding lookup_network
lookup_network-IsFamily _ _ tcp4_family = refl
lookup_network-IsFamily _ _ udp4_family = refl
lookup_network-IsFamily _ _ tcp6_family = refl
lookup_network-IsFamily _ _ udp6_family = refl
lookup_network-IsFamily _ _ (either_family network tcp4 udp4 tcp6 udp6) = rw (
  lookup_network,
  equal-other network (bytes "tcp4") tcp4,
  equal-other network (bytes "udp4") udp4,
  equal-other network (bytes "tcp6") tcp6,
  equal-other network (bytes "udp6") udp6,
)
