-- ===== src/Privatenet/Laws.antt =====
-- Which IPv4 addresses are private, and how they are written.
use protobuf_interceptors.Base.{ℕ, ◌/◌, ◌≤◌, ◌<◌, ◌≡◌, ◌≢◌, ◌↔◌, ◌⊎◌, true, arith, some}
use protobuf_interceptors.Privatenet.{v4, octets, contains_private, attempt_timeout, min_attempt}

-- The address lies between the two, both included.
abbrev pub Within : ℕ → ℕ → ℕ → Type 0
Within lo hi a = (lo ≤ a) × (a ≤ hi)

-- The four private ranges of IPv4 by their first and last addresses.
abbrev pub PrivateV4 : ℕ → Type 0
PrivateV4 a =
    Within (octets 10 0 0 0) (octets 10 255 255 255) a
    ⊎ Within (octets 100 64 0 0) (octets 100 127 255 255) a
    ⊎ Within (octets 172 16 0 0) (octets 172 31 255 255) a
    ⊎ Within (octets 192 168 0 0) (octets 192 168 255 255) a

-- An IPv4 address is taken for private exactly when it lies in one of the four ranges and is not
-- the metadata service 100.100.100.200.
pub contains_private-v4_iff :
    (a : ℕ) → (contains_private (v4 a) ≡ true) ↔ (PrivateV4 a × (a ≢ octets 100 100 100 200))
unfolding contains_private
contains_private-v4_iff a = ground arith

-- With a deadline and other addresses left, an attempt's own timeout ends before the deadline and
-- is at least its share of what is left and at least the floor.
pub attempt_timeout-some :
    (left remaining share : ℕ)
    → attempt_timeout (some left) remaining ≡ some share
    → (2 ≤ remaining) × (share < left) × (min_attempt ≤ share) × (left / remaining ≤ share)
unfolding attempt_timeout
attempt_timeout-some left remaining share h = ground arith
