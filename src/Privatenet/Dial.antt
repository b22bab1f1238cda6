-- ===== src/Privatenet/Dial.antt =====
-- internal/privatenet/privatenet.go: `DialContext`. A dialer is what it asks of net and net/netip, of
-- its resolver and its `Dial`, and of its context, over a state that stands for the network and the
-- clock.
pub mod Attempts
pub mod Laws
use protobuf_interceptors.Base.{
  ℕ, suc, ◌≡◌, ◌⊎◌, inl, inr, ◌↔◌, refl, ap, sym, ◌∙◌, Bool, true, false, not, Option, none, some,
  List, [], ◌∷◌, ◌++◌, length, all, if◌then◌else◌,
}
use protobuf_interceptors.Text.Bytes.{Bytes, bytes}
use protobuf_interceptors.Core.Errors.{
  Error, Result, err, ok, Sentinel, sentinel, not_private, text, errorf, errorf_w, joined,
}
use protobuf_interceptors.Privatenet.{
  Addr, unmap, contains_private, lookup_network, attempt_timeout,
}

-- net.SplitHostPort, netip.ParseAddr, `Addr.String`, net.JoinHostPort, the resolver's LookupNetIP and
-- `Dial`, the time left until the deadline of the dialer's context, and whether it has ended. `Dial`
-- is given the timeout that its attempt's context adds.
pub record Dialer (S C : Type 0) : Type 0 where
  pub split_host_port : Bytes → Result (Bytes × Bytes)
  pub parse_addr : Bytes → Option Addr
  pub addr_string : Addr → Bytes
  pub join_host_port : Bytes → Bytes → Bytes
  pub lookup_net_ip : Bytes → Bytes → S → Result (List Addr) × S
  pub dial : Option ℕ → Bytes → Bytes → S → Result C × S
  pub time_left : S → Option ℕ
  pub ended : S → Bool

-- errors.Join of the failures, the last apart
abbrev pub join_failures : List Error → Error → Error
join_failures [] e = e
join_failures (x ∷ xs) e = joined x (join_failures xs e)

module _ {S C : Type 0} (d : Dialer S C) (network : Bytes) where
  -- One attempt, with this many addresses left after it
  abbrev pub attempt : Bytes → Addr → ℕ → S → Result C × S
  attempt port addr others s =
      d.dial (attempt_timeout (d.time_left s) (suc others)) network
        (d.join_host_port (d.addr_string (unmap addr)) port) s

  -- What follows an attempt: the loop over the addresses left, with the failures before the attempt
  unfoldable pub after_attempt : Bytes → List Error → List Addr → Result C × S → Result C × S
  unfolding attempt_timeout unmap
  after_attempt port errs addrs (ok conn, s) = (ok conn, s)
  after_attempt port errs [] (err e, s) = (err (join_failures errs e), s)
  after_attempt port errs (addr ∷ addrs) (err e, s) =
      if d.ended s
      then (err (join_failures errs e), s)
      else after_attempt port (errs ++ e ∷ []) addrs (attempt port addr (length addrs) s)

  -- The loop over the addresses
  abbrev pub dial_from : Bytes → List Error → Addr → List Addr → S → Result C × S
  dial_from port errs addr addrs s =
      after_attempt port errs addrs (attempt port addr (length addrs) s)

  -- The first address that is not private
  abbrev pub first_public : List Addr → Option Addr
  first_public [] = none
  first_public (a ∷ addrs) = if contains_private a then first_public addrs else some a

  -- `DialContext` once the host is resolved
  unfoldable pub dial_resolved : Bytes → Bytes → Result (List Addr) × S → Result C × S
  unfolding after_attempt contains_private
  dial_resolved host port (err e, s) = (err e, s)
  dial_resolved host port (ok [], s) =
      (err (errorf "%s resolves to no address" (text host ∷ [])), s)
  dial_resolved host port (ok (addr ∷ addrs), s) = elim (first_public (addr ∷ addrs)) [
    | some a ↦ (
      err (
          errorf_w "%s resolves to %s: %w" (text host ∷ text (d.addr_string a) ∷ [])
            (sentinel not_private)),
      s,
    )
    | none ↦ dial_from port [] addr addrs s
  ]

  -- The addresses of a host, without a lookup where it is written as one
  unfoldable pub resolve_host : Bytes → S → Result (List Addr) × S
  unfolding lookup_network
  resolve_host host s = elim (d.parse_addr host) [
    | some addr ↦ (ok (addr ∷ []), s)
    | none ↦ d.lookup_net_ip (lookup_network network) host s
  ]

  -- `DialContext`
  unfoldable pub dial_context : Bytes → S → Result C × S
  unfolding dial_resolved resolve_host
  dial_context address s = elim (d.split_host_port address) [
    | err e ↦ (err e, s)
    | ok (host, port) ↦ dial_resolved host port (resolve_host host s)
  ]
