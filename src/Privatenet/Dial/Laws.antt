-- ===== src/Privatenet/Dial/Laws.antt =====
-- internal/privatenet/privatenet.go: which connection `DialContext` returns.
use protobuf_interceptors.Base.{
  ℕ, suc, ◌≡◌, ◌⊎◌, inl, inr, ◌↔◌, refl, sym, ◌∙◌, Bool, true, false, Option, none, some, List, [],
  ◌∷◌, ◌++◌, length, all, arith,
}
use protobuf_interceptors.Text.Bytes.{Bytes}
use protobuf_interceptors.Core.Errors.{
  Error, Result, err, ok, sentinel, not_private, text, errorf_w,
}
use protobuf_interceptors.Privatenet.{Addr, contains_private}
use protobuf_interceptors.Privatenet.Dial.Attempts.{
  reached, unmap-reached, share, attempt_timeout-share, IsFamily, lookup_network-IsFamily,
}
use protobuf_interceptors.Privatenet.Dial.{
  Dialer, attempt, after_attempt, dial_from, first_public, dial_resolved, resolve_host,
  dial_context,
}

module _ {S C : Type 0} (d : Dialer S C) (network : Bytes) where
  -- `Dial`'s answer at one address, with this many addresses left after it
  abbrev pub Dials : Bytes → Addr → ℕ → S → Result C × S → Type 0
  Dials port addr others s r =
      d.dial (share (d.time_left s) others) network
        (d.join_host_port (d.addr_string (reached addr)) port) s
      ≡ r

  -- A connection at the first of the addresses that answers: each before it was tried in turn and
  -- failed while the context was live.
  abbrev pub Reaches : Bytes → Addr → List Addr → S → C → S → Type 0
  Reaches port addr [] s conn s' = Dials port addr 0 s (ok conn, s')
  Reaches port addr (next ∷ addrs) s conn s' =
      Dials port addr (suc (length addrs)) s (ok conn, s')
      ⊎ ((e : Error) × (s1 : S) × Dials port addr (suc (length addrs)) s (err e, s1)
          × (d.ended s1 ≡ false)
          × Reaches port next addrs s1 conn s')

  -- The addresses that a host stands for: the one it is written as, without a lookup, or what the
  -- resolver answers for the network's family.
  abbrev pub ResolvesTo : Bytes → S → Addr → List Addr → S → Type 0
  ResolvesTo host s addr addrs s1 =
      ((d.parse_addr host ≡ some addr) × (addrs ≡ []) × (s1 ≡ s))
      ⊎ ((d.parse_addr host ≡ none)
          × (family : Bytes) × IsFamily network family
          × (d.lookup_net_ip family host s ≡ (ok (addr ∷ addrs), s1)))

  resolve_host-ResolvesTo :
      (host : Bytes) (s : S) (addr : Addr) (addrs : List Addr) (s1 : S)
      → ResolvesTo host s addr addrs s1
      → resolve_host d network host s ≡ (ok (addr ∷ addrs), s1)
  unfolding resolve_host
  resolve_host-ResolvesTo host s addr addrs s1 (inl (parsed, rest, still)) =
      rw (resolve_host, parsed, rest, still)
  resolve_host-ResolvesTo host s addr addrs s1 (inr (parsed, family, named, answered)) =
      rw (resolve_host, parsed, lookup_network-IsFamily network family named) answered

  attempt-Dials :
      (port : Bytes) (addr : Addr) (others : ℕ) (s : S) (r : Result C × S)
      → (attempt d network port addr others s ≡ r) ↔ Dials port addr others s r
  attempt-Dials port addr others s r =
      let same : attempt d network port addr others s
          ≡ d.dial (share (d.time_left s) others) network
              (d.join_host_port (d.addr_string (reached addr)) port) s =
        rw (attempt, attempt_timeout-share (d.time_left s) others, unmap-reached addr) in
      (λ h. sym same ∙ h, λ h. same ∙ h)

  after_attempt_last :
      (port : Bytes) (errs : List Error) (r : Result C × S) (conn : C) (s' : S)
      → (after_attempt d network port errs [] r ≡ (ok conn, s')) ↔ (r ≡ (ok conn, s'))
  unfolding after_attempt
  after_attempt_last port errs (ok c, s) conn s' = (λ h. h, λ h. h)
  after_attempt_last port errs (err e, s) conn s' = (λ h. cc h, λ h. cc h)

  after_attempt-Reaches :
      (port : Bytes) (errs : List Error) (next : Addr) (addrs : List Addr) (r : Result C × S)
      (conn : C) (s' : S)
      → after_attempt d network port errs (next ∷ addrs) r ≡ (ok conn, s')
      → (r ≡ (ok conn, s'))
        ⊎ ((e : Error) × (s1 : S) × (r ≡ (err e, s1))
            × (d.ended s1 ≡ false)
            × (dial_from d network port (errs ++ e ∷ []) next addrs s1 ≡ (ok conn, s')))
  unfolding after_attempt
  after_attempt-Reaches port errs next addrs (ok c, s) conn s' h = inl h
  after_attempt-Reaches port errs next addrs (err e, s) conn s' h = go (d.ended s) refl
    where
      go :
          (b : Bool)
          → d.ended s ≡ b
          → (◌≡◌ {A = Result C × S} (err e, s) (ok conn, s'))
            ⊎ ((e' : Error) × (s1 : S) × (◌≡◌ {A = Result C × S} (err e, s) (err e', s1))
                × (d.ended s1 ≡ false)
                × (dial_from d network port (errs ++ e' ∷ []) next addrs s1 ≡ (ok conn, s')))
      go true b = cc
      go false b = inr (e, s, refl, b, sym (rw (after_attempt, b)) ∙ h)

  dial_from-Reaches :
      (port : Bytes) (errs : List Error) (addr : Addr) (addrs : List Addr) (s : S) (conn : C)
      (s' : S)
      → dial_from d network port errs addr addrs s ≡ (ok conn, s')
      → Reaches port addr addrs s conn s'
  dial_from-Reaches port errs addr [] s conn s' h =
      (attempt-Dials port addr 0 s (ok conn, s')).0
        ((after_attempt_last port errs (attempt d network port addr 0 s) conn s').0 h)
  dial_from-Reaches port errs addr (next ∷ addrs) s conn s' h =
      elim (after_attempt-Reaches port errs next addrs
        (attempt d network port addr (suc (length addrs)) s) conn s' h) [
          | inl e ↦ inl ((attempt-Dials port addr (suc (length addrs)) s (ok conn, s')).0 e)
          | inr (e, s1, he, live, rest) ↦ inr (
            e,
            s1,
            (attempt-Dials port addr (suc (length addrs)) s (err e, s1)).0 he,
            live,
            dial_from-Reaches port (errs ++ e ∷ []) next addrs s1 conn s' rest,
          )
        ]

  Reaches-dial_from :
      (port : Bytes) (errs : List Error) (addr : Addr) (addrs : List Addr) (s : S) (conn : C)
      (s' : S)
      → Reaches port addr addrs s conn s'
      → dial_from d network port errs addr addrs s ≡ (ok conn, s')
  unfolding after_attempt
  Reaches-dial_from port errs addr [] s conn s' h =
      (after_attempt_last port errs (attempt d network port addr 0 s) conn s').1
        ((attempt-Dials port addr 0 s (ok conn, s')).1 h)
  Reaches-dial_from port errs addr (next ∷ addrs) s conn s' (inl h) =
      rw ((attempt-Dials port addr (suc (length addrs)) s (ok conn, s')).1 h)
  Reaches-dial_from port errs addr (next ∷ addrs) s conn s' (inr (e, s1, h, live, rest)) =
      rw ((attempt-Dials port addr (suc (length addrs)) s (err e, s1)).1 h, live)
        (Reaches-dial_from port (errs ++ e ∷ []) next addrs s1 conn s' rest)

  all_private :
      (addrs : List Addr) → first_public d network addrs ≡ none → all contains_private addrs ≡ true
  all_private [] h = refl
  all_private (a ∷ addrs) h = ground (arith, all_private addrs)

  none_public :
      (addrs : List Addr) → all contains_private addrs ≡ true → first_public d network addrs ≡ none
  none_public [] h = refl
  none_public (a ∷ addrs) h = ground (arith, none_public addrs)

  dial_resolved-Reaches :
      (host port : Bytes) (addr : Addr) (addrs : List Addr) (s : S) (conn : C) (s' : S)
      → dial_resolved d network host port (ok (addr ∷ addrs), s) ≡ (ok conn, s')
      → (all contains_private (addr ∷ addrs) ≡ true) × Reaches port addr addrs s conn s'
  unfolding dial_resolved
  dial_resolved-Reaches host port addr addrs s conn s' h =
      go (first_public d network (addr ∷ addrs)) refl
    where
      go :
          (o : Option Addr)
          → first_public d network (addr ∷ addrs) ≡ o
          → (all contains_private (addr ∷ addrs) ≡ true) × Reaches port addr addrs s conn s'
      go (some a) e =
          let refused : ◌≡◌ {A = Result C × S}
              (
                err (
                    errorf_w "%s resolves to %s: %w" (text host ∷ text (d.addr_string a) ∷ [])
                      (sentinel not_private)),
                s,
              )
              (ok conn, s') =
            sym (rw (dial_resolved, e)) ∙ h in
          cc refused
      go none e = (
        all_private (addr ∷ addrs) e,
        dial_from-Reaches port [] addr addrs s conn s' (sym (rw (dial_resolved, e)) ∙ h),
      )

  -- Where an address splits into host and port, and the host is one address as written or the resolver
  -- answers some addresses of the network's family for it, `DialContext` returns a connection exactly
  -- when all of them are private and `Dial` makes it at the first of them that answers, at the network,
  -- that very address and the port: each before it was tried in turn with its share of the time left,
  -- and failed while the context was live.
  pub dial_context_iff :
      (address host port : Bytes) (addr : Addr) (addrs : List Addr) (s s1 : S) (conn : C) (s' : S)
      → d.split_host_port address ≡ ok (host, port)
      → ResolvesTo host s addr addrs s1
      → (dial_context d network address s ≡ (ok conn, s'))
        ↔ ((all contains_private (addr ∷ addrs) ≡ true) × Reaches port addr addrs s1 conn s')
  unfolding dial_context dial_resolved
  dial_context_iff address host port addr addrs s s1 conn s' hs hr =
      let same : dial_context d network address s
          ≡ dial_resolved d network host port (ok (addr ∷ addrs), s1) =
        rw (dial_context, hs, resolve_host-ResolvesTo host s addr addrs s1 hr) in
      (
        λ h. dial_resolved-Reaches host port addr addrs s1 conn s' (sym same ∙ h),
        λ h.
            same
            ∙ rw (dial_resolved, none_public (addr ∷ addrs) h.0)
                (Reaches-dial_from port [] addr addrs s1 conn s' h.1),
      )
