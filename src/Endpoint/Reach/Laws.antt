-- ===== src/Endpoint/Reach/Laws.antt =====
-- endpoint/http.go: over what a base URL in plaintext is reached.
use protobuf_interceptors.Base.{
  ℕ, ◌≡◌, refl, ap, sym, ◌∙◌, Bool, true, false, not, ◌&&◌, ◌||◌, List, [], ◌∷◌, arith,
  if◌then◌else◌,
}
use protobuf_interceptors.Text.Bytes.{Bytes, bytes, equal}
use protobuf_interceptors.Core.Errors.{Error, Result, err, ok, ◌>>=◌, >>=-eq-ok}
use protobuf_interceptors.Endpoint.Reach.{
  Parsers, Url, ReachConfig, Client, Transport, private_transport, transport_of, is_loopback,
  url_pair, is_listed, plain_transport, client_for, client, parse_base_url, new_http_client,
}

-- A URL in plaintext to a host other than loopback
abbrev pub is_exposed : Parsers → Url → Bool
is_exposed lib u = equal u.scheme (bytes "http") && not (is_loopback lib u.hostname)

parse_base_url_ok :
    (lib : Parsers) (raw : Bytes) (u : Url)
    → parse_base_url lib raw ≡ ok u
    → ((equal u.scheme (bytes "http") || equal u.scheme (bytes "https")) ≡ true)
      × (equal u.hostname [] ≡ false)
unfolding parse_base_url
parse_base_url_ok lib raw u h =
    go (equal (lib.trim_space raw) []) refl (lib.parse_url (lib.trim_space raw)) refl
  where
    go :
        (b : Bool)
        → equal (lib.trim_space raw) [] ≡ b
        → (r : Result Url) → lib.parse_url (lib.trim_space raw) ≡ r
        → ((equal u.scheme (bytes "http") || equal u.scheme (bytes "https")) ≡ true)
          × (equal u.hostname [] ≡ false)
    go true eb r er = cc
    go false eb (err x) er = cc
    go false eb (ok v) er = ground arith

module _ {T : Type 0} (lib : Parsers) where
  plain_transport_ok :
      (r : ReachConfig T) (u : Url) (timeout : ℕ) (kind : Bytes) (t : Transport T)
      → plain_transport lib r u timeout kind ≡ ok t
      → (t ≡ (
          if is_listed lib r (url_pair lib u)
          then private_transport timeout
          else transport_of r.transport))
        × ((is_listed lib r (url_pair lib u) || r.allow_insecure) ≡ true)
  unfolding plain_transport
  plain_transport_ok r u timeout kind t h = ground arith

  -- The transport of a URL that may be exposed
  chosen_transport :
      (exposed : Bool) (r : ReachConfig T) (u : Url) (timeout : ℕ) (kind : Bytes) (t : Transport T)
      → (if exposed then plain_transport lib r u timeout kind else ok (transport_of r.transport))
        ≡ ok t
      → (t ≡ (
          if exposed && is_listed lib r (url_pair lib u)
          then private_transport timeout
          else transport_of r.transport))
        × ((not exposed || is_listed lib r (url_pair lib u) || r.allow_insecure) ≡ true)
  chosen_transport true r u timeout kind t h = plain_transport_ok r u timeout kind t h
  chosen_transport false r u timeout kind t h = (cc h, refl)

  client_for_ok :
      (r : ReachConfig T) (u v : Url) (timeout : ℕ) (kind : Bytes) (c : Client T)
      → client_for lib r u timeout kind ≡ ok (v, c)
      → (u ≡ v)
        × (c.timeout ≡ timeout)
        × (c.follows_redirects ≡ false)
        × (c.transport ≡ (
            if is_exposed lib u && is_listed lib r (url_pair lib u)
            then private_transport timeout
            else transport_of r.transport))
        × ((not (is_exposed lib u) || is_listed lib r (url_pair lib u) || r.allow_insecure) ≡ true)
  unfolding client_for
  client_for_ok r u v timeout kind c h =
      let (t, ht, hc) =
        >>=-eq-ok
          (if is_exposed lib u
            then plain_transport lib r u timeout kind
            else ok (transport_of r.transport))
          _ h in
      let (he, hx) = chosen_transport (is_exposed lib u) r u timeout kind t ht in
      let same : new_http_client timeout t ≡ c = cc hc in
      (
        cc hc,
        ap (λ x. x.timeout) (sym same),
        ap (λ x. x.follows_redirects) (sym same),
        ap (λ x. x.transport) (sym same) ∙ he,
        hx,
      )

client_accepted :
    {T : Type 0} (lib : Parsers) (r : ReachConfig T) (raw : Bytes) (timeout : ℕ) (kind : Bytes)
    (made : Url × Client T)
    → client lib r raw timeout kind ≡ ok made
    → (r.refused_entries ≡ [])
      × ((parse_base_url lib raw >>= λ u. client_for lib r u timeout kind) ≡ ok made)
unfolding client
client_accepted lib r raw timeout kind made h = go r.refused_entries refl
  where
    go :
        (es : List Error)
        → r.refused_entries ≡ es
        → (r.refused_entries ≡ [])
          × ((parse_base_url lib raw >>= λ u. client_for lib r u timeout kind) ≡ ok made)
    go (x ∷ xs) e = cc
    go [] e = (e, sym (rw (client, e)) ∙ h)

-- A client is made only where no entry was refused, for a base URL with the scheme http or https and
-- a host. It follows no redirect and has the timeout given. In plaintext to a host other than
-- loopback the host and port are listed or the option for insecure backends is given, and a listed
-- pair is reached over a transport that connects to private addresses alone; every other URL is
-- reached over the transport configured.
pub client_lem :
    {T : Type 0} (lib : Parsers) (r : ReachConfig T) (raw : Bytes) (timeout : ℕ) (kind : Bytes)
    (u : Url) (c : Client T)
    → client lib r raw timeout kind ≡ ok (u, c)
    → (r.refused_entries ≡ [])
      × ((equal u.scheme (bytes "http") || equal u.scheme (bytes "https")) ≡ true)
      × (equal u.hostname [] ≡ false)
      × (c.timeout ≡ timeout)
      × (c.follows_redirects ≡ false)
      × (c.transport ≡ (
          if is_exposed lib u && is_listed lib r (url_pair lib u)
          then private_transport timeout
          else transport_of r.transport))
      × ((not (is_exposed lib u) || is_listed lib r (url_pair lib u) || r.allow_insecure) ≡ true)
client_lem lib r raw timeout kind u c h =
    let (hr, he) = client_accepted lib r raw timeout kind (u, c) h in
    let (v, hp, hc) = >>=-eq-ok (parse_base_url lib raw) _ he in
    let (same, ht, hf, hx, hl) = client_for_ok lib r v u timeout kind c hc in
    let (hs, hh) = parse_base_url_ok lib raw u (hp ∙ ap ok same) in
    (
      hr,
      hs,
      hh,
      ht,
      hf,
      hx
          ∙ ap
              (λ w.
                if is_exposed lib w && is_listed lib r (url_pair lib w)
                then private_transport timeout
                else transport_of r.transport)
              same,
      ap (λ w. not (is_exposed lib w) || is_listed lib r (url_pair lib w) || r.allow_insecure)
            (sym same)
          ∙ hl,
    )
