-- ===== src/Endpoint/Reach.antt =====
-- endpoint/http.go: how a backend is reached, from an endpoint's options and its base URL to the
-- client that asks it.
pub mod Entries
pub mod Laws
use protobuf_interceptors.Base.{
  ℕ, ◌+◌, ◌/◌, ◌^◌, Bool, true, false, not, ◌&&◌, ◌||◌, Option, none, some, List, [], ◌∷◌, ◌++◌,
  ◌==◌, any, if◌then◌else◌, String,
}
use protobuf_interceptors.Text.Bytes.{Bytes, bytes, equal, contains_byte, trim_suffix_byte}
use protobuf_interceptors.Text.Runes.{equal_fold}
use protobuf_interceptors.Core.Errors.{
  Error, Result, err, ok, ◌>>=◌, text, errorf, errorf_w, joined,
}
use protobuf_interceptors.Endpoint.Hosts.{valid_port, ascii_lower, valid_host_name, redacted_entry}
use protobuf_interceptors.Privatenet.{Addr, v4, v6, unmap, contains_private}

-- A parsed URL: what `Scheme`, `Hostname()`, `Port()`, `Path` and `Redacted()` give.
pub record Url : Type 0 where
  pub scheme : Bytes
  pub hostname : Bytes
  pub port : Bytes
  pub path : Bytes
  pub redacted : Bytes

-- strings.TrimSpace, url.Parse with the cause of its error, net.SplitHostPort, netip.ParseAddr,
-- net.ParseIP, whose addresses have no zone, `Addr.String` and `URL.String`.
pub record Parsers : Type 0 where
  pub trim_space : Bytes → Bytes
  pub parse_url : Bytes → Result Url
  pub split_host_port : Bytes → Result (Bytes × Bytes)
  pub parse_addr : Bytes → Option Addr
  pub parse_ip : Bytes → Option Addr
  pub addr_string : Addr → Bytes
  pub url_string : Url → Bytes

-- `reachConfig`, over the transports that a caller may give. The listed pairs are in no order.
pub record ReachConfig (T : Type 0) : Type 0 where
  pub allow_insecure : Bool
  pub plain_internal : List Bytes
  pub refused_entries : List Error
  pub transport : Option T

-- What requests go over: http.DefaultTransport, a caller's transport, or one of the endpoint's own,
-- which `privateTransport` makes with a dialer of this timeout.
pub data Transport (T : Type 0) : Type 0 where
  default_transport : Transport T
  given_transport : T → Transport T
  private_transport : ℕ → Transport T

abbrev pub transport_of : {T : Type 0} → Option T → Transport T
transport_of none = default_transport
transport_of (some t) = given_transport t

-- `newHTTPClient`: the client follows no redirect.
pub record Client (T : Type 0) : Type 0 where
  pub timeout : ℕ
  pub transport : Transport T
  pub follows_redirects : Bool

abbrev pub new_http_client : {T : Type 0} → ℕ → Transport T → Client T
new_http_client timeout transport = record {
  timeout = timeout;
  transport = transport;
  follows_redirects = false;
}

-- net.JoinHostPort
unfoldable pub join_host_port : Bytes → Bytes → Bytes
join_host_port host port =
    if contains_byte b':' host then b'[' ∷ host ++ bytes "]:" ++ port else host ++ b':' ∷ port

-- `ip.IsLoopback()`
abbrev pub is_loopback_address : Addr → Bool
is_loopback_address (v4 a) = a / 2 ^ 24 == 127
is_loopback_address (v6 a zone) = a == 1

-- `strings.ContainsAny(entry, "@/?#")`
abbrev pub names_url : Bytes → Bool
names_url entry = any (λ c. contains_byte c (bytes "@/?#")) entry

module _ (lib : Parsers) where
  -- `isLoopback`
  unfoldable pub is_loopback : Bytes → Bool
  unfolding equal_fold unmap
  is_loopback host =
      if equal_fold host (bytes "localhost")
      then true
      else elim (lib.parse_ip host) [ none ↦ false | some ip ↦ is_loopback_address (unmap ip) ]

  -- The host of an entry or of a URL as the pairs spell it; `none` where no entry can name it.
  abbrev host_name : Bytes → Option Bytes
  host_name host = elim (ascii_lower (trim_suffix_byte b'.' host)) [
    | none ↦ none
    | some name ↦ if valid_host_name name then some name else none
  ]

  -- `plainInternalPair`
  unfoldable pub plain_internal_pair : Bytes → Result Bytes
  unfolding redacted_entry valid_port contains_private unmap ascii_lower trim_suffix_byte
      valid_host_name join_host_port
  plain_internal_pair entry =
      if names_url entry
      then err (
          errorf "plain-internal entry %q is not a host and port: it is a URL or names a user"
            (text (redacted_entry entry) ∷ []))
      else elim (lib.split_host_port entry) [
        | err x ↦
            err (errorf_w "plain-internal entry %q is not a host and port: %w" (text entry ∷ []) x)
        | ok (host, port) ↦
            if not (valid_port port)
            then err (
                errorf
                  "plain-internal entry %q: the port must be a number from 1 to 65535, written without a leading zero"
                  (text entry ∷ []))
            else elim (lib.parse_addr host) [
              | some addr ↦
                  if not (contains_private addr)
                  then err (
                      errorf "plain-internal entry %q: the address is not on a private network"
                        (text entry ∷ []))
                  else ok (join_host_port (lib.addr_string (unmap addr)) port)
              | none ↦ elim (host_name host) [
                | none ↦ err (
                    errorf "plain-internal entry %q: the host is neither an address nor a host name"
                      (text entry ∷ []))
                | some name ↦ ok (join_host_port name port)
              ]
            ]
      ]

  -- The port of a URL, http's where it has none
  abbrev pub port_or_80 : Bytes → Bytes
  port_or_80 [] = bytes "80"
  port_or_80 (c ∷ port) = c ∷ port

  -- `urlPair`; `none` reports false.
  unfoldable pub url_pair : Url → Option Bytes
  unfolding contains_private unmap ascii_lower trim_suffix_byte valid_host_name join_host_port
  url_pair u = elim (lib.parse_addr u.hostname) [
    | some addr ↦
        if not (contains_private addr)
        then none
        else some (join_host_port (lib.addr_string (unmap addr)) (port_or_80 u.port))
    | none ↦ elim (host_name u.hostname) [
      | none ↦ none
      | some name ↦ some (join_host_port name (port_or_80 u.port))
    ]
  ]

  -- `parseBaseURL`
  unfoldable pub parse_base_url : Bytes → Result Url
  unfolding equal
  parse_base_url raw =
      if equal (lib.trim_space raw) []
      then err (errorf "baseURL must not be empty" [])
      else elim (lib.parse_url (lib.trim_space raw)) [
        | err x ↦ err (errorf_w "invalid base URL: %w" [] x)
        | ok u ↦
            if not (equal u.scheme (bytes "http")) && not (equal u.scheme (bytes "https"))
            then err
                (errorf "base URL must name the scheme http or https, got %q" (text u.scheme ∷ []))
            else if equal u.hostname []
            then err (errorf "base URL must name a host" [])
            else ok u
      ]

  -- errors.Join of a list that is not empty
  abbrev pub join_errors : Error → List Error → Error
  join_errors e [] = e
  join_errors e (f ∷ fs) = joined e (join_errors f fs)

  module _ {T : Type 0} where
    -- The loop's body in `addPlainInternal`, given what `plainInternalPair` returns
    abbrev pub add_entry : ReachConfig T → Result Bytes → ReachConfig T
    add_entry r (err x) = record r { refused_entries = r.refused_entries ++ x ∷ [] }
    add_entry r (ok pair) = record r { plain_internal = pair ∷ r.plain_internal }

    -- `addPlainInternal`
    unfoldable pub add_plain_internal : List Bytes → ReachConfig T → ReachConfig T
    unfolding plain_internal_pair
    add_plain_internal [] r = r
    add_plain_internal (entry ∷ entries) r =
        add_plain_internal entries (add_entry r (plain_internal_pair entry))

    -- `_, listed = r.plainInternal[pair]`
    abbrev pub is_listed : ReachConfig T → Option Bytes → Bool
    is_listed r none = false
    is_listed r (some pair) = any (equal pair) r.plain_internal

    -- The switch of `client`, for a URL in plaintext to a host other than loopback
    unfoldable pub plain_transport : ReachConfig T → Url → ℕ → Bytes → Result (Transport T)
    unfolding url_pair equal
    plain_transport r u timeout kind =
        if is_listed r (url_pair u)
        then elim r.transport [
          | some t ↦ err (
              errorf
                "base URL %s is listed with With%sAllowPlainInternal, whose address check runs in the endpoint's own transport: it cannot be reached over With%sTransport"
                (text u.redacted ∷ text kind ∷ text kind ∷ []))
          | none ↦ ok (private_transport timeout)
        ]
        else if not r.allow_insecure
        then err (
            errorf
              "base URL %s sends the bearer token in plaintext to a host other than loopback: use https, list its host and port with With%sAllowPlainInternal for a host on a private network, or permit it with With%sAllowInsecure"
              (text u.redacted ∷ text kind ∷ text kind ∷ []))
        else ok (transport_of r.transport)

    -- `client` once no entry is refused and the URL is parsed
    unfoldable pub client_for : ReachConfig T → Url → ℕ → Bytes → Result (Url × Client T)
    unfolding is_loopback plain_transport equal
    client_for r u timeout kind =
        (if equal u.scheme (bytes "http") && not (is_loopback u.hostname)
          then plain_transport r u timeout kind
          else ok (transport_of r.transport))
        >>= λ transport. ok (u, new_http_client timeout transport)

    -- `client`
    unfoldable pub client : ReachConfig T → Bytes → ℕ → Bytes → Result (Url × Client T)
    unfolding parse_base_url client_for
    client r raw timeout kind = elim r.refused_entries [
      | e ∷ es ↦ err (errorf_w "With%sAllowPlainInternal: %w" (text kind ∷ []) (join_errors e es))
      | [] ↦ parse_base_url raw >>= λ u. client_for r u timeout kind
    ]
