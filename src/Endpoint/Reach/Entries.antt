-- ===== src/Endpoint/Reach/Entries.antt =====
-- endpoint/http.go: the pairs that a configuration lists.
use protobuf_interceptors.Base.{
  ◌≡◌, ◌⊎◌, inl, inr, refl, ap, ◌∙◌, Bool, true, false, Option, none, some, List, [], ◌∷◌, All,
  arith,
}
use protobuf_interceptors.Text.Bytes.{Bytes, trim_suffix_byte}
use protobuf_interceptors.Core.Errors.{Result, err, ok}
use protobuf_interceptors.Endpoint.Hosts.{valid_port, ascii_lower, valid_host_name}
use protobuf_interceptors.Endpoint.Reach.{
  Parsers, Url, ReachConfig, names_url, host_name, join_host_port, plain_internal_pair, url_pair,
  port_or_80, add_entry, add_plain_internal,
}
use protobuf_interceptors.Privatenet.{Addr, unmap, contains_private}

-- A pair that can be reached: a port from 1 to 65535, and a host that is an address on a private
-- network or a host name.
abbrev pub IsPair : Parsers → Bytes → Type 0
IsPair lib pair =
    (host : Bytes) × (port : Bytes) × (pair ≡ join_host_port host port)
    × (valid_port port ≡ true)
    × (((addr : Addr) × (host ≡ lib.addr_string (unmap addr)) × (contains_private addr ≡ true))
        ⊎ (valid_host_name host ≡ true))

module _ (lib : Parsers) where
  host_name-valid :
      (host name : Bytes) → host_name lib host ≡ some name → valid_host_name name ≡ true
  host_name-valid host name h = go (ascii_lower (trim_suffix_byte b'.' host)) refl
    where
      go :
          (o : Option Bytes)
          → ascii_lower (trim_suffix_byte b'.' host) ≡ o
          → valid_host_name name ≡ true
      go none e = cc
      go (some n) e = ground arith

  -- The host and port of an entry that is taken, and the pair that they spell.
  abbrev Spelled : Bytes → Bytes → Bytes → Type 0
  Spelled pair host port =
      ((addr : Addr) × (lib.parse_addr host ≡ some addr)
        × (contains_private addr ≡ true)
        × (pair ≡ join_host_port (lib.addr_string (unmap addr)) port))
      ⊎ ((name : Bytes) × (lib.parse_addr host ≡ none)
          × (host_name lib host ≡ some name)
          × (pair ≡ join_host_port name port))

  plain_internal_pair_cases :
      (entry pair : Bytes)
      → plain_internal_pair lib entry ≡ ok pair
      → (host : Bytes) × (port : Bytes) × (lib.split_host_port entry ≡ ok (host, port))
        × (valid_port port ≡ true)
        × Spelled pair host port
  unfolding plain_internal_pair
  plain_internal_pair_cases entry pair h =
      go (names_url entry) refl (lib.split_host_port entry) refl
    where
      name_case :
          (host port : Bytes)
          → names_url entry ≡ false
          → lib.split_host_port entry ≡ ok (host, port)
          → valid_port port ≡ true
          → lib.parse_addr host ≡ none
          → (o : Option Bytes) → host_name lib host ≡ o
          → Spelled pair host port
      name_case host port en es ep ea none e = cc
      name_case host port en es ep ea (some name) e = inr (name, ea, e, ground arith)

      addr_case :
          (host port : Bytes)
          → names_url entry ≡ false
          → lib.split_host_port entry ≡ ok (host, port)
          → valid_port port ≡ true
          → (a : Option Addr) → lib.parse_addr host ≡ a
          → (b : Bool) → (elim a [ none ↦ true | some addr ↦ contains_private addr ]) ≡ b
          → Spelled pair host port
      addr_case host port en es ep none ea b eb =
          name_case host port en es ep ea (host_name lib host) refl
      addr_case host port en es ep (some addr) ea true eb = inl (addr, ea, eb, ground arith)
      addr_case host port en es ep (some addr) ea false eb = cc

      port_case :
          (host port : Bytes)
          → names_url entry ≡ false
          → lib.split_host_port entry ≡ ok (host, port)
          → (b : Bool) → valid_port port ≡ b
          → (host : Bytes) × (port : Bytes) × (lib.split_host_port entry ≡ ok (host, port))
            × (valid_port port ≡ true)
            × Spelled pair host port
      port_case host port en es true ep =
          (host, port, es, ep, addr_case host port en es ep (lib.parse_addr host) refl _ refl)
      port_case host port en es false ep = cc

      go :
          (n : Bool)
          → names_url entry ≡ n
          → (s : Result (Bytes × Bytes)) → lib.split_host_port entry ≡ s
          → (host : Bytes) × (port : Bytes) × (lib.split_host_port entry ≡ ok (host, port))
            × (valid_port port ≡ true)
            × Spelled pair host port
      go true en s es = cc
      go false en (err x) es = cc
      go false en (ok (host, port)) es = port_case host port en es (valid_port port) refl

  plain_internal_pair-IsPair :
      (entry pair : Bytes) → plain_internal_pair lib entry ≡ ok pair → IsPair lib pair
  plain_internal_pair-IsPair entry pair h =
      let (host, port, es, ep, spelled) = plain_internal_pair_cases entry pair h in
      elim spelled [
        | inl (addr, ea, hc, e) ↦ (lib.addr_string (unmap addr), port, e, ep, inl (addr, refl, hc))
        | inr (name, ea, en, e) ↦ (name, port, e, ep, inr (host_name-valid host name en))
      ]

  add_entry-IsPair :
      {T : Type 0} (entry : Bytes) (r : ReachConfig T) (o : Result Bytes)
      → plain_internal_pair lib entry ≡ o
      → All (IsPair lib) r.plain_internal
      → All (IsPair lib) (add_entry lib r o).plain_internal
  add_entry-IsPair entry r (err x) e h = h
  add_entry-IsPair entry r (ok pair) e h = (plain_internal_pair-IsPair entry pair e, h)

  -- Every pair that a configuration lists is a port from 1 to 65535 with an address on a private
  -- network or a host name, once entries are added to a configuration of which that holds, whatever
  -- the entries are.
  pub add_plain_internal-IsPair :
      {T : Type 0} (entries : List Bytes) (r : ReachConfig T)
      → All (IsPair lib) r.plain_internal
      → All (IsPair lib) (add_plain_internal lib entries r).plain_internal
  unfolding add_plain_internal
  add_plain_internal-IsPair [] r h = h
  add_plain_internal-IsPair (entry ∷ entries) r h =
      add_plain_internal-IsPair entries (add_entry lib r (plain_internal_pair lib entry))
        (add_entry-IsPair entry r (plain_internal_pair lib entry) refl h)

  port_present : (port : Bytes) → valid_port port ≡ true → port_or_80 lib port ≡ port
  unfolding valid_port
  port_present [] h = cc
  port_present (c ∷ port) h = refl

  url_pair_address :
      (u : Url) (addr : Addr) (pair port : Bytes)
      → lib.parse_addr u.hostname ≡ some addr
      → contains_private addr ≡ true
      → port_or_80 lib u.port ≡ port
      → pair ≡ join_host_port (lib.addr_string (unmap addr)) port
      → url_pair lib u ≡ some pair
  unfolding url_pair
  url_pair_address u addr pair port ea hc hp e = rw (url_pair, ea, hc, hp, e)

  url_pair_name :
      (u : Url) (name pair port : Bytes)
      → lib.parse_addr u.hostname ≡ none
      → host_name lib u.hostname ≡ some name
      → port_or_80 lib u.port ≡ port
      → pair ≡ join_host_port name port
      → url_pair lib u ≡ some pair
  unfolding url_pair
  url_pair_name u name pair port ea en hp e = rw (url_pair, ea, en, hp, e)

  -- A base URL whose host and port are those of an entry that is taken is spelled as the entry's pair,
  -- so the entry lists it.
  pub plain_internal_pair-url_pair :
      (entry pair : Bytes) (u : Url)
      → plain_internal_pair lib entry ≡ ok pair
      → lib.split_host_port entry ≡ ok (u.hostname, u.port)
      → url_pair lib u ≡ some pair
  plain_internal_pair-url_pair entry pair u h hs =
      let (host, port, es, ep, spelled) = plain_internal_pair_cases entry pair h in
      let same_host : u.hostname ≡ host = cc (hs, es) in
      let same_port : port_or_80 lib u.port ≡ port =
        ap (port_or_80 lib) (cc (hs, es)) ∙ port_present port ep in
      elim spelled [
        | inl (addr, ea, hc, e) ↦
            url_pair_address u addr pair port (ap lib.parse_addr same_host ∙ ea) hc same_port e
        | inr (name, ea, en, e) ↦
            url_pair_name u name pair port (ap lib.parse_addr same_host ∙ ea)
              (ap (host_name lib) same_host ∙ en) same_port e
      ]
