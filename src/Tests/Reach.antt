-- ===== src/Tests/Reach.antt =====
-- The theorems on how endpoint/http.go and internal/privatenet reach a backend.
use protobuf_interceptors.Base.{
  ◌<◌, ◌≡◌, inr, refl, Bool, true, false, not, ◌&&◌, ◌||◌, none, some, List, [], ◌∷◌, All,
  if◌then◌else◌,
}
use protobuf_interceptors.Base.Outcomes.{returned}
use protobuf_interceptors.Text.Bytes.{bytes, equal}
use protobuf_interceptors.Core.Errors.{ok}
use protobuf_interceptors.Privatenet.{contains_private, v4, octets}
use protobuf_interceptors.Privatenet.Dial.{Dialer, dial_context}
use protobuf_interceptors.Privatenet.Dial.Attempts.{either_family}
use protobuf_interceptors.Privatenet.Dial.Laws.{Reaches, dial_context_iff}
use protobuf_interceptors.Core.Errors.{sentinel, backend_unavailable, err}
use protobuf_interceptors.Base.{ℕ, suc, ◌↔◌, ◌==◌, all}
use protobuf_interceptors.Endpoint.Headers.Static.{IsKey, MayBeSet}
use protobuf_interceptors.Endpoint.O3co.{O3coEndpoint}
use protobuf_interceptors.Endpoint.Options.{
  O3coOption, o3co_setting, o3co_headers, key_setting, plain_setting, new_o3co_endpoint,
  with_request_id_header_key,
}
use protobuf_interceptors.Endpoint.Options.Laws.{by_key, by_plain, new_o3co_endpoint_lem}
use protobuf_interceptors.Endpoint.Reach.{
  Parsers, Url, ReachConfig, Client, private_transport, transport_of, url_pair, is_listed, client,
  plain_internal_pair, add_plain_internal,
}
use protobuf_interceptors.Endpoint.Reach.Entries.{
  IsPair, add_plain_internal-IsPair, plain_internal_pair-url_pair,
}
use protobuf_interceptors.Endpoint.Reach.Laws.{is_exposed, client_lem}

abbrev pdp_url : Url
pdp_url = record {
  scheme = bytes "http";
  hostname = bytes "pdp";
  port = bytes "8181";
  path = [];
  redacted = bytes "http://pdp:8181";
}

-- Every URL is that of the policy decision point, and every entry its host and port.
abbrev parsers : Parsers
parsers = record {
  trim_space = λ s. s;
  parse_url = λ s. ok pdp_url;
  split_host_port = λ s. ok (bytes "pdp", bytes "8181");
  parse_addr = λ s. none;
  parse_ip = λ s. none;
  addr_string = λ a. [];
  url_string = λ u. bytes "http://pdp:8181/verify";
}

abbrev listed : ReachConfig Bool
listed = record {
  allow_insecure = false;
  plain_internal = bytes "pdp:8181" ∷ [];
  refused_entries = [];
  transport = none;
}

abbrev reached : Client Bool
reached = record { timeout = 5; transport = private_transport 5; follows_redirects = false }

client-is_listed :
    client parsers listed (bytes "http://pdp:8181") 5 (bytes "O3co") ≡ ok (pdp_url, reached)
unfolding client
client-is_listed = refl

client_lem_example :
    (listed.refused_entries ≡ [])
    × ((equal pdp_url.scheme (bytes "http") || equal pdp_url.scheme (bytes "https")) ≡ true)
    × (equal pdp_url.hostname [] ≡ false)
    × (reached.timeout ≡ 5)
    × (reached.follows_redirects ≡ false)
    × (reached.transport ≡ (
        if is_exposed parsers pdp_url && is_listed parsers listed (url_pair parsers pdp_url)
        then private_transport 5
        else transport_of listed.transport))
    × ((not (is_exposed parsers pdp_url)
          || is_listed parsers listed (url_pair parsers pdp_url)
          || listed.allow_insecure)
        ≡ true)
client_lem_example =
    client_lem parsers listed (bytes "http://pdp:8181") 5 (bytes "O3co") pdp_url reached
      client-is_listed

add_plain_internal-IsPair_example :
    All
      (IsPair parsers)
      (add_plain_internal parsers
        (bytes "PDP:8181" ∷ bytes "pdp@x" ∷ [])
        (record listed { plain_internal = [] })).plain_internal
add_plain_internal-IsPair_example =
    add_plain_internal-IsPair parsers (bytes "PDP:8181" ∷ bytes "pdp@x" ∷ [])
      (record listed { plain_internal = [] }) tt

pdp_pair : plain_internal_pair parsers (bytes "pdp:8181") ≡ ok (bytes "pdp:8181")
unfolding plain_internal_pair
pdp_pair = refl

plain_internal_pair-url_pair_example : url_pair parsers pdp_url ≡ some (bytes "pdp:8181")
plain_internal_pair-url_pair_example =
    plain_internal_pair-url_pair parsers (bytes "pdp:8181") (bytes "pdp:8181") pdp_url pdp_pair refl

abbrev options : List (O3coOption Bool)
options =
    o3co_setting (key_setting (bytes "x-trace-id"))
    ∷ o3co_headers ((bytes "x-caller-token", bytes "c") ∷ [])
    ∷ o3co_setting (plain_setting (bytes "pdp:8181" ∷ []))
    ∷ []

abbrev constructed : O3coEndpoint
constructed = record {
  verify_url = bytes "http://pdp:8181/verify";
  max_response_body_size = 1048576;
  request_id_header_key = bytes "x-trace-id";
  headers = (bytes "X-Caller-Token", bytes "c" ∷ []) ∷ [];
  require_confirmed_revision = false;
}

abbrev default_client : Client Bool
default_client = record {
  timeout = 10000000000;
  transport = private_transport 10000000000;
  follows_redirects = false;
}

key_taken :
    with_request_id_header_key {T = Bool} (bytes "x-trace-id")
    ≡ returned (key_setting (bytes "x-trace-id"))
unfolding with_request_id_header_key
key_taken = refl

endpoint_constructed :
    new_o3co_endpoint parsers (bytes "http://pdp:8181") options ≡ ok (constructed, default_client)
unfolding new_o3co_endpoint
endpoint_constructed = refl

new_o3co_endpoint_lem_example :
    (0 < constructed.max_response_body_size)
    × (0 < default_client.timeout)
    × IsKey constructed.request_id_header_key
    × All (MayBeSet constructed.request_id_header_key) constructed.headers
new_o3co_endpoint_lem_example =
    new_o3co_endpoint_lem parsers (bytes "http://pdp:8181") options constructed default_client
      (
        by_key (bytes "x-trace-id") (key_setting (bytes "x-trace-id")) key_taken,
        (by_plain (bytes "pdp:8181" ∷ []), tt),
      )
      endpoint_constructed

-- A dialer of a host with two addresses, of which the first does not answer
abbrev dialer : Dialer ℕ Bool
dialer = record {
  split_host_port = λ address. ok (bytes "pdp", bytes "8181");
  parse_addr = λ host. none;
  addr_string = λ a. bytes "10.0.0.1";
  join_host_port = λ host port. host;
  lookup_net_ip = λ network host s. (ok (v4 (octets 10 0 0 1) ∷ v4 (octets 10 0 0 2) ∷ []), s);
  dial = λ timeout network address s.
      ((if s == 0 then err (sentinel backend_unavailable) else ok true), suc s);
  time_left = λ s. some 30000000000;
  ended = λ s. false;
}

dial_context_iff_example :
    (dial_context dialer (bytes "tcp") (bytes "pdp:8181") 0 ≡ (ok true, 2)) ↔ (
      (all contains_private (v4 (octets 10 0 0 1) ∷ v4 (octets 10 0 0 2) ∷ []) ≡ true)
      × Reaches dialer
          (bytes "tcp")
          (bytes "8181")
          (v4 (octets 10 0 0 1))
          (v4 (octets 10 0 0 2) ∷ [])
          0
          true
          2)
dial_context_iff_example =
    dial_context_iff dialer (bytes "tcp") (bytes "pdp:8181") (bytes "pdp") (bytes "8181")
      (v4 (octets 10 0 0 1)) (v4 (octets 10 0 0 2) ∷ []) 0 0 true 2 refl
      (inr (
        refl,
        bytes "ip",
        either_family (bytes "tcp") (λ h. cc) (λ h. cc) (λ h. cc) (λ h. cc),
        refl,
      ))
