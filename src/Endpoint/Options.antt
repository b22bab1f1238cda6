-- ===== src/Endpoint/Options.antt =====
-- endpoint/o3co.go, opa.go and cedar.go: the options of an endpoint, and its construction from them
-- and a base URL. An option's function may panic; what it returns is applied in turn.
pub mod Laws
use protobuf_interceptors.Base.{
  ℕ, suc, ◌*◌, Bool, true, false, Option, none, some, List, [], ◌∷◌, ◌++◌, if◌then◌else◌, ◌==◌,
}
use protobuf_interceptors.Base.Outcomes.{Outcome, returned, panicked, Call}
use protobuf_interceptors.Text.Bytes.{Bytes, bytes, equal, trim_suffix_byte}
use protobuf_interceptors.Text.Numbers.{ℤ, pos, negsuc}
use protobuf_interceptors.Core.Context.{Context}
use protobuf_interceptors.Core.Errors.{Error, Result, err, ok, ◌>>=◌, errorf}
use protobuf_interceptors.Endpoint.Asking.{Asker}
use protobuf_interceptors.Endpoint.Cedar.{CedarEndpoint}
use protobuf_interceptors.Endpoint.Headers.{Header, header_set, validate_static_headers}
use protobuf_interceptors.Endpoint.Http.{must_be_request_id_header_key}
use protobuf_interceptors.Endpoint.O3co.{O3coEndpoint}
use protobuf_interceptors.Endpoint.Reach.{
  Parsers, Url, ReachConfig, Client, client, add_plain_internal,
}

-- What the three build configurations share, less the logger.
pub record Settings (T : Type 0) : Type 0 where
  pub timeout : ℕ
  pub max_response_body_size : ℕ
  pub request_id_header_key : Bytes
  pub reach : ReachConfig T

-- The defaults: ten seconds in nanoseconds, and a mebibyte.
abbrev pub default_settings : {T : Type 0} → Settings T
default_settings = record {
  timeout = 10 * 1000000000;
  max_response_body_size = 1048576;
  request_id_header_key = bytes "x-request-id";
  reach = record {
    allow_insecure = false;
    plain_internal = [];
    refused_entries = [];
    transport = none;
  };
}

-- What the options that the three have in common do, each under its endpoint's prefix.
pub data Setting (T : Type 0) : Type 0 where
  timeout_setting size_setting : ℕ → Setting T
  key_setting : Bytes → Setting T
  transport_setting : T → Setting T
  insecure_setting : Setting T
  plain_setting : List Bytes → Setting T

-- `WithO3coTimeout`, of nanoseconds
unfoldable pub with_timeout : {T : Type 0} → ℤ → Outcome (Setting T)
with_timeout (pos (suc n)) = returned (timeout_setting (suc n))
with_timeout _ = panicked

-- `WithO3coMaxResponseBodySize`
unfoldable pub with_max_response_body_size : {T : Type 0} → ℤ → Outcome (Setting T)
with_max_response_body_size (pos (suc n)) = returned (size_setting (suc n))
with_max_response_body_size _ = panicked

-- `WithO3coRequestIDHeaderKey`
unfoldable pub with_request_id_header_key : {T : Type 0} → Bytes → Outcome (Setting T)
unfolding must_be_request_id_header_key
with_request_id_header_key key = elim (must_be_request_id_header_key key) [
  | returned _ ↦ returned (key_setting key)
  | panicked ↦ panicked
]

-- `WithO3coTransport`; nil is `none`.
unfoldable pub with_transport : {T : Type 0} → Option T → Outcome (Setting T)
with_transport none = panicked
with_transport (some t) = returned (transport_setting t)

-- The functions that the options return, on what the configurations share
unfoldable pub apply_setting : {T : Type 0} → Parsers → Setting T → Settings T → Settings T
unfolding add_plain_internal
apply_setting lib (timeout_setting n) s = record s { timeout = n }
apply_setting lib (size_setting n) s = record s { max_response_body_size = n }
apply_setting lib (key_setting key) s = record s { request_id_header_key = key }
apply_setting lib (transport_setting t) s = record s {
  reach = record (s.reach) { transport = some t };
}
apply_setting lib insecure_setting s = record s {
  reach = record (s.reach) { allow_insecure = true };
}
apply_setting lib (plain_setting entries) s = record s {
  reach = add_plain_internal lib entries s.reach;
}

unfoldable pub apply_settings : {T : Type 0} → Parsers → List (Setting T) → Settings T → Settings T
unfolding apply_setting
apply_settings lib [] s = s
apply_settings lib (o ∷ os) s = apply_settings lib os (apply_setting lib o s)

-- `O3coOption`: a shared one, `WithO3coHeaders` or `WithO3coRequireConfirmedRevision`.
pub data O3coOption (T : Type 0) : Type 0 where
  o3co_setting : Setting T → O3coOption T
  o3co_headers : List (Bytes × Bytes) → O3coOption T
  o3co_require_confirmed_revision : O3coOption T

-- `o3coBuildConfig`
pub record O3coConfig (T : Type 0) : Type 0 where
  pub settings : Settings T
  pub headers : Header
  pub require_confirmed_revision : Bool

unfoldable pub set_headers : List (Bytes × Bytes) → Header → Header
unfolding header_set
set_headers [] h = h
set_headers ((k, v) ∷ kvs) h = set_headers kvs (header_set k v h)

unfoldable pub apply_o3co :
    {T : Type 0} → Parsers → List (O3coOption T) → O3coConfig T → O3coConfig T
unfolding apply_setting set_headers
apply_o3co lib [] c = c
apply_o3co lib (o3co_setting o ∷ os) c =
    apply_o3co lib os (record c { settings = apply_setting lib o c.settings })
apply_o3co lib (o3co_headers kvs ∷ os) c =
    apply_o3co lib os (record c { headers = set_headers kvs c.headers })
apply_o3co lib (o3co_require_confirmed_revision ∷ os) c =
    apply_o3co lib os (record c { require_confirmed_revision = true })

abbrev pub default_o3co : {T : Type 0} → O3coConfig T
default_o3co = record {
  settings = default_settings;
  headers = [];
  require_confirmed_revision = false;
}

-- `base.Path = strings.TrimSuffix(base.Path, "/") + "…"` and `base.String()`
abbrev pub extended_url : Parsers → Url → Bytes → Bytes
extended_url lib base suffix =
    lib.url_string (record base { path = trim_suffix_byte b'/' base.path ++ suffix })

abbrev pub nil_to_ok : Option Error → Result (Unit {0})
nil_to_ok none = ok tt
nil_to_ok (some e) = err e

-- `NewO3coEndpoint` once its options are applied
unfoldable pub make_o3co :
    {T : Type 0} → Parsers → Bytes → O3coConfig T → Result (O3coEndpoint × Client T)
unfolding client validate_static_headers trim_suffix_byte
make_o3co lib base_url c =
    client lib c.settings.reach base_url c.settings.timeout (bytes "O3co") >>= λ made.
    nil_to_ok (validate_static_headers c.headers c.settings.request_id_header_key) >>= λ _. ok (
      record {
        verify_url = extended_url lib made.0 (bytes "/verify");
        max_response_body_size = c.settings.max_response_body_size;
        request_id_header_key = c.settings.request_id_header_key;
        headers = c.headers;
        require_confirmed_revision = c.require_confirmed_revision;
      },
      made.1,
    )

-- `NewO3coEndpoint`
unfoldable pub new_o3co_endpoint :
    {T : Type 0} → Parsers → Bytes → List (O3coOption T) → Result (O3coEndpoint × Client T)
unfolding make_o3co apply_o3co
new_o3co_endpoint lib base_url opts = make_o3co lib base_url (apply_o3co lib opts default_o3co)

-- strings.TrimPrefix of one slash
abbrev pub trim_slash : Bytes → Bytes
trim_slash [] = []
trim_slash (c ∷ s) = if c == b'/' then s else c ∷ s

abbrev pub asker_of : {T : Type 0} → Settings T → Bytes → Asker
asker_of s url = record {
  url = url;
  max_response_body_size = s.max_response_body_size;
  request_id_header_key = s.request_id_header_key;
}

-- `NewOPAEndpoint`
unfoldable pub new_opa_endpoint :
    {T : Type 0} → Parsers → Bytes → Bytes → List (Setting T) → Result (Asker × Client T)
unfolding client apply_settings trim_suffix_byte
new_opa_endpoint lib base_url policy_path opts = elim (lib.trim_space policy_path) [
  | [] ↦ err (errorf "policyPath must not be empty" [])
  | c ∷ path ↦
      let s = apply_settings lib opts default_settings in
      client lib s.reach base_url s.timeout (bytes "OPA") >>= λ made.
      ok (asker_of s (extended_url lib made.0 (bytes "/v1/data/" ++ trim_slash (c ∷ path))), made.1)
]

-- `CedarOption`: a shared one, one of the three prefixes, or `WithCedarPrincipalResolver`.
pub data CedarOption (S T : Type 0) : Type 0 where
  cedar_setting : Setting T → CedarOption S T
  principal_prefix_option action_prefix_option resource_prefix_option : Bytes → CedarOption S T
  resolver_option : (Context → Bytes → Call S (Result Bytes)) → CedarOption S T

-- `cedarBuildConfig`
pub record CedarConfig (S T : Type 0) : Type 0 where
  pub settings : Settings T
  pub principal_prefix : Bytes
  pub action_prefix : Bytes
  pub resource_prefix : Bytes
  pub principal_resolver : Option (Context → Bytes → Call S (Result Bytes))

abbrev pub default_cedar : {S T : Type 0} → CedarConfig S T
default_cedar = record {
  settings = default_settings;
  principal_prefix = bytes "User";
  action_prefix = bytes "Action";
  resource_prefix = bytes "Resource";
  principal_resolver = none;
}

unfoldable pub apply_cedar :
    {S T : Type 0} → Parsers → List (CedarOption S T) → CedarConfig S T → CedarConfig S T
unfolding apply_setting
apply_cedar lib [] c = c
apply_cedar lib (cedar_setting o ∷ os) c =
    apply_cedar lib os (record c { settings = apply_setting lib o c.settings })
apply_cedar lib (principal_prefix_option p ∷ os) c =
    apply_cedar lib os (record c { principal_prefix = p })
apply_cedar lib (action_prefix_option p ∷ os) c =
    apply_cedar lib os (record c { action_prefix = p })
apply_cedar lib (resource_prefix_option p ∷ os) c =
    apply_cedar lib os (record c { resource_prefix = p })
apply_cedar lib (resolver_option fn ∷ os) c =
    apply_cedar lib os (record c { principal_resolver = some fn })

-- `NewCedarEndpoint` once its options are applied
unfoldable pub make_cedar :
    {S T : Type 0} → Parsers → Bytes → CedarConfig S T → Result (CedarEndpoint S × Client T)
unfolding client trim_suffix_byte
make_cedar lib base_url c = elim c.principal_resolver [
  | none ↦ err (
      errorf
        "a principal resolver is required: WithCedarPrincipalResolver authenticates the bearer token and names the principal"
        [])
  | some fn ↦ client lib c.settings.reach base_url c.settings.timeout (bytes "Cedar") >>= λ made.
      ok (
        record {
          asker = asker_of c.settings (extended_url lib made.0 (bytes "/v1/is_authorized"));
          principal_prefix = c.principal_prefix;
          action_prefix = c.action_prefix;
          resource_prefix = c.resource_prefix;
          principal_resolver = fn;
        },
        made.1,
      )
]

-- `NewCedarEndpoint`
unfoldable pub new_cedar_endpoint :
    {S T : Type 0} → Parsers → Bytes → List (CedarOption S T) → Result (CedarEndpoint S × Client T)
unfolding make_cedar apply_cedar
new_cedar_endpoint lib base_url opts = make_cedar lib base_url (apply_cedar lib opts default_cedar)
