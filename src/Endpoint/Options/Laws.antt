-- ===== src/Endpoint/Options/Laws.antt =====
-- endpoint/o3co.go, opa.go and cedar.go: what an endpoint that was constructed is.
use protobuf_interceptors.Base.{
  zero, suc, ◌<◌, ◌≡◌, refl, ap, subst, sym, ◌∙◌, true, Option, none, some, List, [], ◌∷◌, All,
  arith,
}
use protobuf_interceptors.Base.Outcomes.{Outcome, returned, panicked}
use protobuf_interceptors.Text.Bytes.{Bytes, bytes}
use protobuf_interceptors.Text.Numbers.{ℤ, pos, negsuc}
use protobuf_interceptors.Core.Errors.{Error, Result, ok, >>=-eq-ok}
use protobuf_interceptors.Endpoint.Headers.{validate_static_headers}
use protobuf_interceptors.Endpoint.Headers.Static.{
  IsKey, MayBeSet, validate_static_headers-MayBeSet, must_be_request_id_header_key-IsKey,
  must_be_request_id_header_key-all,
}
use protobuf_interceptors.Endpoint.Http.{must_be_request_id_header_key}
use protobuf_interceptors.Endpoint.O3co.{O3coEndpoint}
use protobuf_interceptors.Endpoint.Options.{
  Setting, timeout_setting, size_setting, key_setting, transport_setting, insecure_setting,
  plain_setting, Settings, apply_setting, O3coOption, o3co_setting, o3co_headers,
  o3co_require_confirmed_revision, O3coConfig, apply_o3co, default_o3co, set_headers, make_o3co,
  new_o3co_endpoint, extended_url, nil_to_ok, with_timeout, with_max_response_body_size,
  with_request_id_header_key, with_transport,
}
use protobuf_interceptors.Endpoint.Reach.{Parsers, Url, Client, client}
use protobuf_interceptors.Endpoint.Reach.Laws.{client_lem}

-- A setting that the endpoints work with
abbrev IsMade : {T : Type 0} → Setting T → Type 0
IsMade (timeout_setting n) = 0 < n
IsMade (size_setting n) = 0 < n
IsMade (key_setting key) = must_be_request_id_header_key key ≡ returned tt
IsMade (transport_setting t) = Unit
IsMade insecure_setting = Unit
IsMade (plain_setting entries) = Unit

with_timeout-IsMade : {T : Type 0} (d : ℤ) (o : Setting T) → with_timeout d ≡ returned o → IsMade o
unfolding with_timeout
with_timeout-IsMade (pos zero) o h = cc
with_timeout-IsMade (pos (suc n)) o h = ground arith
with_timeout-IsMade (negsuc n) o h = cc

with_max_response_body_size-IsMade :
    {T : Type 0} (size : ℤ) (o : Setting T)
    → with_max_response_body_size size ≡ returned o
    → IsMade o
unfolding with_max_response_body_size
with_max_response_body_size-IsMade (pos zero) o h = cc
with_max_response_body_size-IsMade (pos (suc n)) o h = ground arith
with_max_response_body_size-IsMade (negsuc n) o h = cc

with_request_id_header_key_lem :
    {T : Type 0} (key : Bytes) (o : Setting T)
    → with_request_id_header_key key ≡ returned o
    → (key_setting key ≡ o) × IsMade {T = T} (key_setting key)
unfolding with_request_id_header_key
with_request_id_header_key_lem key o h = go (must_be_request_id_header_key key) refl
  where
    go :
        (r : Outcome (Unit {0}))
        → must_be_request_id_header_key key ≡ r
        → (key_setting key ≡ o) × (must_be_request_id_header_key key ≡ returned tt)
    go (returned tt) e = (cc, e)
    go panicked e = cc

with_transport-IsMade :
    {T : Type 0} (t : Option T) (o : Setting T) → with_transport t ≡ returned o → IsMade o
unfolding with_transport
with_transport-IsMade none o h = cc
with_transport-IsMade (some t) o h = ground arith

-- A setting that one of the option functions returned, whatever it was called with
pub data IsReturned {T : Type 0} : Setting T → Type 0 where
  by_timeout : (d : ℤ) (o : Setting T) → with_timeout d ≡ returned o → IsReturned o
  by_size : (n : ℤ) (o : Setting T) → with_max_response_body_size n ≡ returned o → IsReturned o
  by_key :
      (key : Bytes) (o : Setting T) → with_request_id_header_key key ≡ returned o → IsReturned o
  by_transport : (t : Option T) (o : Setting T) → with_transport t ≡ returned o → IsReturned o
  by_insecure : IsReturned insecure_setting
  by_plain : (entries : List Bytes) → IsReturned (plain_setting entries)

IsReturned-IsMade : {T : Type 0} (o : Setting T) → IsReturned o → IsMade o
IsReturned-IsMade _ (by_timeout d o h) = with_timeout-IsMade d o h
IsReturned-IsMade _ (by_size n o h) = with_max_response_body_size-IsMade n o h
IsReturned-IsMade _ (by_key key o h) =
    let (same, made) = with_request_id_header_key_lem key o h in subst (λ o'. IsMade o') same made
IsReturned-IsMade _ (by_transport t o h) = with_transport-IsMade t o h
IsReturned-IsMade _ by_insecure = tt
IsReturned-IsMade _ (by_plain entries) = tt

-- Options whose functions returned: those that the endpoints share, and the two that take anything
abbrev pub AreReturned : {T : Type 0} → List (O3coOption T) → Type 0
AreReturned [] = Unit
AreReturned (o3co_setting o ∷ os) = IsReturned o × AreReturned os
AreReturned (o3co_headers kvs ∷ os) = AreReturned os
AreReturned (o3co_require_confirmed_revision ∷ os) = AreReturned os

-- Settings that the endpoints work with
abbrev SettingsFit : {T : Type 0} → Settings T → Type 0
SettingsFit s =
    (0 < s.timeout)
    × (0 < s.max_response_body_size)
    × (must_be_request_id_header_key s.request_id_header_key ≡ returned tt)

apply_setting-SettingsFit :
    {T : Type 0} (lib : Parsers) (o : Setting T) (s : Settings T)
    → IsMade o
    → SettingsFit s
    → SettingsFit (apply_setting lib o s)
unfolding apply_setting
apply_setting-SettingsFit lib (timeout_setting n) s ho hs = (ho, hs.1, hs.2)
apply_setting-SettingsFit lib (size_setting n) s ho hs = (hs.0, ho, hs.2)
apply_setting-SettingsFit lib (key_setting key) s ho hs = (hs.0, hs.1, ho)
apply_setting-SettingsFit lib (transport_setting t) s ho hs = hs
apply_setting-SettingsFit lib insecure_setting s ho hs = hs
apply_setting-SettingsFit lib (plain_setting entries) s ho hs = hs

apply_o3co-SettingsFit :
    {T : Type 0} (lib : Parsers) (os : List (O3coOption T)) (c : O3coConfig T)
    → AreReturned os
    → SettingsFit c.settings
    → SettingsFit (apply_o3co lib os c).settings
unfolding apply_o3co
apply_o3co-SettingsFit lib [] c ho hs = hs
apply_o3co-SettingsFit lib (o3co_setting o ∷ os) c ho hs =
    apply_o3co-SettingsFit lib os (record c { settings = apply_setting lib o c.settings }) ho.1
      (apply_setting-SettingsFit lib o c.settings (IsReturned-IsMade o ho.0) hs)
apply_o3co-SettingsFit lib (o3co_headers kvs ∷ os) c ho hs =
    apply_o3co-SettingsFit lib os (record c { headers = set_headers kvs c.headers }) ho hs
apply_o3co-SettingsFit lib (o3co_require_confirmed_revision ∷ os) c ho hs =
    apply_o3co-SettingsFit lib os (record c { require_confirmed_revision = true }) ho hs

nil_to_ok_lem : (e : Option Error) (v : Unit {0}) → nil_to_ok e ≡ ok v → e ≡ none
nil_to_ok_lem none v h = refl
nil_to_ok_lem (some x) v h = cc

ok_pair :
    {A B : Type 0} (a a' : A) (b b' : B)
    → ◌≡◌ {A = Result (A × B)} (ok (a, b)) (ok (a', b'))
    → (a ≡ a') × (b ≡ b')
ok_pair a a' b b' h = (cc h, cc h)

-- What `NewO3coEndpoint` returns with no error, of its configuration.
make_o3co_ok :
    {T : Type 0} (lib : Parsers) (base_url : Bytes) (c : O3coConfig T) (e : O3coEndpoint)
    (made : Client T)
    → make_o3co lib base_url c ≡ ok (e, made)
    → (u : Url) × (client lib c.settings.reach base_url c.settings.timeout (bytes "O3co")
        ≡ ok (u, made))
      × (validate_static_headers e.headers e.request_id_header_key ≡ none)
      × (e.request_id_header_key ≡ c.settings.request_id_header_key)
      × (e.max_response_body_size ≡ c.settings.max_response_body_size)
      × (e.verify_url ≡ extended_url lib u (bytes "/verify"))
unfolding make_o3co
make_o3co_ok lib base_url c e made h =
    let ((u, made'), hc, next) =
      >>=-eq-ok (client lib c.settings.reach base_url c.settings.timeout (bytes "O3co")) _ h in
    let (v, hv, last) =
      >>=-eq-ok (nil_to_ok (validate_static_headers c.headers c.settings.request_id_header_key)) _
        next in
    let none_of =
      nil_to_ok_lem (validate_static_headers c.headers c.settings.request_id_header_key) v hv in
    let (same, same_made) = ok_pair _ _ _ _ last in
    (
      u,
      hc ∙ ap (λ m. ok (u, m)) same_made,
      ap (λ x. validate_static_headers x.headers x.request_id_header_key) (sym same) ∙ none_of,
      ap (λ x. x.request_id_header_key) (sym same),
      ap (λ x. x.max_response_body_size) (sym same),
      ap (λ x. x.verify_url) (sym same),
    )

-- From options that their functions returned, whatever these were called with, an endpoint is made, if
-- one is, only with a size bound and a client's timeout above zero, with a request-ID key that is empty
-- or a token and not Content-Type, Accept or Authorization in any case, and with static headers whose
-- names are tokens, none of them those three or the request-ID key in any case, and whose values hold no
-- carriage return, line feed or NUL.
pub new_o3co_endpoint_lem :
    {T : Type 0} (lib : Parsers) (base_url : Bytes) (opts : List (O3coOption T)) (e : O3coEndpoint)
    (made : Client T)
    → AreReturned opts
    → new_o3co_endpoint lib base_url opts ≡ ok (e, made)
    → (0 < e.max_response_body_size)
      × (0 < made.timeout)
      × IsKey e.request_id_header_key
      × All (MayBeSet e.request_id_header_key) e.headers
unfolding new_o3co_endpoint must_be_request_id_header_key
new_o3co_endpoint_lem lib base_url opts e made ho h =
    let c = apply_o3co lib opts default_o3co in
    let (ht, hm, hk) =
      apply_o3co-SettingsFit lib opts default_o3co ho (ground arith, ground arith, refl) in
    let (u, hc, hv, key, size, url) = make_o3co_ok lib base_url c e made h in
    let (_, _, _, timeout, _, _, _) =
      client_lem lib c.settings.reach base_url c.settings.timeout (bytes "O3co") u made hc in
    let taken = ap must_be_request_id_header_key key ∙ hk in
    (
      omega (arith, size, hm),
      omega (arith, timeout, ht),
      must_be_request_id_header_key-IsKey e.request_id_header_key taken,
      validate_static_headers-MayBeSet e.request_id_header_key e.headers
          (must_be_request_id_header_key-all e.request_id_header_key taken) hv,
    )
