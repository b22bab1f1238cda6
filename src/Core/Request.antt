-- ===== src/Core/Request.antt =====
-- request.go: the request ID and the bearer token of an inbound request. The generated ID depends
-- on the clock and on crypto/rand: their answers are arguments.
pub mod Inbound
use protobuf_interceptors.Base.{
  ℕ, Bool, true, false, not, ◌&&◌, ◌||◌, List, [], ◌∷◌, ◌++◌, leb, between, ◌==◌, if◌then◌else◌,
  length, any, all,
}
use protobuf_interceptors.Text.Bytes.{Bytes, bytes, cut, trim_left}
use protobuf_interceptors.Text.Runes.{runes, is_space, equal_fold}
use protobuf_interceptors.Text.Numbers.{hex}
use protobuf_interceptors.Core.Errors.{Error, unauthenticated_error, Result, ok, err}

abbrev pub request_id_max_length : ℕ
request_id_max_length = 128

-- [A-Za-z0-9\-_.:+/=#]
abbrev pub request_id_char : ℕ → Bool
request_id_char c =
    between b'A' b'Z' c
    || between b'a' b'z' c
    || between b'0' b'9' c
    || c == b'-'
    || c == b'_'
    || c == b'.'
    || c == b':'
    || c == b'+'
    || c == b'/'
    || c == b'='
    || c == b'#'

-- `requestIDRE`: one or more of these characters and nothing else
unfoldable pub matches_request_id : Bytes → Bool
matches_request_id [] = false
matches_request_id (c ∷ cs) = all request_id_char (c ∷ cs)

-- `requestIDAt`: the UTC second in fourteen digits, and the eight bytes read from crypto/rand
unfoldable pub request_id_at : Bytes → Bytes → Bytes
unfolding hex
request_id_at second suffix = second ++ b'_' ∷ hex suffix

-- `InboundRequestID`
unfoldable pub inbound_request_id : Bytes → Bytes → List Bytes → Bytes
unfolding request_id_at matches_request_id
inbound_request_id second suffix (id ∷ []) =
    if leb (length id) request_id_max_length && matches_request_id id
    then id
    else request_id_at second suffix
inbound_request_id second suffix _ = request_id_at second suffix

abbrev is_empty : Bytes → Bool
is_empty [] = true
is_empty (_ ∷ _) = false

abbrev pub not_one_credential : Error
not_one_credential =
    unauthenticated_error (bytes "authorization is not exactly one bearer credential")

-- The test that the one value sent has to pass, on what strings.Cut returned.
unfoldable pub bearer_of : Bytes → Bytes → Bool → Result Bytes
unfolding equal_fold is_space runes
bearer_of scheme token found =
    if found
      && equal_fold scheme (bytes "Bearer")
      && not (is_empty token)
      && not (any is_space (runes token))
    then ok token
    else err not_one_credential

-- `InboundBearerToken`; the empty token of a request that carried none is `ok []`.
unfoldable pub inbound_bearer_token : List Bytes → Result Bytes
unfolding bearer_of cut trim_left
inbound_bearer_token [] = ok []
inbound_bearer_token (value ∷ []) =
    let (scheme, token, found) = cut b' ' value in bearer_of scheme (trim_left b' ' token) found
inbound_bearer_token _ = err not_one_credential
