-- ===== src/Endpoint/Http.antt =====
-- endpoint/http.go: what an endpoint makes of its backend's status, body and failures, and the
-- names of the headers that it sends.
pub mod Laws
use protobuf_interceptors.Base.{
  ℕ, suc, ◌-◌, ◌^◌, Bool, true, false, not, ◌&&◌, ◌||◌, Option, none, some, List, [], ◌∷◌, ltb,
  between, if◌then◌else◌, ◌==◌, length, take, all, any,
}
use protobuf_interceptors.Base.Outcomes.{Outcome, returned, panicked}
use protobuf_interceptors.Text.Bytes.{Bytes, bytes, contains_byte}
use protobuf_interceptors.Text.Runes.{equal_fold}
use protobuf_interceptors.Core.Errors.{
  Error, text, errorf_v, errorf_w, sentinel, backend_unavailable,
}

-- `statusError`. The text of the error behind an unavailable backend is not kept.
unfoldable pub status_error : ℕ → Error → Error
status_error status e =
    if status == 429 || status == 502 || status == 503 || status == 504
    then errorf_w "%w: %v" [] (sentinel backend_unavailable)
    else e

abbrev pub max_int64 : ℕ
max_int64 = 2 ^ 63 - 1

-- `readBounded` of a body that can be read; io.LimitReader gives at most `limit` bytes of it.
unfoldable pub read_bounded : Bytes → ℕ → Bytes × Bool
read_bounded body max =
    let limit = if ltb max max_int64 then suc max else max in
    let read = take limit body in
    if ltb max (length read) then (take max read, true) else (read, false)

abbrev pub max_logged_body_size : ℕ
max_logged_body_size = 1024

-- `truncatedBody`
unfoldable pub truncated_body : Bytes → Bytes
truncated_body body =
    if ltb max_logged_body_size (length body) then take max_logged_body_size body else body

-- `requestError`, given whether the failure is transient; the first argument is `ctx.Err()`. The
-- text of the failure behind an unavailable backend is not kept.
unfoldable pub request_error : Option Error → Bool → Bytes → Error → Error
request_error (some ctx_err) is_transient what e = errorf_w "%s: %w" (text what ∷ []) ctx_err
request_error none true what e =
    errorf_w "%w: %s: %v" (text what ∷ []) (sentinel backend_unavailable)
request_error none false what e = errorf_v "%s: %v" (text what ∷ []) e

-- A character of an RFC 7230 token, as `validHeaderName` takes it.
abbrev pub header_name_char : ℕ → Bool
header_name_char c =
    between b'a' b'z' c
    || between b'A' b'Z' c
    || between b'0' b'9' c
    || contains_byte c (bytes "!#$%&'*+-.^_`|~")

-- `validHeaderName`
unfoldable pub valid_header_name : Bytes → Bool
valid_header_name [] = false
valid_header_name (c ∷ name) = all header_name_char (c ∷ name)

abbrev pub endpoint_controlled_headers : List Bytes
endpoint_controlled_headers = bytes "Content-Type" ∷ bytes "Accept" ∷ bytes "Authorization" ∷ []

-- `mustBeRequestIDHeaderKey`
unfoldable pub must_be_request_id_header_key : Bytes → Outcome (Unit {0})
unfolding valid_header_name equal_fold
must_be_request_id_header_key [] = returned tt
must_be_request_id_header_key (c ∷ key) =
    if not (valid_header_name (c ∷ key))
    then panicked
    else if any (equal_fold (c ∷ key)) endpoint_controlled_headers
    then panicked
    else returned tt
