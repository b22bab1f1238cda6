-- ===== src/Endpoint/Headers.antt =====
-- net/http's Header, as far as endpoint/http.go and endpoint/o3co.go use it, and the headers that
-- an endpoint sets on every request.
pub mod Laws
pub mod Static
use protobuf_interceptors.Base.{
  ℕ, ◌+◌, ◌-◌, Bool, true, false, not, ◌&&◌, ◌||◌, Option, none, some, List, [], ◌∷◌, ◌++◌, between,
  if◌then◌else◌, ◌==◌, all, any,
}
use protobuf_interceptors.Text.Bytes.{Bytes, bytes, equal, lookup, insert, contains_byte}
use protobuf_interceptors.Core.Errors.{Error, text, errorf}
use protobuf_interceptors.Endpoint.Http.{
  header_name_char, valid_header_name, endpoint_controlled_headers,
}

-- The values under each canonical name.
abbrev pub Header : Type 0
Header = List (Bytes × List Bytes)

-- A letter behind a hyphen, or the first one, in upper case, any other in lower case.
unfoldable pub canonical_chars : Bool → Bytes → Bytes
canonical_chars upper [] = []
canonical_chars upper (c ∷ s) =
    let rest = canonical_chars (c == b'-') s in
    (if upper && between b'a' b'z' c
      then c - 32
      else if not upper && between b'A' b'Z' c
      then c + 32
      else c)
    ∷ rest

-- http.CanonicalHeaderKey, which leaves a name that is not a token as it is.
unfoldable pub canonical_header_key : Bytes → Bytes
unfolding canonical_chars
canonical_header_key name = if all header_name_char name then canonical_chars true name else name

abbrev pub values_of : Option (List Bytes) → List Bytes
values_of none = []
values_of (some vs) = vs

abbrev pub first_value : List Bytes → Bytes
first_value [] = []
first_value (v ∷ _) = v

-- `Header.Get`, `Header.Set` and `Header.Add`
unfoldable pub header_get : Bytes → Header → Bytes
unfolding canonical_header_key lookup
header_get name h = first_value (values_of (lookup (canonical_header_key name) h))

unfoldable pub header_set : Bytes → Bytes → Header → Header
unfolding canonical_header_key insert
header_set name value h = insert (canonical_header_key name) (value ∷ []) h

unfoldable pub header_add : Bytes → Bytes → Header → Header
unfolding canonical_header_key insert lookup
header_add name value h =
    insert (canonical_header_key name)
      (values_of (lookup (canonical_header_key name) h) ++ value ∷ []) h

-- `noContentCoding`
unfoldable pub no_content_coding : Header → Header
unfolding header_get header_set equal
no_content_coding h =
    if equal (header_get (bytes "Accept-Encoding") h) []
    then header_set (bytes "Accept-Encoding") (bytes "identity") h
    else h

-- `requestID`, which an endpoint forwards under its key: empty where it forwards none.
abbrev pub forwarded_id : Bytes → Bytes → Bytes
forwarded_id [] id = []
forwarded_id (_ ∷ _) id = id

-- `req.Header.Set(e.requestIDHeaderKey, id)` of an id that is not empty
abbrev pub set_request_id : Bytes → Bytes → Header → Header
set_request_id key [] h = h
set_request_id key (c ∷ id) h = header_set key (c ∷ id) h

-- The loops over the static headers and their values
unfoldable pub add_values : Bytes → List Bytes → Header → Header
unfolding header_add
add_values name [] h = h
add_values name (v ∷ vs) h = add_values name vs (header_add name v h)

unfoldable pub add_static : Header → Header → Header
unfolding add_values
add_static [] h = h
add_static ((name, vs) ∷ static) h = add_static static (add_values name vs h)

abbrev control_character : ℕ → Bool
control_character c = contains_byte c (b'\r' ∷ b'\n' ∷ b'\0' ∷ [])

-- The names of `controlled`
abbrev pub is_controlled : Bytes → Bytes → Bool
is_controlled key name =
    any (λ c. equal (canonical_header_key c) (canonical_header_key name))
      endpoint_controlled_headers
    || not (equal key []) && equal (canonical_header_key key) (canonical_header_key name)

-- `validateStaticHeaders`; `none` is a nil error.
unfoldable pub validate_static_headers : Header → Bytes → Option Error
unfolding valid_header_name canonical_header_key equal
validate_static_headers [] key = none
validate_static_headers ((name, values) ∷ headers) key =
    let rest = validate_static_headers headers key in
    if not (valid_header_name name)
    then some (errorf "invalid header name %q" (text name ∷ []))
    else if is_controlled key name
    then some
        (errorf "header %q is set by the endpoint and must not be overridden" (text name ∷ []))
    else if any (any control_character) values
    then some
        (errorf "invalid value for header %q: control characters are not allowed" (text name ∷ []))
    else rest
