-- ===== src/Endpoint/Hosts.antt =====
-- endpoint/http.go: hosts, ports and the spelling of an entry that names them.
use protobuf_interceptors.Base.{
  ℕ, suc, ◌+◌, ◌*◌, ◌-◌, Bool, false, not, ◌&&◌, ◌||◌, Option, none, some, [], ◌∷◌, ◌++◌, ltb, leb,
  between, if◌then◌else◌, ◌==◌, length, take, drop, all, last_or,
}
use protobuf_interceptors.Text.Bytes.{
  Bytes, bytes, split, contains_byte, last_index_byte, has_prefix,
}

-- `n = n*10 + int(c-'0')` over the digits
unfoldable pub port_number : ℕ → Bytes → Option ℕ
port_number n [] = some n
port_number n (c ∷ port) =
    if not (between b'0' b'9' c) then none else port_number (n * 10 + (c - b'0')) port

-- `validPort`
unfoldable pub valid_port : Bytes → Bool
unfolding port_number
valid_port [] = false
valid_port (c ∷ port) =
    if ltb 5 (length (c ∷ port)) || c == b'0'
    then false
    else elim (port_number 0 (c ∷ port)) [ none ↦ false | some n ↦ leb n 65535 ]

-- `asciiLower`; `none` is a string that is not all ASCII.
unfoldable pub ascii_lower : Bytes → Option Bytes
ascii_lower [] = some []
ascii_lower (c ∷ s) = if leb 0x80 c then none else (elim (ascii_lower s) [
  | none ↦ none
  | some t ↦ some ((if between b'A' b'Z' c then c + (b'a' - b'A') else c) ∷ t)
])

abbrev pub host_char : ℕ → Bool
host_char c = between b'a' b'z' c || between b'0' b'9' c || c == b'-' || c == b'_'

-- The checks of one label in `validHostName`.
unfoldable pub valid_label : Bytes → Bool
valid_label [] = false
valid_label (c ∷ label) =
    leb (length (c ∷ label)) 63
    && not (c == b'-')
    && not (last_or c label == b'-')
    && all host_char (c ∷ label)

-- `validHostName`. `strings.Trim(last, "0123456789") != ""` is that not all of it is digits.
unfoldable pub valid_host_name : Bytes → Bool
unfolding split valid_label
valid_host_name [] = false
valid_host_name (c ∷ name) =
    let labels = split b'.' (c ∷ name) in
    leb (length (c ∷ name)) 253
    && all valid_label labels
    && not (all (between b'0' b'9') (last_or [] labels))

abbrev scheme_start : ℕ → Bool
scheme_start c = between b'a' b'z' c || between b'A' b'Z' c

-- `validScheme`
unfoldable pub valid_scheme : Bytes → Bool
valid_scheme [] = false
valid_scheme (c ∷ s) =
    scheme_start c
    && all (λ d. scheme_start d || between b'0' b'9' d || d == b'+' || d == b'-' || d == b'.') s

-- strings.Index of "://"
unfoldable pub index_scheme_end : Bytes → Option ℕ
unfolding has_prefix
index_scheme_end [] = none
index_scheme_end (c ∷ s) =
    if has_prefix (c ∷ s) (bytes "://")
    then some 0
    else elim (index_scheme_end s) [ none ↦ none | some i ↦ some (suc i) ]

-- The part before the first of "/?#", and that character with what follows it.
unfoldable pub cut_authority : Bytes → Bytes × Bytes
cut_authority [] = ([], [])
cut_authority (c ∷ s) =
    if c == b'/' || c == b'?' || c == b'#'
    then ([], c ∷ s)
    else let (authority, after) = cut_authority s in (c ∷ authority, after)

-- "…" in UTF-8
abbrev pub ellipsis : Bytes
ellipsis = 0xE2 ∷ 0x80 ∷ 0xA6 ∷ []

-- An entry behind its scheme, if it has one.
unfoldable pub redacted_rest : Bytes → Bytes → Bytes
unfolding cut_authority last_index_byte
redacted_rest scheme rest =
    let (authority, after) = cut_authority rest in
    let shown : Bytes = elim (last_index_byte b'@' authority) [
      | none ↦ authority
      | some i ↦ ellipsis ++ b'@' ∷ drop (suc i) authority
    ] in
    if contains_byte b'@' after
    then ellipsis
    else elim after [ [] ↦ scheme ++ shown | _ ∷ _ ↦ scheme ++ shown ++ ellipsis ]

-- `redactedEntry`
unfoldable pub redacted_entry : Bytes → Bytes
unfolding redacted_rest index_scheme_end valid_scheme
redacted_entry entry = elim (index_scheme_end entry) [
  | none ↦ redacted_rest [] entry
  | some i ↦
      if ltb 0 i && valid_scheme (take i entry)
      then redacted_rest (take (i + 3) entry) (drop (i + 3) entry)
      else redacted_rest [] entry
]
