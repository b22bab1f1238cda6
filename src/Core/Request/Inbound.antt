-- ===== src/Core/Request/Inbound.antt =====
-- Which request IDs and bearer tokens reach the context.
use mathlib.Core.Path.{subst}
use protobuf_interceptors.Base.{
  ◌≤◌, if◌then◌else◌, suc, ◌+◌, ◌≡◌, ◌≢◌, ◌<◌, ◌⊎◌, inl, inr, refl, ap, sym, ◌∙◌, Bool, true, false,
  not, ◌&&◌, List, [], ◌∷◌, ◌++◌, arith, All, all, any, all-append, length, length-append,
  Option-cases, take, drop,
}
use protobuf_interceptors.Text.Bytes.{Bytes, bytes, cut, index_byte, trim_left}
use protobuf_interceptors.Text.Bytes.Search.{Lacks, index_byte-some}
use protobuf_interceptors.Text.Runes.{runes, is_space, equal_fold}
use protobuf_interceptors.Text.Numbers.{hex}
use protobuf_interceptors.Text.Numbers.RoundTrip.{Digit, HexDigit, hex-HexDigit}
use protobuf_interceptors.Core.Errors.{Error, ok, err}
use protobuf_interceptors.Core.Request.{
  request_id_char, request_id_max_length, matches_request_id, request_id_at, inbound_request_id,
  bearer_of, inbound_bearer_token,
}

-- An ID that the verifier accepts.
abbrev pub IsRequestId : Bytes → Type 0
IsRequestId id = (matches_request_id id ≡ true) × (length id ≤ request_id_max_length)

all_of_Digit : (s : Bytes) → All Digit s → all request_id_char s ≡ true
all_of_Digit [] h = refl
all_of_Digit (c ∷ s) h = ground (arith, all_of_Digit s h.1)

all_of_HexDigit : (s : Bytes) → All HexDigit s → all request_id_char s ≡ true
all_of_HexDigit [] h = refl
all_of_HexDigit (c ∷ s) h = ground (arith, all_of_HexDigit s h.1)

matches_of_all : (s : Bytes) → s ≢ [] → all request_id_char s ≡ true → matches_request_id s ≡ true
unfolding matches_request_id
matches_of_all [] h k = absurd (h refl)
matches_of_all (c ∷ s) h k = k

length-hex : (s : Bytes) → length (hex s) ≡ length s + length s
unfolding hex
length-hex [] = omega arith
length-hex (b ∷ s) = omega (arith, length-hex s)

request_id_at-IsRequestId :
    (second suffix : Bytes)
    → All Digit second
    → length second ≡ 14
    → All (λ b. b < 256) suffix
    → length suffix ≡ 8
    → IsRequestId (request_id_at second suffix)
unfolding request_id_at
request_id_at-IsRequestId second suffix digits long small eight = (
  matches_of_all (second ++ b'_' ∷ hex suffix)
      (λ e. absurd (omega (arith, ap length e, length-append second (b'_' ∷ hex suffix))))
      (all-append request_id_char second (b'_' ∷ hex suffix)
        ∙ ground (
          arith,
          all_of_Digit second digits,
          all_of_HexDigit (hex suffix) (hex-HexDigit suffix small),
        )),
  omega (arith, length-append second (b'_' ∷ hex suffix), length-hex suffix),
)

-- Whatever the request sent, the ID on the context is one that the verifier accepts, given a clock
-- reading of fourteen digits and eight random bytes.
pub inbound_request_id-IsRequestId :
    (second suffix : Bytes) (values : List Bytes)
    → All Digit second
    → length second ≡ 14
    → All (λ b. b < 256) suffix
    → length suffix ≡ 8
    → IsRequestId (inbound_request_id second suffix values)
unfolding inbound_request_id
inbound_request_id-IsRequestId second suffix [] digits long small eight =
    request_id_at-IsRequestId second suffix digits long small eight
inbound_request_id-IsRequestId second suffix (id ∷ []) digits long small eight =
    let made = request_id_at-IsRequestId second suffix digits long small eight in ground arith
inbound_request_id-IsRequestId second suffix (id ∷ id' ∷ ids) digits long small eight =
    request_id_at-IsRequestId second suffix digits long small eight

-- A token without spaces, whatever runes it decodes to.
abbrev pub HasNoSpace : Bytes → Type 0
HasNoSpace token = any is_space (runes token) ≡ false

-- The one form of a credential that is read: a scheme that folds to Bearer, one or more spaces, and
-- a token that is not empty and holds no space.
pub record Credential (value token : Bytes) : Type 0 where
  pub scheme : Bytes
  pub rest : Bytes
  pub spaced : value ≡ scheme ++ b' ' ∷ rest
  pub unspaced : Lacks b' ' scheme
  pub folds : equal_fold scheme (bytes "Bearer") ≡ true
  pub trimmed : token ≡ trim_left b' ' rest
  pub nonempty : token ≢ []
  pub no_space : HasNoSpace token

guard-ok :
    (found folds spaced : Bool) (rest token : Bytes) (e : Error)
    → (if found && folds && true && not spaced then ok rest else err e) ≡ ok token
    → (found ≡ true) × (folds ≡ true) × (token ≡ rest) × (spaced ≡ false)
guard-ok found folds spaced rest token e h = ground arith

bearer_of-ok :
    (scheme rest token : Bytes) (found : Bool)
    → bearer_of scheme rest found ≡ ok token
    → (found ≡ true)
      × (equal_fold scheme (bytes "Bearer") ≡ true)
      × (token ≡ rest)
      × (token ≢ [])
      × HasNoSpace token
unfolding bearer_of
bearer_of-ok scheme [] token found h = ground arith
bearer_of-ok scheme (c ∷ rest) token found h =
    let (was_found, folds, same, no_space) =
      guard-ok found (equal_fold scheme (bytes "Bearer")) (any is_space (runes (c ∷ rest)))
        (c ∷ rest) token _ h in
    (
      was_found,
      folds,
      same,
      (λ e. cc (sym same ∙ e)),
      subst (λ t. any is_space (runes t) ≡ false) (sym same) no_space,
    )

cut-Credential :
    (value token : Bytes) → inbound_bearer_token (value ∷ []) ≡ ok token → Credential value token
unfolding inbound_bearer_token cut
cut-Credential value token h = elim (Option-cases (index_byte b' ' value)) [
  | inl missing ↦ let (found, _, _, _, _) = bearer_of-ok value [] token false (ground arith) in cc
  | inr (i, found) ↦
      let at = index_byte-some b' ' value i found in
      let (_, folds, same, nonempty, no_space) =
        bearer_of-ok (take i value) (trim_left b' ' (drop (suc i) value)) token true
          (ground arith) in
      record {
        scheme = take i value;
        rest = drop (suc i) value;
        spaced = at.0;
        unspaced = at.1;
        folds = folds;
        trimmed = same;
        nonempty = nonempty;
        no_space = no_space;
      }
]

-- A request's bearer token is read only from no value at all, which gives the empty token, or from
-- exactly one value that is a credential of that form.
pub inbound_bearer_token-Credential :
    (values : List Bytes) (token : Bytes)
    → inbound_bearer_token values ≡ ok token
    → ((values ≡ []) × (token ≡ []))
      ⊎ ((value : Bytes) × (values ≡ value ∷ []) × Credential value token)
inbound_bearer_token-Credential [] token h = unfold inbound_bearer_token in inl (refl, ground arith)
inbound_bearer_token-Credential (value ∷ []) token h =
    inr (value, refl, cut-Credential value token h)
inbound_bearer_token-Credential (v ∷ w ∷ ws) token h = unfold inbound_bearer_token in cc
