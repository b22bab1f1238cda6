-- ===== src/Endpoint/Headers/Static.antt =====
-- endpoint/o3co.go's validateStaticHeaders and endpoint/http.go's mustBeRequestIDHeaderKey: the static
-- headers and the request-ID keys that they take.
use protobuf_interceptors.Base.{
  ℕ, ◌≤◌, ◌≡◌, ◌≢◌, ◌⊎◌, inl, inr, refl, Bool, true, false, not, ◌&&◌, ◌||◌, Option, none, some,
  List, [], ◌∷◌, if◌then◌else◌, all, any, All, arith, all_cons,
}
use protobuf_interceptors.Base.Outcomes.{returned}
use protobuf_interceptors.Text.Bytes.{Bytes, bytes, equal, equal_refl}
use protobuf_interceptors.Text.Runes.{equal_fold}
use protobuf_interceptors.Core.Errors.{Error}
use protobuf_interceptors.Endpoint.Http.{
  header_name_char, valid_header_name, must_be_request_id_header_key,
}
use protobuf_interceptors.Endpoint.Headers.{
  Header, canonical_header_key, is_controlled, control_character, validate_static_headers,
}
use protobuf_interceptors.Endpoint.Headers.Laws.{equal_fold-canonical, request_id_key_cases}

-- RFC 7230's tchar: a visible ASCII character that is no delimiter.
abbrev pub IsTokenChar : ℕ → Type 0
IsTokenChar c =
    (0x21 ≤ c) × (c ≤ 0x7E) × All (λ delimiter. c ≢ delimiter) (bytes "\"(),/:;<=>?@[\\]{}")

header_name_char-IsTokenChar : (c : ℕ) → header_name_char c ≡ true → IsTokenChar c
header_name_char-IsTokenChar c h = ground arith

-- A field name: a token, so not empty.
abbrev pub IsToken : Bytes → Type 0
IsToken name = (name ≢ []) × All IsTokenChar name

all-IsTokenChar : (name : Bytes) → all header_name_char name ≡ true → All IsTokenChar name
all-IsTokenChar [] h = tt
all-IsTokenChar (c ∷ name) h =
    let (hc, rest) = all_cons header_name_char c name h in
    (header_name_char-IsTokenChar c hc, all-IsTokenChar name rest)

valid_header_name-all :
    (name : Bytes) → valid_header_name name ≡ true → all header_name_char name ≡ true
unfolding valid_header_name
valid_header_name-all [] h = refl
valid_header_name-all (c ∷ name) h = h

valid_header_name-IsToken : (name : Bytes) → valid_header_name name ≡ true → IsToken name
unfolding valid_header_name
valid_header_name-IsToken [] h = cc
valid_header_name-IsToken (c ∷ name) h = (λ e. cc, all-IsTokenChar (c ∷ name) h)

-- The guards of the loop, all passed
guards_passed :
    (token controlled control : Bool) (rest : Option Error) (e1 e2 e3 : Error)
    → (if not token
        then some e1
        else if controlled
        then some e2
        else if control
        then some e3
        else rest)
      ≡ none
    → (token ≡ true) × (controlled ≡ false) × (control ≡ false) × (rest ≡ none)
guards_passed true false false rest e1 e2 e3 h = (refl, refl, refl, h)
guards_passed false _ _ rest e1 e2 e3 h = cc
guards_passed true true _ rest e1 e2 e3 h = cc
guards_passed true false true rest e1 e2 e3 h = cc

none_of :
    (a b c k d : Bool)
    → ((a || (b || (c || false))) || (not k && d)) ≡ false
    → (a ≡ false) × (b ≡ false) × (c ≡ false) × ((k ≡ true) ⊎ (d ≡ false))
none_of a b c k d h = ground arith

canonical-apart :
    (key name : Bytes)
    → all header_name_char key ≡ true
    → all header_name_char name ≡ true
    → equal (canonical_header_key key) (canonical_header_key name) ≡ false
    → equal_fold key name ≡ false
canonical-apart key name hk hn h = go (equal_fold key name) refl
  where
    go : (b : Bool) → equal_fold key name ≡ b → equal_fold key name ≡ false
    go false e = e
    go true e =
        cc (h, equal_fold-canonical key name hk hn e, equal_refl (canonical_header_key name))

equal-[] : (s : Bytes) → equal s [] ≡ true → s ≡ []
unfolding equal
equal-[] [] h = refl
equal-[] (c ∷ s) h = cc

-- A name under which the endpoint sets no header of its own, in any case, where `key` is its request-ID
-- key: empty where it forwards no ID.
pub record IsFree (key name : Bytes) : Type 0 where
  pub no_content_type : equal_fold (bytes "Content-Type") name ≡ false
  pub no_accept : equal_fold (bytes "Accept") name ≡ false
  pub no_authorization : equal_fold (bytes "Authorization") name ≡ false
  pub no_request_id : (key ≡ []) ⊎ (equal_fold key name ≡ false)

is_controlled-IsFree :
    (key name : Bytes)
    → (key ≡ []) ⊎ (all header_name_char key ≡ true)
    → all header_name_char name ≡ true
    → is_controlled key name ≡ false
    → IsFree key name
is_controlled-IsFree key name hk hn h =
    let (a, b, c, d) =
      none_of (equal (canonical_header_key (bytes "Content-Type")) (canonical_header_key name))
        (equal (canonical_header_key (bytes "Accept")) (canonical_header_key name))
        (equal (canonical_header_key (bytes "Authorization")) (canonical_header_key name))
        (equal key []) (equal (canonical_header_key key) (canonical_header_key name)) h in
    record {
      no_content_type = canonical-apart (bytes "Content-Type") name refl hn a;
      no_accept = canonical-apart (bytes "Accept") name refl hn b;
      no_authorization = canonical-apart (bytes "Authorization") name refl hn c;
      no_request_id = elim d [
        | inl e ↦ inl (equal-[] key e)
        | inr e ↦ elim hk [ inl k ↦ inl k | inr k ↦ inr (canonical-apart key name k hn e) ]
      ];
    }

-- A byte that ends no line and no string
abbrev pub IsPlain : ℕ → Type 0
IsPlain c = (c ≢ 13) × (c ≢ 10) × (c ≢ 0)

any_none :
    {A : Type 0} (p : A → Bool) (P : A → Type 0)
    → ((x : A) → p x ≡ false → P x)
    → (xs : List A) → any p xs ≡ false
    → All P xs
any_none p P each [] h = tt
any_none p P each (x ∷ xs) h =
    let (one, rest) = split (p x) (any p xs) h in (each x one, any_none p P each xs rest)
  where
    split : (a b : Bool) → (a || b) ≡ false → (a ≡ false) × (b ≡ false)
    split false b h = (refl, h)
    split true b h = cc

control_character-IsPlain : (c : ℕ) → control_character c ≡ false → IsPlain c
control_character-IsPlain c h = ground arith

-- A static header that may be set beside the endpoint's own
pub record MayBeSet (key : Bytes) (header : Bytes × List Bytes) : Type 0 where
  pub token : IsToken header.0
  pub free : IsFree key header.0
  pub plain : All (All IsPlain) header.1

pub validate_static_headers-MayBeSet :
    (key : Bytes) (headers : Header)
    → (key ≡ []) ⊎ (all header_name_char key ≡ true)
    → validate_static_headers headers key ≡ none
    → All (MayBeSet key) headers
unfolding validate_static_headers
validate_static_headers-MayBeSet key [] hk h = tt
validate_static_headers-MayBeSet key ((name, values) ∷ headers) hk h =
    let (token, controlled, control, rest) =
      guards_passed (valid_header_name name) (is_controlled key name)
        (any (any control_character) values) (validate_static_headers headers key) _ _ _ h in
    (
      record {
        token = valid_header_name-IsToken name token;
        free = is_controlled-IsFree key name hk (valid_header_name-all name token) controlled;
        plain =
            any_none (any control_character) (All IsPlain)
              (any_none control_character IsPlain control_character-IsPlain) values control;
      },
      validate_static_headers-MayBeSet key headers hk rest,
    )

-- A request-ID key that an endpoint can work with: empty, where it forwards no ID, or a token that is
-- not the name of a header that it sets itself, in any case.
pub data IsKey : Bytes → Type 0 where
  no_key : IsKey []
  own_key :
      (key : Bytes)
      → IsToken key
      → equal_fold key (bytes "Content-Type") ≡ false
      → equal_fold key (bytes "Accept") ≡ false
      → equal_fold key (bytes "Authorization") ≡ false
      → IsKey key

pub must_be_request_id_header_key-IsKey :
    (key : Bytes) → must_be_request_id_header_key key ≡ returned tt → IsKey key
must_be_request_id_header_key-IsKey [] h = no_key
must_be_request_id_header_key-IsKey (c ∷ key) h =
    let (token, content_type, accept, authorization) = request_id_key_cases c key h in
    own_key (c ∷ key) (λ e. cc, all-IsTokenChar (c ∷ key) token) content_type accept authorization

pub must_be_request_id_header_key-all :
    (key : Bytes)
    → must_be_request_id_header_key key ≡ returned tt
    → (key ≡ []) ⊎ (all header_name_char key ≡ true)
must_be_request_id_header_key-all [] h = inl refl
must_be_request_id_header_key-all (c ∷ key) h = inr (request_id_key_cases c key h).0
