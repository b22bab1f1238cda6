-- ===== src/Endpoint/Failures/Laws.antt =====
-- What a failure that is worth a retry wraps.
use protobuf_interceptors.Base.{◌≡◌, refl, Bool, ◌||◌, List, [], ◌∷◌, ◌++◌, any, arith}
use protobuf_interceptors.Text.Bytes.{bytes, has_prefix}
use protobuf_interceptors.Endpoint.Failures.{
  Failure, Failures, failure, no_failures, failures, kind_of, text_of, wrapped, wrapped_all,
  tls_refusal, tls_refusal_any, is_refusal,
}

any-append :
    {A : Type 0} (p : A → Bool) (xs ys : List A) → any p (xs ++ ys) ≡ (any p xs || any p ys)
any-append p [] ys = refl
any-append p (x ∷ xs) ys = ground (arith, any-append p xs ys)

abbrev is_tls_text : Failure → Bool
is_tls_text f = has_prefix (text_of f) (bytes "tls: ")

-- An error that says the configuration or the request is at fault, of itself.
abbrev pub is_permanent : Failure → Bool
is_permanent f = is_refusal (kind_of f) || has_prefix (text_of f) (bytes "tls: ")

mutual
  unfolding tls_refusal tls_refusal_any

  tls_refusal-wrapped : (f : Failure) → tls_refusal f ≡ any is_tls_text (wrapped f)
  tls_refusal-wrapped (failure kind s inner) = ground (arith, tls_refusal_any-wrapped inner)

  tls_refusal_any-wrapped : (fs : Failures) → tls_refusal_any fs ≡ any is_tls_text (wrapped_all fs)
  tls_refusal_any-wrapped no_failures = refl
  tls_refusal_any-wrapped (failures f fs) = ground (
    arith,
    tls_refusal-wrapped f,
    tls_refusal_any-wrapped fs,
    any-append is_tls_text (wrapped f) (wrapped_all fs),
  )
