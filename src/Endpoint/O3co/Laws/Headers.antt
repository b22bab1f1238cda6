-- ===== src/Endpoint/O3co/Laws/Headers.antt =====
-- endpoint/o3co.go: the headers of a request to the verifier.
use protobuf_interceptors.Base.{ℕ, ◌≡◌, refl, ◌∙◌, true, false, [], ◌∷◌, ◌++◌, all}
use protobuf_interceptors.Base.Outcomes.{returned}
use protobuf_interceptors.Text.Bytes.{Bytes, bytes}
use protobuf_interceptors.Text.Runes.{equal_fold}
use protobuf_interceptors.Endpoint.Http.{must_be_request_id_header_key, header_name_char}
use protobuf_interceptors.Endpoint.Headers.{
  Header, header_get, header_set, add_static, no_content_coding, set_request_id, forwarded_id,
}
use protobuf_interceptors.Endpoint.Headers.Laws.{
  header_get-header_set, set_request_id_other, no_content_coding_other, request_id_key_cases,
}
use protobuf_interceptors.Endpoint.O3co.{O3coEndpoint, request_header}

-- A header that the request ID's key does not name.
forwarded_other :
    (key id name : Bytes) (h : Header)
    → must_be_request_id_header_key key ≡ returned tt
    → all header_name_char name ≡ true
    → ((c : ℕ) (rest : Bytes)
        → must_be_request_id_header_key (c ∷ rest) ≡ returned tt
        → equal_fold (c ∷ rest) name ≡ false)
    → header_get name (set_request_id key (forwarded_id key id) h) ≡ header_get name h
forwarded_other [] id name h hk hn hf = refl
forwarded_other (c ∷ key) id name h hk hn hf =
    set_request_id_other (c ∷ key) id name h (request_id_key_cases c key hk).0 hn (hf c key hk)

-- Whatever the static headers are, a request carries the bearer token, and names JSON as what it
-- sends and takes; a request ID that is forwarded under a key its option takes replaces none of
-- these.
pub request_header_lem :
    (e : O3coEndpoint) (token id : Bytes)
    → must_be_request_id_header_key e.request_id_header_key ≡ returned tt
    → (header_get
          (bytes "Authorization")
          (request_header e token (forwarded_id e.request_id_header_key id))
        ≡ bytes "Bearer " ++ token)
      × (header_get
            (bytes "Content-Type")
            (request_header e token (forwarded_id e.request_id_header_key id))
          ≡ bytes "application/json")
      × (header_get
            (bytes "Accept")
            (request_header e token (forwarded_id e.request_id_header_key id))
          ≡ bytes "application/json")
unfolding request_header
request_header_lem e token id h =
    let json = bytes "application/json" in
    let typed = header_set (bytes "Content-Type") json (add_static e.headers []) in
    let accepting = header_set (bytes "Accept") json typed in
    let authorized =
      header_set (bytes "Authorization") (bytes "Bearer " ++ token) (no_content_coding accepting) in
    (
      forwarded_other e.request_id_header_key id (bytes "Authorization") authorized h refl
            (λ c rest hk. (request_id_key_cases c rest hk).3)
          ∙ header_get-header_set (bytes "Authorization") (bytes "Authorization")
              (bytes "Bearer " ++ token) (no_content_coding accepting),
      forwarded_other e.request_id_header_key id (bytes "Content-Type") authorized h refl
            (λ c rest hk. (request_id_key_cases c rest hk).1)
          ∙ header_get-header_set (bytes "Authorization") (bytes "Content-Type")
              (bytes "Bearer " ++ token) (no_content_coding accepting)
          ∙ no_content_coding_other (bytes "Content-Type") accepting refl
          ∙ header_get-header_set (bytes "Accept") (bytes "Content-Type") json typed
          ∙ header_get-header_set (bytes "Content-Type") (bytes "Content-Type") json
              (add_static e.headers []),
      forwarded_other e.request_id_header_key id (bytes "Accept") authorized h refl
            (λ c rest hk. (request_id_key_cases c rest hk).2)
          ∙ header_get-header_set (bytes "Authorization") (bytes "Accept")
              (bytes "Bearer " ++ token) (no_content_coding accepting)
          ∙ no_content_coding_other (bytes "Accept") accepting refl
          ∙ header_get-header_set (bytes "Accept") (bytes "Accept") json typed,
    )
