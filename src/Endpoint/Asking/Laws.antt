-- ===== src/Endpoint/Asking/Laws.antt =====
-- endpoint/opa.go and endpoint/cedar.go: what an answer without an error rests on.
use protobuf_interceptors.Base.{
  ℕ, ◌<◌, ◌≤◌, ◌≡◌, refl, ap, sym, ◌∙◌, Bool, true, false, Option, none, some, List, arith, length,
}
use protobuf_interceptors.Text.Bytes.{Bytes}
use protobuf_interceptors.Core.Context.{Context}
use protobuf_interceptors.Core.Errors.{Error, Result, err, ok, >>=-eq-ok}
use protobuf_interceptors.Endpoint.Asking.{
  Wording, Asker, weigh, make_request, weigh_received, weigh_answer, exchange,
}
use protobuf_interceptors.Endpoint.Backend.{
  Backend, Request, Response, Answered, failed, responded, Logged, LogLine, ReadBody, Received,
  ended, received, receive, decode_object, is_success, wrap_error,
}
use protobuf_interceptors.Endpoint.Http.{max_int64}
use protobuf_interceptors.Endpoint.Json.{Value, Object}
use protobuf_interceptors.Endpoint.Backend.Laws.{
  read_body_whole, receive-received, wrap_error_ok, created_ok,
}
use protobuf_interceptors.Endpoint.Failures.{Failure}

weigh_allows :
    (wording : Wording) (unmarshal : Bytes → Option Value) (decide : Object → Option Error)
    (ctx_err : Option Error) (read : ReadBody) (status : ℕ) (id : Bytes)
    → (weigh wording unmarshal decide ctx_err read status id).0 ≡ none
    → (is_success status ≡ true)
      × (read.failure ≡ none)
      × (read.oversized ≡ false)
      × ((obj : Object) × (decode_object unmarshal read.content ≡ some obj) × (decide obj ≡ none))
unfolding weigh
weigh_allows wording unmarshal decide ctx_err read status id h =
    go (is_success status) refl read.failure refl read.oversized refl
      (decode_object unmarshal read.content) refl
  where
    go :
        (s : Bool)
        → is_success status ≡ s
        → (f : Option Failure) → read.failure ≡ f
        → (o : Bool) → read.oversized ≡ o
        → (d : Option Object) → decode_object unmarshal read.content ≡ d
        → (is_success status ≡ true)
          × (read.failure ≡ none)
          × (read.oversized ≡ false)
          × ((obj : Object) × (decode_object unmarshal read.content ≡ some obj)
              × (decide obj ≡ none))
    go false hs f hf o ho d hd = ground arith
    go true hs (some f) hf o ho d hd = ground arith
    go true hs none hf true ho d hd = ground arith
    go true hs none hf false ho none hd = ground arith
    go true hs none hf false ho (some obj) hd = (hs, hf, ho, (obj, hd, ground arith))

-- A response of 2xx whose body arrives to its end within the bound and is an object that is decided
-- with no error.
abbrev pub DecidedBy :
    (Object → Option Error) → (Bytes → Option Value) → ℕ → Response → Object → Type 0
DecidedBy decide unmarshal max resp obj =
    (is_success resp.status ≡ true)
    × (resp.body.broken ≡ none)
    × (length resp.body.content ≤ max)
    × (decode_object unmarshal resp.body.content ≡ some obj)
    × (decide obj ≡ none)

module _ {S : Type 0} (asker : Asker) (wording : Wording) (backend : Backend S) (ctx : Context)
    (bound : asker.max_response_body_size < max_int64) (decide : Object → Option Error) where
  weigh_received_allows :
      (id : Bytes) (resp : Response) (st : Logged S) (r : Received × Logged S)
      → receive backend ctx asker.max_response_body_size wording.reading_failed wording.read_line id
          resp st
        ≡ r
      → (weigh_received asker wording backend ctx decide id resp.status r).0 ≡ none
      → (obj : Object) × DecidedBy decide backend.unmarshal asker.max_response_body_size resp obj
  unfolding weigh_received
  weigh_received_allows id resp st (ended x, logged) hr h = cc
  weigh_received_allows id resp st (received read, logged) hr h =
      let (hs, hf, ho, (obj, hd, hn)) =
        weigh_allows wording backend.unmarshal decide
          (backend.ctx_err ctx (backend.elapse logged.outside)) read resp.status id h in
      let same =
        receive-received backend ctx asker.max_response_body_size wording.reading_failed
          wording.read_line id resp st read logged hr hf in
      let (hb, hl, hc) =
        read_body_whole resp.body asker.max_response_body_size bound
          (ap (λ x. x.failure) (sym same) ∙ hf) (ap (λ x. x.oversized) (sym same) ∙ ho) in
      (
        obj,
        (
          hs,
          hb,
          hl,
          ap (decode_object backend.unmarshal) (sym (ap (λ x. x.content) same ∙ hc)) ∙ hd,
          hn,
        ),
      )

  weigh_answer_allows :
      (id : Bytes) (log : List LogLine) (r : Answered × S)
      → (weigh_answer asker wording backend ctx decide id log r).0 ≡ none
      → (resp : Response) × (outside : S) × (obj : Object) × (r ≡ (responded resp, outside))
        × DecidedBy decide backend.unmarshal asker.max_response_body_size resp obj
  unfolding weigh_answer
  weigh_answer_allows id log (failed f, outside) h = cc
  weigh_answer_allows id log (responded resp, outside) h =
      let (obj, hd) =
        weigh_received_allows id resp (record { outside = outside; log = log }) _ refl h in
      (resp, outside, obj, refl, hd)

  make_request_ok :
      (body : Value) (id : Bytes) (request : Request)
      → make_request asker wording backend ctx body id ≡ ok request
      → (backend.marshal body ≡ ok request.body) × (request.url ≡ asker.url)
  unfolding make_request
  make_request_ok body id request h =
      let (json, hj, made) =
        >>=-eq-ok (wrap_error wording.marshal_failed (backend.marshal body)) _ h in
      let same =
        created_ok wording.create_failed (backend.new_request ctx asker.url) _ request made in
      (
        wrap_error_ok wording.marshal_failed (backend.marshal body) json hj
            ∙ ap (λ r. ok (r.body)) same,
        ap (λ r. r.url) (sym same),
      )

  exchange_sent :
      (body : Value) (id : Bytes) (st : Logged S)
      → (exchange asker wording backend ctx decide body id st).0 ≡ none
      → (request : Request) × (make_request asker wording backend ctx body id ≡ ok request)
        × ((weigh_answer asker wording backend ctx decide id st.log
              (backend.send ctx request st.outside)).0
            ≡ none)
  unfolding exchange
  exchange_sent body id st h = go (make_request asker wording backend ctx body id) refl
    where
      go :
          (r : Result Request)
          → make_request asker wording backend ctx body id ≡ r
          → (request : Request) × (make_request asker wording backend ctx body id ≡ ok request)
            × ((weigh_answer asker wording backend ctx decide id st.log
                  (backend.send ctx request st.outside)).0
                ≡ none)
      go (err x) e = cc
      go (ok request) e = (request, e, sym (rw (exchange, e)) ∙ h)

  -- What is asked is marshalled and sent to the URL, and the answer without an error is a response
  -- that is decided so.
  pub exchange_allows :
      (body : Value) (id : Bytes) (st : Logged S)
      → (exchange asker wording backend ctx decide body id st).0 ≡ none
      → (request : Request) × (resp : Response) × (outside : S) × (obj : Object) × (backend.marshal
            body
          ≡ ok request.body)
        × (request.url ≡ asker.url)
        × (backend.send ctx request st.outside ≡ (responded resp, outside))
        × DecidedBy decide backend.unmarshal asker.max_response_body_size resp obj
  exchange_allows body id st h =
      let (request, e, hw) = exchange_sent body id st h in
      let (resp, outside, obj, hs, hd) =
        weigh_answer_allows id st.log (backend.send ctx request st.outside) hw in
      let (hb, hu) = make_request_ok body id request e in
      (request, resp, outside, obj, hb, hu, hs, hd)
