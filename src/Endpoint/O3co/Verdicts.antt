-- ===== src/Endpoint/O3co/Verdicts.antt =====
-- endpoint/o3co.go: which answers of the verifier are an allow, a denial or a refusal of the caller's
-- credentials.
use protobuf_interceptors.Base.{
  ℕ, ◌≡◌, ◌≢◌, refl, ◌∙◌, Bool, true, false, not, ◌&&◌, ◌||◌, Option, none, some, arith, ◌==◌,
}
use protobuf_interceptors.Text.Bytes.{Bytes, bytes, equal}
use protobuf_interceptors.Core.Decision.{revision_confirmed}
use protobuf_interceptors.Core.Errors.{
  Error, as_denied, as_unauthenticated, is_sentinel, same_sentinel, backend_unavailable,
}
use protobuf_interceptors.Endpoint.Backend.{ReadBody, is_success}
use protobuf_interceptors.Endpoint.Envelope.{WireDecision, to_decision}
use protobuf_interceptors.Endpoint.Failures.{Failure, failure_error, transient}
use protobuf_interceptors.Endpoint.Http.{request_error, status_error}
use protobuf_interceptors.Endpoint.O3co.{
  O3coEndpoint, accept_allow, is_allow, refuse, conclude, code_of, code_caller_unauthenticated,
}

accept_allow_cases :
    (e : O3coEndpoint) (wire : Option WireDecision) (status : ℕ) (id : Bytes) (hinted : Bool)
    → (accept_allow e wire status id hinted).answer.1 ≡ none
    → (status ≡ 200)
      × (is_allow wire ≡ true)
      × ((accept_allow e wire status id hinted).answer.0 ≡ to_decision id wire)
      × ((not e.require_confirmed_revision || revision_confirmed (to_decision id wire)) ≡ true)
unfolding accept_allow
accept_allow_cases e wire status id hinted h = ground arith

refuse_some :
    (wire : Option WireDecision) (status : ℕ) (id : Bytes) → (refuse wire status id).1 ≢ none
unfolding refuse
refuse_some wire status id h = ground arith

-- An answer without an error is a 200 whose body is read to its end as a whole allow, with its
-- revision confirmed where the endpoint requires that; the decision is the one it holds.
pub conclude_allows :
    (e : O3coEndpoint) (wire : Option WireDecision) (ctx_err : Option Error) (read : ReadBody)
    (status : ℕ) (id : Bytes) (hinted : Bool)
    → (conclude e wire ctx_err read status id hinted).answer.1 ≡ none
    → (status ≡ 200)
      × (read.failure ≡ none)
      × (is_allow wire ≡ true)
      × ((conclude e wire ctx_err read status id hinted).answer.0 ≡ to_decision id wire)
      × ((not e.require_confirmed_revision || revision_confirmed (to_decision id wire)) ≡ true)
unfolding conclude
conclude_allows e wire ctx_err read status id hinted h =
    ground (arith, accept_allow_cases e wire status id hinted, refuse_some wire status id)

-- errors.As or errors.Is of an error that may be nil
abbrev pub error_is : (Error → Bool) → Option Error → Bool
error_is p none = false
error_is p (some e) = p e

-- An unavailable backend, by its status
abbrev pub is_overloaded : ℕ → Bool
is_overloaded status = status == 429 || status == 502 || status == 503 || status == 504

accept_allow-error :
    (e : O3coEndpoint) (wire : Option WireDecision) (status : ℕ) (id : Bytes) (hinted : Bool)
    → (error_is as_denied (accept_allow e wire status id hinted).answer.1 ≡ false)
      × (error_is as_unauthenticated (accept_allow e wire status id hinted).answer.1 ≡ false)
      × (error_is (is_sentinel backend_unavailable) (accept_allow e wire status id hinted).answer.1
          ≡ false)
unfolding accept_allow as_denied as_unauthenticated is_sentinel
accept_allow-error e wire status id hinted = ground arith

refuse-error :
    (wire : Option WireDecision) (status : ℕ) (id : Bytes)
    → (error_is as_denied (refuse wire status id).1 ≡ (status == 403))
      × (error_is as_unauthenticated (refuse wire status id).1
          ≡ (status == 401 && not (equal (code_of wire) code_caller_unauthenticated)))
      × (error_is (is_sentinel backend_unavailable) (refuse wire status id).1
          ≡ is_overloaded status)
unfolding refuse status_error as_denied as_unauthenticated is_sentinel same_sentinel
refuse-error wire status id = ground arith

request_error-error :
    (ctx_err : Option Error) (is_transient : Bool) (what : Bytes) (x : Error)
    → (as_denied (request_error ctx_err is_transient what x) ≡ error_is as_denied ctx_err)
      × (as_unauthenticated (request_error ctx_err is_transient what x)
          ≡ error_is as_unauthenticated ctx_err)
unfolding request_error as_denied as_unauthenticated
request_error-error (some c) b what x = (refl, refl)
request_error-error none true what x = (refl, refl)
request_error-error none false what x = (refl, refl)

success-other :
    (status : ℕ) → is_success status ≡ true → ((status == 403) ≡ false) × ((status == 401) ≡ false)
success-other status h = ground arith

module _ (e : O3coEndpoint) (wire : Option WireDecision) (ctx_err : Option Error) (read : ReadBody)
    (status : ℕ) (id : Bytes) (hinted : Bool) where
  conclude_success :
      is_success status ≡ true
      → (conclude e wire ctx_err read status id hinted).answer.1 ≡ (elim read.failure [
        | none ↦ (accept_allow e wire status id hinted).answer.1
        | some f ↦ some (
            request_error ctx_err
              (transient f)
              (bytes "reading the response failed")
              (failure_error f))
      ])
  unfolding conclude
  conclude_success h = ground arith

  conclude_refusal :
      is_success status ≡ false
      → (conclude e wire ctx_err read status id hinted).answer.1 ≡ (refuse wire status id).1
  unfolding conclude
  conclude_refusal h = rw h

  -- A predicate that an allow's errors do not have, nor those of a broken body, has its value at the
  -- errors of a refusal.
  conclude_predicate :
      (p : Error → Bool) (b : Bool)
      → error_is p (accept_allow e wire status id hinted).answer.1 ≡ false
      → ((f : Failure)
          → p (
              request_error ctx_err
                (transient f)
                (bytes "reading the response failed")
                (failure_error f))
            ≡ false)
      → error_is p (refuse wire status id).1 ≡ b
      → (is_success status ≡ true → b ≡ false)
      → error_is p (conclude e wire ctx_err read status id hinted).answer.1 ≡ b
  conclude_predicate p b ha hr hb hs = go (is_success status) refl (read.failure) refl
    where
      go :
          (s : Bool)
          → is_success status ≡ s
          → (o : Option Failure) → read.failure ≡ o
          → error_is p (conclude e wire ctx_err read status id hinted).answer.1 ≡ b
      go false h o ho = rw (conclude_refusal h, hb)
      go true h none ho = rw (conclude_success h, ho, ha, hs h)
      go true h (some f) ho = rw (conclude_success h, ho, hr f, hs h)

-- Of an answer whose body was read or broke off, the error is a denial exactly for a 403, whatever
-- its body, and the caller's credentials are refused exactly for a 401 without the code of the
-- service's own credential, provided that the context's error is neither.
pub conclude-error :
    (e : O3coEndpoint) (wire : Option WireDecision) (ctx_err : Option Error) (read : ReadBody)
    (status : ℕ) (id : Bytes) (hinted : Bool)
    → error_is as_denied ctx_err ≡ false
    → error_is as_unauthenticated ctx_err ≡ false
    → (error_is as_denied (conclude e wire ctx_err read status id hinted).answer.1
        ≡ (status == 403))
      × (error_is as_unauthenticated (conclude e wire ctx_err read status id hinted).answer.1
          ≡ (status == 401 && not (equal (code_of wire) code_caller_unauthenticated)))
conclude-error e wire ctx_err read status id hinted hd hu =
    let (ad, au, _) = accept_allow-error e wire status id hinted in
    let (rd, ru, _) = refuse-error wire status id in
    (
      conclude_predicate e wire ctx_err read status id hinted as_denied (status == 403) ad
          (λ f.
            (request_error-error ctx_err (transient f) (bytes "reading the response failed")
              (failure_error f)).0
            ∙ hd)
          rd (λ h. (success-other status h).0),
      conclude_predicate e wire ctx_err read status id hinted as_unauthenticated
          (status == 401 && not (equal (code_of wire) code_caller_unauthenticated)) au
          (λ f.
            (request_error-error ctx_err (transient f) (bytes "reading the response failed")
              (failure_error f)).1
            ∙ hu)
          ru (λ h. ground (arith, success-other status h)),
    )
