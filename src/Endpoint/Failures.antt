-- ===== src/Endpoint/Failures.antt =====
-- endpoint/http.go: the failures of a request, as net, crypto/tls and net/http report them, and
-- which of them are worth a retry. A failure is an error with those that it wraps.
pub mod Laws
use protobuf_interceptors.Base.{
  Bool, true, false, not, ◌&&◌, ◌||◌, Option, none, some, List, [], ◌∷◌, ◌++◌, any, if◌then◌else◌,
}
use protobuf_interceptors.Text.Bytes.{Bytes, bytes, equal, has_prefix}
use protobuf_interceptors.Core.Errors.{Error, text, errorf}

-- What errors.As and errors.Is tell of one error, without those that it wraps: a tls.AlertError, a
-- *tls.CertificateVerificationError, a tls.RecordHeaderError, a *net.AddrError,
-- http.ErrSchemeMismatch, privatenet.ErrNotPrivate, a *net.OpError by its Op, or none of these.
pub data Kind : Type 0 where
  alert certificate record_header address scheme_mismatch not_private other : Kind
  operation : Bytes → Kind

mutual
  -- Its kind, its text, and what `Unwrap` gives.
  pub data Failure : Type 0 where
    failure : Kind → Bytes → Failures → Failure

  pub data Failures : Type 0 where
    no_failures : Failures
    failures : Failure → Failures → Failures

-- The errors that one error wraps, itself first, in the order errors.As and errors.Is look at them.
abbrev mutual
  pub wrapped : Failure → List Failure
  wrapped (failure kind s inner) = failure kind s inner ∷ wrapped_all inner

  pub wrapped_all : Failures → List Failure
  wrapped_all no_failures = []
  wrapped_all (failures f fs) = wrapped f ++ wrapped_all fs

abbrev pub kind_of : Failure → Kind
kind_of (failure kind _ _) = kind

abbrev pub text_of : Failure → Bytes
text_of (failure _ s _) = s

-- `tlsRefusal`, and its loop over the errors of a multiple wrap
unfoldable mutual
  pub tls_refusal : Failure → Bool
  tls_refusal (failure kind s inner) =
      if has_prefix s (bytes "tls: ") then true else tls_refusal_any inner

  pub tls_refusal_any : Failures → Bool
  tls_refusal_any no_failures = false
  tls_refusal_any (failures f fs) = if tls_refusal f then true else tls_refusal_any fs

-- The first case of `transient`, without `tlsRefusal`.
abbrev pub is_refusal : Kind → Bool
is_refusal alert = true
is_refusal certificate = true
is_refusal record_header = true
is_refusal address = true
is_refusal scheme_mismatch = true
is_refusal not_private = true
is_refusal other = false
is_refusal (operation _) = false

-- errors.As or errors.Is of any of these
abbrev pub has_refusal : List Failure → Bool
has_refusal = any (λ f. is_refusal (kind_of f))

abbrev pub operation_of : Kind → Option Bytes
operation_of (operation op) = some op
operation_of _ = none

-- errors.As of a *net.OpError: the `Op` of the first one.
unfoldable pub first_operation : List Failure → Option Bytes
first_operation [] = none
first_operation (f ∷ fs) = elim (operation_of (kind_of f)) [
  | some op ↦ some op
  | none ↦ first_operation fs
]

abbrev pub is_alert_operation : Bytes → Bool
is_alert_operation op = equal op (bytes "remote error") || equal op (bytes "local error")

-- `transient`
unfoldable pub transient : Failure → Bool
unfolding tls_refusal first_operation equal
transient f =
    if has_refusal (wrapped f) || tls_refusal f
    then false
    else elim (first_operation (wrapped f)) [ none ↦ true | some op ↦ not (is_alert_operation op) ]

-- The text of a failure, as `%v` writes it.
abbrev pub failure_error : Failure → Error
failure_error f = errorf "%s" (text (text_of f) ∷ [])
