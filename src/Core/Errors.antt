-- ===== src/Core/Errors.antt =====
-- errors.go, with the errors of the other packages as values, and errors.As and errors.Is over
-- them. A formatted text is kept as its format and its arguments.
use protobuf_interceptors.Base.{
  ℕ, Bool, true, false, ◌||◌, Option, List, String, ◌≡◌, refl, ◌⊎◌, inl, inr,
}
use protobuf_interceptors.Text.Bytes.{Bytes}
use protobuf_interceptors.Core.Decision.{Decision}

pub data Arg : Type 0 where
  text : Bytes → Arg
  rune : ℕ → Arg
  number : ℕ → Arg

pub data Sentinel : Type 0 where
  backend_unavailable no_policy caller_unauthenticated check_incomplete not_private : Sentinel
  context_canceled context_deadline_exceeded : Sentinel

-- The codes that the framework packages answer with.
pub data Code : Type 0 where
  permission_denied unauthenticated canceled deadline_exceeded unavailable internal : Code

pub data Error : Type 0 where
  -- an errors.New value that has a name of its own, or a context's error
  sentinel : Sentinel → Error
  -- errors.New and fmt.Errorf that wrap nothing
  errorf : String → List Arg → Error
  -- fmt.Errorf with %v at an error, which its text names and it does not wrap
  errorf_v : String → List Arg → Error → Error
  -- fmt.Errorf with %w
  errorf_w : String → List Arg → Error → Error
  -- errors.Join of two
  joined : Error → Error → Error
  -- DeniedError: its reason and the decision behind it
  denied : Bytes → Option Decision → Error
  -- UnauthenticatedError: its reason
  unauthenticated_error : Bytes → Error
  -- UnconfirmedRevisionError
  unconfirmed_revision : Option Decision → Error
  -- ResourceValueError: the placeholder, the value refused, and the reason's format and arguments
  resource_value : Bytes → Bytes → String → List Arg → Error
  -- what the caller is told, a code and a message, wrapping the error behind it
  status : Code → String → Error → Error

-- errors.As for a *DeniedError. A ResourceValueError unwraps to one.
unfoldable pub as_denied : Error → Bool
as_denied (denied _ _) = true
as_denied (resource_value _ _ _ _) = true
as_denied (errorf_w _ _ e) = as_denied e
as_denied (status _ _ e) = as_denied e
as_denied (joined e f) = as_denied e || as_denied f
as_denied _ = false

-- errors.As for a *UnauthenticatedError
unfoldable pub as_unauthenticated : Error → Bool
as_unauthenticated (unauthenticated_error _) = true
as_unauthenticated (errorf_w _ _ e) = as_unauthenticated e
as_unauthenticated (status _ _ e) = as_unauthenticated e
as_unauthenticated (joined e f) = as_unauthenticated e || as_unauthenticated f
as_unauthenticated _ = false

unfoldable pub same_sentinel : Sentinel → Sentinel → Bool
same_sentinel backend_unavailable backend_unavailable = true
same_sentinel no_policy no_policy = true
same_sentinel caller_unauthenticated caller_unauthenticated = true
same_sentinel check_incomplete check_incomplete = true
same_sentinel not_private not_private = true
same_sentinel context_canceled context_canceled = true
same_sentinel context_deadline_exceeded context_deadline_exceeded = true
same_sentinel _ _ = false

-- errors.Is for a sentinel
unfoldable pub is_sentinel : Sentinel → Error → Bool
unfolding same_sentinel
is_sentinel t (sentinel s) = same_sentinel t s
is_sentinel t (errorf_w _ _ e) = is_sentinel t e
is_sentinel t (status _ _ e) = is_sentinel t e
is_sentinel t (joined e f) = is_sentinel t e || is_sentinel t f
is_sentinel _ _ = false

-- What a Go function returns that ends in an error: its values, or an error that is not nil.
pub data Result {ℓ} (V : Type ℓ) : Type ℓ where
  err : Error → Result V
  ok : V → Result V

pub Result-cases {ℓ} :
    {V : Type ℓ} (r : Result V) → ((v : V) × (r ≡ ok v)) ⊎ ((e : Error) × (r ≡ err e))
Result-cases (err e) = inr (e, refl)
Result-cases (ok v) = inl (v, refl)

module _ {ℓ κ} {V : Type ℓ} {W : Type κ} where
  infixl 5 ◌>>=◌
  -- `if err != nil { return err }` between two steps.
  abbrev pub ◌>>=◌ : Result V → (V → Result W) → Result W
  err e >>= next = err e
  ok v >>= next = next v

  pub >>=-eq-ok :
      (r : Result V) (next : V → Result W) {w : W}
      → (r >>= next) ≡ ok w
      → (v : V) × (r ≡ ok v) × (next v ≡ ok w)
  >>=-eq-ok (err e) next h = cc
  >>=-eq-ok (ok v) next h = (v, refl, h)
