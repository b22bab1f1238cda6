-- ===== src/Endpoint/Verifier.antt =====
-- endpoint/endpoint.go: the two interfaces of an endpoint. A call of an endpoint changes a state
-- that stands for the backend, the network and the clock, and may panic.
use protobuf_interceptors.Base.{Option, none}
use protobuf_interceptors.Base.Outcomes.{Call, ◌>>=◌, pure}
use protobuf_interceptors.Text.Bytes.{Bytes}
use protobuf_interceptors.Core.Context.{Context}
use protobuf_interceptors.Core.Decision.{Decision}
use protobuf_interceptors.Core.Errors.{Error}

-- A decision and an error, each of which may be nil.
abbrev pub Answer : Type 0
Answer = Option Decision × Option Error

-- A VerifierEndpoint that is no DecisionVerifier, by `Verify`, and one that is, by
-- `VerifyDecision`.
pub data Verifier (S : Type 0) : Type 0 where
  plain : (Context → Bytes → Bytes → Call S (Option Error)) → Verifier S
  deciding : (Context → Bytes → Bytes → Call S Answer) → Verifier S

-- `VerifyWithDecision`
unfoldable pub verify_with_decision :
    {S : Type 0} → Context → Verifier S → Bytes → Bytes → Call S Answer
verify_with_decision ctx (deciding verify_decision) resource action =
    verify_decision ctx resource action
verify_with_decision ctx (plain verify) resource action =
    verify ctx resource action >>= λ e. pure (none, e)
