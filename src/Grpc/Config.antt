-- ===== src/Grpc/Config.antt =====
-- grpc/interceptor.go: the configuration of a verification interceptor, one authorization check,
-- and the reading of the inbound credentials. The state `S` stands for all that the endpoint, the
-- observer, the transport and the handler can change, the clock included.
use protobuf_interceptors.Base.{
  ℕ, ◌-◌, Bool, true, false, not, ◌||◌, Option, none, some, List, [], ◌∷◌, leb, if◌then◌else◌,
}
use protobuf_interceptors.Base.Outcomes.{Call, ◌>>=◌, pure}
use protobuf_interceptors.Text.Bytes.{Bytes}
use protobuf_interceptors.Text.Numbers.{ℤ, pos, negsuc}
use protobuf_interceptors.Core.Context.{Context, with_bearer_token, with_request_id, with_decision}
use protobuf_interceptors.Core.Decision.{Decision}
use protobuf_interceptors.Core.Errors.{Error, text, errorf_w, sentinel, no_policy, Result, ok, err}
use protobuf_interceptors.Core.Request.{inbound_bearer_token, inbound_request_id}
use protobuf_interceptors.Endpoint.Verifier.{Verifier, Answer, verify_with_decision}
use protobuf_interceptors.Methodset
use protobuf_interceptors.Methodset.{Set}

pub data CheckPhase : Type 0 where
  check_open check_send check_receive : CheckPhase

pub record DecisionEvent : Type 0 where
  pub procedure : Bytes
  pub phase : CheckPhase
  pub duration : ℤ
  pub resource : Bytes
  pub action : Bytes
  pub decision : Option Decision
  pub err : Option Error

-- `end.Sub(start)`
abbrev pub elapsed : ℕ → ℕ → ℤ
elapsed start end = if leb start end then pos (end - start) else negsuc (start - end - 1)

pub record Config (S : Type 0) : Type 0 where
  pub observer : Option (Context → DecisionEvent → Call S (Unit {0}))
  pub recheck_interval : ℕ
  pub now : S → ℕ × S
  pub require_policy : Bool
  pub exempt : Set

-- `newConfig` before its options
abbrev pub default_config : {S : Type 0} → (S → ℕ × S) → Config S
default_config now = record {
  observer = none;
  recheck_interval = 0;
  now = now;
  require_policy = false;
  exempt = Methodset.empty;
}

module _ {S : Type 0} where
  -- `WithRequirePolicy`, of entries that parse
  unfoldable pub with_require_policy : Set → Config S → Config S
  with_require_policy set c = record c {
    require_policy = true;
    exempt = Methodset.union c.exempt set;
  }

  -- `WithStreamRecheckInterval`
  unfoldable pub with_stream_recheck_interval : ℕ → Config S → Config S
  with_stream_recheck_interval d c = record c { recheck_interval = d }

  -- `WithDecisionObserver`
  unfoldable pub with_decision_observer :
      (Context → DecisionEvent → Call S (Unit {0})) → Config S → Config S
  with_decision_observer fn c = record c { observer = some fn }

  -- `checkUnannotated`
  unfoldable pub check_unannotated : Config S → Bytes → Option Error
  check_unannotated c full_method =
      if not c.require_policy || Methodset.contains c.exempt full_method
      then none
      else some (errorf_w "method %s: %w" (text full_method ∷ []) (sentinel no_policy))

  -- The call of the endpoint in `verify`, with the time that it took.
  unfoldable pub timed : Config S → Verifier S → Context → Bytes → Bytes → Call S (Answer × ℤ)
  unfolding verify_with_decision
  timed c verifier ctx resource action s =
      let (start, s1) = c.now s in
      (verify_with_decision ctx verifier resource action >>= λ answer s2.
      let (end, s3) = c.now s2 in pure (answer, elapsed start end) s3)
        s1

  -- The observer's call, if there is an observer.
  unfoldable pub observe : Config S → Context → DecisionEvent → Call S (Unit {0})
  observe c ctx ev = elim c.observer [ none ↦ pure tt | some fn ↦ fn ctx ev ]

  -- The end of `verify`: the observer is handed what the check came to, which is then returned.
  unfoldable pub report :
      Config S → Context → Bytes → CheckPhase → Bytes → Bytes → Answer × ℤ → Call S Answer
  unfolding observe
  report c ctx procedure phase resource action ((decision, e), took) =
      observe c ctx (record {
        procedure = procedure;
        phase = phase;
        duration = took;
        resource = resource;
        action = action;
        decision = decision;
        err = e;
      })
      >>= λ _. pure (decision, e)

  -- What `verify` asks, unless the credential could not be read.
  unfoldable pub ask :
      Config S → Context → Verifier S → Bytes → Bytes → Option Error → Call S (Answer × ℤ)
  unfolding timed
  ask c ctx verifier resource action (some e) = pure ((none, some e), pos 0)
  ask c ctx verifier resource action none = timed c verifier ctx resource action

  -- `verify`
  unfoldable pub verify :
      Config S
      → Context
      → Verifier S
      → Bytes
      → CheckPhase
      → Bytes
      → Bytes
      → Option Error
      → Call S Answer
  unfolding ask report
  verify c ctx verifier procedure phase resource action cred_err =
      ask c ctx verifier resource action cred_err >>= report c ctx procedure phase resource action

-- What a request carried: the values of its authorization and x-request-id metadata, and what the
-- clock and crypto/rand give for a generated request ID.
pub record Inbound : Type 0 where
  pub authorization : List Bytes
  pub x_request_id : List Bytes
  pub second : Bytes
  pub suffix : Bytes

-- What `InboundBearerToken` returned, on the context and as the error that is returned.
unfoldable pub with_token : Context → Result Bytes → Context × Option Error
with_token ctx (ok []) = (ctx, none)
with_token ctx (ok (c ∷ token)) = (with_bearer_token ctx (c ∷ token), none)
with_token ctx (err e) = (ctx, some e)

-- `withInbound`
unfoldable pub with_inbound : Context → Inbound → Context × Option Error
unfolding with_token
with_inbound ctx r =
    let (ctx1, cred_err) = with_token ctx (inbound_bearer_token r.authorization) in
    (with_request_id ctx1 (inbound_request_id r.second r.suffix r.x_request_id), cred_err)

-- `withDecision`
unfoldable pub with_reported : Context → Option Decision → Context
with_reported ctx none = ctx
with_reported ctx (some d) = with_decision ctx d
