-- ===== src/Core/Context.antt =====
-- context.go: the values that the interceptors put on a request's context. A context is the record
-- of what is stored under each key; a value not stored is `none`.
use protobuf_interceptors.Base.{Bool, true, Option, none, some, List, []}
use protobuf_interceptors.Text.Bytes.{Bytes}
use protobuf_interceptors.Core.Decision.{Decision}

pub record PolicyData : Type 0 where
  pub resource : Bytes
  pub action : Bytes

abbrev pub Fields : Type 0
Fields = List (Bytes × Bytes)

pub record Context : Type 0 where
  pub policy : Option PolicyData
  pub interceptor_ran : Bool
  pub bearer_token : Option Bytes
  pub request_id : Option Bytes
  pub extracted_fields : Option Fields
  pub decision : Option Decision

abbrev pub with_policy : Context → Bytes → Bytes → Context
with_policy ctx resource action = record ctx {
  policy = some (record { resource = resource; action = action });
}

abbrev pub policy_from_context : Context → Option PolicyData
policy_from_context ctx = ctx.policy

abbrev pub mark_interceptor_ran : Context → Context
mark_interceptor_ran ctx = record ctx { interceptor_ran = true }

abbrev pub interceptor_ran_from_context : Context → Bool
interceptor_ran_from_context ctx = ctx.interceptor_ran

abbrev pub with_bearer_token : Context → Bytes → Context
with_bearer_token ctx token = record ctx { bearer_token = some token }

abbrev pub bearer_token_from_context : Context → Option Bytes
bearer_token_from_context ctx = ctx.bearer_token

abbrev pub with_request_id : Context → Bytes → Context
with_request_id ctx id = record ctx { request_id = some id }

abbrev pub request_id_from_context : Context → Bytes
request_id_from_context ctx = elim ctx.request_id [ none ↦ [] | some id ↦ id ]

abbrev pub with_extracted_fields : Context → Fields → Context
with_extracted_fields ctx fields = record ctx { extracted_fields = some fields }

abbrev pub extracted_fields_from_context : Context → Option Fields
extracted_fields_from_context ctx = ctx.extracted_fields

abbrev pub with_decision : Context → Decision → Context
with_decision ctx d = record ctx { decision = some d }

abbrev pub decision_from_context : Context → Option Decision
decision_from_context ctx = ctx.decision
