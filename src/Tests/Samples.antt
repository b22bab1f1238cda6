-- ===== src/Tests/Samples.antt =====
-- The service, the messages and the endpoint of the examples. The state is a clock that each
-- reading and each call of the endpoint moves on.
use protobuf_interceptors.Base.{
  ℕ, suc, ◌≡◌, Bool, true, false, Option, none, some, [], ◌∷◌, if◌then◌else◌, length,
}
use protobuf_interceptors.Base.Outcomes.{returned}
use protobuf_interceptors.Text.Bytes.{Bytes, bytes, equal}
use protobuf_interceptors.Text.Numbers.{pos}
use protobuf_interceptors.Core.Context.{
  Context, with_extracted_fields, with_policy, mark_interceptor_ran,
}
use protobuf_interceptors.Core.Errors.{Error, errorf}
use protobuf_interceptors.Core.Resolve.{Policy}
use protobuf_interceptors.Core.Resolve.Extract.{
  Reflection, Kind, string_kind, int32_kind, bytes_kind,
}
use protobuf_interceptors.Endpoint.Verifier.{Verifier, plain}
use protobuf_interceptors.Grpc.Config.{Config, default_config, Inbound, with_inbound}
use protobuf_interceptors.Grpc.Lookup.{Registered, missing, service, extension, no_extension}
use protobuf_interceptors.Grpc.Stream.{Transport, proto_message}

unfoldable pub field_kind : Bytes → Kind
unfolding equal
field_kind name =
    if equal name (bytes "count")
    then int32_kind
    else if equal name (bytes "raw")
    then bytes_kind
    else string_kind

abbrev pub is_set : Bytes → Bool
is_set [] = false
is_set (_ ∷ _) = true

pub field_name_found : (md : Unit {0}) (n fd : Bytes) → some n ≡ some fd → fd ≡ n
field_name_found md n fd h = cc

-- A message is the text of all its fields; one without text has no field set.
abbrev pub reflection : Reflection
reflection = record {
  MessageDescriptor = Unit {0};
  FieldDescriptor = Bytes;
  Message = Bytes;
  Value = Bytes;
  descriptor = λ m. tt;
  full_name = λ md. bytes "shop.GetRequest";
  field_by_name = λ md n. some n;
  name = λ fd. fd;
  is_list = λ fd. false;
  is_map = λ fd. false;
  kind = field_kind;
  kind_name = λ k. bytes "kind";
  message_descriptor = λ fd. some tt;
  default = λ fd. [];
  has = λ m fd. is_set m;
  get = λ m fd. m;
  message = λ v. v;
  string_value = λ v. v;
  bytes_value = λ v. v;
  int_value = λ v. pos (length v);
  uint_value = λ v. length v;
  bool_value = λ v. true;
  name_found = field_name_found;
}

abbrev pub get_policy : Policy
get_policy = record {
  resource = bytes "orders.<order>:get";
  action = bytes "read";
  field_mappings = record { placeholder = bytes "order"; request_field = bytes "id" } ∷ [];
}

-- One service, with a method that has a policy and one that has none.
unfoldable pub find : Bytes → Registered
unfolding equal
find name =
    if equal name (bytes "shop.Orders")
    then service (λ method.
      if equal method (bytes "Get")
      then some (extension get_policy)
      else if equal method (bytes "Ping")
      then some no_extension
      else none)
    else missing (errorf "not found" [])

abbrev pub get_method : Bytes
get_method = bytes "/shop.Orders/Get"

abbrev pub now : ℕ → ℕ × ℕ
now s = (s, suc s)

abbrev pub cfg : Config ℕ
cfg = record (default_config now) { require_policy = true }

-- Allows everything.
abbrev pub allowing : Verifier ℕ
allowing = plain (λ ctx resource action s. (returned none, suc s))

abbrev pub ctx_err : ℕ → Option Error
ctx_err s = none

abbrev pub background : Context
background = record {
  policy = none;
  interceptor_ran = false;
  bearer_token = none;
  request_id = none;
  extracted_fields = none;
  decision = none;
}

abbrev pub second : Bytes
second = bytes "20260101000000"

abbrev pub suffix : Bytes
suffix = 0 ∷ 17 ∷ 34 ∷ 51 ∷ 68 ∷ 85 ∷ 102 ∷ 255 ∷ []

abbrev pub inbound : Inbound
inbound = record {
  authorization = bytes "bearer abc" ∷ [];
  x_request_id = bytes "r-1" ∷ [];
  second = second;
  suffix = suffix;
}

-- The context that the policy interceptor makes for a request of order o-7.
abbrev pub annotated : Context
annotated =
    with_policy
      (with_extracted_fields (mark_interceptor_ran background) ((bytes "order", bytes "o-7") ∷ []))
      (bytes "orders.o-7:get") (bytes "read")

unfoldable pub seen : Context
unfolding with_inbound
seen = (with_inbound annotated inbound).0

-- A stream of numbers: each receive gives the time.
abbrev pub transport : Transport ℕ ℕ
transport = record {
  ctx_err = ctx_err;
  send_msg = λ m s. (none, suc s);
  recv_msg = λ m s. (none, s, suc s);
  zero = 0;
  target = proto_message;
}
