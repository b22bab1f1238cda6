-- ===== src/Tests/Connect.antt =====
-- The theorems of connectrpc/ and of the static endpoint on concrete values.
use protobuf_interceptors.Base.{◌≡◌, ◌↔◌, refl, false, none, some, List, [], ◌∷◌}
use protobuf_interceptors.Base.Outcomes.{returned}
use protobuf_interceptors.Text.Bytes.{Bytes, bytes}
use protobuf_interceptors.Core.Context.{PolicyData}
use protobuf_interceptors.Core.Errors.{ok}
use protobuf_interceptors.Connect.Agreement.{verification_wrap_unary_iff}
use protobuf_interceptors.Connect.Interceptor.{Spec, verification_wrap_unary}
use protobuf_interceptors.Connect.Stream.{connect_stream_checked}
use protobuf_interceptors.Connect.Stream.Agreement.{connect_stream_checked-stream_checked}
use protobuf_interceptors.Endpoint.Static.{StaticRule, get_bearer_token, verify_static}
use protobuf_interceptors.Endpoint.Static.Laws.{HasRule, verify_static_iff}
use protobuf_interceptors.Grpc.Lookup.{extension}
use protobuf_interceptors.Grpc.Stream.Run.{stream_checked}
use protobuf_interceptors.Grpc.Unary.{proceed, verification_verdict}
use protobuf_interceptors.Tests.Samples.{
  get_policy, get_method, cfg, allowing, ctx_err, inbound, annotated, seen, transport,
}
use protobuf_interceptors.Tests.Streams.{answering}

abbrev spec : Spec
spec = record { procedure = get_method; is_client = false; schema = some (extension get_policy) }

verification_wrap_unary_iff_example :
    (verification_wrap_unary ctx_err cfg allowing annotated inbound spec 0
      ≡ (returned (proceed seen), 3))
    ↔ (verification_verdict ctx_err cfg allowing annotated inbound get_method 0
        ≡ (returned (proceed seen), 3))
verification_wrap_unary_iff_example =
    verification_wrap_unary_iff cfg allowing ctx_err annotated seen inbound spec 0 3 refl

abbrev target : PolicyData
target = record { resource = bytes "orders.o-7:get"; action = bytes "read" }

connect_stream_checked-stream_checked_example :
    connect_stream_checked transport cfg allowing answering get_method annotated none
      (some target)
      0
    ≡ stream_checked transport cfg allowing annotated get_method answering none (some target) 0
connect_stream_checked-stream_checked_example =
    connect_stream_checked-stream_checked transport cfg allowing answering get_method annotated none
      target 0

abbrev rules : List StaticRule
rules = record { resource = bytes "orders.*"; action = bytes "read" } ∷ []

verify_static_iff_example :
    (verify_static rules seen (bytes "orders.o-7:get") (bytes "read") ≡ none) ↔ (
      ((token : Bytes) × (get_bearer_token seen ≡ ok token))
      × HasRule rules (bytes "orders.o-7:get") (bytes "read"))
verify_static_iff_example = verify_static_iff rules seen (bytes "orders.o-7:get") (bytes "read")
