-- ===== src/Tests/Streams.antt =====
-- The theorems of grpc/ on streams and of internal/streamcheck, on concrete values.
use protobuf_interceptors.Text.Bytes.{index_byte}
use protobuf_interceptors.Core.Request.{inbound_bearer_token}
use protobuf_interceptors.Grpc.Config.{verify}
use protobuf_interceptors.Base.{ℕ, suc, ◌≡◌, ◌⊎◌, sym, ◌∙◌, refl, true, Option, none, some}
use protobuf_interceptors.Base.Outcomes.{returned, panicked, Call}
use protobuf_interceptors.Text.Bytes.{bytes}
use protobuf_interceptors.Core.Context.{Context}
use protobuf_interceptors.Core.Decision.{Decision}
use protobuf_interceptors.Core.Errors.{Error, sentinel, check_incomplete, denied}
use protobuf_interceptors.Grpc.Config.{CheckPhase, check_send, check_receive, with_inbound}
use protobuf_interceptors.Grpc.Stream.{recheck, auth_receive, gate_error}
use protobuf_interceptors.Grpc.Stream.Laws.{
  ended, run-ended, IsGuarded, auth_receive-IsGuarded, recheck-passed-Allowed,
}
use protobuf_interceptors.Grpc.Stream.Opening.{
  StreamAdmitted, finished-run-failed, verification_stream_interceptor-StreamAdmitted,
}
use protobuf_interceptors.Grpc.Stream.Run.{
  Program, finish, send, run, finished, verification_stream_interceptor,
}
use protobuf_interceptors.Grpc.Unary.Verification.{Allowed}
use protobuf_interceptors.Streamcheck.{Gate, new, check}
use protobuf_interceptors.Streamcheck.Laws.{check_settles}
use protobuf_interceptors.Tests.Samples.{
  seen, get_method, now, cfg, allowing, inbound, annotated, transport,
}

abbrev pub denial : Error
denial = denied (bytes "revoked") none

abbrev pub refusing : CheckPhase → Call ℕ (Option Error)
refusing phase s = (returned (some denial), suc s)

abbrev failed_gate : Gate
failed_gate = record (new 0) { err = some denial }

abbrev pub one_send : Program ℕ ℕ
one_send = send 5 (λ outcome. finish none)

abbrev pub answering : Context → Program ℕ ℕ
answering ctx = finish none

abbrev failing : Context → Program ℕ ℕ
failing ctx = finish (some denial)

stream_answers :
    verification_stream_interceptor transport cfg allowing annotated inbound get_method answering 0
    ≡ (returned none, 4)
unfolding verification_stream_interceptor with_inbound inbound_bearer_token index_byte check verify
stream_answers = refl

stream_fails :
    verification_stream_interceptor transport cfg allowing annotated inbound get_method failing 0
    ≡ (returned (some denial), 4)
unfolding verification_stream_interceptor with_inbound inbound_bearer_token index_byte check verify
stream_fails = refl

verification_stream_interceptor-StreamAdmitted_example :
    (annotated.interceptor_ran ≡ true)
    × StreamAdmitted transport cfg allowing get_method answering failing
        (with_inbound annotated inbound).0
        (with_inbound annotated inbound).1
        annotated.policy
        0
verification_stream_interceptor-StreamAdmitted_example =
    verification_stream_interceptor-StreamAdmitted transport cfg allowing get_method answering
      failing annotated inbound 0 (λ e. cc (sym stream_answers ∙ e ∙ stream_fails))

auth_receive-IsGuarded_example :
    IsGuarded transport now refusing 3
      (check now (new 0) (refusing check_receive) 4).0
      (auth_receive transport now refusing 9 (new 0) 3)
auth_receive-IsGuarded_example =
    auth_receive-IsGuarded transport now refusing 9 3 (new 0) 3 4 refl refl

run-ended_example :
    run transport now refusing one_send failed_gate 3
    ≡ ended transport denial one_send failed_gate 3
run-ended_example = run-ended transport now refusing denial one_send failed_gate 3 refl

finished-run-failed_example :
    let r = run transport now refusing one_send failed_gate 3 in
    (((finished transport r).0 ≡ panicked)
      ⊎ ((finished transport r).0 ≡ returned (some (gate_error (transport.ctx_err r.2) denial))))
finished-run-failed_example =
    finished-run-failed transport now refusing one_send failed_gate 3 denial refl

recheck-passed-Allowed_example :
    (d : Option Decision) × Allowed cfg allowing seen (bytes "orders.o-7:get") (bytes "read") d 1
unfolding check recheck verify
recheck-passed-Allowed_example =
    recheck-passed-Allowed transport cfg allowing seen get_method (bytes "orders.o-7:get")
      (bytes "read") check_send (new 0) (record (new 0) { checked = true; last = 0 }) 0 4 refl refl

check_settles_example :
    ((check now (new 0) (refusing check_send) 3).0
      ≡ returned (check now (new 0) (refusing check_send) 3).1.err)
    ⊎ (((check now (new 0) (refusing check_send) 3).0 ≡ panicked)
        × ((check now (new 0) (refusing check_send) 3).1.err ≡ some (sentinel check_incomplete)))
check_settles_example = check_settles now (new 0) (refusing check_send) 3

abbrev passing : Call ℕ (Option Error)
passing s = (returned none, suc s)

abbrev checked_gate : Gate
checked_gate = record (new 10) { checked = true; last = 3 }

abbrev five : ℕ
five = 5
