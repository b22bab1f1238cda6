-- ===== src/Endpoint/Backend/Laws.antt =====
-- What the endpoints receive of a body, and the requests that they make.
use protobuf_interceptors.Base.{ℕ, ◌<◌, ◌≤◌, ◌≡◌, false, Option, none, some, arith, String, length}
use protobuf_interceptors.Text.Bytes.{Bytes}
use protobuf_interceptors.Core.Context.{Context}
use protobuf_interceptors.Core.Errors.{Error, Result, ok, err}
use protobuf_interceptors.Endpoint.Backend.{
  ReadBody, Backend, Body, Request, Response, Logged, received, receive, read_body, wrap_error,
  created,
}
use protobuf_interceptors.Endpoint.Http.{max_int64}
use protobuf_interceptors.Endpoint.Http.Laws.{read_bounded_lem}

-- A body that was read to its end within the bound is the whole of it.
pub read_body_whole :
    (body : Body) (max : ℕ)
    → max < max_int64
    → (read_body body max).failure ≡ none
    → (read_body body max).oversized ≡ false
    → (body.broken ≡ none)
      × (length body.content ≤ max)
      × ((read_body body max).content ≡ body.content)
unfolding read_body
read_body_whole body max h hf ho = ground (arith, read_bounded_lem body.content max h)

-- A body received without a failure is the body read.
pub receive-received :
    {S : Type 0} (backend : Backend S) (ctx : Context) (max : ℕ) (what failed_line : String)
    (id : Bytes) (resp : Response) (st : Logged S) (read : ReadBody) (logged : Logged S)
    → receive backend ctx max what failed_line id resp st ≡ (received read, logged)
    → read.failure ≡ none
    → read ≡ read_body resp.body max
unfolding receive
receive-received backend ctx max what failed_line id resp st read logged h hf = ground arith

pub read_whole :
    (body : Body) (max : ℕ)
    → max < max_int64
    → body.broken ≡ none
    → length body.content ≤ max
    → read_body body max ≡ record { content = body.content; oversized = false; failure = none }
unfolding read_body
read_whole body max h hb hl = ground (arith, read_bounded_lem body.content max h)

pub receive_whole :
    {S : Type 0} (backend : Backend S) (ctx : Context) (max : ℕ) (what failed_line : String)
    (id : Bytes) (resp : Response) (st : Logged S)
    → max < max_int64
    → resp.body.broken ≡ none
    → length resp.body.content ≤ max
    → receive backend ctx max what failed_line id resp st ≡ (
      received (record { content = resp.body.content; oversized = false; failure = none }),
      record st { outside = backend.elapse st.outside },
    )
unfolding receive
receive_whole backend ctx max what failed_line id resp st h hb hl =
    ground (arith, read_whole resp.body max h hb hl)

pub wrap_error_ok :
    {V : Type 0} (format : String) (r : Result V) (v : V) → wrap_error format r ≡ ok v → r ≡ ok v
wrap_error_ok format (err x) v h = cc
wrap_error_ok format (ok y) v h = h

pub created_ok :
    (format : String) (x : Option Error) (made request : Request)
    → created format x made ≡ ok request
    → made ≡ request
created_ok format (some x) made request h = cc
created_ok format none made request h = cc
