-- ===== src/Tests/Endpoint.antt =====
-- The theorems of endpoint/http.go and internal/privatenet on concrete values.
use protobuf_interceptors.Privatenet.{contains_private, v4, octets}
use protobuf_interceptors.Privatenet.Laws.{PrivateV4, contains_private-v4_iff}
use protobuf_interceptors.Base.{ℕ, ◌↔◌, ◌≢◌}
use protobuf_interceptors.Base.{◌≡◌, arith, true, false, length, ltb, if◌then◌else◌, take}
use protobuf_interceptors.Text.Bytes.{Bytes, bytes}
use protobuf_interceptors.Core.Errors.{Error, sentinel, context_deadline_exceeded}
use protobuf_interceptors.Endpoint.Http.{read_bounded}
use protobuf_interceptors.Endpoint.Http.Laws.{read_bounded_lem}

abbrev body : Bytes
body = bytes "allowed"

read_bounded_lem_example :
    read_bounded body 5 ≡ (if ltb 5 (length body) then (take 5 body, true) else (body, false))
read_bounded_lem_example = read_bounded_lem body 5 (omega arith)

abbrev timeout : Error
timeout = sentinel context_deadline_exceeded

contains_private-v4_iff_example :
    (contains_private (v4 (octets 172 31 0 1)) ≡ true)
    ↔ (PrivateV4 (octets 172 31 0 1) × (octets 172 31 0 1 ≢ octets 100 100 100 200))
contains_private-v4_iff_example = contains_private-v4_iff (octets 172 31 0 1)

abbrev two : ℕ
two = 2
