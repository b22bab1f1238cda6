-- ===== src/Lib.antt =====
-- The authorization interceptors of protobuf.interceptors: from a policy declared on an RPC method to
-- the endpoint's verdict and the call of the handler.
--
-- An RPC passes two interceptors. The policy interceptor finds the policy of the method in its
-- descriptor, fills the placeholders of the policy's resource from the request, and puts resource and
-- action on the context. The verification interceptor asks an endpoint about them and calls the
-- handler on an allow. A stream is asked about when it opens, and again for its messages.
--
-- Files and what they model:
--   Base, Text            lists, Boolean tests, calls that may panic; byte strings, UTF-8 runes and
--                         numbers as text, as Go's strings, unicode and strconv treat them
--   Core/Context          context.go: the context as a record of what its keys hold
--   Core/Decision         decision.go: Decision, ConfirmedRevision, RevisionConfirmed
--   Core/Errors           errors.go: all error values as one data type; errors.Is and errors.As
--   Core/Request          request.go: InboundRequestID, InboundBearerToken
--   Core/Resolve          resolve.go: ResolveResourceWithFields; its child Template is
--                         substituteResource and validateResourceValue, Extract is extractField,
--                         fieldPath and scalarString
--   Streamcheck           internal/streamcheck/streamcheck.go: the gate of a stream's checks
--   Methodset             internal/methodset/methodset.go: the exemptions
--   Endpoint/Verifier     endpoint/endpoint.go: the two interfaces of an endpoint
--   Grpc/Lookup           grpc/lookup.go: the policy of a method and its cache
--   Grpc/Errors           grpc/errors.go: toGRPCError
--   Grpc/Config           grpc/interceptor.go: config, verify, withInbound
--   Grpc/Unary            grpc/interceptor.go: PolicyOptionInterceptor, VerificationInterceptor
--   Grpc/Stream           grpc/stream_interceptor.go: both stream interceptors; its child Run is a
--                         handler's run over an authServerStream
--   Endpoint/Static       endpoint/static.go and endpoint/helpers.go: the static endpoint
--   Endpoint/Http         endpoint/http.go: statusError, readBounded, requestError, header names
--   Endpoint/Hosts        endpoint/http.go: validPort, validHostName, asciiLower, redactedEntry
--   Endpoint/Headers      endpoint/http.go and endpoint/o3co.go: noContentCoding, the static headers,
--                         validateStaticHeaders, over net/http's Header; its child Static says which
--                         headers and keys are taken
--   Endpoint/Failures     endpoint/http.go: transient, tlsRefusal
--   Endpoint/Reach        endpoint/http.go: addPlainInternal, client, parseBaseURL, plainInternalPair,
--                         urlPair, isLoopback, newHTTPClient
--   Endpoint/Json         the values that encoding/json decodes into
--   Endpoint/Envelope     endpoint/o3co_decision.go: the readers of a decision; its child Encode is the
--                         verifier's side of the contract
--   Endpoint/Backend      what an endpoint asks of encoding/json, net/http and the context, readBounded
--                         of a body that may break off, and decodeObject
--   Endpoint/O3co         endpoint/o3co.go: acceptAllow, carriesEvaluation, the request and the verdict;
--                         its child Exchange is VerifyDecision
--   Endpoint/Asking       endpoint/opa.go and endpoint/cedar.go: the exchange that they have in common
--   Endpoint/Opa          endpoint/opa.go: Verify
--   Endpoint/Cedar        endpoint/cedar.go: formatEntityUID, Verify
--   Endpoint/Options      endpoint/o3co.go, opa.go, cedar.go: options and constructors
--   Connect/Errors        connectrpc/errors.go: toConnectError
--   Connect/Interceptor   connectrpc/interceptor.go: both interceptors around unary handlers, and the
--                         policy interceptor around streaming ones
--   Connect/Stream        connectrpc/interceptor.go: authStreamingHandlerConn, and the verification
--                         interceptor around streaming handlers
--   Privatenet            internal/privatenet/privatenet.go: Contains, attemptContext; its child Dial is DialContext
--   Tests                 concrete policies, requests and streams
--
-- State. A call of code outside the interceptors (the endpoint, the observer, the transport, the
-- handler) takes a state of a type `S` and gives back a new one with what it returned, or with the fact
-- that it panicked; the clock is a part of that state. The gate of a stream is a record that each check
-- returns anew; its mutex makes the checks of one gate a sequence, which is how they are modelled. A
-- handler over a stream is the tree of its sends and receives, so that it can react to each outcome, a
-- panic that it recovers included; its sends and receives are taken in one order.
--
-- Parameters. Messages and descriptors are protoreflect's: a record of the operations used and of the
-- one law relied on, that a field found by a name has that name. The registry of descriptors is a
-- function, as are the tests of protobuf names, the clock, crypto/rand's bytes and the context's Err.
-- The backend of an endpoint is a record of functions: marshalling, decoding, making a request, sending
-- it, the passing of time and the context's error. The parsers of URLs and addresses are another, and
-- the Cedar endpoint's resolver is an argument.
--
-- Bounds. The loop of substituteResource runs on a bound that is the template's length; each round
-- consumes at least a character, so that the loop ends before the bound does. A decimal number is
-- written with as many rounds as its value plus one. Times are natural numbers of nanoseconds.
--
-- Not modelled: the fields of the transport that internal/privatenet stands behind, but its dialer's
-- timeout; the loggers, of which an endpoint's lines are kept as a list; the panics of the interceptors'
-- constructors on arguments they refuse; generated code, the mock, and the reader of the wire contract
-- that the tests use.
pub mod Base
pub mod Text
pub mod Core
pub mod Streamcheck
pub mod Methodset
pub mod Endpoint
pub mod Grpc
pub mod Connect
pub mod Privatenet
mod Tests
