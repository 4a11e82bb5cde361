-- ===== src/Lib.antt =====
-- The server of WunderGraph: what it does to a request on its way to an operation, and back.
--
-- A client's request passes the middleware that loads its user (pkg/authentication) and reaches a
-- handler of an operation (pkg/apihandler). The handler checks the roles of the user, collects the
-- variables, validates them (pkg/inputvariables), writes the claims of the user into them, and runs
-- the operation through a pipeline (pkg/hooks). A pipeline calls the hooks that the operation enables,
-- on the hooks server, before and after the resolver. A query may be answered from a cache
-- (pkg/apicache); subscriptions and live queries answer with a stream of messages or of patches, and
-- an operation that is a function relays what the hooks server sends. The requests of the resolver to
-- its origins are signed, and shown to two more hooks. Values of the configuration come from it or
-- from the environment (pkg/loadvariable), and are validated when the server starts (pkg/validate).
-- A response may be transformed before it is sent (pkg/postresolvetransform). Webhooks are verified
-- and passed on (pkg/webhookhandler), files are uploaded to a storage (pkg/s3uploadclient), and a
-- server without requests stops after a timeout (pkg/httpidletimeout).
--
-- Parts, files and sources. Every file names at its top the code that it is about.
-- - Hooks/Pipeline: pkg/hooks/pipeline.go. `run` of Operation is SynchronousOperationPipeline.Run, and
--   `run_subscription` SubscriptionOperationPipeline.RunSubscription. The state is World of
--   Hooks/Client: the context with its header and variables, the client's request, the
--   response writer, and two logs, of the hooks called and of the data the resolver was given.
--   Each `if p.ResolveConfig.X { … }` of PreResolve and PostResolve is one stage (`stage`), which ends
--   in `handle_hook_response`. Effects has the rules for runs, Order the plan of a pipeline's hooks,
--   Run and Resolved the theorems on whole runs.
-- - Hooks/Client: pkg/hooks/hooks.go. `do_operation_request`, `do_global_request`,
--   `do_ws_transport_request`, `do_authentication_request`, `do_function_request` and, in Upload,
--   `do_upload_request` send one request; `read_reply` and `read_function_reply` are what doRequest and
--   DoFunctionRequest do with the answer. `encode_data` of Encode is EncodeData, with the user, the
--   client's request and the cycle counter.
-- - Hooks/Header: the type Header of Go's net/http, with canonical keys.
-- - Auth/Rbac, Auth/Redirect, Auth/Domain, Auth/User: pkg/authentication/authentication.go.
--   RBACEnforcer, RedirectURIValidator, sanitizeDomain with removeSubdomain, and User.
-- - Hooks/Client/Stream: DoFunctionSubscriptionRequest of pkg/hooks/hooks.go. `relay` is its loop on
--   the lines of the answer; Relay has what goes over the wire.
-- - Claims: injectClaims of pkg/apihandler/apihandler.go with the functions that it calls. `Outcome`
--   has a value for the panic of an index out of range.
-- - Load: pkg/loadvariable/loadvariable.go.
-- - Webhook: pkg/webhookhandler/webhookhandler.go. `serve_http` is ServeHTTP of webhookHandler,
--   `verify` Verify of sha256HMACVerifier; Hex is Go's package encoding/hex.
-- - Idle: pkg/httpidletimeout/httpidletimeout.go. State is Middleware with the goroutines that use it,
--   and `step` is what one of them does at once; a run is a list of actions. Counter has the
--   invariant, Race the orders of events that do harm, Sequence the runs without overlaps.
-- - Transform: pkg/postresolvetransform/postresolvetransform.go. `transform` is Transform,
--   `resolve_paths` resolvePaths. Paths says what a path with arrays stands for.
-- - Validate: pkg/validate/validator.go and pkg/validate/apiconfig.go.
-- - Identity: pkg/authentication/oidc.go (Claims, ToUser) and pkg/authentication/authentication.go.
--   Approval has the hooks of an authentication, Tokens userFromToken (`user_from_token`), Cookies
--   User.Load (`load`), Saved User.Save (`save`), Handlers the middlewares and handlers around the user
--   of a request, Providers OpenIDConnectProvider and its set.
-- - Apicache: pkg/apicache/apicache.go. Cache is the interface, `in_memory`, `redis` and `no_op` make
--   its implementations.
-- - Handlers: the handlers of pkg/apihandler/apihandler.go, with validateInputVariables and
--   handleOperationErr here, and the validator of pkg/inputvariables/validator.go. What a handler tells
--   its ResponseWriter is a list of Sent. Variables and Prepare have what leads from the request to the
--   variables of the resolver. Each other child is one handler or writer: Query (`serve_http`,
--   QueryHandler.ServeHTTP), LiveQuery (`handle_live_query`), Mutation (`mutation_serve_http`),
--   FlushWriter (httpFlushWriter), Subscription (`subscription_serve_http`) and Functions
--   (`functions_serve_http`); Internal is InternalApiHandler of pkg/apihandler/internalapihandler.go
--   (`internal_serve_http`). Conn is the state of one request: what the hooks see, what was told to
--   the client, and the cache. Stream is a client that reads a stream.
-- - Transport: pkg/apihandler/apitransport.go. `round_trip` of Hooked is RoundTrip, and
--   `hooked_round_trip` roundTrip with its two hooks; Transport itself has the call of the GraphQL
--   servers on the hooks server, Upstream the signing, and Origin what reaches an origin. The state is
--   Trip: what the hooks see, and the requests that were sent to origins.
-- - Uploads: pkg/s3uploadclient/s3uploadclient.go. `validate_file` is validateFile on a profile as
--   `prepare` leaves it; Client has NewS3UploadClient (`new_s3_upload_client`), Parts has
--   uploadToS3 (`upload_to_s3`), Requests the handler UploadFile (`upload_file`). The state is
--   Storage: what the hooks see, and the objects that were given to the storage. DoUploadRequest is
--   in Hooks/Client/Upload.
-- - Interpolate: pkg/interpolate/strings.go. `configure` is configure, whose marks are the fields
--   hasInterpolations and configuredDefs, and `traverse_with` of Traverse is traverse, with Interpolate
--   (`interpolate`). Ends is about the recursion of configure, Sites, Clean and Skips about what it
--   finds. The handlers have an interpolator as a function.
-- - Prelude: lists, tests, texts as lists of bytes with the functions of Go's package strings, and
--   int64 with strconv's ParseInt and FormatInt.
--
-- Code that is not in the repository is an argument. It is: the transport to the hooks server with
-- the decoding of its answers (Env of Hooks/Client), the resolver of graphql-go-tools and the
-- transformer of its result (in Hooks/Pipeline), jsonparser (in Claims, Transform, Interpolate and
-- Uploads), package regexp, url.Parse, HMAC with SHA-256, os.Getenv; in Identity golang-jwt,
-- securecookie, base64, the cache and the endpoint of the user's data, the key sets of keyfunc, and
-- gorilla/csrf; in Handlers gjson, sjson and json.Compact (Libs of Handlers/Variables), jsonschema,
-- jsonpatch, xxhash, the clock, and the ResponseWriter's errors; ristretto and go-redis in Apicache;
-- the round tripper, http.NewRequest and golang-jwt in Transport; minio, jsonschema, mime/multipart
-- and xxhash in Uploads.
--
-- Each loop of the code runs over a list and is recursion on it, but for a few. resolvePaths:
-- `resolve_paths` of Transform has fuel, one round more than its path has arrays, which
-- Transform/Resolve shows to be enough. In Interpolate a schema is recursion on it, and a number bounds
-- the references that are followed one from within another: for configure as many as there are schemas,
-- which Interpolate/Ends shows to be enough; traverse may follow references for ever, and its theorems
-- are about runs that follow none. The loops of live queries end only with their request:
-- `handle_live_query` and `poll_rounds` run for a number of rounds that is any number, and the theorems
-- are about each. int64 values are ℤ of Prelude/Int, where the one increment that can overflow wraps
-- (`incr_int64`), or numbers below 2 ^ 64 in two's complement where there is more arithmetic
-- (Prelude/Int64); the counter of Idle is a uint64, with its wrap written out.
--
-- Not modelled: logging and tracing; the generated code of pkg/wgpb other than the types used; the
-- registration of routes and the planning of GraphQL operations in pkg/apihandler, and the
-- subscriptions of its internal API; the login flows of pkg/authentication; the
-- data sources and their HTTP client (pkg/customhttpclient); the command line and the code
-- generation; the TypeScript packages.
pub mod Prelude
pub mod Apicache
pub mod Auth
pub mod Claims
pub mod Handlers
pub mod Hooks
pub mod Load
pub mod Webhook
pub mod Idle
pub mod Interpolate
pub mod Transform
pub mod Validate
pub mod Identity
pub mod Transport
pub mod Uploads
