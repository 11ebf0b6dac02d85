-- ===== src/Lib.antt =====
-- InWheel server: a registry of places and their accessibility, filled by an ingestion program
-- (cmd/ingestion) and served by an HTTP API (cmd/api), over one PostgreSQL database.
--
-- How the parts interact. A canonical source (internal/sources/osm) streams OpenStreetMap
-- elements; those that pass its filter become places with a rank and, where the tags say
-- something, an accessibility profile. The batcher (cmd/ingestion/batcher.go) upserts the places
-- in batches through internal/place, then writes the profiles, after the accessibility engine
-- (internal/a11y) has put the audit flags on them. An external source emits records; the
-- resolver (internal/identity) scores the places near a record and attaches a reference to the
-- best of them, or puts the record in the queue of internal/unmatched. After each canonical run
-- the sweep tries the queued records near the touched places again. The API lists, reads,
-- creates and patches places in the same tables; a request passes CORS, the OpenAPI validator
-- with the API keys, and the limit of readers before a handler runs.
--
-- Files and code:
-- - Models: pkg/models. Structs are records, pointers are Option, string types are texts.
--   Models.Jsonb: the hooks Scan and Value.
-- - A11y: internal/a11y/engine.go. Flags and Inherit are about its two functions.
-- - Db: the tables as lists of rows. A statement (Db.statement) meets an environment: the script
--   of a run says, for each statement, how much time passes before it, which profile another
--   session commits, and whether the statement fails; a write of another session to a row locked
--   FOR UPDATE waits for the statement after the transaction. Db.Quiet has rules for runs
--   without other writers; Db.Connection is internal/db/db.go.
-- - Unmatched: internal/unmatched/repository.go, one function for each method.
-- - PlaceRepo.Places and PlaceRepo.Profiles: internal/place/repository.go.
-- - Identity: internal/identity. Record (record.go, decision.go, the repository interfaces),
--   Compat, Normalize, Score, Matcher, Resolve and Sweep are the files of these names. The
--   repositories are records of operations over any state, as the Go interfaces are;
--   Identity.Sweep.Conserves.KeepsQueue states the laws that a sweep needs of them, which
--   Ingestion.Pipeline.Kept takes up for the database.
-- - Osm: internal/sources/osm. Filter, Rank, Profile (a11y.go), Transform (transformer.go) and
--   Source (source.go and pbf.go).
-- - Ingestion: cmd/ingestion. Config (config.go, registry.go), Batcher, Pipeline and Main
--   (main.go), and Pipeline.Repositories, which wires the repositories as runCanonical and
--   runExternal do.
-- - Pagination and Validation: internal/pagination/pagination.go and
--   internal/validation/validation.go.
-- - Audit: internal/audit/audit.go.
-- - Middleware: internal/middleware. Http is net/http as a handler that reads a request and
--   writes to an exchange; RateLimiter (middleware.go; Race has the pointers of the sync.Map),
--   PublicLimit (public_rate_limit.go), Cors and Logging are the files of these names. Guarded
--   says what a middleware does with the handler behind it.
-- - Api.Keys: cmd/api/auth.go, handle_register.go and handle_revoke.go. Api.List (with
--   internal/geo/queries.go), Api.Like and Api.Places: the handlers for places in
--   cmd/api/main.go. Api.Errors: cmd/api/errors.go. Api.V1: buildV1Handler, which puts CORS, the
--   OpenAPI validator with the authentication, the limit of readers and the mux together.
--   Api.Main: the settings and the endpoints of the infrastructure. Api.Keys.Concurrent:
--   registrations and revocations of several clients, as a step relation whose steps are the
--   statements. Api.Bodies: the reading and the limit of a body. Api.Server: the Server as the
--   strict server of the bindings. Api.Stack: the handler that main serves, from the logger to
--   the operations.
-- - Bindings: internal/api/v1/server.gen.go. Params (the binding of parameters), Wrapper
--   (ServerInterfaceWrapper and the routes), Strict (the strict handler), Responses (the Visit
--   methods), Enums (the Valid methods) and Spec (the embedded specification). A request comes
--   through Api.Stack.final_handler to the outer mux, through Api.V1 to the mux of v1, through
--   Wrapper and Api.Bodies to Strict, and from there to Api.Server; the response goes back
--   through Responses.
-- - Prelude: lists and tests over native numbers, Go texts and maps, and Go's (T, error) as
--   Result with the stateful Action. Samples: concrete parameters for the tests.
--
-- Numbers. Identifiers, counters and times are natural numbers; OSM ids are positive
-- (api/openapi.yaml). strconv.Atoi keeps the bounds of int64. A float64 is its bit pattern and
-- its arithmetic a parameter (Float64.Arithmetic), with the order of IEEE 754 as named
-- hypotheses (IsOrdered, IsTotal) where a theorem needs it. All loops are structural recursion
-- over lists, and the client that reads a listing to its end (Api.List.Walk) is given as fuel
-- one page more than the table has rows.
--
-- Parameters, for code that the repository only calls: the float arithmetic, Unicode folding and
-- classes (Identity.Normalize.Unicode), PostGIS, gen_random_uuid, the rendering of JSONB and the
-- precision of TIMESTAMPTZ (Db.Postgres), the JSON merge patch (PlaceRepo.Profiles.JsonPatch),
-- the PBF scanner (the list of objects that it yields and its final error), the codecs of a
-- cursor (Pagination.Codecs), the database drivers and the migration library
-- (Db.Connection.Driver), ILIKE and the order of UUIDs (Db.Postgres), the token bucket of
-- golang.org/x/time/rate (Middleware.RateLimiter.RateLibrary), the OpenAPI validator
-- (Api.V1.OpenApi), http.ServeMux (Api.Stack.Program), the runtime of oapi-codegen and the JSON
-- codecs (Bindings.Params.Runtime, Bindings.Strict.Decoder, Bindings.Responses.Encoder,
-- Models.Jsonb.JsonCodec), base64, flate and the loader of the specification
-- (Bindings.Spec.SpecLibrary), the e-mail pattern, the SHA-256 digest and the random source, and
-- decimal printing.
--
-- Not modelled: listening, shutting down and the timeouts of the HTTP server, logging but for
-- the line of a request, the error types of the generated bindings that no code makes, the text
-- of the specification, and the test helpers, which start containers. A limiter is used by one
-- request at a time, but in Middleware.RateLimiter.Race, where a sweep and an Allow of one key
-- interleave. Latency is left out. The columns of a created place, of a profile and of a queued
-- record cut times as PostgreSQL does (Db.Postgres.timestamptz); those of imported places and
-- API keys keep a time as Go has it. A nil map and an empty one are the same. A panic of a
-- handler sends no status; the log line, which Go then does not write, is written.
pub mod Prelude
pub mod Float64
pub mod Models
pub mod A11y
pub mod Db
pub mod Unmatched
pub mod PlaceRepo
pub mod Identity
pub mod Osm
pub mod Ingestion
pub mod Pagination
pub mod Validation
pub mod Audit
pub mod Middleware
pub mod Api
pub mod Bindings
pub mod Samples
