-- ===== src/Lib.antt =====
-- A model of the admin API of tacokumo, and what holds of it.
--
-- The program is an HTTP service over Postgres and Redis. A request first meets the session middleware
-- (pkg/middleware/session.go), which lets the public paths pass and asks the session store for every
-- other request's session. Two endpoints log a user in through GitHub (pkg/server/server.go): the
-- login stores an OAuth state as a session of its own and sends the user to GitHub, and the callback
-- looks the state up, deletes it, asks GitHub for the user and the organisations
-- (pkg/auth/oauth/github.go), and stores the session of the user. Sessions lie in Redis as JSON
-- (pkg/auth/session). The other endpoints are handlers (pkg/apis/v1alpha1/server.go), each a few
-- queries (pkg/db/admindb/query.sql.go, over the tables of sql/schema.sql) in a row; the generated
-- server (pkg/apis/v1alpha1/generated) routes a request to one of them, checks its security, and
-- decodes its parameters and its body. A command-line client (pkg/client) keeps a token on the disk
-- and gets a new one through the browser.
--
-- Files, and the code that they model:
--   Base: shared names; Base/Tests, Base/Lists, Base/Int, Base/Text the tests, list functions, signed
--     integers with their decimal text and their truncation to 32 bits, and prefixes of texts.
--   Session: `Session` and `TeamMembership`. Session/Id: `GenerateSessionID`, from the bytes that
--     `rand.Read` gives. Session/Json: what `encoding/json` makes of a session. Session/Redis: the
--     interface of the Redis client, with the documented behaviour of SET, GET and DEL as its laws, and
--     Session/Redis/Memory, an in-memory server that has them. Session/Store: the interface `Store` and
--     `RedisStore`; Session/Store/Laws the contract of a store.
--   Middleware: `SessionMiddleware`, `isPublicPath`, `extractSessionID`, `GetCurrentSession`;
--     Middleware/Gate which requests pass.
--   Oauth: the calls of `GitHubClient`, with GitHub's replies as the record `Github`; Oauth/Laws.
--   Login: `createLoginHandler` and `createCallbackHandler`, over any two stores; Login/Callback,
--     Login/Replay, Login/Roundtrip and Login/Confusion over two stores that share their sessions.
--   Admindb: the rows and tables. Admindb/Sql: column widths, ORDER BY, LIMIT and OFFSET.
--     Admindb/Queries: each query as a function of the tables. Admindb/World: `Exec`, `Query` and
--     `QueryRow` against a server that may fail. Admindb/Consistency: what the schema makes the tables
--     keep.
--   Service/Monad: the shape of a handler. Service/Types: the API's types. Service/Projects,
--     Service/Scopes, Service/Auth: the handlers, named as in the source. Service/Calls: a call of any of
--     them, and what it keeps; Service/Invariant: sequences of calls.
--   Envconfig: pkg/envconfig/envconfig.go, a struct as reflection sees it; Envconfig/Schema the
--     configuration of pkg/config/config.go; Envconfig/Laws, Envconfig/Override.
--   Router: `ServeHTTP` of pkg/apis/v1alpha1/generated/oas_router_gen.go; Router/Paths the requests
--     that the API describes, Router/Laws, Router/Complete, and Router/Gate the router behind the
--     middleware.
--   Http: what stands between the router and the handlers, in pkg/apis/v1alpha1/generated:
--     Http/Security the security handlers, Http/Params the parameters, Http/Body the decoders and
--     validators of the bodies, Http/Handlers one function per generated handler, and
--     Http/Handlers/Serve the way of a request from the middleware to its handler. Http/Site: the
--     whole server, with the routes that `New` of pkg/server/server.go gives to echo. Http/Stages,
--     Http/Gate, Http/Bounds, Http/Body/Roundtrip, Http/Handlers/Asked (the call that a request asks
--     for), Http/Handlers/Effects, Http/Site/Anonymous, Http/Site/Validity, Http/Site/Frame.
--     Http/Site/Delivery: a request of the client as the server reads it. Http/Replies: the encoders
--     of the types of a reply; Http/Replies/Encoders the status and the document of each operation's
--     answers, Http/Replies/Answers their calls; Http/Replies/Roundtrip the decoder of a listing,
--     and Http/Site/Delivery/Reply the reply as the client reads it.
--   Client: the command-line client. Client/Storage: pkg/client/auth/storage.go; Client/Oauth:
--     pkg/client/auth/token.go; Client/Api: pkg/client/v1alpha1; Client/Commands, Client/Text and
--     Client/Interactive: pkg/client/cmd; Client/Documents the documents of a user and of a stored
--     token. Http/Site/Delivery/Me: the check of a token at the server. Client/Session,
--     Client/Requests, Client/Restart, Client/Interactive/Ends.
--   Startup: `New` of pkg/server/server.go, with Startup/Connect; Startup/Run: `Start` and
--     `startAPIServer` as a step relation, with Startup/Run/Ends.
--
-- State and failure. A handler takes the state (a connection, or a world: the tables and a list of
-- moments) and gives it back. A moment is the value of `NOW()`, the value of `uuidv7()` and the fate of
-- one query: answered, refused, or run with its reply lost; when the moments have run out, queries are
-- refused. So every interleaving of failures with the queries of one request is covered; requests run
-- one after another. A Redis command may fail, and then have taken effect or not at its own key. A
-- failure of a Go call is a value, with the status and the message of the reply where the source makes
-- one. The decimal text of a number is made on fuel, the number and one more.
--
-- Times are nanoseconds since the zero value of `time.Time`, the same clock for the program and Redis,
-- without the monotonic part; durations are not negative, but for the configured lifetime of sessions
-- in Startup; a handler reads the clock once. A time to live is exact, where go-redis cuts it to
-- milliseconds. The text that ogen writes of an instant is read back for every instant, where RFC 3339
-- ends with the year 9999. Texts are sequences of Unicode characters, with no NUL where they go to
-- Postgres; the ids of GitHub are integers of any size. JSON documents are trees, whose text is left
-- to `encoding/json`; a nil slice and an empty one are one list, and names of fields are compared
-- exactly. Rows of one instant come in the order of the table, which ORDER BY leaves open; a column's
-- width counts characters, and trailing spaces are not cut. A UUID is a number, and its text is the
-- parameter `Pgtype`. `url.Parse` and `time.ParseDuration` are parameters.
--
-- The library ogen (query and path decoding, the range check of an integer, the check of an email) is
-- the record `Ogen`, its texts of instants the record `DateTime`, and what it and echo write where no
-- operation answers the record `Library`. The body of a request is what its JSON reader makes of it:
-- an object with its fields in order, or one of the ways in which it is none. What the client meets
-- outside (the server's answers, the disk, the browser, the terminal, the environment) is the record
-- `Client.Outside`, whose answers depend on the number of the step, so that they may change at any
-- time. The body of a response may fail to close, which it does not where the server's own reply is
-- followed to the client. The interactive command runs on fuel: one more than the number of lines of
-- the input is enough.
--
-- Not modelled: the request logger, the telemetry but for its cleanups, the options of TLS and CORS,
-- pkg/redis and pkg/pg, which hand options to libraries, the stubs for OAuth in
-- pkg/apis/v1alpha1/generated, its client, which the program does not use, the parsing of flags, and
-- all that is printed.
pub mod Base
pub mod Session
pub mod Oauth
pub mod Middleware
pub mod Login
pub mod Admindb
pub mod Service
pub mod Envconfig
pub mod Router
pub mod Http
pub mod Client
pub mod Startup
