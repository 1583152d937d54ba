-- ===== src/Lib.antt =====
-- Verification of Korvex, a Python web framework on a Rust core.
--
-- The models are of the Python package korvex/; each file opens with the source that it is about, and
-- definitions keep the names of the functions that they translate.
--   Prelude       what is shared: tests on numbers, lists, `str` (Text) and `dict` (Dict), str(int)
--   Headers       korvex/_response.py, class Headers; Headers/Spec states what it promises by name
--   Response      korvex/_response.py, Response and StreamingResponse; Response/Cookies
--   Errors        korvex/_errors.py
--   Request       korvex/_requests.py, what is read of a Connection; Request/MultiDict
--   Websocket     korvex/_requests.py, class WebSocket; Websocket/Closing on closing once
--   Router        korvex/router.py: the lookup cache (Router/Cache), RouteGroup (Router/Group)
--                 and its shortcuts (Router/Shortcuts)
--   Hosts         korvex/_routing.py, _Host, and App.host and _host_for of korvex/_app.py
--   Routing       korvex/_routing.py, _Docs and _route_name; Routing/Register is Group.route, with
--                 App._check_name and App._add_route, Routing/Decorators its decorators by method
--   App           korvex/_app.py: App/Respond is _respond and the exception handlers, App/Send the
--                 sending of a response, App/Dispatch the choice of a route, App/Handshake
--                 the way of a WebSocket connection; App/Closing, App/Call,
--                 App/Handlers and App/Routes hold what is proved of them
--   Lifespan      korvex/_app.py, the startup and shutdown hooks, and LoopLocal
--   Dependencies  korvex/_schema.py, Run.close, and the part of App._dispatch that calls it
--   RateLimit     korvex/middleware/_rate_limit.py: MemoryStore, and RateLimit/Hooks its two hooks
--   Cors, SecurityHeaders, RequestId, Compression
--                 korvex/middleware/_cors.py, _security_headers.py, _request_id.py, _compression.py
--   Security      korvex/security.py
--   Binding       korvex/_schema.py and korvex/_params.py: Binding/Annotations, Binding/Slots and
--                 Binding/Plans are plan_for, Binding/Patterns path_params, Binding/Reading what
--                 Plan.bind reads of a request, with Binding/Forms for a form, Binding/Resolve
--                 Plan.bind and Run.resolve; below these, the files named for what they prove
--   Urls          korvex/_urls.py: the index and lookup, Urls/Paths path_for, Urls/Links url_for,
--                 Urls/Labels and Urls/Hosted the labels and the URL it makes
--   Taskboard     examples/taskboard/taskboard: Taskboard/Events services/events.py, Taskboard/Rules
--                 services/lists.py, services/tasks.py and domain.py, Taskboard/Order the order of
--                 TaskRepository.reorder of repositories.py
--   Tests         the theorems at concrete inputs
--
-- How they fit together: `App.Send.call` is the whole way of an HTTP request. It runs `respond`, which
-- runs the before hooks, a routing `dispatch`, the exception handlers and the after hooks. The routing
-- is `App.Dispatch.dispatch`, over the host patterns of Hosts and over lookups, which Router gives.
-- `Binding.Plans.plan_for` makes, at registration, the plan that `Binding.Resolve.bind` follows for each
-- request; the generators that `bind` starts are what Dependencies tears down. `Urls.Paths.path_for`
-- reads patterns by Binding/Patterns and converts values by Binding, and Urls/Links fills Hosts'
-- patterns. The middleware files model hooks on Request and Response, which an App takes.
--
-- State is passed explicitly. User code (hooks, handlers, generators) is any function on the state of
-- the program, a type `W`; what a run did is recorded beside it. Exceptions are values of `Outcome`,
-- or of a type that names the errors of one operation. A coroutine is run to its end: an `await`
-- that waits for ever is not modelled but for WebSocket, where an operation may wait.
--
-- Parameters: the Rust core's route table is `Router.Core`, from korvex/_core.pyi, with the law that a
-- new constraint changes no answer where a theorem needs it; the clock's reading, the texts that
-- `json.dumps` gives, the reason phrases of `http.HTTPStatus`, the random identifiers,
-- the constructors `int`, `fromisoformat` and so on, what `typing` and `inspect` say of a function, the
-- models' libraries, `urllib.parse.quote`, the database of the example and the compression libraries
-- are arguments.
--
-- Bounds: clock readings and periods are natural numbers of any unit, and the rate limiter's interval
-- is their quotient rounded down; theorems on rates are stated for periods that are whole multiples
-- of the interval. `str` is the list of its code points; `lower`, `upper` and `strip` are exact on
-- Latin-1, which is what headers are decoded from. Loops are recursions on the lists that they run
-- over; `_route_name` and `str(int)` run on fuel, as many names as are taken and one more than the
-- number, and both are proved to need no more. `plan_for` and `Plan.bind` run on fuel too, for the depth
-- of the dependencies: more than there are functions is enough for the first, and more than the ranks
-- of a plan's dependencies for the second, where a rank falls from each function to what it depends on.
-- The fuel that `plan_for` made a plan with is enough to bind it, as long as nothing is overridden.
--
-- Not modelled: of korvex/_schema.py Plan.everything, validates and respond, the schemas and the errors
-- of msgspec; korvex/_openapi.py, korvex/_serve.py, korvex/_cli.py and korvex/testing.py; how a
-- WebSocket's route is looked up, static files and the documentation pages; the cookies, forms and
-- bodies of requests as they are parsed, Response.file; RedisStore but for its answer when Redis cannot
-- be reached; the SQL of the example, and what two of its requests do at once; the Rust core, the other
-- examples and benchmarks. Of errors the kind is modelled where the text is not. Logging is left out
-- everywhere.
pub mod Prelude
pub mod Headers
pub mod Response
pub mod Request
pub mod Router
pub mod RateLimit
pub mod Hosts
pub mod Errors
pub mod App
pub mod Cors
pub mod SecurityHeaders
pub mod RequestId
pub mod Compression
pub mod Security
pub mod Lifespan
pub mod Taskboard
pub mod Urls
pub mod Websocket
pub mod Routing
pub mod Binding
pub mod Dependencies
pub mod Tests
