-- ===== src/Lib.antt =====
-- A model of r2-notify-server: notifications are stored in MongoDB, sent to the websockets of their
-- user, and marked as read or deleted by messages of the user's clients; what a client has to know
-- about a connected user is in Redis.
--
-- The parts, and how they interact:
-- - Prelude (Prelude/): tests, lists, and Go's `error` results; `Exec S A` is a Go function that
--   changes a state S and returns an A or an error. Text: the functions of `strings` that are used.
-- - Models, Data: the structs of models/*.go and the payloads and constants of data/*.go.
-- - Json (Json/Encode, Json/Decode, Json/RoundTrip): encoding/json on those structs. A JSON text is
--   taken as the value it writes; how characters make a value is left out.
-- - Mongo (Mongo/Partial, Mongo/Keys): the MongoDB driver as an interface, `Collection`, with what
--   it is documented to do in `Lawful`: a write that fails may have been carried out in part.
-- - Repository/Notification: repository/notification/notification_repository_impl.go. Schema has
--   the filters and the updates, Scope the abstract view, Writes, Reads and Isolation the proofs.
-- - Repository/Configuration: repository/configuration/configuration_repository_impl.go.
-- - Service/Notification, Service/Configuration: services/notification/*.go and
--   services/configuration/*.go, over any repository (records of operations).
-- - World: the state that all goroutines share, with Redis and the websockets as interfaces.
-- - ClientStore (Writing, Delivery, Completion, Keeping, Registry, Deleting, Operations, Register):
--   services/client_store.go, the map from users to connections, and sendToUser. Register is the
--   abstract view: the users' connections without their order, a quotient of lists.
-- - Utils (Tokens): utils/utils.go, the allowed origins and the validation of a token.
-- - WebSocket (Actions, Events, Connect, Loops, Origins): handlers/websocket.go, the actions, the
--   loop that reads a connection and the goroutine that pings it, and the handler of a new connection.
-- - Locking (Exclusive, Invariant, Kept, Gone, Race, Sequential): services/client_store.go
--   again, between its locks: goroutines with a program counter each, whose steps interleave.
-- - Controller: controller/notification_controller.go. Consumer: event-hub/consumer/consumer.go.
-- - Strconv (Decimal): the functions of `strconv` that are used. Config (Values, Connections):
--   config/*.go, the environment, and the connections to MongoDB and Redis.
-- - Logger (Written): logger/logger.go, which lines go to which sinks. Middleware:
--   middleware/correlationMiddleware.go, the id that a request is traced by.
-- - Authentication (Tokens): services/authentication/authentication_service_impt.go and
--   controller/authentication_controller.go, the login with a token of Google.
-- - Startup (Conditions): main.go up to its goroutines, and the routes of router/*.go. An error ends
--   the process.
-- - Process (Endings, Stopping): main.go behind that, and event-hub/consumer/consumer.go around its
--   callback, as a step relation: main, the goroutine of the consumer and that of the server go on in
--   any order, until the process ends. Of the handlers only that they log, at any time, and that a
--   fatal error of Go may end the process with them.
-- - Server: main.go's wiring of services to the shared state. Server/Reach, Frames, Stored,
--   Creation, Requests, Events, Agreement, Inbox, Delivered, Refreshed, Status, Welcome, Handshakes are
--   about whole handlers; Server/System is the running server, a step relation whose steps are
--   connections, messages, pings, requests and events in any order.
-- - Interleaving: the handlers again, call by call, as programs that goroutines run at the same time.
--   Program is a sequence of calls whose rest depends on what a call gives; Frames and Handlers are
--   handlers/websocket.go, controller/notification_controller.go and the consumer's callback as such
--   programs (the names end in `_calls`); Threads is the step relation: a goroutine starts a handler,
--   makes its next call, or ends. Safe says what a call may do; Serving and Admitting show it of
--   every call, Ownership draws the conclusions. Agreement, Connections, Sequence and OneStep relate
--   the programs to the handlers as one step; Statuses, Undisturbed and Race are about
--   setNotificationStatusAction.
-- - Samples: the server in memory, on which the theorems are applied.
--
-- A Go function that goes on behind a call that may fail is cut there: the rest is a function by
-- clauses on the call's result, with the name of what it does. The clock is an argument. Loops are
-- structural recursion over their lists. Three take a number of rounds: `decimal`, which needs one
-- for each digit and has more, and `read_loop` and `ping_loop`, which need not end and are `none`
-- when the rounds have run out. The numbers of the program are read from the environment, as
-- 64-bit integers, and in the expiry of a token; the others are ids, times and connections, which
-- are only compared. The milliseconds of BSON are cut off as the driver does.
--
-- sync.RWMutex is modelled as its documentation says: a goroutine gets the lock when nobody holds
-- it, or for reading when nobody holds it for writing. RemoveConnection filters its slice in
-- place, which no other goroutine can see while it holds the lock; a list is a value here.
--
-- Not modelled: the log lines of the handlers, and the correlation ids that only occur in them; the
-- encoders of zap; a signal before main waits for one; what gin, cors and the event hub's library
-- do with what they are given; the deadline of a read, which makes it fail. In Server a handler is
-- one step. In Interleaving a call of a service or of a function of the client store is one,
-- StoreClient being two; the steps inside of sendToUser are in Locking. Messages of one connection
-- may be handled at the same time there, which is more than its reading loop does. Two calls of
-- WriteMessage on one connection at the same time are outside the model. The location and the
-- monotonic reading of a time are left out too, and so are Unix times before 1970.
pub mod Prelude
pub mod Models
pub mod Data
pub mod Text
pub mod Strconv
pub mod Config
pub mod Logger
pub mod Authentication
pub mod Mongo
pub mod Repository
pub mod Json
pub mod World
pub mod ClientStore
pub mod Service
pub mod Utils
pub mod WebSocket
pub mod Controller
pub mod Consumer
pub mod Locking
pub mod Server
pub mod Middleware
pub mod Startup
pub mod Process
pub mod Interleaving
pub mod Samples
