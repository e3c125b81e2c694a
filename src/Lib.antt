-- ===== src/Lib.antt =====
-- A model of the chat server reaTimeChat-gRPC, and what it is proved to do.
--
-- The server keeps accounts and messages in MongoDB, issues JWTs to the users who register or log
-- in, and passes chat messages on to the streams of the users who are connected. cmd/api/main.go
-- reads the environment, opens the database, and puts a rate limiter and an authentication in front
-- of the service. The handlers of cmd/api/handlers.go use the two stores of internal/data, the
-- token manager of internal/auth and the hub of cmd/api/hub.go; the stores and the token manager
-- normalize the addresses by internal/normalize.
--
-- The parts, and the files that model them:
-- - Base: the names that all modules share. Text is a list of code points, a map is an association
--   list, a number is a native natural number, and a signed one is a sign with a size.
-- - Normalize: internal/normalize/normalize.go (Email), with strings.TrimSpace and strings.ToLower.
-- - Hub: cmd/api/hub.go. ConnectionHub is a record; Register, Unregister and SendToUser are
--   functions register, unregister and send_to_user on it. Hub/Routing, Hub/Invariant,
--   Hub/Delivery, Hub/Broadcast and, for histories of calls, Hub/Histories hold the proofs.
--   Hub/Shared is the same hub in smaller steps: the maps of streams are objects of a heap, and
--   Hub/Shared/Steps lets any number of goroutines register, unregister and send, where a send
--   reads its map after it has released the lock. Hub/Shared/Linear compares the two hubs.
--   Hub/Views is a quotient that forgets the order of the maps.
-- - Auth: internal/auth/jwt.go. Auth/Keys is about the keys of a manager, Auth/Tokens about tokens.
-- - RateLimit: internal/middleware/ratelimit.go. RateLimit/Isolation and RateLimit/History are
--   about the limiter of one key, RateLimit/Memory about the size of the store,
--   RateLimit/Interceptor about the interceptor. RateLimit/Shared is the store in smaller steps:
--   the limiters are objects of a heap, and a call of Allow looks its limiter up and draws from it
--   in two steps, between which other calls, the clean-up and the clock may take theirs.
-- - Data: internal/data (models.go, users.go, messages.go), in Data/Models, Data/Users,
--   Data/Messages and, for the decoding of an aggregation, Data/Bson. Data/Messages/Dates is about
--   the dates that it meets.
-- - Db: internal/db/db.go (New, Close, CreateIndexes).
-- - Api: cmd/api. Api/Interceptors is interceptors.go; Api/Handlers/Accounts (Register, Login),
--   Api/Handlers/Streaming (ListChats, GetHistory) and Api/Handlers/Chat (ChatStream) are
--   handlers.go; Api/Chats lets the handlers of any number of chat streams take their rounds in any
--   order over one hub: Api/Chats/Backed and Api/Chats/Live say which connections the hub then
--   holds. Api/Turns lets them take turns inside their rounds too, over the hub of Hub/Shared: a
--   handler moves from phase to phase, and a Send has a start and an end. Api/Turns/Order and
--   Api/Turns/Delivered are about the order of what a handler delivers, Api/Turns/Owners,
--   Api/Turns/Addressed and Api/Turns/Recipients about whom it reaches, and Api/Turns/Overlap about
--   two goroutines in Send on one stream; Api/Turns/Settled is about how the calls of Send return,
--   and Api/Turns/Alone compares a handler that takes its turns on its own, as Api/Turns/Own has
--   it, with the function serve. Api/Turns has the steps, Api/Turns/State the state that they
--   change, and Api/Turns/Calls what the handlers ask of the hub; Api/Turns/Kept and
--   Api/Turns/Connected are about the connections that the hub then holds, and Api/Turns/Failures
--   is about those on which a Send has failed. Api/Stores and Api/Server are server.go: the
--   handlers use the stores through the two interfaces, and Api/Server/Entry goes from an answered
--   call to the streams that its token opens, and Api/Server/Streams is about what a call of a
--   stream sends and stores, Api/Server/Exchange about a chat stream that another user reads back.
--   Api/Config, Api/Service/Chain and, for the life of the process, Api/Process are main.go;
--   Api/Service is proto/chat/v1/chat_grpc.pb.go, Api/Validation is
--   proto/chat/v1/chat.pb.validate.go, and Wire and Api/Requests hold the messages of
--   proto/chat/v1/chat.pb.go. Api/Html is html.EscapeString.
-- The files Tests hold examples, on the parameters of the files Samples.
--
-- How the code is read: a method that changes an object is a function from its state to the next
-- one. The world outside (the database, the streams) is a type W that the calls of a parameter
-- change. An error is a value of Errors.Error with its format and its operands, and a gRPC status a
-- record with its code. Each reading of the clock is an argument, and so is the order in which
-- range visits a map. A time is a number of nanoseconds, and the database keeps its milliseconds
-- (Data.Bson.bson_date). A panic is none, or an ending of its own, where the code can panic.
--
-- The parameters are the code that is not in the repository: the MongoDB driver
-- (Data.Users.UsersColl, Data.Messages.MessagesColl, Db.Driver), the JWT library (Auth.TokenLib),
-- bcrypt (Auth.Bcrypt), the token bucket of x/time/rate (RateLimit.RateLib), the streams of gRPC
-- (Wire.StreamSender), its registration of a service (Api.Server.ServiceRegistrar), listening and
-- the graceful stop (Api.Process.System) and Unicode's case table (Normalize.CaseTable). The
-- records IsUsersColl, IsMessagesColl, IsTokenLib, IsBcrypt, RefusesMaps, DecodesDates, Stores and
-- IsCaseTable state what the code relies on; the examples satisfy each of them with a concrete
-- instance.
--
-- Bounds and fuel: connection ids are the bit patterns of an int64 and wrap around at 2 ^ 64; the
-- invariant of the hub is kept while they have not wrapped, and what is said of the running
-- handlers holds for fewer than 2 ^ 64 steps. The loop that reverses a history runs on fuel, the
-- number of messages: it ends after half as many rounds. All other loops are structural.
--
-- Not modelled: runs in which a map is written while it is read at that very moment, contexts and
-- timeouts, logging, the client stubs and the reflection of the generated code, and what the
-- pipeline of GetRecentChats selects, which is left to the database.
pub mod Base
pub mod Samples
pub mod Normalize
pub mod Errors
pub mod Wire
pub mod Hub
pub mod Auth
pub mod RateLimit
pub mod Db
pub mod Data
pub mod Api
