-- ===== src/Lib.antt =====
-- The HTTP layer of the e-commerce platform and the orders service on top of it, as definitions that
-- compute, with the properties that make them correct.
--
-- The program. A service builds a Router, and each controller registers its routes in the Router's
-- RouteTrie. A request that a session has read goes to Router::Route: the target is parsed, the path
-- is cut into segments and looked up in the trie, path and query parameters are put into a
-- RequestContext, and the controller's method is called on it. The method reads its parameters with
-- TypedParams, which converts them with TryParse, and answers with JSON. What it throws is mapped to
-- an error response. The Listener accepts connections and makes a Session for each; the process that
-- owns it shuts it down on a signal. A client builds requests for the routes of the orders service.
-- Another process prints reports of the database, and has functions that send and print messages.
--
-- The files and the code.
--   Parser/Integral, Parser/Floating, Parser/Values   common/parser/include/ValueParser.hpp: TryParse
--     at integral and floating types, bool and strings. std::from_chars and std::to_string, which
--     the code calls, are written out as the C++ standard describes them: for integers with the range
--     of the type (a pair of a signedness and a width), for double with the sign, the digits, the
--     exponent, the words for infinity and not-a-number, and the test whether the value is in range.
--     A finite double is kept as its decimal literal; it is not rounded.
--   Parser/Params   common/parser/include/TypedParams.hpp: TryGet and Required.
--   Routing/ParamType   common/http/include/PathParamType.hpp: the registry of parameter types.
--   Routing/Paths, Routing/Segments, Routing/Trie   common/http/src/RouteTrie.cpp and
--     common/http/include/RouteTrie.hpp: NormalizePath, SplitPath, ParseParamSegment, AddPath,
--     AddRoute, FindPath, FindRoute and GetAllRoutes (Routing/Trie/Listing). The loops over indices
--     and over the children of a node are recursions with the loops' variables; the pointer that
--     walks down the trie is a recursion on the trie, which returns the changed trie, also when an
--     exception ends it. Routing/Trie/Table reads a trie as a table from route patterns and methods
--     to handlers.
--   Http/Error, Http/ErrorMapping, Http/Message, Http/Context, Http/Verb   HttpError.hpp,
--     HttpErrorMapping.hpp, HttpHelpers.cpp, RequestContext.cpp and HttpTypes.hpp of common/http.
--     Code that may throw has the type Outcome; printing JSON does (dump of Http/Json), and so all
--     code that makes a response. Http/Message/Printing says when a response can be printed.
--   Http/Router   common/http/include/Router.hpp and common/http/src/Router.cpp. A weak pointer to
--     a controller is a number, and a function `lock` says what it points to when a request comes.
--   Http/Controller   common/http/include/IController.hpp and RouteDSL.hpp.
--   Server/Session, Server/Listener   Session and Listener of common/http, with HttpServerConfig.hpp.
--     Each handler that a strand runs is a function on the state, and the handlers run one after the
--     other, in any order that the pending operations allow (the relations Step). What a listener
--     asks of a session is a message, run by the session's strand afterwards. Operations on a socket
--     that was closed all the way fail, as Asio documents it.
--   Server/System   a Listener with all its sessions: the messages that wait for the strand of each
--     session, and the calls of OnSessionClosed that wait for that of the listener, in queues. Each
--     step is one handler on one strand, and the steps come in any order; a handler that net::dispatch
--     runs at once is one whose turn comes next. Only in the loop of ForceShutdown that makes a
--     difference: a session that is closed at once is erased from the set that the loop goes over, and
--     the behaviour is undefined. There the model has no step.
--   Dto   common/dto: User, UserProfile and OrderCreatedEvent with to_json and from_json.
--   Orders   services/CreateOrdersService: OrdersController, its routes and the trie they make;
--     Orders/Answers and Orders/Total are about what the service answers, Orders/Sessions about the
--     sessions it answers in.
--   Client   services/CreateOrdersClientService: OrdersClient, PrintResponse and main. Client/Server
--     puts the orders service at the other end of the network.
--   Service   services/CreateOrdersService/main.cpp: the handlers that main installs, the signal, the
--     timer and the handlers that wait for the listener's strand, which run in the order in which
--     they were dispatched (Service/Steps). There the sessions appear by their numbers only, and each
--     may close at any time; Service/Whole joins that process with the Server/System of its listener.
--     Service/Starting is main up to its threads, with the lines that it prints, and its exit code.
--   Database   common/dto/include/DbMapping.hpp and services/ProcessOrdersService/main.cpp: MapRowTo,
--     the reports and main. A run is the text that it prints and how it ends. Database/Collecting is
--     GetAllUsers into JSON of services/CreateOrdersService/main.cpp.
--   Messages   services/ProcessOrdersService/main.cpp: ProduceMessage and ConsumeMessage.
--   Tests   the definitions and the theorems at concrete data.
--
-- Texts are lists of bytes. The numbers of std::string and std::size_t are not bounded: no size in
-- the modelled code comes near 2 ^ 64. `int` has 32 bits. The only fuel is that of the printer of
-- numbers, where the number plus one is enough, since a division by ten makes a positive number
-- smaller. An unordered_map is an association list without an order that anything depends on; the
-- flat_map of parameter children is an ordered one, searched as flat_map does it.
--
-- Parameters: JsonLibrary is the JSON library, with the laws that it documents (what is printed is
-- parsed to the same value, and fields and texts can be read back; what is made of ASCII texts is
-- printed, and a text that is not UTF-8 makes the printing throw). `parse_target` is the parser of
-- request targets of Boost.URL, with decoded results, `verb_text` the printer of methods and
-- `string_to_verb` their reader. Network connects a client and exchanges one request for a response;
-- `pretty` and `discarded` are the indented printing of JSON and the test of a failed parse. Database
-- is the PostgreSQL library: queries, and the conversion of a column, each of which may throw. Kafka is
-- the library of that name: producers and consumers, what is sent and what is polled.
--
-- Not modelled: the lines that the server logs to the console while it runs; ProductPrice and
-- UserCredentials of common/dto, which C++23 does not compile, and its plain structs; the JSON
-- conversions of OrderPrice, which nothing uses; of a session its read buffer, and of the listener LocalEndpoint.
pub mod Prelude
pub mod Parser
pub mod Routing
pub mod Http
pub mod Server
pub mod Dto
pub mod Orders
pub mod Client
pub mod Database
pub mod Messages
pub mod Service
mod Tests
