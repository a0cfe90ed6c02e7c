-- ===== src/Lib.antt =====
-- Verification of ChatSystem, an end-to-end encrypted chat: a C++ server over PostgreSQL, a client
-- library and the domain types that they share.
--
-- The program's parts and where they are modelled:
--   Validation/        Core/Include/Validation: rules, their composition with && and with a field
--                      (and_rule, bound_rule), and the result with its array of errors.
--   Domain/            Core/Include/User, Session, Message, Chat, Tags: each with its parameters,
--                      its validator (validate), create (Create, which throws), reconstitute and
--                      its changes. Domain/Types and Domain/Roles are the closed variants.
--   Networking/        Server/Source/Networking/router.cpp: add_route compiles a template,
--                      route_request dispatches; Segments has the reading of a path, and
--                      Credentials two helpers of Server/Source/Networking/utils.cpp.
--   Networking/Routes  RegisterRoutes of the four controllers with the templates of Core/Include/API,
--                      in the order of Server/Source/server_main.cpp; Routes/Table has the table of
--                      the resources that the routes are compared with.
--   Networking/Controllers  Server/Source/Networking/Controllers: a handler takes the state and
--                      returns how it ends, with the state that it leaves; the rest of
--                      Networking/utils.cpp and Networking/api_errors.h stand in the parent. Access
--                      and Statuses relate the answers to the services.
--   Services/Notification  Server/Source/Services/notification_service.cpp.
--   Database/Connection, Database/Transaction  Server/Source/Database/Postgres/pqxx_connection.cpp
--                      and Server/Include/Database/transaction.h: a Transaction from its constructor
--                      to its destructor is one function, transaction_scope.
--   Database/Pool      Server/Source/Database/Postgres/pqxx_connection_pool.cpp and
--                      Server/Include/Database/pooled_connection.h; Pool/Ownership has the steps of
--                      the threads that share it.
--   Repositories/      Server/Source/Database/Postgres/Repositories, users and sessions: Rows gives
--                      the statements' meaning on a list of rows, Store the operations.
--   Repositories/Where, ChatStore, Chats, Messages  the chat and the message repository on the tables
--                      of db/migrations, with the mappers of Server/Source/Database/Mappers.
--   Repositories/Validity, ChatValidity  the keys and the foreign keys of the tables.
--   Services/Chat      Server/Source/Services/chat_service.cpp over Repositories/Chats.
--   Services/Message   Server/Source/Services/message_service.cpp over Repositories/Chats,
--                      Repositories/Messages and Services/Notification.
--   Services/User      Server/Source/Services/user_service.cpp: pages of a search, and profiles.
--   Services/Auth      Server/Source/Services/auth_service.h over Repositories/Store.
--   Prelude, Exceptions  texts as bytes, tests on numbers, lists, and results that return or throw.
--   Tests              the theorems at concrete inputs.
--
-- State is passed explicitly. A function that may throw returns a Result; one that also changes the
-- tables returns the Result and the tables as they are when it returns or throws. The clock, random
-- numbers, salts and new UUIDs are arguments. A text is the list of its bytes, an identifier is its
-- text, and a time point is its distance from the epoch. The subscriber id is a 64-bit number that
-- wraps.
--
-- Code that is not in the repository is a parameter: the transactions of libpqxx (Driver), what
-- PostgreSQL decides about a row and, for each LIMIT and OFFSET, about the order of rows (Postgres,
-- ChatPostgres; that it returns each row that it finds once is the hypothesis IsQueryOrder), the
-- rows that match a search, whether std::vector::reserve gets room, the encryption service over
-- OpenSSL (Encryption), the JSON library (Json), and the URL grammar and the query parameters of
-- Boost.URL.
--
-- Fuel: the loop that reads the segments of a path takes the length of the text, since
-- each turn consumes a byte. GenerateUniqueTag has its own bound of a hundred turns. A call of
-- Acquire follows a finite list of wakes, and is waiting when the list is used up.
--
-- Not modelled: sockets and the construction of the services in server_main.cpp, which only wires
-- the parts together; the headers of a response; the failures of a connection in the repositories;
-- the client library. An identifier is the canonical text of a UUID: neither the texts that
-- PostgreSQL refuses nor other spellings of a UUID, which it takes for the same one, are followed. A
-- commit that throws has no effect; libpqxx also has an exception for a commit in doubt. A callback
-- of the notification service is a value and does not throw.
-- The mutexes are left out where an operation holds one from its start to its end. Subscribe is an
-- exception: it draws the id before it takes the lock. The model draws the id and stores the
-- subscriber in one step, so an order of two subscribers against that of their ids, which two
-- threads can bring about, is not followed.
pub mod Prelude
pub mod Validation
pub mod Exceptions
pub mod Domain
pub mod Networking
pub mod Services
pub mod Database
pub mod Repositories
pub mod Tests
