-- ===== src/Lib.antt =====
-- The stationapi chat gateway: what its chat server keeps in memory, writes to its database and
-- puts on the wire, as functions, and what can be proved of them.
--
-- The program is a chat server for the clients and game servers of a station. A gateway
-- (src/stationchat/GatewayClient.cpp) reads a request from a datagram, runs one handler
-- (src/stationchat/protocol/) and sends the response. Handlers work on avatars
-- (src/stationchat/ChatAvatar.cpp), on rooms (src/stationchat/ChatRoom.cpp) and on mail
-- (src/stationchat/PersistentMessageService.cpp); all three write to one database through
-- src/stationapi/MariaDB.hpp. A registrar (src/stationchat/RegistrarNode.cpp) tells a client which
-- gateway of a cluster to use. A second database of the website mirrors some of it.
--
-- Which file models which part:
--   * Enums: the enumerations of src/stationchat/ChatEnums.hpp and src/stationchat/Message.hpp, one
--     function from constructors to codes for each.
--   * Strings: FromWideString and ToWideString of src/stationapi/StringUtils.cpp, with the sign of
--     `char` as an argument, and the NUL at which a C string ends; std::stoi for the columns of a row
--     (Strings.Numbers).
--   * Wire: src/stationapi/Serialization.hpp. A `read` is a Reader, a function from bytes to a
--     value and the rest, `none` where the stream is too short; a `write` is a list of bytes, low
--     byte first.
--   * Protocol: the requests of src/stationchat/protocol/*.hpp with their readers
--     (Protocol.Requests), the same layouts as lists of fields, as a client writes them
--     (Protocol.Formats), and the choice of the handler in GatewayClient::OnIncoming
--     (Protocol.Dispatch).
--   * Exec: methods that change a state and may throw. Exec S A is S -> Result A x S; the state
--     comes back beside an exception too, since nothing is rolled back. `fault` is undefined
--     behaviour. An exception is a ChatResultException, a MariaDBException, another one derived from
--     std::exception (`standard`), or none of these (`foreign`). Exec.Fuel is the same for methods that call back, with fuel; Exec.Keeps what all
--     methods that are put together from others keep.
--   * Storage: a statement with its bound parameters, and what stepping it gives. The database is a
--     function from all statements so far to an answer, an argument of every method that uses it.
--   * Room: ChatRoom (Room), its methods (Room.Methods) one for one, the calls as values
--     (Room.Calls), then what a call does (Room.Effect), the invariant (Room.Invariant), the five
--     sets of ids that a room stands for (Room.Refinement), who may do what (Room.Access), where
--     the program has undefined behaviour (Room.Faults), which statements a call executes
--     (Room.Stored), and the lists for a broadcast (Room.Audience). The pointer to the service of
--     the rooms is a Boolean, whether there is one. Avatars are pointers, with a function to their ids.
--   * RoomService: ChatRoomService of src/stationchat/ChatRoomService.cpp: rooms by address, their
--     creation, destruction and load; what a load and a creation leave behind
--     (RoomService.Outcomes), the addresses (RoomService.Addresses) and what becomes of a room
--     (RoomService.Lifetime).
--   * Avatar: ChatAvatar (Avatar) and the methods on its friends and ignored (Avatar.Contacts),
--     their invariant (Avatar.Contacts.Validity) and the standing of an avatar that the two lists
--     stand for (Avatar.Contacts.Standing).
--   * Presence: login and logout in src/stationchat/ChatAvatarService.cpp, on a heap of avatars
--     (Presence), the agreement of list and flags (Presence.Synced), that each call keeps it
--     (Presence.Course) and so any sequence of calls (Presence.Runs).
--   * AvatarService: the cache of src/stationchat/ChatAvatarService.cpp with creation, destruction
--     and the statements of avatars, and GetAvatar with the loads of contacts that call it back
--     (AvatarService.Load); how the cache grows (AvatarService.Extension), how deep the calls go
--     (AvatarService.Termination, AvatarService.Fuel) and a second look up (AvatarService.Again).
--     AvatarService.Friends is a database of two friends for the examples.
--   * Gateway: the state of a gateway and the messages of src/stationchat/Message.hpp (Gateway), the
--     Send* methods of src/stationchat/GatewayClient.cpp (Gateway.Outbox), the writers
--     (Gateway.Writers), the handlers of src/stationchat/protocol/Protocol.cpp one for one
--     (Gateway.Handlers), and HandleIncomingMessage of src/stationchat/GatewayClient.hpp beside
--     src/stationchat/RequestFailureHandling.hpp (Gateway.Incoming). Then what a handler that throws
--     has sent: of the updates (Gateway.Silence, Gateway.Updates, Gateway.Calls) and of each handler
--     (Gateway.Requests); that every handler ends (Gateway.Ends) and so every request
--     (Gateway.Answers); and the outcome of some requests (Gateway.Outcomes, Gateway.Entry).
--   * Messages: PersistentMessage (Messages), the methods of PersistentMessageService
--     (Messages.Service) and what comes back from a database that keeps its rows
--     (Messages.Mailbox).
--   * Registrar: the cluster of src/stationchat/StationChatConfig.hpp (Registrar.Cluster), the
--     parser of its entries in src/stationchat/main.cpp (Registrar.Parse), the keys and the health
--     of gateways (Registrar.Keys, Registrar.Health), the choice (Registrar.Select), then its
--     course: entries that were never blacklisted (Registrar.Entries, Registrar.Calm), one request
--     (Registrar.Requests) and all requests since the start (Registrar.Life).
--   * Website: the quoting of table names in src/stationchat/WebsiteIntegrationService.cpp, and its
--     statements that mirror logins, logouts and mail (Website.Mirror), which the handlers call. What
--     its constructor finds out, whether it is enabled and which columns the tables have, is a
--     parameter.
--   * Prelude: lists, texts, Boolean tests and the algorithms of the standard library on vectors.
--     The one-iterator `erase` after `remove_if` is written as it works: it takes out one element,
--     and is exact only where one element at most is hit.
--
-- Numbers are natural numbers, with a wrap-around or a cut written where the program has one. Loops
-- are structural recursion, or recursion on the number of rounds that the program counts itself. The
-- one recursion without such a bound is that of GetAvatar and the loads of the contacts; it is on
-- fuel, and as much as there are ids in the table of avatars, and two more, is enough, since each
-- call that goes deeper has put an avatar with a new id into the cache. A handler is given the same
-- fuel for all its look-ups.
--
-- An avatar is a pointer into the cache, and reading one that is not there is undefined behaviour.
-- Where a method reads the avatars of a list only as far as it finds one, the model asks that all of
-- the list are alive. A response is one record with the fields of all Res* records.
--
-- Parameters, since their code is elsewhere: the database, the steady clock, the calendar clock and
-- its print as a date and time, the sign of `char`, the trimming of boost, and the tables of the
-- website with their columns.
--
-- Not modelled: the writers of the responses; methods that nothing calls; the constructor of
-- src/stationchat/WebsiteIntegrationService.cpp. Left out: the UDP nodes, the log, and the client
-- library under src/stationapi/MariaDB.cpp.
pub mod AvatarService
pub mod RoomService
pub mod Gateway
pub mod Prelude
pub mod Enums
pub mod Exec
pub mod Strings
pub mod Storage
pub mod Wire
pub mod Protocol
pub mod Room
pub mod Registrar
pub mod Avatar
pub mod Messages
pub mod Website
pub mod Presence
