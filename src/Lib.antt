-- ===== src/Lib.antt =====
-- A model of the gNMI mock server of a power supply controller, and what is proved of it.
--
-- The server (src/main.cpp) registers data providers under path prefixes and answers the gNMI RPCs
-- from them. A provider keeps a leaf store, a map from xpath to a value with its time and its type,
-- and a schema that says which leaves a client may write. Get reads snapshots of the store; Set
-- validates a whole request and then commits it in one batch for each provider; a simulator thread
-- writes the sensor leaves; Subscribe builds notifications from snapshots and from their
-- differences.
--
-- Files and code:
--   Prelude (with Lists, Texts, Int)  shared names, Boolean tests, lists, byte texts, integers
--   OrderedMap (Laws, Sorted)         std::map by its sorted list of entries
--   Gnmi (Requests)                   proto/gnmi.proto, the fields that the server reads or writes
--   Utils (PathPrefix, Printing, Parsing, KeyParsing, RoundTrip, Nested)   src/utils/utils.h
--   DataProvider                      src/backend/data_provider.hpp: leaves, batches, IDataProvider
--   Registry (Routing, Writes)        src/backend/data_provider.hpp: DataProviderRegistry
--   LeafStore (Commit, Select, Diff)  src/backend/leaf_store.hpp, leaf_store.cpp
--   StoreBacked (Typed, Writes, Keys)    src/backend/store_backed_provider.hpp
--   SystemConfig (Search, Container)  src/backend/system_config_provider.hpp, .cpp
--   PowerSensor (Walks, ReadOnly, Readings, Stopping)   src/backend/psc_power_sensor_provider.hpp, .cpp
--   Server (Commits, Invariant, ReadBack,
--   Delivery, Layout, System,
--   Soundness, Clients)               src/main.cpp: the registry of RunServer, and the Set RPC
--                                     and the sensors' thread as the steps that change it
--   Emit (Partition, Sorting, Heartbeat, Changes, Full, Client, Mirror, Follow, Refines, Polls,
--   Resends)                          src/gnmi/subscribe_emit.cpp, and from Client on a client that
--                                     applies the notifications
--   Subscribe (Answers, Polling)      src/gnmi/subscribe.cpp: notifications of a list, ONCE and POLL
--   Streaming (Turns, Mirror, Ends, Quiet, Follow,
--   Handler)                          src/gnmi/subscribe.cpp: STREAM
--   Service                           src/gnmi/subscribe.cpp: the choice of the handler; src/gnmi/gnmi.cpp
--   GetRpc (Filter, Answer)           src/gnmi/get.cpp
--   SetRpc (Validation, Transaction)  src/gnmi/set.cpp
--   Capabilities                      src/gnmi/capabilities.cpp
--   Log                               src/utils/log.cpp, log.h
--   Security (Choice, Process)        src/security/authentication.cpp, authentication.h
--   Options                           src/main.cpp: the flags of the command line
--   Startup                           src/main.cpp: the usage and the lines of RunServer
--   Tests                             concrete data, runs and the instances of the theorems
--
-- How the state corresponds. A text is its list of bytes. The virtual interface IDataProvider is the
-- record DataProvider, which the registry and the RPCs take as an instance; Server fills it with
-- the two providers of RunServer. A registry is its list of prefixes and providers, and an
-- operation that changes a provider returns the registry with the changed one. A method of
-- LeafStore holds one lock from start to end and is one step. A loop with early returns is
-- recursion on its list that answers the first status which is not OK.
--
-- Fuel. The loop over the predicates of one xpath element has the length of the element as fuel;
-- each round drops at least two bytes, so it never runs out. The loop of the sensors' thread ends
-- when a stop is asked for, and takes one unit for each turn until then.
--
-- The STREAM loop runs until its client cancels; it takes a number of rounds as fuel, and `none` is
-- a call that still runs then. Each round takes at least one moment, so more rounds than the moment
-- of the cancellation are enough.
--
-- Concurrency. A Subscribe call looks at the registry, the clock and its context while other
-- threads write. A World gives what it finds at each moment at which it looks, with any writes in
-- between; a theorem about every world is one about every interleaving. One call of the registry is
-- one moment.
--
-- The client. Emit/Client says what a client that follows the gNMI specification holds at a path
-- after notifications: an atomic one replaces all under its prefix, deletions take subtrees, and
-- then the updates count. It is the abstract side of the refinement theorems on polls and streams,
-- which ask for a layout of the paths (IsLaidOut in Emit/Follow): no leaf lies under another, and a
-- container holds the leaves under its path and no other.
--
-- The running server. Server/System puts the registry and the sensors' thread together: a state is
-- the two providers with the thread's walks and generator, an event is a Set request or a turn of
-- the thread. Server/Layout lists the paths that the providers declare and has their layout
-- computed, so that the theorems of Server/Clients ask nothing of the paths.
--
-- Parameters. Protobuf's serialisation of a value, the doubles and the random generator of the
-- simulator, the clock, atoi and the memory behind a metadata string are arguments of the definitions
-- that use them.
--
-- Not modelled: getopt_long, the scheduling of threads and their sleep, gRPC, TLS, Boost's log core and
-- the YANG files.
pub mod Prelude
pub mod OrderedMap
pub mod Gnmi
pub mod Utils
pub mod DataProvider
pub mod LeafStore
pub mod StoreBacked
pub mod SystemConfig
pub mod PowerSensor
pub mod Registry
pub mod Server
pub mod Emit
pub mod GetRpc
pub mod Subscribe
pub mod Streaming
pub mod SetRpc
pub mod Service
pub mod Capabilities
pub mod Log
pub mod Security
pub mod Options
pub mod Startup
mod Tests
