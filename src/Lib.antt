-- ===== src/Lib.antt =====
-- feedback-ingest: a service that ingests feedback from several sources for several tenants into one
-- schema, and writes it to JSON files.
--
-- The parts, and how they interact. `main` (src/main.cpp) reads loader_files/tenant.txt and one file
-- for each kind of source, fills the registries of the application state, and spawns one coroutine
-- for each pair of a source and a subscribing tenant, and the server. A discourse state polls a forum
-- over HTTP, a filepp state polls a file, and a notifyu state registers a handler for a route of the
-- server. Each makes schemas from JSON, and gives them to the sink.
--
--   Registry     include/registry/in_memory_registry.hpp. A record of the three members; `emplace`,
--                `erase` and `at` are operations on an association list (Base/Dict). `cur_key++`
--                at INT_MAX is undefined behaviour.
--   Stream       what the program uses of std::stringstream: words, and an `int` by its digits. A failed
--                extraction of an `int` stores 0 or a bound of the type, or, where the stream is
--                not good, nothing: a variable without a value is `none`, and to read it is
--                undefined behaviour.
--   FileOps      include/file_ops.hpp. `getline` in a loop, with the length of the text as fuel: each
--                round but the last takes at least one character.
--   Utils        include/utils.hpp
--   Tenant       include/tenant/read_tenant_file.hpp
--   DataSource   include/data_source/data_source_loader.hpp, with_lines and the tenants of a line
--   Discourse, Filepp, Notifyu
--                include/data_source/discourse, filepp and notifyu: Load has the loader file,
--                Algorithms the JSON, Operation the coroutine (`start`,
--                `extract_transform_and_load`, and what a handler of exceptions logs)
--   Schema       include/schema.hpp
--   Serializer   include/schema_serializers/json_serializer.hpp
--   Sink         include/sink, and `write_file` of include/file_ops.hpp. Where a value cannot be printed
--                a part of its text is written (`write_part`, which does not say which part).
--   HttpOps      include/http_ops.hpp. A reading beside a timer is one command, whose answer tells how
--                the two came out; `||` is a function of it (`read_or_wait`).
--   Server       include/rest_server.hpp
--   Timer        include/timer/asio_timer.hpp
--   Concepts     include/rest_server_concepts.hpp and what an operation state offers
--   Types        the tests on types of include/timer/timer_concept.hpp, include/coro.hpp and
--                include/data_source/operation_state_concept.hpp, and include/meta.hpp
--   Coro         `rd::sleep` of include/coro.hpp
--   Application  include/application_state.hpp, the registries of include/data_source, and
--                `load_into_application`
--   Main         src/main.cpp, include/constants.hpp
--   System       the `io_context` that src/main.cpp runs: the coroutines, and the routes that they
--                share. A step lets any one of them give its next command; a command on routes is
--                answered by the routes, every other one in any way.
--
-- What is proved of a part stands in its child modules: Registry/Keys of single calls, and
-- Registry/History of every state that calls reach; Load/Lines of the loader files, for which the
-- README leaves wrong data undefined; Rounds, Polling, Discourse/Spans and Notifyu/Handler of the
-- coroutines of the sources, and Stored of what a source reads and then writes; Main/Startup and
-- Main/Configured of the whole start; Main/Isolation and Main/Routing of every run. The coroutines
-- are put together there by a contract (Effects/Contract): what each may give, and what it relies
-- on to get. A statement on a single run (Effects/Runs) takes its events as they are. Runs at
-- concrete inputs are in Tests.
--
-- Base has the shared types and lemmas. A C++ expression is an `Outcome`: it returns, throws, or has
-- undefined behaviour. A coroutine is a `Task` (Effects): a tree of the commands that it gives to
-- the system, where the answer to each is free, so that a statement on a task (`Ensures`) is one on
-- every behaviour of the clock, the network, the file system and the other coroutines. An endless
-- loop is observed for a number of rounds, and `paused` is what is left; no statement depends on
-- that number. A text is a list of its bytes.
--
-- Parameters: nlohmann::json (Json: an abstract type of values with the operations that the program
-- calls, and their documented behaviour as the record `IsLawful`, which Json/Tree fills with a
-- concrete library), boost::url, the clock and its printed dates, and sockets (Platform). `double`
-- is the abstract type of numbers of that library.
--
-- Not modelled: include/optional.hpp, which is a copy of tl::optional; the two
-- log lines of `main`; the tests.
pub mod Base
pub mod Registry
pub mod Stream
pub mod FileOps
pub mod Utils
pub mod Tenant
pub mod Concepts
pub mod Coro
pub mod DataSource
pub mod Discourse
pub mod Filepp
pub mod Notifyu
pub mod Json
pub mod Schema
pub mod Serializer
pub mod Platform
pub mod Effects
pub mod HttpOps
pub mod Sink
pub mod Timer
pub mod Types
pub mod Server
pub mod Application
pub mod System
pub mod Main
pub mod Tests
