-- ===== src/Lib.antt =====
-- The verification library of the OORT agent: the daemon that takes files of a satellite's payloads
-- over an HTTP API, keeps them with their metadata until they are downlinked, hands over uploaded
-- files, and passes attitude control commands on to a UAVCAN bus.
--
-- The program and its files (paths from the repository's root):
--   agent/server/main-api-server.cpp: the signals, the start, the service and the end are Main, with
--     how the service ends in Main.Serves. The prefixes that it gives to the routers are in Router.Impl.
--   agent/server/router: the routes of the two routers and their handlers, in Router and its
--     children. Router.Impl.AgentApi is the interface that the handlers call, and Agent.Handlers.agent
--     fills it with the agent's own methods. Router.Keeps is what the server keeps of the
--     agent's state, and Agent.Served what requests one after the other leave of its settings.
--   agent/server/impl/Utils.cpp and Utils.h: paths, checksums, UUIDs and the reading of a process's
--     output, in Utils and its children; hexadecimal output is Utils.Hex, the child process, its
--     timer and its end are Utils.Process.Child, the semaphore and the synced stream are
--     Utils.Semaphore, and ResponseCode and deliverResponse are Utils.Response.
--   agent/server/impl/Files.cpp: directory listings and file information, in Files.
--   agent/server/impl/Agent.cpp and Agent.h: the members, the constructor and the setters are
--     Agent.Members, ping, the system's information and collector_info are Agent.Status, the disk
--     space checks are Agent.Disk, the safe move of a file across devices is Agent.Move, the
--     pairs of data and metadata and endeaden are Agent.Pairs, the state of the handlers and
--     read_transfer_meta are Agent.World, files_info, query_available and meta are Agent.Query,
--     send_file is Agent.Send, and retrieve_file is Agent.Retrieve. The attitude control handlers
--     adcs_command, adcs_get and tfrs_get are Command, with the client of AgentUAVCANClient.cpp, whose
--     constructor is Command.Client.
--   agent/server/impl/Cache.h: the cache of listings and metadata, in Cache; the Agent has two of them
--     in the World of its handlers, and one of directories in its members.
--   agent/server/impl/AgentUAVCANServer.cpp: the thread of the server, its services and its reconnects
--     are Bus, and the health check is Health.
--   agent/server/impl/Adcs.cpp: the manager of the attitude and navigation feeds, in Adcs, with the
--     arithmetic that it uses in Adcs.Numbers and the conversions of positions in Adcs.Geometry.
--   agent/server/impl/Cleaner.cpp: the removal of old files, in Cleaner, and its thread, start and
--     stop, in Cleaner.Worker.
--   agent/server/impl/Adaptor.cpp: the types of the bus and of the API, in Adaptor.
--   agent/server/impl/Log.cpp and OnionLog.cpp: in Log; Log.Threads is the descriptions of threads and
--     Log.Onion is the messages of the web server's library.
--   agent/server/impl/Config.cpp: in Config; Config.Numbers is stoul, Config.Options is parseOptions
--     and Config.Usage is the usage text and the getters.
-- Posix is the operating system: an interface with the calls that the program makes and a state
-- that the program cannot look into. Posix.Laws states what POSIX documents of the calls, as far as
-- the proofs need it; Posix.Memory is a small system that meets these laws, on which the theorems
-- are applied and the code is run (Tests). zlib's crc32 is a parameter `crc32` that the code calls
-- block by block; Utils.Crc.Blocks states what zlib documents of it.
--
-- How C++ is read: a text is the list of its bytes (Base.Text). Code that may throw returns a
-- Result, and code that also changes the system is a function from a state to an Outcome, a value or
-- an exception with the state that is left; `try_catch` is the try block (Base.Exceptions). Ensures
-- (Base.Postconditions) states what holds after a return and what after a throw. `int` and
-- `int64_t` wrap (Base.Int).
-- A loop over a file runs as many rounds as the file has bytes, which is enough since each round
-- takes a byte at least.
--
-- The threads that handle commands are a step relation (Command.Latch), and so are the cleaner's
-- worker and the thread that stops it (Cleaner.Worker). A round of the cleaner's loop is given how
-- its wait ends. In Bus the calls of the library and the readings of the flag `thread_running` are
-- counted, and how a call ends is a function of its number; the fuel is a number of rounds, and
-- Bus.Ends states when the thread returns. getUsername doubles a buffer of 128 bytes while it is
-- shorter than 10240, and Agent.Status gives it eight rounds, one more than that takes. Requests, the
-- parser and the printer of JSON, the library of the bus, the library onion and getopt are
-- parameters; Router.Laws states what onion documents of the order and the matches of routes.
-- The floating-point numbers of the feeds are an interface, Adcs.Numbers.Arithmetic: the theorem on the
-- domain of a conversion takes as its hypothesis IsSound, which states what the proof needs of its
-- operations.
--
-- Not modelled: floating-point arithmetic itself; the vendored UAVCAN library and the generated API
-- models, which are third-party or generated; the calls of the log, `fsync` and the closing of
-- descriptors, which change no state of the model; the form of the time in a line of the log. Strings
-- of error messages are kept where the code makes them from literals and its arguments.
pub mod Base
pub mod Utils
pub mod Posix
pub mod Files
pub mod Agent
pub mod Cache
pub mod Cleaner
pub mod Adaptor
pub mod Adcs
pub mod Log
pub mod Router
pub mod Bus
pub mod Config
pub mod Command
pub mod Health
pub mod Main
mod Tests
