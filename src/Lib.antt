-- ===== src/Lib.antt =====
-- The plugin system of an extension manager written in Rust (src/). A plugin is a package with a
-- manifest; it is registered from a ZIP file, then started, stopped and uninstalled by an
-- administrator, and is given permissions that the host checks on its calls.
--
-- The parts and their files:
-- - Manifest (src/manifest.rs): a manifest's types, its validation in Manifest/Validate, what is
--   valid in Manifest/Validity, and the base URL of a runtime in Manifest/Network.
-- - Entities (src/entities/): the rows of the eight tables; `Db` holds each table as the list of its
--   rows. Prelude/Rows has the statements against a table, and Prelude/Rows/Keyed, for any table
--   whose rows have a key by the interface `Keys`, what a query finds after each of them.
-- - World: what the program keeps, `Core`, which is the database and the runtime manager, and the
--   machine below, the parameter `Env`. An action is an `Exec`, which passes the world on, returns or
--   fails, and leaves what was written before a failure written. World/Keeps has one rule for each
--   way to build an action, for invariants; World/Ensures is for what holds when an action returns,
--   World/Bind for what is known of the first of two actions when both succeed.
-- - Permissions (src/permissions.rs): stored grants and their checks. Permissions/Laws sees the grants
--   as a map from a plugin and a key to a decision.
-- - Registry (src/registry.rs): the statements on the other tables.
-- - Manager (src/manager.rs): the map of handles of running plugins, the directories and a plugin's
--   configuration file. Manager/Signature has the signature of a user's context.
-- - Runtime (src/runtime/): launching and stopping a process, a WebAssembly runner and a container.
-- - Installer (src/installer.rs): reading, checking and unpacking a package, and registering it.
--   Installer/Setup has the setup steps of a manifest, each in a function of its own in
--   Installer/Setup/Step, and Installer/Extract the archives that they unpack.
--   Installer/Materialize is `materialize_plugin_from_zip`.
-- - HostApi (src/host_api.rs): what a running plugin asks of the host. HostApi/Auth says who calls;
--   HostApi/Kv, Users, Vfs, Paths, Shared, Migrations, Tasks and Nav have the handlers, with the
--   names of the source. HostApi/Kv/Store has what is assumed of the key-value store: an entry
--   stays until it is set, deleted or expired. HostApi/Shared/Identified says how a shared record
--   is identified, and HostApi/Shared/Map sees the shared records as a map from a plugin, a
--   collection, a key and an owner to a payload. HostApi/Quiet and HostApi/Frame are about what
--   a request leaves alone. The services behind the handlers are the parameter `Services`: HMAC,
--   the key-value store, the virtual file system, the user centre, notifications and what a
--   statement of SQL does to the tables.
-- - Handlers (src/handlers.rs): Handlers/Lifecycle has `start_plugin_runtime` and
--   `stop_plugin_runtime`, Handlers/Uninstall `uninstall_plugin`. Each is split where the source
--   branches on a result, and is the whole handler but for the envelope of its response.
--   Handlers/Frame is about what a request leaves alone.
-- - Public (src/public.rs): the files of a plugin's user interface; Public/Files has what is read.
-- - Tests: a concrete machine, and runs on it.
--
-- A text is the native string, and Text has what the program uses of Rust's library on texts, UTF-8
-- and its lossy decoding included; a path is its text, joined as `Path::join` does on Unix. A time stamp
-- is a number that the machine tells. Every call of the machine may fail and is modelled as a field of
-- `Env`: the database driver, the clock, the file system, processes and signals, HTTP, JSON, ZIP, TAR
-- and SHA-256. A database that answers every statement is `Reliable`; the handlers ignore the failure
-- of many statements, so that what they leave in the tables is only certain there.
--
-- Loops: the health check has its 15 attempts, as in the source. The wait for a process group to
-- go takes at most 100 waits of 100 ms, the 10 s of the source's deadline, and stops before
-- when the machine's clock says that the deadline has passed; at the end of the waits it has.
--
-- Not modelled: the forwarding of requests to a plugin over HTTP and WebSocket and the user that
-- it takes from a JWT (src/public.rs), the market client (src/market.rs), the administrator's
-- listings and the handlers around installation (src/handlers.rs), the routers, the OpenAPI
-- tables, the configuration accessors and the creation of the schema; of the modelled files, the
-- JSON envelopes of responses and what is there for systems other than Unix.
pub mod Prelude
pub mod Text
pub mod Manifest
pub mod Entities
pub mod FilePath
pub mod World
pub mod Permissions
pub mod Registry
pub mod Manager
pub mod Runtime
pub mod Installer
pub mod Handlers
pub mod HostApi
pub mod Public
pub mod Tests
