-- ===== src/World.antt =====
-- The world that the handlers act on: the database, the runtime manager (src/manager.rs) and the
-- machine below them. The machine is the parameter `Env`: the database driver, the clock, the
-- file system, processes, HTTP and the libraries for JSON, ZIP and SHA-256. Every call of it may
-- fail, and each moves its state on.
pub mod Keeps
pub mod Reliable
pub mod Ensures
pub mod Bind
use yh_extension_manager_v.Prelude.{ℕ, String, Bool, true, false, Option, none, some, List}
use yh_extension_manager_v.Prelude.Outcome.{Result, ok, err}
use yh_extension_manager_v.Prelude.Dict.{Dict}
use yh_extension_manager_v.Manifest.{PluginManifest, StringMap}
use yh_extension_manager_v.Entities.{Db, RuntimeHandle}

abbrev pub Bytes : Type 0
Bytes = List ℕ

-- `std::process::Command`: the program, its arguments, its environment in the order of the calls,
-- the working directory, the
-- file that stdout and stderr go to, and whether it runs in a process group of its own.
pub record Command : Type 0 where
  pub program : String
  pub args : List String
  pub env : StringMap
  pub cwd : Option String
  pub log_file : Option String
  pub own_group : Bool

-- `std::io::Error`: whether its kind is NotFound, and how it prints.
pub record IoError : Type 0 where
  pub is_not_found : Bool
  pub text : String

-- An exit status: whether it is a success, and how it prints.
pub record ExitStatus : Type 0 where
  pub success : Bool
  pub text : String
  pub stderr : String

-- An entry of an archive: `enclosed_name` is the ZIP library's name for it that stays inside.
pub record ZipEntry : Type 0 where
  pub name : String
  pub enclosed_name : Option String
  pub is_dir : Bool
  pub unix_mode : Option ℕ
  pub content : Result String Bytes

pub record TarEntry : Type 0 where
  pub path : Result String String
  pub content : Bytes

-- A response to a GET: whether its status is a success, the status as printed, and its body.
pub record HttpResponse : Type 0 where
  pub success : Bool
  pub status : String
  pub body : Result String Bytes

-- `SIGTERM`, `SIGKILL`, and 0, which only asks whether the group is there.
pub data Signal : Type 0 where
  term kill probe : Signal

pub record Env : Type 1 where
  pub State : Type 0
  -- sea_orm: `some e` if the next statement fails
  pub db_fault : State → Option String × State
  pub now : State → ℕ × State
  pub uuid_v7 : State → String × State
  -- std::fs, tokio::fs
  pub exists : String → State → Bool
  pub try_exists : String → State → Result String Bool × State
  pub create_dir_all : String → State → Result String Unit × State
  pub remove_dir_all : String → State → Result String Unit × State
  pub read_to_string : String → State → Result String String × State
  pub write : String → Bytes → State → Result String Unit × State
  pub write_text : String → String → State → Result String Unit × State
  pub dup_file : String → State → Result String Unit × State
  pub create_file : String → State → Result String Unit × State
  pub set_permissions : String → ℕ → State → Result String Unit × State
  pub mode_of : String → State → Result String ℕ × State
  pub is_dir : String → State → Bool
  pub remove_file : String → State → Result String Unit × State
  pub rename : String → String → State → Result String Unit × State
  pub copy : String → String → State → Result String Unit × State
  pub symlink : String → String → State → Result String Unit × State
  -- processes, signals and HTTP
  pub env_var : String → State → Option String
  pub spawn : Command → State → Result IoError (Option ℕ) × State
  pub status : Command → State → Result String ExitStatus × State
  pub http_get : String → State → Result String HttpResponse × State
  pub http_get_ok : String → State → Bool × State
  pub killpg : ℕ → Signal → State → Option IoError × State
  pub pid_alive : ℕ → State → Bool
  pub deadline_passed : State → Bool
  pub sleep : State → Unit {0} × State
  -- the temporary directory that yh_system is configured with, if it is configured
  pub system_temp_dir : State → Option String
  -- serde_json, zip, tar, flate2, sha2
  pub manifest_of_json : String → Result String PluginManifest
  pub zip_entries : Bytes → Result String (List (Result String ZipEntry))
  pub zip_text : Bytes → String → Result String String
  pub zip_file : String → State → Result String (List (Result String ZipEntry)) × State
  pub tar_file : String → State → Result String (List (Result String TarEntry)) × State
  pub tar_unpack : TarEntry → String → State → Result String Unit × State
  pub gunzip_to : String → String → State → Result String Unit × State
  pub sha256_hex : Bytes → String

-- `RuntimeDirectoryLayout` and `PluginRuntimeStatusSnapshot`
pub record RuntimeDirectoryLayout : Type 0 where
  pub root_dir : String
  pub cache_dir : String
  pub packages_dir : String
  pub state_dir : String
  pub config_dir : String
  pub logs_dir : String
  pub runtime_dir : String
  pub shared_dir : String

pub record PluginRuntimeStatusSnapshot : Type 0 where
  pub initialized : Bool
  pub enabled : Bool
  pub temp_dir : String
  pub market_request_timeout_sec : ℕ
  pub allow_sideload : Bool
  pub enable_wasm_runtime : Bool
  pub enable_process_runtime : Bool
  pub enable_docker_runtime : Bool
  pub docker_engine_command : String
  pub host_api_base_url : String
  pub layout : RuntimeDirectoryLayout

-- `PluginRuntimeManagerV2`, whose secret is kept as its base64 text.
pub record PluginRuntimeManager : Type 0 where
  pub snapshot : PluginRuntimeStatusSnapshot
  pub host_api_secret : String
  pub active_runtimes : Dict RuntimeHandle

-- What the program itself keeps; the manager is missing until it is initialised.
pub record Core : Type 0 where
  pub db : Db
  pub manager : Option PluginRuntimeManager

pub record World (E : Env) : Type 0 where
  pub core : Core
  pub env : E.State

-- A call that may fail. What was written before the failure stays written.
abbrev pub Exec : Env → Type 0 → Type 0 → Type 0
Exec E F A = World E → Result F A × World E

module _ {E : Env} {F A : Type 0} where
  pub pure : A → Exec E F A
  pure a w = (ok a, w)

  pub raise : F → Exec E F A
  raise e w = (err e, w)

  pub lift : Result F A → Exec E F A
  lift r w = (r, w)

  pub gets : (Core → A) → Exec E F A
  gets f w = (ok (f w.core), w)

  -- a call of the machine
  pub os : (E.State → Result F A × E.State) → Exec E F A
  os f w = let (r, s) = f w.env in (r, record w { env = s })

  -- a look at the machine that cannot fail
  pub observe : (E.State → A) → Exec E F A
  observe f w = (ok (f w.env), w)

  -- a step of the machine that cannot fail
  pub step : (E.State → A × E.State) → Exec E F A
  step f w = let (a, s) = f w.env in (ok a, record w { env = s })

  -- `match call.await { Ok(..) => .., Err(..) => .. }`, and `let _ = call.await`
  pub attempt : {G : Type 0} → Exec E F A → Exec E G (Result F A)
  attempt m w = let (r, w') = m w in (ok r, w')

  pub map_error : {G : Type 0} → (F → G) → Exec E F A → Exec E G A
  map_error f m w = let (r, w') = m w in (elim r [ ok a ↦ ok a | err e ↦ err (f e) ], w')

  -- `opt.ok_or_else(|| e)?`
  pub or_raise : Option A → F → Exec E F A
  or_raise none e w = (err e, w)
  or_raise (some a) e w = (ok a, w)

module _ {E : Env} {F : Type 0} where
  -- `if test { return Err(e); }`
  pub raise_if : Bool → F → Exec E F Unit
  raise_if b e w = (elim b [ true ↦ err e | false ↦ ok tt ], w)

  -- a change of the manager's map, which cannot fail
  pub modify : (Core → Core) → Exec E F Unit
  modify f w = (ok tt, record w { core = f w.core })

module _ {E : Env} {A : Type 0} where
  -- A statement that reads, and one that writes: a failing one leaves the database alone.
  pub query : (Db → A) → Exec E String A
  query f w =
      let (fault, s) = E.db_fault w.env in
      (elim fault [ none ↦ ok (f w.core.db) | some e ↦ err e ], record w { env = s })

  pub statement : (Db → A × Db) → Exec E String A
  statement f w =
      let (fault, s) = E.db_fault w.env in
      elim fault [
        | none ↦ (
          ok (f w.core.db).0,
          record w { core = record w.core { db = (f w.core.db).1 }; env = s },
        )
        | some e ↦ (err e, record w { env = s })
      ]

module _ {E : Env} {F A B : Type 0} where
  abbrev continue : Result F A → (A → Exec E F B) → Exec E F B
  continue (ok a) f w = f a w
  continue (err e) f w = (err e, w)

  infixl 5 ◌>>=◌ ◌>>◌
  -- opening this opens the actions above too
  unfoldable pub ◌>>=◌ : Exec E F A → (A → Exec E F B) → Exec E F B
  unfolding pure raise lift gets os observe step attempt map_error or_raise raise_if modify query
      statement
  ◌>>=◌ m f w = let (r, w') = m w in continue r f w'

  abbrev pub ◌>>◌ : Exec E F A → Exec E F B → Exec E F B
  m >> k = m >>= λ _. k
