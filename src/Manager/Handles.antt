-- ===== src/Manager/Handles.antt =====
-- Handles that are kept and taken.
use yh_extension_manager_v.Prelude.{
  String, ◌≡◌, refl, false, Option, none, some, arith, eq_iff, eq_refl, ◌∙◌, ◌==◌, if◌then◌else◌,
}
use yh_extension_manager_v.Prelude.Dict
use yh_extension_manager_v.Entities.{Db, RuntimeHandle}
use yh_extension_manager_v.World.{Core, PluginRuntimeManager}
use yh_extension_manager_v.Manager.{handle_of, on_runtimes}

remove_of :
    (db : Db) (o : Option PluginRuntimeManager) (q j : String)
    → (let c : Core = record { db = db; manager = o } in
        handle_of (on_runtimes (Dict.remove q) c) j ≡ (if q == j then none else handle_of c j))
remove_of db none q j = ground arith
remove_of db (some m) q j = Dict.lookup-remove q j m.active_runtimes

pub handle_of-remove :
    (c : Core) (q j : String)
    → handle_of (on_runtimes (Dict.remove q) c) j ≡ (if q == j then none else handle_of c j)
handle_of-remove c q j = remove_of c.db c.manager q j

-- A handle that is taken out and put back is where it was.
pub put_back :
    (c : Core) (m : PluginRuntimeManager) (q j : String) (h : RuntimeHandle)
    → c.manager ≡ some m
    → handle_of c q ≡ some h
    → handle_of (on_runtimes (Dict.insert q h) (on_runtimes (Dict.remove q) c)) j ≡ handle_of c j
put_back c m q j h e f = ground (
  arith,
  Dict.lookup-insert q j h (Dict.remove q m.active_runtimes),
  Dict.lookup-remove q j m.active_runtimes,
  eq_iff q j,
)

pub handle_of-remove_self :
    (c : Core) (q : String) → handle_of (on_runtimes (Dict.remove q) c) q ≡ none
handle_of-remove_self c q = handle_of-remove c q q ∙ rw (eq_refl q) refl

insert_of :
    (db : Db) (o : Option PluginRuntimeManager) (q j : String) (h : RuntimeHandle)
    → (q == j) ≡ false
    → (let c : Core = record { db = db; manager = o } in
        handle_of (on_runtimes (Dict.insert q h) c) j ≡ handle_of c j)
insert_of db none q j h e = refl
insert_of db (some m) q j h e = Dict.lookup-insert q j h m.active_runtimes ∙ rw e refl

pub handle_of-insert_other :
    (c : Core) (q j : String) (h : RuntimeHandle)
    → (q == j) ≡ false
    → handle_of (on_runtimes (Dict.insert q h) c) j ≡ handle_of c j
handle_of-insert_other c q j h e = insert_of c.db c.manager q j h e
