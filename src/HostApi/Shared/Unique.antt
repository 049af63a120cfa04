-- ===== src/HostApi/Shared/Unique.antt =====
-- Shared records have no duplicates.
use yh_extension_manager_v.Prelude.{ℕ, String, ◌≡◌, refl, Option, none, some, List, [], ◌∷◌, arith}
use yh_extension_manager_v.Prelude.Rows.{select_one}
use yh_extension_manager_v.Prelude.Rows.Keyed.{
  HasUniqueKeys, update_one-HasUniqueKeys, insert-HasUniqueKeys, delete_many-HasUniqueKeys,
}
use yh_extension_manager_v.Manifest.{PluginPermission}
use yh_extension_manager_v.Entities.{PluginSharedRecord}
use yh_extension_manager_v.World.{Env, Core, World, ◌>>=◌}
use yh_extension_manager_v.World.Keeps.{
  Keeps, keeps_rules, Keeps-bind, Keeps-map_error, Keeps-statement,
}
use yh_extension_manager_v.HostApi.{RequestContext}
use yh_extension_manager_v.HostApi.Auth.{require_permission}
use yh_extension_manager_v.HostApi.Auth.Caller.{Keeps-require_permission}
use yh_extension_manager_v.HostApi.Quiet.{
  Keeps-record_id, Keeps-get_shared_record, Keeps-list_shared_records,
}
use yh_extension_manager_v.HostApi.Shared.{
  RecordId, HostSharedRecordUpsertRequest, HostSharedRecordQuery, new_shared_record,
  save_shared_record, store_shared_record, upsert_shared_record, erase_shared_record,
  delete_shared_record,
}
use yh_extension_manager_v.HostApi.Shared.Identified.{record_keys, is_record-new_shared_record}
use yh_extension_manager_v.HostApi.Shared.Refine.{SharedRequest, handle_shared, run_shared}

-- No plugin, collection, key and owner has two records.
abbrev pub HasUniqueRecords : Core → Type 0
HasUniqueRecords c = HasUniqueKeys record_keys c.db.shared_records

module _ {E : Env} where
  saved_unique :
      (id : RecordId) (payload : String) (now : ℕ) (existing : Option PluginSharedRecord)
      (w : World E)
      → select_one (record_keys.fits id) w.core.db.shared_records ≡ existing
      → HasUniqueRecords w.core
      → HasUniqueRecords (save_shared_record E id payload now existing w).1.core
  unfolding save_shared_record ◌>>=◌
  saved_unique id payload now (some r) w e h j = ground (
    arith,
    h j,
    update_one-HasUniqueKeys record_keys id
        (λ r. record r { payload_json = payload; updated_at = now }) w.core.db.shared_records
        (λ j x. refl) h j,
  )
  saved_unique id payload now none w e h j = ground (
    arith,
    h j,
    insert-HasUniqueKeys record_keys id w.core.db.shared_records
        (new_shared_record id payload now (E.uuid_v7 w.env).0)
        (is_record-new_shared_record id payload now (E.uuid_v7 w.env).0) e h j,
  )

  stored_unique :
      (id : RecordId) (payload : String) (w : World E)
      → HasUniqueRecords w.core
      → HasUniqueRecords (store_shared_record E id payload w).1.core
  unfolding store_shared_record ◌>>=◌
  stored_unique id payload w h j =
      let w1 = (require_permission E id.plugin_id PluginPermission.db_shared_write w).1 in
      let s = (E.db_fault w1.env).1 in
      let kept =
        (Keeps-require_permission {P = HasUniqueRecords} id.plugin_id
            PluginPermission.db_shared_write).at
          w h in
      ground (
        arith,
        kept j,
        saved_unique id payload (E.now s).0
            (select_one (record_keys.fits id) w1.core.db.shared_records)
            (record w1 { env = (E.now s).1 }) refl kept j,
      )

  Keeps-store_shared_record :
      (id : RecordId) (payload : String) → Keeps HasUniqueRecords (store_shared_record E id payload)
  Keeps-store_shared_record id payload = record { at = stored_unique id payload }

  Keeps-upsert_shared_record :
      (ctx : RequestContext) (p : HostSharedRecordUpsertRequest)
      → Keeps HasUniqueRecords (upsert_shared_record E ctx p)
  unfolding upsert_shared_record
  Keeps-upsert_shared_record ctx p =
      search (keeps_rules, Keeps-record_id, Keeps-store_shared_record) depth 20

  Keeps-erase_shared_record : (id : RecordId) → Keeps HasUniqueRecords (erase_shared_record E id)
  unfolding erase_shared_record
  Keeps-erase_shared_record id = Keeps-bind _ _ (Keeps-require_permission _ _) (λ u.
      Keeps-map_error _ _
        (Keeps-statement _ (λ c h. delete_many-HasUniqueKeys record_keys id c.db.shared_records h)))

  Keeps-delete_shared_record :
      (ctx : RequestContext) (q : HostSharedRecordQuery)
      → Keeps HasUniqueRecords (delete_shared_record E ctx q)
  unfolding delete_shared_record
  Keeps-delete_shared_record ctx q =
      search (keeps_rules, Keeps-record_id, Keeps-erase_shared_record) depth 20

  handled_unique :
      (ctx : RequestContext) (r : SharedRequest) (w : World E)
      → HasUniqueRecords w.core
      → HasUniqueRecords (handle_shared ctx r w).1.core
  unfolding handle_shared
  handled_unique ctx (SharedRequest.upsert p) w h = (Keeps-upsert_shared_record ctx p).at w h
  handled_unique ctx (SharedRequest.get q) w h =
      (Keeps-get_shared_record {P = HasUniqueRecords} ctx q).at w h
  handled_unique ctx (SharedRequest.delete q) w h = (Keeps-delete_shared_record ctx q).at w h
  handled_unique ctx (SharedRequest.list q) w h =
      (Keeps-list_shared_records {P = HasUniqueRecords} ctx q).at w h

  -- Requests on shared records, whatever their order and whatever fails, never give a plugin, a
  -- collection, a key and an owner a second record.
  pub run_shared-HasUniqueRecords :
      (rs : List (RequestContext × SharedRequest)) (w : World E)
      → HasUniqueRecords w.core
      → HasUniqueRecords (run_shared rs w).1.core
  unfolding run_shared
  run_shared-HasUniqueRecords [] w h = h
  run_shared-HasUniqueRecords ((ctx, r) ∷ rs) w h =
      run_shared-HasUniqueRecords rs (handle_shared ctx r w).1 (handled_unique ctx r w h)
