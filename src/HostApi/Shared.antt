-- ===== src/HostApi/Shared.antt =====
-- src/host_api.rs: the records that a plugin keeps for its users.
pub mod Identified
pub mod Map
pub mod Refine
pub mod Unique
use yh_extension_manager_v.Prelude.{
  ℕ, String, ◌<>◌, Bool, false, ◌&&◌, Option, none, some, List, [], ◌∷◌, ◌++◌, map, ◌==◌, ltb,
}
use yh_extension_manager_v.Prelude.Rows.{select, select_one, update_one, delete_many, count}
use yh_extension_manager_v.Manifest.{PluginPermission}
use yh_extension_manager_v.Entities.{PluginSharedRecord}
use yh_extension_manager_v.World.{
  Env, Exec, pure, or_raise, lift, step, query, statement, map_error, ◌>>=◌, ◌>>◌,
}
use yh_extension_manager_v.Handlers.{AppError, ErrorCode, app_error, internal}
use yh_extension_manager_v.HostApi.{RequestContext}
use yh_extension_manager_v.HostApi.Auth.{
  require_user, require_permission, validate_host_plugin_identifier,
}

pub record HostSharedRecordUpsertRequest : Type 0 where
  pub plugin_id : String
  pub collection : String
  pub record_key : String
  pub payload_json : String

pub record HostSharedRecordResponse : Type 0 where
  pub plugin_id : String
  pub collection : String
  pub record_key : String
  pub owner_user_id : Option String
  pub payload_json : String

pub record HostSharedRecordQuery : Type 0 where
  pub plugin_id : String
  pub collection : String
  pub record_key : String

pub record HostSharedRecordListQuery : Type 0 where
  pub plugin_id : String
  pub collection : String

pub record HostSharedRecordListResponse : Type 0 where
  pub records : List HostSharedRecordResponse

pub record HostSharedRecordDeleteResponse : Type 0 where
  pub deleted : Bool

-- A row without an owner has none of the owners that a statement asks for.
abbrev pub owned_by : String → Option String → Bool
owned_by user_id none = false
owned_by user_id (some owner) = owner == user_id

abbrev pub in_collection : String → String → String → PluginSharedRecord → Bool
in_collection plugin_id collection user_id r =
    r.plugin_id == plugin_id && r.collection == collection && owned_by user_id r.owner_user_id

-- Where a record is kept: its plugin, collection, key and owner.
pub record RecordId : Type 0 where
  pub plugin_id : String
  pub collection : String
  pub record_key : String
  pub user_id : String

abbrev pub is_record : RecordId → PluginSharedRecord → Bool
is_record id r =
    r.plugin_id == id.plugin_id
    && r.collection == id.collection
    && r.record_key == id.record_key
    && owned_by id.user_id r.owner_user_id

unfoldable pub shared_record_response : PluginSharedRecord → HostSharedRecordResponse
shared_record_response model = record {
  plugin_id = model.plugin_id;
  collection = model.collection;
  record_key = model.record_key;
  owner_user_id = model.owner_user_id;
  payload_json = model.payload_json;
}

abbrev pub new_shared_record : RecordId → String → ℕ → String → PluginSharedRecord
new_shared_record id payload_json now uuid = record {
  id = uuid;
  plugin_id = id.plugin_id;
  collection = id.collection;
  record_key = id.record_key;
  owner_user_id = some id.user_id;
  payload_json = payload_json;
  created_at = now;
  updated_at = now;
}

module _ (E : Env) where
  -- The identifiers of a request about one record, checked in the order of the code.
  unfoldable pub record_id : RequestContext → String → String → String → Exec E AppError RecordId
  record_id ctx plugin collection key = do
    user ← lift (require_user ctx)
    plugin_id ← lift (validate_host_plugin_identifier plugin "plugin_id")
    collection ← lift (validate_host_plugin_identifier collection "collection")
    record_key ← lift (validate_host_plugin_identifier key "record_key")
    pure (record {
      plugin_id = plugin_id;
      collection = collection;
      record_key = record_key;
      user_id = user.user_id;
    })

  -- The row that is there is updated, or a new one is inserted; the row as it is then stored.
  unfoldable pub save_shared_record :
      RecordId → String → ℕ → Option PluginSharedRecord → Exec E AppError PluginSharedRecord
  save_shared_record id payload_json now (some existing) =
      map_error (λ e. internal ("failed to update shared record: " <> e))
        (statement (λ db. (
          record existing { payload_json = payload_json; updated_at = now },
          record db {
            shared_records =
                update_one (is_record id)
                  (λ r. record r { payload_json = payload_json; updated_at = now })
                  db.shared_records;
          },
        )))
  save_shared_record id payload_json now none = do
    uuid ← step E.uuid_v7
    map_error (λ e. internal ("failed to insert shared record: " <> e))
        (statement (λ db. (
          new_shared_record id payload_json now uuid,
          record db {
            shared_records = db.shared_records ++ new_shared_record id payload_json now uuid ∷ [];
          },
        )))

  -- from the permission check on
  unfoldable pub store_shared_record : RecordId → String → Exec E AppError PluginSharedRecord
  unfolding save_shared_record
  store_shared_record id payload_json = do
    require_permission E id.plugin_id PluginPermission.db_shared_write
    existing ←
        map_error (λ e. internal ("failed to query shared record: " <> e))
          (query (λ db. select_one (is_record id) db.shared_records))
    now ← step E.now
    save_shared_record id payload_json now existing

  unfoldable pub upsert_shared_record :
      RequestContext → HostSharedRecordUpsertRequest → Exec E AppError HostSharedRecordResponse
  unfolding record_id store_shared_record shared_record_response
  upsert_shared_record ctx payload = do
    id ← record_id ctx payload.plugin_id payload.collection payload.record_key
    model ← store_shared_record id payload.payload_json
    pure (shared_record_response model)

  unfoldable pub find_shared_record : RecordId → Exec E AppError PluginSharedRecord
  find_shared_record id = do
    require_permission E id.plugin_id PluginPermission.db_shared_read
    found ←
        map_error (λ e. internal ("failed to query shared record: " <> e))
          (query (λ db. select_one (is_record id) db.shared_records))
    or_raise found (app_error ErrorCode.not_found "shared record not found")

  unfoldable pub get_shared_record :
      RequestContext → HostSharedRecordQuery → Exec E AppError HostSharedRecordResponse
  unfolding record_id find_shared_record shared_record_response
  get_shared_record ctx request = do
    id ← record_id ctx request.plugin_id request.collection request.record_key
    model ← find_shared_record id
    pure (shared_record_response model)

  unfoldable pub list_shared_records :
      RequestContext → HostSharedRecordListQuery → Exec E AppError HostSharedRecordListResponse
  unfolding shared_record_response
  list_shared_records ctx request = do
    user ← lift (require_user ctx)
    plugin_id ← lift (validate_host_plugin_identifier request.plugin_id "plugin_id")
    collection ← lift (validate_host_plugin_identifier request.collection "collection")
    require_permission E plugin_id PluginPermission.db_shared_read
    rows ←
        map_error (λ e. internal ("failed to list shared records: " <> e))
          (query (λ db. select (in_collection plugin_id collection user.user_id) db.shared_records))
    pure (record { records = map shared_record_response rows })

  unfoldable pub erase_shared_record : RecordId → Exec E AppError ℕ
  erase_shared_record id = do
    require_permission E id.plugin_id PluginPermission.db_shared_write
    map_error (λ e. internal ("failed to delete shared record: " <> e))
        (statement (λ db. (
          count (is_record id) db.shared_records,
          record db { shared_records = delete_many (is_record id) db.shared_records },
        )))

  unfoldable pub delete_shared_record :
      RequestContext → HostSharedRecordQuery → Exec E AppError HostSharedRecordDeleteResponse
  unfolding record_id erase_shared_record
  delete_shared_record ctx request = do
    id ← record_id ctx request.plugin_id request.collection request.record_key
    rows_affected ← erase_shared_record id
    pure (record { deleted = ltb 0 rows_affected })
