-- ===== src/HostApi/Shared/Map.antt =====
-- The shared records as a map from a plugin, a collection, a key and an owner to a payload, and
-- what each request does to that map.
use mathlib.Core.Option
use yh_extension_manager_v.Prelude.{
  ℕ, String, ◌≡◌, ◌⊎◌, inl, inr, refl, sym, ap, ◌∙◌, ◌&&◌, Option, none, some, arith, if◌then◌else◌,
}
use yh_extension_manager_v.Prelude.Outcome.{Result, ok, err, is_ok}
use yh_extension_manager_v.Prelude.Rows.{select_one}
use yh_extension_manager_v.Prelude.Rows.Keyed.{
  select_one-update, select_one-insert_new, select_one-delete,
}
use yh_extension_manager_v.Manifest.{PluginPermission}
use yh_extension_manager_v.Entities.{PluginSharedRecord}
use yh_extension_manager_v.World.{Env, Core, World, Exec, pure, ◌>>=◌}
use yh_extension_manager_v.World.Bind.{bind-ok, bind-err}
use yh_extension_manager_v.Handlers.{AppError}
use yh_extension_manager_v.HostApi.{RequestContext}
use yh_extension_manager_v.HostApi.Auth.{require_permission}
use yh_extension_manager_v.HostApi.Auth.Caller.{core-require_permission}
use yh_extension_manager_v.HostApi.Shared.{
  RecordId, is_record, HostSharedRecordUpsertRequest, HostSharedRecordQuery,
  HostSharedRecordResponse, HostSharedRecordDeleteResponse, shared_record_response, record_id,
  new_shared_record, save_shared_record, store_shared_record, upsert_shared_record,
  find_shared_record, get_shared_record, erase_shared_record, delete_shared_record,
}
use yh_extension_manager_v.HostApi.Shared.Identified.{
  same_record, record_keys, id_of, is_record-new_shared_record, record_id-runs,
}

-- What is stored under an identifier.
abbrev pub payload_at : Core → RecordId → Option String
payload_at c j = Option.map (λ r. r.payload_json) (select_one (is_record j) c.db.shared_records)

refused_read :
    (o : Option String) (x : AppError) (r : HostSharedRecordResponse)
    → err x ≡ ok r
    → o ≡ some r.payload_json
refused_read o x r h = ground arith

module _ {E : Env} where
  -- What a write leaves: the payload under its identifier if it succeeds, else what was there.
  save_shared_record-payload :
      (id : RecordId) (payload : String) (now : ℕ) (existing : Option PluginSharedRecord)
      (w : World E) (j : RecordId)
      → select_one (is_record id) w.core.db.shared_records ≡ existing
      → payload_at (save_shared_record E id payload now existing w).1.core j ≡ (
          if is_ok (save_shared_record E id payload now existing w).0 && same_record id j
          then some payload
          else payload_at w.core j)
  unfolding save_shared_record ◌>>=◌
  save_shared_record-payload id payload now (some r) w j e = ground (
    arith,
    select_one-update record_keys id j (λ r. record r { payload_json = payload; updated_at = now })
        w.core.db.shared_records r,
  )
  save_shared_record-payload id payload now none w j e = ground (
    arith,
    select_one-insert_new record_keys id j w.core.db.shared_records
        (new_shared_record id payload now (E.uuid_v7 w.env).0)
        (is_record-new_shared_record id payload now (E.uuid_v7 w.env).0) e,
  )

  store_shared_record-payload :
      (id : RecordId) (payload : String) (w : World E) (j : RecordId)
      → payload_at (store_shared_record E id payload w).1.core j ≡ (
          if is_ok (store_shared_record E id payload w).0 && same_record id j
          then some payload
          else payload_at w.core j)
  unfolding store_shared_record ◌>>=◌
  store_shared_record-payload id payload w j =
      let w1 = (require_permission E id.plugin_id PluginPermission.db_shared_write w).1 in
      let s = (E.db_fault w1.env).1 in
      ground (
        arith,
        core-require_permission id.plugin_id PluginPermission.db_shared_write w,
        save_shared_record-payload id payload (E.now s).0
            (select_one (is_record id) w1.core.db.shared_records) (record w1 { env = (E.now s).1 })
            j refl,
      )

  erase_shared_record-payload :
      (id : RecordId) (w : World E) (j : RecordId)
      → payload_at (erase_shared_record E id w).1.core j ≡ (
          if is_ok (erase_shared_record E id w).0 && same_record id j
          then none
          else payload_at w.core j)
  unfolding erase_shared_record ◌>>=◌
  erase_shared_record-payload id w j = ground (
    arith,
    core-require_permission id.plugin_id PluginPermission.db_shared_write w,
    select_one-delete record_keys id j w.core.db.shared_records,
  )

  found_payload :
      (id : RecordId) (w : World E) (r : HostSharedRecordResponse)
      → ((find_shared_record E id >>= λ model. pure (shared_record_response model)) w).0 ≡ ok r
      → payload_at w.core id ≡ some r.payload_json
  unfolding find_shared_record shared_record_response ◌>>=◌
  found_payload id w r h =
      ground (arith, core-require_permission id.plugin_id PluginPermission.db_shared_read w)

  module _ (ctx : RequestContext) (a b c : String) {A : Type 0} (f : RecordId → Exec E AppError A)
      (w : World E) where
    -- A request on one record is its action on the record's identifier, or is refused.
    pub on_record :
        ((record_id E ctx a b c >>= f) w ≡ f (id_of ctx a b c) w)
        ⊎ ((x : AppError) × ((record_id E ctx a b c >>= f) w ≡ (err x, w)))
    on_record = elim (record_id-runs ctx a b c w) [
      | inl e ↦ inl (bind-ok (record_id E ctx a b c) f w w (id_of ctx a b c) e)
      | inr (x, e) ↦ inr (x, bind-err (record_id E ctx a b c) f w w x e)
    ]

  upserted :
      (ctx : RequestContext) (p : HostSharedRecordUpsertRequest) (w : World E) (j : RecordId)
      (x : Result AppError HostSharedRecordResponse × World E)
      → upsert_shared_record E ctx p w ≡ x
      → payload_at x.1.core j ≡ (
          if is_ok x.0 && same_record (id_of ctx p.plugin_id p.collection p.record_key) j
          then some p.payload_json
          else payload_at w.core j)
      → payload_at (upsert_shared_record E ctx p w).1.core j ≡ (
          if is_ok (upsert_shared_record E ctx p w).0
            && same_record (id_of ctx p.plugin_id p.collection p.record_key) j
          then some p.payload_json
          else payload_at w.core j)
  upserted ctx p w j x e h = rw e h

  -- An upsert stores its payload under its identifier if it succeeds, and nothing otherwise.
  pub upsert_shared_record-payload :
      (ctx : RequestContext) (p : HostSharedRecordUpsertRequest) (w : World E) (j : RecordId)
      → payload_at (upsert_shared_record E ctx p w).1.core j ≡ (
          if is_ok (upsert_shared_record E ctx p w).0
            && same_record (id_of ctx p.plugin_id p.collection p.record_key) j
          then some p.payload_json
          else payload_at w.core j)
  unfolding upsert_shared_record ◌>>=◌
  upsert_shared_record-payload ctx p w j =
      let id = id_of ctx p.plugin_id p.collection p.record_key in
      elim (on_record ctx p.plugin_id p.collection p.record_key _ w) [
        | inl e ↦
            upserted ctx p w j _ e
              (ground (arith, store_shared_record-payload id p.payload_json w j))
        | inr (x, e) ↦ upserted ctx p w j _ e refl
      ]

  deleted :
      (ctx : RequestContext) (q : HostSharedRecordQuery) (w : World E) (j : RecordId)
      (x : Result AppError HostSharedRecordDeleteResponse × World E)
      → delete_shared_record E ctx q w ≡ x
      → payload_at x.1.core j ≡ (
          if is_ok x.0 && same_record (id_of ctx q.plugin_id q.collection q.record_key) j
          then none
          else payload_at w.core j)
      → payload_at (delete_shared_record E ctx q w).1.core j ≡ (
          if is_ok (delete_shared_record E ctx q w).0
            && same_record (id_of ctx q.plugin_id q.collection q.record_key) j
          then none
          else payload_at w.core j)
  deleted ctx q w j x e h = rw e h

  -- A deletion empties its identifier if it succeeds.
  pub delete_shared_record-payload :
      (ctx : RequestContext) (q : HostSharedRecordQuery) (w : World E) (j : RecordId)
      → payload_at (delete_shared_record E ctx q w).1.core j ≡ (
          if is_ok (delete_shared_record E ctx q w).0
            && same_record (id_of ctx q.plugin_id q.collection q.record_key) j
          then none
          else payload_at w.core j)
  unfolding delete_shared_record ◌>>=◌
  delete_shared_record-payload ctx q w j =
      let id = id_of ctx q.plugin_id q.collection q.record_key in
      elim (on_record ctx q.plugin_id q.collection q.record_key _ w) [
        | inl e ↦ deleted ctx q w j _ e (ground (arith, erase_shared_record-payload id w j))
        | inr (x, e) ↦ deleted ctx q w j _ e refl
      ]

  -- A record that is read is the one that is stored.
  pub get_shared_record-payload :
      (ctx : RequestContext) (q : HostSharedRecordQuery) (w : World E)
      (r : HostSharedRecordResponse)
      → (get_shared_record E ctx q w).0 ≡ ok r
      → payload_at w.core (id_of ctx q.plugin_id q.collection q.record_key) ≡ some r.payload_json
  unfolding get_shared_record shared_record_response ◌>>=◌
  get_shared_record-payload ctx q w r h =
      elim (on_record ctx q.plugin_id q.collection q.record_key _ w) [
        | inl e ↦ found_payload _ w r (ap (λ x. x.0) (sym e) ∙ h)
        | inr (x, e) ↦ refused_read _ x r (ap (λ x. x.0) (sym e) ∙ h)
      ]
