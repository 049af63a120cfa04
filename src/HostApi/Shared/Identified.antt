-- ===== src/HostApi/Shared/Identified.antt =====
-- How a shared record is identified: by a plugin, a collection, a key and an owner.

use yh_extension_manager_v.Prelude.{
  ℕ, String, ◌≡◌, ◌⊎◌, inl, inr, refl, ap, ◌∙◌, Bool, true, ◌&&◌, Option, none, some, ◌==◌, eq_iff,
  eq_refl, arith,
}
use yh_extension_manager_v.Prelude.Outcome.{Result, ok, err}
use yh_extension_manager_v.Prelude.Rows.Keyed.{Keys}
use yh_extension_manager_v.Entities.{PluginSharedRecord}
use yh_extension_manager_v.World.{Env, World, ◌>>=◌}
use yh_extension_manager_v.Handlers.{AppError}
use yh_extension_manager_v.HostApi.{RequestContext, UserInfo}
use yh_extension_manager_v.HostApi.Auth.{
  require_user, sanitize_sqlite_component, validate_host_plugin_identifier,
}
use yh_extension_manager_v.HostApi.Shared.{
  RecordId, is_record, owned_by, record_id, new_shared_record,
}

abbrev pub same_record : RecordId → RecordId → Bool
same_record i j =
    i.plugin_id == j.plugin_id
    && i.collection == j.collection
    && i.record_key == j.record_key
    && i.user_id == j.user_id

pub same_record_sym : (i j : RecordId) → same_record i j ≡ same_record j i
same_record_sym i j = ground (
  arith,
  eq_iff i.plugin_id j.plugin_id,
  eq_iff j.plugin_id i.plugin_id,
  eq_iff i.collection j.collection,
  eq_iff j.collection i.collection,
  eq_iff i.record_key j.record_key,
  eq_iff j.record_key i.record_key,
  eq_iff i.user_id j.user_id,
  eq_iff j.user_id i.user_id,
)

owned_same : (u v : String) (o : Option String) → owned_by u o ≡ true → owned_by v o ≡ (u == v)
owned_same u v none h = ground arith
owned_same u v (some o) h = ground (arith, eq_iff o u, eq_iff o v, eq_iff u v)

pub is_record_same :
    (i j : RecordId) (x : PluginSharedRecord)
    → is_record i x ≡ true
    → is_record j x ≡ same_record i j
is_record_same i j x h = ground (
  arith,
  eq_iff x.plugin_id i.plugin_id,
  eq_iff x.collection i.collection,
  eq_iff x.record_key i.record_key,
  owned_same i.user_id j.user_id x.owner_user_id,
)

abbrev pub record_keys : Keys PluginSharedRecord RecordId
record_keys = record {
  fits = is_record;
  same = same_record;
  same_sym = same_record_sym;
  fits_same = is_record_same;
}

abbrev user_of : Option UserInfo → String
user_of none = ""
user_of (some u) = u.user_id

-- The identifier of a request, from the user and the sanitized parts of the payload.
abbrev pub id_of : RequestContext → String → String → String → RecordId
id_of ctx plugin collection key = record {
  plugin_id = sanitize_sqlite_component plugin;
  collection = sanitize_sqlite_component collection;
  record_key = sanitize_sqlite_component key;
  user_id = user_of ctx.user_info;
}

pub is_record-new_shared_record :
    (id : RecordId) (payload : String) (now : ℕ) (uuid : String)
    → is_record id (new_shared_record id payload now uuid) ≡ true
is_record-new_shared_record id payload now uuid =
    ground (
      arith,
      eq_refl id.plugin_id,
      eq_refl id.collection,
      eq_refl id.record_key,
      eq_refl id.user_id,
    )

module _ {E : Env} where
  ran :
      (ctx : RequestContext) (a b c : String) (w : World E) (x : Result AppError RecordId)
      → record_id E ctx a b c w ≡ (x, w)
      → ((id : RecordId) → x ≡ ok id → id ≡ id_of ctx a b c)
      → (record_id E ctx a b c w ≡ (ok (id_of ctx a b c), w))
        ⊎ ((e : AppError) × (record_id E ctx a b c w ≡ (err e, w)))
  ran ctx a b c w (ok id) h k = inl (h ∙ ap (λ i. (ok i, w)) (k id refl))
  ran ctx a b c w (err e) h k = inr (e, h)

  world-record_id :
      (ctx : RequestContext) (a b c : String) (w : World E)
      → record_id E ctx a b c w ≡ ((record_id E ctx a b c w).0, w)
  unfolding record_id ◌>>=◌
  world-record_id ctx a b c w = ground arith

  pub record_id-id_of :
      (ctx : RequestContext) (a b c : String) (w : World E) (id : RecordId)
      → (record_id E ctx a b c w).0 ≡ ok id
      → id ≡ id_of ctx a b c
  unfolding record_id require_user validate_host_plugin_identifier sanitize_sqlite_component ◌>>=◌
  record_id-id_of ctx a b c w id h = ground arith

  -- A request's identifier is what its parts make, and finding it has no effect.
  pub record_id-runs :
      (ctx : RequestContext) (a b c : String) (w : World E)
      → (record_id E ctx a b c w ≡ (ok (id_of ctx a b c), w))
        ⊎ ((x : AppError) × (record_id E ctx a b c w ≡ (err x, w)))
  record_id-runs ctx a b c w =
      ran ctx a b c w _ (world-record_id ctx a b c w) (record_id-id_of ctx a b c w)
