-- ===== src/HostApi/Shared/Refine.antt =====
-- Sequences of requests on shared records against their specification: a map in which an upsert
-- stores, a deletion empties, and the other requests change nothing.
use mathlib.Core.Path.{fun_ext}
use yh_extension_manager_v.Prelude.{
  String, ◌≡◌, refl, sym, ap, ◌∙◌, Bool, Option, none, some, List, [], ◌∷◌, arith, if◌then◌else◌,
}
use yh_extension_manager_v.Prelude.Outcome.{ok, is_ok}
use yh_extension_manager_v.World.{Env, World}
use yh_extension_manager_v.HostApi.{RequestContext}
use yh_extension_manager_v.HostApi.Quiet.{Keeps-get_shared_record, Keeps-list_shared_records}
use yh_extension_manager_v.HostApi.Shared.{
  RecordId, HostSharedRecordUpsertRequest, HostSharedRecordQuery, HostSharedRecordListQuery,
  HostSharedRecordResponse, upsert_shared_record, get_shared_record, list_shared_records,
  delete_shared_record,
}
use yh_extension_manager_v.HostApi.Shared.Map.{
  payload_at, upsert_shared_record-payload, delete_shared_record-payload, get_shared_record-payload,
}
use yh_extension_manager_v.HostApi.Shared.Identified.{same_record, id_of}

pub data SharedRequest : Type 0 where
  upsert : HostSharedRecordUpsertRequest → SharedRequest
  get delete : HostSharedRecordQuery → SharedRequest
  list : HostSharedRecordListQuery → SharedRequest

module _ {E : Env} where
  -- Whether a request succeeds, and the world behind it.
  unfoldable pub handle_shared : RequestContext → SharedRequest → World E → Bool × World E
  handle_shared ctx (SharedRequest.upsert p) w =
      (is_ok (upsert_shared_record E ctx p w).0, (upsert_shared_record E ctx p w).1)
  handle_shared ctx (SharedRequest.get q) w =
      (is_ok (get_shared_record E ctx q w).0, (get_shared_record E ctx q w).1)
  handle_shared ctx (SharedRequest.delete q) w =
      (is_ok (delete_shared_record E ctx q w).0, (delete_shared_record E ctx q w).1)
  handle_shared ctx (SharedRequest.list q) w =
      (is_ok (list_shared_records E ctx q w).0, (list_shared_records E ctx q w).1)

  -- The requests one after the other, and which of them succeed.
  unfoldable pub run_shared : List (RequestContext × SharedRequest) → World E → List Bool × World E
  unfolding handle_shared
  run_shared [] w = ([], w)
  run_shared ((ctx, r) ∷ rs) w =
      let (done, w') = handle_shared ctx r w in
      let (results, w'') = run_shared rs w' in (done ∷ results, w'')

-- The specification: what a request that succeeds does to the map.
abbrev pub RecordMap : Type 0
RecordMap = RecordId → Option String

unfoldable pub spec_step : RequestContext → SharedRequest → RecordMap → RecordMap
spec_step ctx (SharedRequest.upsert p) m j =
    if same_record (id_of ctx p.plugin_id p.collection p.record_key) j
    then some p.payload_json
    else m j
spec_step ctx (SharedRequest.get q) m j = m j
spec_step ctx (SharedRequest.delete q) m j =
    if same_record (id_of ctx q.plugin_id q.collection q.record_key) j then none else m j
spec_step ctx (SharedRequest.list q) m j = m j

-- A run of the specification, in which only the requests that succeeded have an effect.
unfoldable pub replay : List (RequestContext × SharedRequest) → List Bool → RecordMap → RecordMap
unfolding spec_step
replay ((ctx, r) ∷ rs) (done ∷ results) m =
    replay rs results (if done then spec_step ctx r m else m)
replay _ _ m = m

module _ {E : Env} where
  step_refines :
      (ctx : RequestContext) (r : SharedRequest) (w : World E) (j : RecordId)
      → payload_at (handle_shared ctx r w).1.core j
        ≡ (if (handle_shared ctx r w).0
              then spec_step ctx r (payload_at w.core)
              else payload_at w.core)
            j
  unfolding handle_shared spec_step
  step_refines ctx (SharedRequest.upsert p) w j =
      ground (arith, upsert_shared_record-payload ctx p w j)
  step_refines ctx (SharedRequest.get q) w j =
      ground (arith, (Keeps-get_shared_record {P = λ c. c ≡ w.core} ctx q).at w refl)
  step_refines ctx (SharedRequest.delete q) w j =
      ground (arith, delete_shared_record-payload ctx q w j)
  step_refines ctx (SharedRequest.list q) w j =
      ground (arith, (Keeps-list_shared_records {P = λ c. c ≡ w.core} ctx q).at w refl)

  -- After any sequence of requests on shared records, of any users and plugins and with any
  -- failures of the database, the stored payloads are those of the specification run on the
  -- requests that succeeded.
  pub run_shared-replay :
      (rs : List (RequestContext × SharedRequest)) (w : World E)
      → payload_at (run_shared rs w).1.core ≡ replay rs (run_shared rs w).0 (payload_at w.core)
  unfolding run_shared replay
  run_shared-replay [] w = refl
  run_shared-replay ((ctx, r) ∷ rs) w =
      run_shared-replay rs (handle_shared ctx r w).1
      ∙ ap (replay rs (run_shared rs (handle_shared ctx r w).1).0) (fun_ext (step_refines ctx r w))

  -- A shared record that is read with success, after any sequence of requests and failures, has
  -- the payload that the specification has for it, run on the requests that succeeded.
  pub get_shared_record-replay :
      (rs : List (RequestContext × SharedRequest)) (w : World E) (ctx : RequestContext)
      (q : HostSharedRecordQuery) (r : HostSharedRecordResponse)
      → (get_shared_record E ctx q (run_shared rs w).1).0 ≡ ok r
      → replay rs
          (run_shared rs w).0
          (payload_at w.core)
          (id_of ctx q.plugin_id q.collection q.record_key)
        ≡ some r.payload_json
  get_shared_record-replay rs w ctx q r h =
      ap (λ m. m (id_of ctx q.plugin_id q.collection q.record_key)) (sym (run_shared-replay rs w))
      ∙ get_shared_record-payload ctx q (run_shared rs w).1 r h
