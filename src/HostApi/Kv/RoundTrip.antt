-- ===== src/HostApi/Kv/RoundTrip.antt =====
-- A value that a plugin sets in its namespace, and reads after other plugins' requests.
use mathlib.Core.Path.{subst}
use mathlib.Core.Option
use yh_extension_manager_v.Prelude.{
  ℕ, String, ◌≡◌, ◌≢◌, ◌⊎◌, inl, inr, refl, sym, ap, ◌∙◌, true, Bool-cases, Option, none, some,
  List, All, arith,
}
use yh_extension_manager_v.Prelude.Outcome.{Result, ok}
use yh_extension_manager_v.Text.Utf8.{bytes}
use yh_extension_manager_v.Text.Lossy.{from_utf8_lossy}
use yh_extension_manager_v.Text.Lossy.Decoded.{from_utf8_lossy-bytes}
use yh_extension_manager_v.Manifest.{PluginPermission}
use yh_extension_manager_v.World.{Env, World, os, pure, map_error, ◌>>=◌}
use yh_extension_manager_v.World.Bind.{bind-Passed, bind-known}
use yh_extension_manager_v.Handlers.{AppError}
use yh_extension_manager_v.HostApi.{Services, RequestContext, Headers}
use yh_extension_manager_v.HostApi.Kv.{
  HostKvSetRequest, HostKvGetResponse, target_plugin_id, authorize_key, set_kv, get_kv,
}
use yh_extension_manager_v.HostApi.Kv.Store.{
  KvEntry, KvLaws, Persists, Persists-trans, is_over, is_expired, live,
}
use yh_extension_manager_v.HostApi.Kv.Isolation.{authorize_key-Persists}
use yh_extension_manager_v.HostApi.Kv.Requests.{KvRequest, NotFrom, handle_kv, handle_kv-isolated}

-- A read of a text that was set: the text, or nothing if it was set with a time to live.
abbrev pub IsReadOf : HostKvSetRequest → Option String → Type 0
IsReadOf payload o = (o ≡ some payload.value) ⊎ ((o ≡ none) × (payload.ttl_secs ≢ none))

never_over : (o : Option ℕ) (now : ℕ) → is_over o now ≡ true → o ≢ none
never_over none now h e = cc
never_over (some t) now h e = cc

module _ (payload : HostKvSetRequest) (e : KvEntry) (value : e.value ≡ bytes payload.value)
    (lasts : payload.ttl_secs ≡ none → e.expires_at ≡ none) where
  gone_read :
      (now : ℕ)
      → is_over e.expires_at now ≡ true
      → IsReadOf payload (Option.map from_utf8_lossy none)
  gone_read now over = inr (refl, λ n. never_over e.expires_at now over (lasts n))

  there_read : (now : ℕ) → IsReadOf payload (Option.map from_utf8_lossy (live (some e) now))
  there_read now = elim (Bool-cases (is_over e.expires_at now)) [
    | inl over ↦ rw over (gone_read now over)
    | inr lives ↦ rw lives (
        inl (
          ap (λ b. some (from_utf8_lossy b)) value ∙ ap some (from_utf8_lossy-bytes payload.value)))
  ]

module _ {E : Env} where
  answered :
      {A : Type 0} (g : String → AppError) (f : E.State → Result String A × E.State)
      (w w' : World E) (a : A)
      → map_error g (os f) w ≡ (ok a, w')
      → (f w.env).0 ≡ ok a
  unfolding ◌>>=◌
  answered g f w w' a h = ground arith

  set_in :
      {A : Type 0} (g : String → AppError) (f : E.State → Result String A × E.State) (w : World E)
      (a : A)
      → (map_error g (os f) w).0 ≡ ok a
      → (f w.env).0 ≡ ok a
  unfolding ◌>>=◌
  set_in g f w a h = ground arith

  env_of :
      {A : Type 0} (g : String → AppError) (f : E.State → Result String A × E.State) (w : World E)
      → (map_error g (os f) w).1.env ≡ (f w.env).1
  unfolding ◌>>=◌
  env_of g f w = refl

  value_of :
      (k : String) (o : Option String) (w : World E) (r : HostKvGetResponse)
      → (pure {E = E} {F = AppError} (record { key = k; value = o }) w).0 ≡ ok r
      → o ≡ r.value
  unfolding ◌>>=◌
  value_of k o w r h = ground arith

module _ {E : Env} (S : Services E) (L : KvLaws S) (t : String) where
  -- What is under a key that was set, as the service has it.
  record Stored (payload : HostKvSetRequest) (w : World E) : Type 0 where
    at_key : KvEntry
    entry : L.entry w.env payload.key ≡ some at_key
    value : at_key.value ≡ bytes payload.value
    lasts : payload.ttl_secs ≡ none → at_key.expires_at ≡ none

  set_kv-Stored :
      (ctx : RequestContext) (headers : Headers) (payload : HostKvSetRequest) (w : World E)
      → (set_kv S ctx headers payload w).0 ≡ ok tt
      → Stored payload (set_kv S ctx headers payload w).1
  unfolding set_kv
  set_kv-Stored ctx headers payload w h =
      let p =
        bind-Passed (authorize_key S ctx headers PluginPermission.kv_write payload.key) _ w tt h in
      let set = S.kv_set payload.key (bytes payload.value) payload.ttl_secs in
      let (e, at, value, lasts) =
        L.set_stores payload.key (bytes payload.value) payload.ttl_secs p.world.env
          (set_in _ set p.world tt (ap (λ x. x.0) (sym p.rest) ∙ h)) in
      record {
        at_key = e;
        entry =
            ap (λ x. L.entry x.1.env payload.key) p.rest
            ∙ ap (λ s. L.entry s payload.key) (env_of _ set p.world)
            ∙ at;
        value = value;
        lasts = lasts;
      }

  read_later :
      (payload : HostKvSetRequest) (w1 w3 : World E)
      → Stored payload w1
      → Persists L.entry L.time payload.key w1.env w3.env
      → IsReadOf payload
          (Option.map from_utf8_lossy (live (L.entry w3.env payload.key) (L.time w3.env)))
  read_later payload w1 w3 s p = elim p.kept [
    | inl same ↦ rw (same ∙ s.entry) (there_read payload s.at_key s.value s.lasts (L.time w3.env))
    | inr (over, gone) ↦ rw gone (
        gone_read payload s.at_key s.value s.lasts (L.time w3.env)
          (ap (λ e. is_expired e (L.time w3.env)) (sym s.entry) ∙ over))
  ]

  -- On a store that meets `KvLaws`, a text that was set with success under a key of a plugin's
  -- namespace, and is read with success after any requests to the key-value store that do not come
  -- from that plugin, is read as it was set; if it was set with a time to live, it may also be gone.
  pub get_kv-set_kv :
      (ctx ctx' : RequestContext) (headers headers' : Headers) (payload : HostKvSetRequest)
      (rs : List KvRequest) (w : World E) (r : HostKvGetResponse)
      → target_plugin_id payload.key ≡ some t
      → (set_kv S ctx headers payload w).0 ≡ ok tt
      → All (NotFrom S t) rs
      → (get_kv S ctx' headers' payload.key (handle_kv S rs (set_kv S ctx headers payload w).1)).0
        ≡ ok r
      → IsReadOf payload r.value
  unfolding get_kv
  get_kv-set_kv ctx ctx' headers headers' payload rs w r owned h apart g =
      let w1 = (set_kv S ctx headers payload w).1 in
      let w2 = handle_kv S rs w1 in
      let quiet = handle_kv-isolated S L t payload.key owned rs w1 apart in
      let checked =
        authorize_key-Persists S L payload.key ctx' headers' PluginPermission.kv_read payload.key
          w2 in
      bind-known (authorize_key S ctx' headers' PluginPermission.kv_read payload.key) _ w2 r g
        (λ u w3 e3 h3. bind-known _ _ w3 r h3 (λ v w4 e4 h4.
          subst (IsReadOf payload)
            (ap (Option.map from_utf8_lossy) (
                sym
                  (L.get_reads payload.key w3.env v (answered _ (S.kv_get payload.key) w3 w4 v e4)))
              ∙ value_of payload.key (Option.map from_utf8_lossy v) w4 r h4)
            (read_later payload w1 w3 (set_kv-Stored ctx headers payload w h) (
              Persists-trans w1.env w2.env w3.env quiet (
                subst
                  (λ (x : Result AppError (Unit {0}) × World E).
                    Persists L.entry L.time payload.key w2.env x.1.env)
                  e3 checked)))))
