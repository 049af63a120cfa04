-- ===== src/HostApi/Kv/Store.antt =====
-- What the handlers rely on of the key-value store: a value stays under its key until it is set or
-- deleted, or until the time to live that it was set with is over.
use yh_extension_manager_v.Prelude.{
  ℕ, String, ◌≡◌, ◌≤◌, ◌⊎◌, inl, inr, refl, sym, ap, ◌∙◌, Bool, true, false, Option, none, some,
  ◌==◌, leb, arith, if◌then◌else◌,
}
use yh_extension_manager_v.Prelude.Outcome.{Result, ok, err}
use yh_extension_manager_v.World.{
  Env, World, Exec, Bytes, pure, lift, raise_if, os, map_error, ◌>>=◌,
}
use yh_extension_manager_v.World.Bind.{bind-ok, bind-err}
use yh_extension_manager_v.HostApi.{Services}

-- A value and the time at which it expires, if it does.
pub record KvEntry : Type 0 where
  pub value : Bytes
  pub expires_at : Option ℕ

abbrev pub is_over : Option ℕ → ℕ → Bool
is_over none now = false
is_over (some time) now = leb time now

abbrev pub is_expired : Option KvEntry → ℕ → Bool
is_expired none now = false
is_expired (some e) now = is_over e.expires_at now

-- the value that a read finds
abbrev pub live : Option KvEntry → ℕ → Option Bytes
live none now = none
live (some e) now = if is_over e.expires_at now then none else some e.value

is_over-later : (o : Option ℕ) (s t : ℕ) → s ≤ t → is_over o s ≡ true → is_over o t ≡ true
is_over-later none s t h x = x
is_over-later (some u) s t h x = ground arith

is_expired-later :
    (e : Option KvEntry) (s t : ℕ) → s ≤ t → is_expired e s ≡ true → is_expired e t ≡ true
is_expired-later none s t h x = x
is_expired-later (some e) s t h x = is_over-later e.expires_at s t h x

none_stays : (now : ℕ) → is_expired none now ≡ true → ⊥
none_stays now h = cc

-- The entry under `j` in the state `s` is there in the later state `t`, or it has
-- expired by then and nothing is there.
pub record Persists {State : Type 0} (entry : State → String → Option KvEntry) (time : State → ℕ)
    (j : String) (s t : State) : Type 0 where
  pub later : time s ≤ time t
  pub kept :
      (entry t j ≡ entry s j) ⊎ ((is_expired (entry s j) (time t) ≡ true) × (entry t j ≡ none))

-- The store as the service documents it: `entry` is what it has under each key, with the time at
-- which that expires, and `time` its clock, which does not go back.
pub record KvLaws {E : Env} (S : Services E) : Type 0 where
  pub entry : E.State → String → Option KvEntry
  pub time : E.State → ℕ
  pub db_fault : (s : E.State) (j : String) → Persists entry time j s (E.db_fault s).1
  pub set_stores :
      (k : String) (v : Bytes) (ttl : Option ℕ) (s : E.State)
      → (S.kv_set k v ttl s).0 ≡ ok tt
      → (e : KvEntry) × (entry (S.kv_set k v ttl s).1 k ≡ some e)
        × (e.value ≡ v)
        × (ttl ≡ none → e.expires_at ≡ none)
  pub set_other :
      (k j : String) (v : Bytes) (ttl : Option ℕ) (s : E.State)
      → (k == j) ≡ false
      → Persists entry time j s (S.kv_set k v ttl s).1
  pub get_reads :
      (k : String) (s : E.State) (v : Option Bytes)
      → (S.kv_get k s).0 ≡ ok v
      → v ≡ live (entry s k) (time s)
  pub get_keeps : (k j : String) (s : E.State) → Persists entry time j s (S.kv_get k s).1
  pub del_other :
      (k j : String) (s : E.State) → (k == j) ≡ false → Persists entry time j s (S.kv_del k s).1

module _ {State : Type 0} {entry : State → String → Option KvEntry} {time : State → ℕ}
    {j : String} where
  pub Persists-refl : (s : State) → Persists entry time j s s
  Persists-refl s = record { later = omega arith; kept = inl refl }

  pub Persists-trans :
      (s t u : State)
      → Persists entry time j s t
      → Persists entry time j t u
      → Persists entry time j s u
  Persists-trans s t u p q = record {
    later = omega (arith, p.later, q.later);
    kept = elim p.kept [
      | inl same ↦ elim q.kept [
        | inl same' ↦ inl (same' ∙ same)
        | inr (over, gone) ↦ inr (ap (λ e. is_expired e (time u)) (sym same) ∙ over, gone)
      ]
      | inr (over, gone) ↦ elim q.kept [
        | inl same ↦ inr (is_expired-later (entry s j) (time t) (time u) q.later over, same ∙ gone)
        | inr (over', gone') ↦
            absurd (none_stays (time u) (ap (λ e. is_expired e (time u)) (sym gone) ∙ over'))
      ]
    ];
  }

module _ {E : Env} {entry : E.State → String → Option KvEntry} {time : E.State → ℕ} {j : String}
    {F A B : Type 0} where
  resumed :
      (m : Exec E F A) (f : A → Exec E F B) (w w' : World E) (r : Result F A)
      → m w ≡ (r, w')
      → Persists entry time j w.env w'.env
      → ((a : A) → m w ≡ (ok a, w') → Persists entry time j w'.env (f a w').1.env)
      → Persists entry time j w.env ((m >>= f) w).1.env
  resumed m f w w' (ok a) e p k =
      rw (bind-ok m f w w' a e) (Persists-trans w.env w'.env (f a w').1.env p (k a e))
  resumed m f w w' (err x) e p k = rw (bind-err m f w w' x e) p

  -- An action's first part, and what follows if that returns.
  pub Persists-bind :
      (m : Exec E F A) (f : A → Exec E F B) (w : World E)
      → Persists entry time j w.env (m w).1.env
      → ((a : A) (w' : World E) → m w ≡ (ok a, w') → Persists entry time j w'.env (f a w').1.env)
      → Persists entry time j w.env ((m >>= f) w).1.env
  Persists-bind m f w p k = resumed m f w (m w).1 (m w).0 refl p (λ a e. k a (m w).1 e)

module _ {E : Env} {entry : E.State → String → Option KvEntry} {time : E.State → ℕ} {j : String}
    {F : Type 0} (w : World E) where
  pub Persists-pure :
      {A : Type 0} (f : Exec E F A) (a : A) → f ≡ pure a → Persists entry time j w.env (f w).1.env
  unfolding ◌>>=◌
  Persists-pure f a e = rw e (Persists-refl w.env)

  pub Persists-lift :
      {A : Type 0} (r : Result F A) → Persists entry time j w.env (lift {E = E} r w).1.env
  unfolding ◌>>=◌
  Persists-lift r = Persists-refl w.env

  pub Persists-raise_if :
      (b : Bool) (e : F) → Persists entry time j w.env (raise_if {E = E} b e w).1.env
  unfolding ◌>>=◌
  Persists-raise_if b e = Persists-refl w.env

  pub Persists-os :
      {A G : Type 0} (g : G → F) (f : E.State → Result G A × E.State)
      → Persists entry time j w.env (f w.env).1
      → Persists entry time j w.env (map_error {E = E} g (os f) w).1.env
  unfolding ◌>>=◌
  Persists-os g f h = h
