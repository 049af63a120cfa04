-- ===== src/Runtime/Process/Health.antt =====
-- When the health check of a process passes.
use yh_extension_manager_v.Prelude.{
  ℕ, zero, suc, String, ◌≡◌, refl, Bool, false, ◌||◌, Option, none, some, arith,
}
use yh_extension_manager_v.Prelude.Outcome.{is_ok}
use yh_extension_manager_v.World.{Env, World, ◌>>=◌}
use yh_extension_manager_v.Runtime.Process.{health_check, health_check_failed}

-- One of the probes answers, of which there are at most so many, with a pause after each that
-- does not.
abbrev pub some_probe_answers : (E : Env) → ℕ → String → E.State → Bool
some_probe_answers E zero url s = false
some_probe_answers E (suc probes) url s =
    let (healthy, s') = E.http_get_ok url s in
    healthy || some_probe_answers E probes url (E.sleep s').1

module _ {E : Env} where
  health_check_failed-fails :
      (q : String) (pid : Option ℕ) (w : World E) → is_ok (health_check_failed E q pid w).0 ≡ false
  unfolding health_check_failed ◌>>=◌
  health_check_failed-fails q none w = refl
  health_check_failed-fails q (some pid) w = refl

  -- With at least one attempt, the health check passes if and only if one of its probes, at most
  -- as many as the attempts, is answered with success.
  pub health_check-is_ok :
      (attempts : ℕ) (url q : String) (pid : Option ℕ) (w : World E)
      → is_ok (health_check E (suc attempts) url q pid w).0
        ≡ some_probe_answers E (suc attempts) url w.env
  unfolding health_check ◌>>=◌
  health_check-is_ok zero url q pid w =
      ground
        (arith, health_check_failed-fails q pid (record w { env = (E.http_get_ok url w.env).1 }))
  health_check-is_ok (suc n) url q pid w = ground (
    arith,
    health_check-is_ok n url q pid (record w { env = (E.sleep (E.http_get_ok url w.env).1).1 }),
  )
