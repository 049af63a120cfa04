-- ===== src/World/Bind.antt =====
-- How a sequence of actions goes on from a known step.
use yh_extension_manager_v.Prelude.{◌≡◌, refl, sym, ap, ◌∙◌}
use yh_extension_manager_v.Prelude.Outcome.{Result, ok, err}
use yh_extension_manager_v.World.{Env, World, Exec, ◌>>=◌}

module _ {E : Env} {F A B : Type 0} where
  resume : (A → Exec E F B) → Result F A × World E → Result F B × World E
  unfolding ◌>>=◌
  resume f x = ((λ w. x) >>= f) x.1

  bind-resume : (m : Exec E F A) (f : A → Exec E F B) (w : World E) → (m >>= f) w ≡ resume f (m w)
  unfolding resume ◌>>=◌
  bind-resume m f w = refl

  pub bind-ok :
      (m : Exec E F A) (f : A → Exec E F B) (w w' : World E) (a : A)
      → m w ≡ (ok a, w')
      → (m >>= f) w ≡ f a w'
  unfolding resume ◌>>=◌
  bind-ok m f w w' a e = ap (resume f) e

  pub bind-err :
      (m : Exec E F A) (f : A → Exec E F B) (w w' : World E) (x : F)
      → m w ≡ (err x, w')
      → (m >>= f) w ≡ (err x, w')
  unfolding resume ◌>>=◌
  bind-err m f w w' x e = ap (resume f) e

module _ {F B : Type 0} where
  failed_returns : {x : F} {b : B} → err x ≡ ok b → ⊥
  failed_returns h = cc

module _ {E : Env} {F A B : Type 0} where
  -- The value and the world that the first part of an action hands on.
  pub record Passed (m : Exec E F A) (f : A → Exec E F B) (w : World E) : Type 0 where
    pub value : A
    pub world : World E
    pub first : m w ≡ (ok value, world)
    pub rest : (m >>= f) w ≡ f value world

  passed :
      (m : Exec E F A) (f : A → Exec E F B) (w w' : World E) (r : Result F A) (b : B)
      → m w ≡ (r, w')
      → ((m >>= f) w).0 ≡ ok b
      → Passed m f w
  passed m f w w' (ok a) b e h = record {
    value = a;
    world = w';
    first = e;
    rest = bind-ok m f w w' a e;
  }
  passed m f w w' (err x) b e h =
      absurd (failed_returns (ap (λ y. y.0) (sym (bind-err m f w w' x e)) ∙ h))

  -- An action that returns has a first part that returns.
  pub bind-Passed :
      (m : Exec E F A) (f : A → Exec E F B) (w : World E) (b : B)
      → ((m >>= f) w).0 ≡ ok b
      → Passed m f w
  bind-Passed m f w b h = passed m f w (m w).1 (m w).0 b refl h

  -- What holds of an action that returns may be shown from the value and the world that its first
  -- part hands on.
  pub bind-known :
      {Q : Type 0} (m : Exec E F A) (f : A → Exec E F B) (w : World E) (b : B)
      → ((m >>= f) w).0 ≡ ok b
      → ((a : A) (w' : World E) → m w ≡ (ok a, w') → (f a w').0 ≡ ok b → Q)
      → Q
  bind-known m f w b h k =
      let p = bind-Passed m f w b h in k p.value p.world p.first (ap (λ x. x.0) (sym p.rest) ∙ h)

module _ {E : Env} {F A B : Type 0} where
  resume_alike :
      (f g : A → Exec E F B) (r : Result F A) (w : World E)
      → ((a : A) → r ≡ ok a → f a w ≡ g a w)
      → resume f (r, w) ≡ resume g (r, w)
  unfolding resume ◌>>=◌
  resume_alike f g (ok a) w k = k a refl
  resume_alike f g (err x) w k = refl

  -- Two actions with the same first part do the same if their rests do so on what it hands on.
  pub bind_alike :
      (m : Exec E F A) (f g : A → Exec E F B) (w : World E)
      → ((a : A) → (m w).0 ≡ ok a → f a (m w).1 ≡ g a (m w).1)
      → (m >>= f) w ≡ (m >>= g) w
  bind_alike m f g w k =
      bind-resume m f w ∙ resume_alike f g (m w).0 (m w).1 k ∙ sym (bind-resume m g w)
