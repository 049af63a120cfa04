-- ===== src/Manifest/Validity.antt =====
-- What a valid manifest is, and that `validate` accepts exactly those.
use Prim.Native.String.{len}
use yh_extension_manager_v.Prelude.{
  ℕ, suc, String, ◌≡◌, ◌⊎◌, inl, inr, ◌↔◌, refl, Bool, true, false, ◌&&◌, Option, none, some, List,
  [], ◌∷◌, arith, All,
}
use yh_extension_manager_v.Prelude.Outcome.{Result, ok, err, fail_if, ◌>>◌}
use yh_extension_manager_v.Text.{is_whitespace, is_ascii_hexdigit, chars_all}
use yh_extension_manager_v.Text.Trim.{is_blank, is_blank-eq}
use yh_extension_manager_v.Manifest.{
  PluginRuntimeManifest, PluginSetupAction, PluginSetupStep, PluginManifest,
}
use yh_extension_manager_v.Manifest.Validate.{
  is_blank_opt, is_download, steps_of, validate_runtime, validate_sha, validate_step,
  validate_steps, validate,
}

-- Some character is not white space.
abbrev pub HasText : String → Type 0
HasText s = chars_all is_whitespace s ≡ false

abbrev pub SomeText : Option String → Type 0
SomeText none = ⊥
SomeText (some v) = HasText v

-- A runtime names what it runs.
abbrev pub HasSource : PluginRuntimeManifest → Type 0
HasSource (PluginRuntimeManifest.wasm_component r) = HasText r.artifact
HasSource (PluginRuntimeManifest.wasm_module r) = HasText r.artifact
HasSource (PluginRuntimeManifest.process r) = HasText r.program
HasSource (PluginRuntimeManifest.docker r) =
    SomeText r.image ⊎ (SomeText r.oci_archive ⊎ SomeText r.compose_file)

abbrev IsSha256Hex : Option String → Type 0
IsSha256Hex none = Unit
IsSha256Hex (some sha) = (len sha ≡ 64) × (chars_all is_ascii_hexdigit sha ≡ true)

abbrev NeedsUrl : PluginSetupAction → Option String → Type 0
NeedsUrl PluginSetupAction.download url = SomeText url
NeedsUrl _ url = Unit

abbrev pub IsValidStep : PluginSetupStep → Type 0
IsValidStep s = NeedsUrl s.action s.url × IsSha256Hex s.sha256

abbrev pub AreValid : Option (List PluginSetupStep) → Type 0
AreValid none = Unit
AreValid (some steps) = All IsValidStep steps

pub record IsValidManifest (m : PluginManifest) : Type 0 where
  pub id : HasText m.id
  pub name : HasText m.name
  pub version : HasText m.version
  pub summary : HasText m.summary
  pub description : HasText m.description
  pub author : HasText m.author
  pub runtime : HasSource m.runtime
  pub install : AreValid m.install_commands
  pub upgrade : AreValid m.upgrade_commands
  pub uninstall : AreValid m.uninstall_commands

fail_if_iff : (b : Bool) (e : String) → (fail_if b e ≡ ok tt) ↔ (b ≡ false)
fail_if_iff true e = (λ h. cc, λ h. cc)
fail_if_iff false e = (λ h. refl, λ h. refl)

seq_iff :
    {P Q : Type 0} (m k : Result String Unit)
    → (m ≡ ok tt) ↔ P
    → (k ≡ ok tt) ↔ Q
    → ((m >> k) ≡ ok tt) ↔ (P × Q)
seq_iff (ok tt) k p q = (λ h. (p.0 refl, q.0 h), λ h. q.1 h.1)
seq_iff (err e) k p q = (λ h. cc, λ h. cc (p.1 h.0))

require_iff : (s e : String) → (fail_if (is_blank s) e ≡ ok tt) ↔ HasText s
require_iff s e = rw is_blank-eq (fail_if_iff _ e)

blank_opt_iff : (o : Option String) → (is_blank_opt o ≡ false) ↔ SomeText o
blank_opt_iff none = (λ h. cc, λ h. absurd h)
blank_opt_iff (some v) = rw is_blank-eq (λ h. h, λ h. h)

some_source_iff :
    (a b c : Bool) → ((a && b && c) ≡ false) ↔ ((a ≡ false) ⊎ ((b ≡ false) ⊎ (c ≡ false)))
some_source_iff a b c = ground arith

⊎_iff : {A B C D : Type 0} → A ↔ C → B ↔ D → (A ⊎ B) ↔ (C ⊎ D)
⊎_iff p q = (
  λ h. elim h [ inl a ↦ inl (p.0 a) | inr b ↦ inr (q.0 b) ],
  λ h. elim h [ inl a ↦ inl (p.1 a) | inr b ↦ inr (q.1 b) ],
)

iff_trans : {A B C : Type 0} → A ↔ B → B ↔ C → A ↔ C
iff_trans p q = (λ a. q.0 (p.0 a), λ c. p.1 (q.1 c))

validate_runtime_iff : (r : PluginRuntimeManifest) → (validate_runtime r ≡ ok tt) ↔ HasSource r
unfolding validate_runtime
validate_runtime_iff (PluginRuntimeManifest.wasm_component r) = require_iff r.artifact _
validate_runtime_iff (PluginRuntimeManifest.wasm_module r) = require_iff r.artifact _
validate_runtime_iff (PluginRuntimeManifest.process r) = require_iff r.program _
validate_runtime_iff (PluginRuntimeManifest.docker r) = iff_trans (fail_if_iff _ _) (
    iff_trans (some_source_iff _ _ _) (
      ⊎_iff (blank_opt_iff r.image)
        (⊎_iff (blank_opt_iff r.oci_archive) (blank_opt_iff r.compose_file))))

url_iff :
    (a : PluginSetupAction) (url : Option String)
    → ((is_download a && is_blank_opt url) ≡ false) ↔ NeedsUrl a url
url_iff PluginSetupAction.download url = blank_opt_iff url
url_iff _ url = (λ h. tt, λ h. refl)

validate_sha_iff :
    (label : String) (i : ℕ) (o : Option String) → (validate_sha label i o ≡ ok tt) ↔ IsSha256Hex o
unfolding validate_sha
validate_sha_iff label i none = (λ h. tt, λ h. refl)
validate_sha_iff label i (some sha) = ground arith

validate_step_iff :
    (label : String) (i : ℕ) (s : PluginSetupStep)
    → (validate_step label i s ≡ ok tt) ↔ IsValidStep s
unfolding validate_step
validate_step_iff label i s =
    seq_iff _ _ (iff_trans (fail_if_iff _ _) (url_iff s.action s.url))
      (validate_sha_iff label i s.sha256)

validate_steps_iff :
    (label : String) (i : ℕ) (o : List PluginSetupStep)
    → (validate_steps label i o ≡ ok tt) ↔ All IsValidStep o
unfolding validate_steps
validate_steps_iff label i [] = (λ h. tt, λ h. refl)
validate_steps_iff label i (s ∷ rest) =
    seq_iff _ _ (validate_step_iff label i s) (validate_steps_iff label (suc i) rest)

commands_iff :
    (label : String) (o : Option (List PluginSetupStep))
    → (validate_steps label 0 (steps_of o) ≡ ok tt) ↔ AreValid o
commands_iff label none = validate_steps_iff label 0 []
commands_iff label (some steps) = validate_steps_iff label 0 steps

-- `validate` succeeds exactly on the valid manifests: every required field has text, the runtime
-- names what it runs, and every step of the three command lists has its URL and a well-formed
-- checksum.
pub validate_iff : (m : PluginManifest) → (validate m ≡ ok tt) ↔ IsValidManifest m
unfolding validate
validate_iff m =
    iff_trans
      (seq_iff _ _ (require_iff m.id _) (
        seq_iff _ _ (require_iff m.name _) (
          seq_iff _ _ (require_iff m.version _) (
            seq_iff _ _ (require_iff m.summary _) (
              seq_iff _ _ (require_iff m.description _) (
                seq_iff _ _ (require_iff m.author _) (
                  seq_iff _ _ (validate_runtime_iff m.runtime) (
                    seq_iff _ _ (commands_iff _ m.install_commands) (
                      seq_iff _ _ (commands_iff _ m.upgrade_commands)
                        (commands_iff _ m.uninstall_commands))))))))))
      (
        λ h. record {
          id = h.0;
          name = h.1.0;
          version = h.1.1.0;
          summary = h.1.1.1.0;
          description = h.1.1.1.1.0;
          author = h.1.1.1.1.1.0;
          runtime = h.1.1.1.1.1.1.0;
          install = h.1.1.1.1.1.1.1.0;
          upgrade = h.1.1.1.1.1.1.1.1.0;
          uninstall = h.1.1.1.1.1.1.1.1.1;
        },
        λ v. (
          v.id,
          (
            v.name,
            (
              v.version,
              (
                v.summary,
                (v.description, (v.author, (v.runtime, (v.install, (v.upgrade, v.uninstall))))),
              ),
            ),
          ),
        ),
      )
