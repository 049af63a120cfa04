-- ===== src/Installer/Quiet.antt =====
-- Setting a plugin up works on the disk alone: it writes none of the program's tables and handles.
use yh_extension_manager_v.Prelude.{
  ℕ, suc, String, Bool, true, false, not, Option, none, some, List, [], ◌∷◌,
}
use yh_extension_manager_v.Prelude.Dict.{Dict}
use yh_extension_manager_v.Prelude.Outcome.{Result}
use yh_extension_manager_v.Manifest.{PluginSetupAction, PluginSetupCondition, PluginSetupStep}
use yh_extension_manager_v.World.{Env, Core, Bytes, ZipEntry, TarEntry}
use yh_extension_manager_v.World.Keeps.{
  Keeps, keeps_rules, Keeps-pure, Keeps-lift, Keeps-if, Keeps-bind, Keeps-map_error,
}
use yh_extension_manager_v.Installer.Archive.{ArchiveFormat, out_path}
use yh_extension_manager_v.Installer.Extract.{
  create_dir_of, set_mode, extract_zip_file, extract_zip_entry, extract_zip_entries, enclosed_path,
  extract_zip_with_strip, unpack_entry, extract_tar_entries, extract_tar_gz_with_strip,
  extract_gzip_single, extract_detected, extract_archive, detect_and_extract,
  extract_archive_with_format,
}
use yh_extension_manager_v.Installer.Setup.Step.{
  verify_sha256, verify_declared, download_to_bytes, write_download, download_step, extract_step,
  move_step, copy_step, symlink_step, chmod_step, mkdir_step, remove_target, remove_step,
  touch_step, write_file_step, make_executable, run_step, perform, execute_setup_step,
}
use yh_extension_manager_v.Installer.Setup.{
  Target, TemplateVars, check_setup_condition, should_run, execute_commands,
  execute_commands_with_overrides,
}

module _ {E : Env} {P : Core → Type 0} where
  Keeps-create_dir_of : (o : Option String) (t : String) → Keeps P (create_dir_of E o t)
  unfolding create_dir_of
  Keeps-create_dir_of none t = Keeps-pure tt
  Keeps-create_dir_of (some d) t = search keeps_rules depth 20

  Keeps-set_mode : (p : String) (o : Option ℕ) → Keeps P (set_mode E p o)
  unfolding set_mode
  Keeps-set_mode p none = Keeps-pure tt
  Keeps-set_mode p (some m) = search keeps_rules depth 20

  Keeps-extract_zip_file : (p : String) (e : ZipEntry) → Keeps P (extract_zip_file E p e)
  unfolding extract_zip_file
  Keeps-extract_zip_file p e = search (keeps_rules, Keeps-create_dir_of, Keeps-set_mode) depth 30

  Keeps-extract_zip_entry : (o : Option String) (e : ZipEntry) → Keeps P (extract_zip_entry E o e)
  unfolding extract_zip_entry
  Keeps-extract_zip_entry none e = Keeps-pure tt
  Keeps-extract_zip_entry (some p) e = search (keeps_rules, Keeps-extract_zip_file) depth 20

  Keeps-extract_zip_entries :
      (i : ℕ) (d : String) (n : ℕ) (es : List (Result String ZipEntry))
      → Keeps P (extract_zip_entries E i d n es)
  unfolding extract_zip_entries
  Keeps-extract_zip_entries i d n [] = Keeps-pure tt
  Keeps-extract_zip_entries i d n (e ∷ es) =
      Keeps-bind _ _ (Keeps-map_error _ _ (Keeps-lift _)) (λ x.
        Keeps-bind _ _ (Keeps-extract_zip_entry (enclosed_path E d n x.enclosed_name) x)
          (λ u. Keeps-extract_zip_entries (suc i) d n es))

  Keeps-extract_zip_with_strip : (a d : String) (n : ℕ) → Keeps P (extract_zip_with_strip E a d n)
  unfolding extract_zip_with_strip
  Keeps-extract_zip_with_strip a d n = search (keeps_rules, Keeps-extract_zip_entries) depth 20

  Keeps-unpack_entry : (o : Option String) (e : TarEntry) → Keeps P (unpack_entry E o e)
  unfolding unpack_entry
  Keeps-unpack_entry none e = Keeps-pure tt
  Keeps-unpack_entry (some p) e = search (keeps_rules, Keeps-create_dir_of) depth 20

  Keeps-extract_tar_entries :
      (d : String) (n : ℕ) (es : List (Result String TarEntry))
      → Keeps P (extract_tar_entries E d n es)
  unfolding extract_tar_entries
  Keeps-extract_tar_entries d n [] = Keeps-pure tt
  Keeps-extract_tar_entries d n (e ∷ es) = Keeps-bind _ _ (Keeps-map_error _ _ (Keeps-lift _)) (λ x.
      Keeps-bind _ _ (Keeps-map_error _ _ (Keeps-lift _)) (λ y.
        Keeps-bind _ _ (Keeps-unpack_entry (out_path d n y) x)
          (λ u. Keeps-extract_tar_entries d n es)))

  Keeps-extract_tar_gz_with_strip :
      (a d : String) (n : ℕ) → Keeps P (extract_tar_gz_with_strip E a d n)
  unfolding extract_tar_gz_with_strip
  Keeps-extract_tar_gz_with_strip a d n = search (keeps_rules, Keeps-extract_tar_entries) depth 20

  Keeps-extract_gzip_single : (a d : String) → Keeps P (extract_gzip_single E a d)
  unfolding extract_gzip_single
  Keeps-extract_gzip_single a d = search keeps_rules depth 20

  Keeps-extract_detected :
      (f : Option ArchiveFormat) (a d : String) (n : ℕ) → Keeps P (extract_detected E f a d n)
  unfolding extract_detected
  Keeps-extract_detected (some ArchiveFormat.zip) a d n = Keeps-extract_zip_with_strip a d n
  Keeps-extract_detected (some ArchiveFormat.tar_gz) a d n = Keeps-extract_tar_gz_with_strip a d n
  Keeps-extract_detected (some ArchiveFormat.gzip) a d n = Keeps-extract_gzip_single a d
  Keeps-extract_detected none a d n = search keeps_rules depth 10

  Keeps-extract_archive : (a d : String) (n : ℕ) → Keeps P (extract_archive E a d n)
  unfolding extract_archive
  Keeps-extract_archive a d n = Keeps-extract_detected _ a d n

  Keeps-detect_and_extract : (a d : String) (n : ℕ) → Keeps P (detect_and_extract E a d n)
  unfolding detect_and_extract
  Keeps-detect_and_extract a d n = Keeps-extract_detected _ a d n

  Keeps-extract_archive_with_format :
      (a d f : String) (n : ℕ) → Keeps P (extract_archive_with_format E a d f n)
  unfolding extract_archive_with_format
  Keeps-extract_archive_with_format a d f n =
      search
        (
          keeps_rules, Keeps-extract_zip_with_strip, Keeps-extract_tar_gz_with_strip,
          Keeps-extract_gzip_single, Keeps-detect_and_extract,
        )
        depth 20

  Keeps-verify_declared : (b : Bytes) (o : Option String) → Keeps P (verify_declared E b o)
  unfolding verify_declared verify_sha256
  Keeps-verify_declared b none = Keeps-pure tt
  Keeps-verify_declared b (some s) = search keeps_rules depth 10

  Keeps-download_to_bytes : (u : String) → Keeps P (download_to_bytes E u)
  unfolding download_to_bytes
  Keeps-download_to_bytes u = search keeps_rules depth 20

  Keeps-write_download :
      (s : PluginSetupStep) (p d : String) (b : Bytes) (o : Option String)
      → Keeps P (write_download E s p d b o)
  unfolding write_download
  Keeps-write_download s p d b none = search (keeps_rules, Keeps-create_dir_of) depth 20
  Keeps-write_download s p d b (some f) =
      search (keeps_rules, Keeps-create_dir_of, Keeps-extract_archive_with_format) depth 30

  Keeps-download_step :
      (s : PluginSetupStep) (p : String) (o : Option String) → Keeps P (download_step E s p o)
  unfolding download_step
  Keeps-download_step s p o =
      search (keeps_rules, Keeps-download_to_bytes, Keeps-verify_declared, Keeps-write_download)
        depth 30

  Keeps-remove_target : (t : String) (b : Bool) → Keeps P (remove_target E t b)
  unfolding remove_target
  Keeps-remove_target t true = search keeps_rules depth 10
  Keeps-remove_target t false = search keeps_rules depth 10

  Keeps-make_executable : (p : String) (m : ℕ) → Keeps P (make_executable E p m)
  unfolding make_executable
  Keeps-make_executable p m = search keeps_rules depth 10

  Keeps-perform :
      (a : PluginSetupAction) (s : PluginSetupStep) (p : String) (src dst : Option String)
      → Keeps P (perform E a s p src dst)
  unfolding perform extract_step move_step copy_step symlink_step chmod_step mkdir_step remove_step
      touch_step write_file_step run_step
  Keeps-perform PluginSetupAction.download s p src dst = Keeps-download_step s p dst
  Keeps-perform PluginSetupAction.extract s p src dst =
      search (keeps_rules, Keeps-extract_archive) depth 20
  Keeps-perform PluginSetupAction.move s p src dst =
      search (keeps_rules, Keeps-create_dir_of) depth 30
  Keeps-perform PluginSetupAction.copy s p src dst =
      search (keeps_rules, Keeps-create_dir_of) depth 30
  Keeps-perform PluginSetupAction.symlink s p src dst =
      search (keeps_rules, Keeps-create_dir_of) depth 30
  Keeps-perform PluginSetupAction.chmod s p src dst = search keeps_rules depth 30
  Keeps-perform PluginSetupAction.mkdir s p src dst = search keeps_rules depth 20
  Keeps-perform PluginSetupAction.remove s p src dst =
      search (keeps_rules, Keeps-remove_target) depth 30
  Keeps-perform PluginSetupAction.touch s p src dst =
      search (keeps_rules, Keeps-create_dir_of) depth 20
  Keeps-perform PluginSetupAction.write_file s p src dst =
      search (keeps_rules, Keeps-create_dir_of) depth 20
  Keeps-perform PluginSetupAction.run s p src dst =
      search (keeps_rules, Keeps-make_executable) depth 40

  Keeps-execute_setup_step :
      (s : PluginSetupStep) (p q : String) → Keeps P (execute_setup_step E s p q)
  unfolding execute_setup_step
  Keeps-execute_setup_step s p q = Keeps-perform _ s q _ _

  Keeps-should_run : (c : Option PluginSetupCondition) (p : String) → Keeps P (should_run E c p)
  unfolding should_run check_setup_condition
  Keeps-should_run none p = Keeps-pure true
  Keeps-should_run (some (PluginSetupCondition.file_not_exists f)) p = search keeps_rules depth 10
  Keeps-should_run (some (PluginSetupCondition.file_exists f)) p = search keeps_rules depth 10
  Keeps-should_run (some (PluginSetupCondition.env_not_set n)) p = search keeps_rules depth 10

  Keeps-execute_commands :
      (t : Target) (o : Dict String) (v : TemplateVars) (p : String) (i : ℕ)
      (steps : List PluginSetupStep)
      → Keeps P (execute_commands E t o v p i steps)
  unfolding execute_commands
  Keeps-execute_commands t o v p i [] = Keeps-pure tt
  Keeps-execute_commands t o v p i (s ∷ steps) = Keeps-bind _ _ (Keeps-should_run _ _) (λ run.
      Keeps-if (not run) _ _ (Keeps-execute_commands t o v p i steps) (
        Keeps-bind _ _ (Keeps-execute_setup_step _ _ _)
          (λ u. Keeps-execute_commands t o v p _ steps)))

  -- The setup steps of a manifest keep whatever holds of the program's state.
  pub Keeps-execute_commands_with_overrides :
      (t : Target) (o : Dict String) (v : TemplateVars) (p : String) (steps : List PluginSetupStep)
      → Keeps P (execute_commands_with_overrides E t o v p steps)
  unfolding execute_commands_with_overrides
  Keeps-execute_commands_with_overrides t o v p steps = Keeps-execute_commands t o v p 0 steps
