-- ===== src/Public/Files.antt =====
-- What a request for a file of a plugin's user interface reads.
use mathlib.Core.Path.{subst}
use yh_extension_manager_v.Prelude.{
  String, ◌≡◌, ◌⊎◌, inl, inr, sym, ap, ◌∙◌, Bool, true, false, Option, List, [], ◌++◌, arith, some,
  unwrap_or, if◌then◌else◌,
}
use yh_extension_manager_v.Prelude.Outcome.{Result, ok}
use yh_extension_manager_v.Text.{split}
use yh_extension_manager_v.FilePath.{join, is_absolute}
use yh_extension_manager_v.Manifest.{PluginManifest, PluginUiManifest}
use yh_extension_manager_v.World.{Env, Bytes, World, pure, lift, or_raise, ◌>>=◌}
use yh_extension_manager_v.World.Bind.{bind-Passed}
use yh_extension_manager_v.Installer.SafePath.{walk, walk_stays}
use yh_extension_manager_v.Handlers.{AppError}
use yh_extension_manager_v.Public.{
  safe_join, ui_entry_relative_path, ui_requested_relative_path, UiFile, load_package_root,
  select_ui_file, read_ui_file, serve_plugin_ui_file,
}

-- The path is the file with this name below the directory: whatever directory one starts from, the
-- walk along the name ends there or below.
pub record IsBelow (root name path : String) : Type 0 where
  pub joined : path ≡ join root name
  pub relative : is_absolute name ≡ false
  pub stays :
      (dirs : List String) → (deeper : List String) × (walk dirs (split b'/' name) ≡ deeper ++ dirs)

safe_join-IsBelow :
    (root name path : String) → safe_join root name ≡ ok path → IsBelow root name path
unfolding safe_join
safe_join-IsBelow root name path h = record {
  joined = ground arith;
  relative = ground arith;
  stays = λ dirs. walk_stays dirs [] (split b'/' name) (ground arith);
}

-- the two files that may be served
abbrev IsUiFile : String → String → String → String → Type 0
IsUiFile root ui_root path p =
    IsBelow root (ui_requested_relative_path ui_root path) p
    ⊎ IsBelow root (ui_entry_relative_path ui_root) p

either :
    (root ui_root path entry candidate p : String) (there : Bool)
    → IsBelow root (ui_requested_relative_path ui_root path) candidate
    → IsBelow root (ui_entry_relative_path ui_root) entry
    → (if there then candidate else entry) ≡ p
    → IsUiFile root ui_root path p
either root ui_root path entry candidate p true c e h =
    inl (subst (IsBelow root (ui_requested_relative_path ui_root path)) h c)
either root ui_root path entry candidate p false c e h =
    inr (subst (IsBelow root (ui_entry_relative_path ui_root)) h e)

module _ {E : Env} {A : Type 0} where
  lifted : (x : Result AppError A) (w w' : World E) (a : A) → lift x w ≡ (ok a, w') → x ≡ ok a
  unfolding ◌>>=◌
  lifted x w w' a h = ap (λ y. y.0) h

  returned : (a b : A) (w : World E) → (pure {F = AppError} a w).0 ≡ ok b → a ≡ b
  unfolding ◌>>=◌
  returned a b w h = ground arith

module _ {E : Env} where
  selected_below :
      (root ui_root path p : String) (w : World E)
      → (select_ui_file E root ui_root path w).0 ≡ ok p
      → IsUiFile root ui_root path p
  unfolding select_ui_file
  selected_below root ui_root path p w h =
      let a = bind-Passed (lift (safe_join root (ui_entry_relative_path ui_root))) _ w p h in
      let h1 = ap (λ x. x.0) (sym a.rest) ∙ h in
      let b =
        bind-Passed (lift (safe_join root (ui_requested_relative_path ui_root path))) _ a.world p
          h1 in
      let h2 = ap (λ x. x.0) (sym b.rest) ∙ h1 in
      let c = bind-Passed _ (λ there. pure (if there then b.value else a.value)) b.world p h2 in
      either root ui_root path a.value b.value p c.value
        (safe_join-IsBelow _ _ b.value (lifted _ a.world b.world b.value b.first))
        (safe_join-IsBelow _ _ a.value (lifted _ w a.world a.value a.first))
        (returned _ p c.world (ap (λ x. x.0) (sym c.rest) ∙ h2))

module _ {E : Env} (read : String → E.State → Result String Bytes × E.State)
    (header_of : String → Option String) where
  -- What is known of a response with a file: the plugin's package and manifest were found, the
  -- file is the requested one or the entry below the package's directory `ui`, and the body and the
  -- type are the file's.
  pub record IsServed (plugin_id path : String) (w : World E) (r : UiFile) : Type 0 where
    pub install_root : String
    pub manifest : PluginManifest
    pub ui : PluginUiManifest
    pub selected : String
    pub state : E.State
    pub found : (load_package_root E plugin_id w).0 ≡ ok (install_root, manifest)
    pub has_ui : manifest.ui ≡ some ui
    pub below : IsUiFile (join install_root "ui") ui.root path selected
    pub content : (read selected state).0 ≡ ok r.body
    pub declared : r.content_type ≡ unwrap_or (header_of selected) "application/octet-stream"

  read_content :
      (selected : String) (w : World E) (r : UiFile)
      → (read_ui_file read header_of selected w).0 ≡ ok r
      → ((read selected w.env).0 ≡ ok r.body)
        × (r.content_type ≡ unwrap_or (header_of selected) "application/octet-stream")
  unfolding read_ui_file ◌>>=◌
  read_content selected w r h = (ground arith, ground arith)

  there_is :
      {A : Type 0} (o : Option A) (e : AppError) (w w' : World E) (a : A)
      → or_raise o e w ≡ (ok a, w')
      → o ≡ some a
  unfolding ◌>>=◌
  there_is o e w w' a h = ground arith

  -- A response with a file of a plugin's user interface has the content of a file that is below
  -- the directory `ui` of the package of the plugin's current version, the requested one or the
  -- entry that the manifest has, whatever path is requested and whatever the manifest says.
  pub serve_plugin_ui_file-IsServed :
      (plugin_id path : String) (w : World E) (r : UiFile)
      → (serve_plugin_ui_file read header_of plugin_id path w).0 ≡ ok r
      → IsServed plugin_id path w r
  unfolding serve_plugin_ui_file
  serve_plugin_ui_file-IsServed plugin_id path w r h =
      let a = bind-Passed (load_package_root E plugin_id) _ w r h in
      let h1 = ap (λ x. x.0) (sym a.rest) ∙ h in
      let b = bind-Passed (or_raise a.value.1.ui _) _ a.world r h1 in
      let h2 = ap (λ x. x.0) (sym b.rest) ∙ h1 in
      let c =
        bind-Passed (select_ui_file E (join a.value.0 "ui") b.value.root path) _ b.world r h2 in
      let got = read_content c.value c.world r (ap (λ x. x.0) (sym c.rest) ∙ h2) in
      record {
        install_root = a.value.0;
        manifest = a.value.1;
        ui = b.value;
        selected = c.value;
        state = c.world.env;
        found = ap (λ x. x.0) a.first;
        has_ui = there_is a.value.1.ui _ a.world b.world b.value b.first;
        below =
            selected_below (join a.value.0 "ui") b.value.root path c.value b.world
              (ap (λ x. x.0) c.first);
        content = got.0;
        declared = got.1;
      }
