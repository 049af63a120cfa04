-- ===== src/Installer/Extract.antt =====
-- src/installer.rs: extracting an archive, with leading components of the entries' paths removed.
use yh_extension_manager_v.Prelude.{
  ℕ, suc, String, ◌<>◌, ◌||◌, Option, none, some, List, [], ◌∷◌, ◌==◌, if◌then◌else◌,
}
use yh_extension_manager_v.Prelude.Outcome.{Result}
use yh_extension_manager_v.Text.Decimal.{show}
use yh_extension_manager_v.FilePath.{join, parent, file_stem}
use yh_extension_manager_v.World.{
  Env, ZipEntry, TarEntry, Exec, pure, raise, or_raise, lift, os, attempt, map_error, ◌>>=◌, ◌>>◌,
}
use yh_extension_manager_v.Installer.Archive.{ArchiveFormat, detect_archive_format, out_path}

module _ (E : Env) where
  unfoldable pub create_dir_of : Option String → String → Exec E String Unit
  create_dir_of none what = pure tt
  create_dir_of (some dir) what =
      map_error (λ e. "failed to create " <> what <> " '" <> dir <> "': " <> e)
        (os (E.create_dir_all dir))

  unfoldable pub set_mode : String → Option ℕ → Exec E String Unit
  set_mode out none = pure tt
  set_mode out (some mode) = do attempt (os (E.set_permissions out mode)); pure tt

  unfoldable pub extract_zip_file : String → ZipEntry → Exec E String Unit
  unfolding create_dir_of set_mode
  extract_zip_file out entry = do
    create_dir_of (parent out) "parent dir"
    buffer ←
        map_error (λ e. "failed to read zip entry '" <> entry.name <> "': " <> e)
          (lift entry.content)
    map_error (λ e. "failed to write '" <> out <> "': " <> e) (os (E.write out buffer))
    set_mode out entry.unix_mode

  unfoldable pub extract_zip_entry : Option String → ZipEntry → Exec E String Unit
  unfolding extract_zip_file
  extract_zip_entry none entry = pure tt
  extract_zip_entry (some out) entry =
      if entry.is_dir
      then map_error (λ e. "failed to create dir '" <> out <> "': " <> e)
          (os (E.create_dir_all out))
      else extract_zip_file out entry

  -- An entry whose name leaves the archive is passed over.
  unfoldable pub enclosed_path : String → ℕ → Option String → Option String
  enclosed_path dest_dir strip none = none
  enclosed_path dest_dir strip (some entry_path) = out_path dest_dir strip entry_path

  unfoldable pub extract_zip_entries :
      ℕ → String → ℕ → List (Result String ZipEntry) → Exec E String Unit
  unfolding extract_zip_entry enclosed_path out_path
  extract_zip_entries index dest_dir strip [] = pure tt
  extract_zip_entries index dest_dir strip (read ∷ rest) = do
    entry ← map_error (λ e. "failed to read zip entry " <> show index <> ": " <> e) (lift read)
    extract_zip_entry (enclosed_path dest_dir strip entry.enclosed_name) entry
    extract_zip_entries (suc index) dest_dir strip rest

  -- `zip_file` opens the file and reads its directory; its error says which of them failed.
  unfoldable pub extract_zip_with_strip : String → String → ℕ → Exec E String Unit
  unfolding extract_zip_entries
  extract_zip_with_strip archive_path dest_dir strip = do
    entries ← os (E.zip_file archive_path)
    extract_zip_entries 0 dest_dir strip entries

  unfoldable pub unpack_entry : Option String → TarEntry → Exec E String Unit
  unfolding create_dir_of
  unpack_entry none entry = pure tt
  unpack_entry (some out) entry = do
    create_dir_of (parent out) "dir"
    map_error (λ e. "failed to unpack '" <> out <> "': " <> e) (os (E.tar_unpack entry out))

  -- The path of an entry is taken as it is: an absolute one, or one with `..`, is joined too.
  unfoldable pub extract_tar_entries :
      String → ℕ → List (Result String TarEntry) → Exec E String Unit
  unfolding unpack_entry out_path
  extract_tar_entries dest_dir strip [] = pure tt
  extract_tar_entries dest_dir strip (read ∷ rest) = do
    entry ← map_error (λ e. "failed to read tar entry: " <> e) (lift read)
    entry_path ← map_error (λ e. "failed to read tar entry path: " <> e) (lift entry.path)
    unpack_entry (out_path dest_dir strip entry_path) entry
    extract_tar_entries dest_dir strip rest

  unfoldable pub extract_tar_gz_with_strip : String → String → ℕ → Exec E String Unit
  unfolding extract_tar_entries
  extract_tar_gz_with_strip archive_path dest_dir strip = do
    entries ← os (E.tar_file archive_path)
    extract_tar_entries dest_dir strip entries

  -- `gunzip_to` opens the archive, creates the file and copies; its error says which failed.
  unfoldable pub extract_gzip_single : String → String → Exec E String Unit
  extract_gzip_single archive_path dest_dir = do
    stem ←
        or_raise (file_stem archive_path)
          ("cannot determine output name for '" <> archive_path <> "'")
    os (E.gunzip_to archive_path (join dest_dir stem))

  unfoldable pub extract_detected : Option ArchiveFormat → String → String → ℕ → Exec E String Unit
  unfolding extract_zip_with_strip extract_tar_gz_with_strip extract_gzip_single
  extract_detected (some ArchiveFormat.zip) archive_path dest_dir strip =
      extract_zip_with_strip archive_path dest_dir strip
  extract_detected (some ArchiveFormat.tar_gz) archive_path dest_dir strip =
      extract_tar_gz_with_strip archive_path dest_dir strip
  extract_detected (some ArchiveFormat.gzip) archive_path dest_dir strip =
      extract_gzip_single archive_path dest_dir
  extract_detected none archive_path dest_dir strip =
      raise ("unsupported archive format: " <> archive_path)

  unfoldable pub extract_archive : String → String → ℕ → Exec E String Unit
  unfolding extract_detected detect_archive_format
  extract_archive archive_path dest_dir strip =
      extract_detected (detect_archive_format archive_path) archive_path dest_dir strip

  unfoldable pub detect_and_extract : String → String → ℕ → Exec E String Unit
  unfolding extract_detected detect_archive_format
  detect_and_extract archive_path dest_dir strip =
      extract_detected (detect_archive_format archive_path) archive_path dest_dir strip

  unfoldable pub extract_archive_with_format : String → String → String → ℕ → Exec E String Unit
  unfolding extract_zip_with_strip extract_tar_gz_with_strip extract_gzip_single detect_and_extract
  extract_archive_with_format archive_path dest_dir format strip =
      if format == "zip"
      then extract_zip_with_strip archive_path dest_dir strip
      else if format == "tar.gz" || format == "tgz"
      then extract_tar_gz_with_strip archive_path dest_dir strip
      else if format == "gzip"
      then extract_gzip_single archive_path dest_dir
      else detect_and_extract archive_path dest_dir strip
