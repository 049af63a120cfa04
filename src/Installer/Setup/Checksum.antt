-- ===== src/Installer/Setup/Checksum.antt =====
-- A download whose checksum is declared.
use yh_extension_manager_v.Prelude.{String, ◌<>◌, ◌≡◌, refl, true, false, some, ◌==◌, arith}
use yh_extension_manager_v.Prelude.Outcome.{ok, err}
use yh_extension_manager_v.Manifest.{PluginSetupStep}
use yh_extension_manager_v.World.{Env, World, Bytes, HttpResponse, ◌>>=◌}
use yh_extension_manager_v.Installer.Setup.Step.{
  compute_sha256, verify_sha256, verify_declared, download_to_bytes, download_step,
}

module _ {E : Env} where
  downloaded :
      (url : String) (w : World E) (response : HttpResponse) (content : Bytes)
      → (E.http_get url w.env).0 ≡ ok response
      → response.success ≡ true
      → response.body ≡ ok content
      → download_to_bytes E url w ≡ (ok content, record w { env = (E.http_get url w.env).1 })
  unfolding download_to_bytes ◌>>=◌
  downloaded url w response content e s b = ground arith

  -- A download whose content does not have the checksum that its step declares fails, and nothing
  -- is done after the request for it: no file is written and nothing is extracted.
  pub download_step-mismatch :
      (step : PluginSetupStep) (pkg_dir url dest expected : String) (response : HttpResponse)
      (content : Bytes) (w : World E)
      → step.url ≡ some url
      → step.sha256 ≡ some expected
      → (E.http_get url w.env).0 ≡ ok response
      → response.success ≡ true
      → response.body ≡ ok content
      → (compute_sha256 E content == expected) ≡ false
      → download_step E step pkg_dir (some dest) w ≡ (
        err (
            "SHA-256 mismatch: expected "
            <> expected
            <> " but computed "
            <> compute_sha256 E content),
        record w { env = (E.http_get url w.env).1 },
      )
  unfolding download_step verify_declared verify_sha256 ◌>>=◌
  download_step-mismatch step pkg_dir url dest expected response content w u d g s b bad =
      rw (u, d, downloaded url w response content g s b, bad) refl
