-- ===== src/FileUpload/Sanitizer/Tests.antt =====
-- Runs of the sanitizer.
use microservices_base.Prelude.{◌≡◌, refl, ◌⊎◌, false, true, []}
use microservices_base.Prelude.Order.{All}
use microservices_base.FileUpload.Sanitizer.{
  codes, sanitize_filename, validate_filename, sanitize_path, split, join, collapse, trim,
  kept_parts, base, remove_each, replace_all, replace_from, has_prefix, contains, contains_any,
  printed, skip_slashes, before_slash, validate_tenant_access,
}
use microservices_base.FileUpload.Sanitizer.Filename.{SafeName, sanitize_filename-SafeName}
use microservices_base.FileUpload.Sanitizer.Split.{SafePart}
use microservices_base.FileUpload.Sanitizer.Path.{sanitize_path-SafePart}

-- A backslash between two dots is removed after the double dots have been looked for.
dots_left : sanitize_filename (codes ".\\.") ≡ codes ".."
unfolding sanitize_filename base remove_each replace_all replace_from has_prefix printed
    skip_slashes before_slash
dots_left = refl

dots_refused : validate_filename (codes "..") ≡ false
unfolding validate_filename contains_any contains has_prefix
dots_refused = refl

path_run : sanitize_path (codes "//tenant/../a//./b/") ≡ codes "tenant/a/b"
unfolding sanitize_path collapse replace_all replace_from has_prefix contains trim skip_slashes
    split kept_parts join
path_run = refl

tenant_run : validate_tenant_access (codes "tenant/a/b") (codes "tenant") ≡ true
unfolding validate_tenant_access before_slash
tenant_run = refl

sanitize_filename-SafeName_example : SafeName (sanitize_filename (codes "a/.\\."))
sanitize_filename-SafeName_example = sanitize_filename-SafeName (codes "a/.\\.")

sanitize_path-SafePart_example :
    (sanitize_path (codes "/tenant/../a") ≡ [])
    ⊎ All SafePart (split (sanitize_path (codes "/tenant/../a")))
sanitize_path-SafePart_example = sanitize_path-SafePart (codes "/tenant/../a")
