-- ===== src/FileUpload/Sanitizer/Path.antt =====
-- What SanitizePath returns.
use microservices_base.Prelude.{ℕ, ◌≡◌, refl, sym, subst, ◌⊎◌, inl, inr, List, [], ◌∷◌, length}
use microservices_base.Prelude.Order.{All}
use microservices_base.FileUpload.Sanitizer.{sanitize_path, split, join, kept_parts, collapse, trim}
use microservices_base.FileUpload.Sanitizer.Split.{
  NoSlash, split-NoSlash, split-join, SafePart, kept_parts_keep, kept_parts-SafePart,
}

join-SafePart :
    (parts : List (List ℕ))
    → All NoSlash parts
    → All SafePart parts
    → (join parts ≡ []) ⊎ All SafePart (split (join parts))
unfolding join
join-SafePart [] p q = inl refl
join-SafePart (part ∷ parts) p q = inr (subst (All SafePart) (sym (split-join p)) q)

-- SanitizePath returns the empty path or one whose parts between slashes are none of "..", "." and
-- the empty name.
pub sanitize_path-SafePart :
    (path : List ℕ) → (sanitize_path path ≡ []) ⊎ All SafePart (split (sanitize_path path))
unfolding sanitize_path
sanitize_path-SafePart path =
    let whole = split (collapse (length (trim path)) (trim path)) in
    join-SafePart (kept_parts whole)
      (kept_parts_keep whole (split-NoSlash (collapse (length (trim path)) (trim path))))
      (kept_parts-SafePart whole)
