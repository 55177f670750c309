-- ===== src/FileUpload/Sanitizer/Filename.antt =====
-- What SanitizeFilename returns.
use native.Mathlib.Omega.{arith}
use microservices_base.Prelude.{ℕ, ◌≡◌, ◌≢◌, ◌≤◌, subst, true, List, [], ◌∷◌, inl, inr, Bool-cases}
use microservices_base.Prelude.Eq.{◌==◌, comparable_nat, comparable_list, ne_of_==}
use microservices_base.Prelude.Order.{All, all_nil, all_cons, All-both, All-map}
use microservices_base.FileUpload.Sanitizer.{
  codes, sanitize_filename, remove_each, replace_all, path_traversal_chars, printed, is_printed,
  or_unnamed, base,
}
use microservices_base.FileUpload.Sanitizer.Deletion.{
  replace_all-All, remove_each-All, replace_all-absent, printed-All, printed_keeps,
}

-- Neither a separator nor an ASCII control character (those below the space, and DEL).
pub record SafeChar (c : ℕ) : Type 0 where
  pub no_slash : c ≢ 47
  pub no_backslash : c ≢ 92
  pub not_below_space : 32 ≤ c
  pub not_delete : c ≢ 127

pub record SafeName (name : List ℕ) : Type 0 where
  pub chars : All SafeChar name
  pub some_chars : name ≢ []
  pub no_dot : name ≢ codes "."

no_slash : (s : List ℕ) → All (λ c. c ≢ 47) (remove_each path_traversal_chars s)
unfolding remove_each
no_slash s =
    remove_each-All (codes "\\" ∷ codes "%2e" ∷ codes "%2f" ∷ codes "%5c" ∷ [])
      (replace_all (replace_all s (codes "..") []) (codes "/") [])
      (replace_all-absent 47 (replace_all s (codes "..") []))

no_backslash : (s : List ℕ) → All (λ c. c ≢ 92) (remove_each path_traversal_chars s)
unfolding remove_each
no_backslash s =
    let t = replace_all (replace_all s (codes "..") []) (codes "/") [] in
    remove_each-All (codes "%2e" ∷ codes "%2f" ∷ codes "%5c" ∷ []) (replace_all t (codes "\\") [])
      (replace_all-absent 92 t)

above_space : (c : ℕ) → is_printed c ≡ true → 32 ≤ c
above_space c p = ground arith

not_del : (c : ℕ) → is_printed c ≡ true → c ≢ 127
not_del c p e = cc (subst (λ d. is_printed d ≡ true) e p)

or_unnamed-SafeName : (s : List ℕ) → All SafeChar s → SafeName (or_unnamed s)
or_unnamed-SafeName s h = elim (Bool-cases (s == [])) [
  | inl empty ↦ rw empty unnamed
  | inr some ↦ elim (Bool-cases (s == codes ".")) [
    | inl dot ↦ rw (some, dot) unnamed
    | inr other ↦
        rw (some, other)
          (record {
            chars = h;
            some_chars = ne_of_== s [] some;
            no_dot = ne_of_== s (codes ".") other;
          })
  ]
]
  where
    letter : (c : ℕ) → 97 ≤ c → c ≤ 122 → SafeChar c
    letter c lo hi = record {
      no_slash = λ e. omega arith;
      no_backslash = λ e. omega arith;
      not_below_space = omega arith;
      not_delete = λ e. omega arith;
    }

    unnamed : SafeName (codes "unnamed")
    unnamed = record {
      chars = all_cons (letter 117 (omega arith) (omega arith)) (
          all_cons (letter 110 (omega arith) (omega arith)) (
            all_cons (letter 110 (omega arith) (omega arith)) (
              all_cons (letter 97 (omega arith) (omega arith)) (
                all_cons (letter 109 (omega arith) (omega arith)) (
                  all_cons (letter 101 (omega arith) (omega arith))
                    (all_cons (letter 100 (omega arith) (omega arith)) all_nil))))));
      some_chars = λ e. cc;
      no_dot = λ e. cc;
    }

-- SanitizeFilename returns a name that is not empty and not ".", and has no slash, no backslash and no
-- ASCII control character: none below the space and no DEL.
pub sanitize_filename-SafeName : (filename : List ℕ) → SafeName (sanitize_filename filename)
unfolding sanitize_filename
sanitize_filename-SafeName filename =
    let t = remove_each path_traversal_chars (base filename) in
    let u = replace_all t (0 ∷ []) [] in
    or_unnamed-SafeName (printed u) (
      All-map
        (λ c ((a, b), p). record {
          no_slash = a;
          no_backslash = b;
          not_below_space = above_space c p;
          not_delete = not_del c p;
        })
        (All-both
          (printed_keeps u (
            replace_all-All t (0 ∷ [])
              (All-both (no_slash (base filename)) (no_backslash (base filename)))))
          (printed-All u)))
