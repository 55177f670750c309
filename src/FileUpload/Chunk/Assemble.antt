-- ===== src/FileUpload/Chunk/Assemble.antt =====
-- What `CompleteUpload` returns.
use microservices_base.Prelude.{
  ℕ, zero, suc, ◌+◌, ◌<◌, ◌≡◌, refl, sym, ap, ◌∙◌, inl, inr, true, false, Option, none, some, [],
  ◌∷◌, ◌++◌, String, length, Bool-cases, arith, if◌then◌else◌, length-map,
}
use microservices_base.Prelude.Int.{ℤ, pos, negsuc, pos_part, eqb_ℤ, ltb_ℤ}
use microservices_base.Prelude.Eq.{◌==◌, comparable_nat, member}
use microservices_base.FileUpload.Chunk.{
  Bytes, UploadSession, Manager, Services, Result, AssembledFile, ok, failed, incomplete_upload,
  read_chunks, assembled_file, complete_from, complete_upload,
}
use microservices_base.FileUpload.Chunk.Pigeonhole.{all_there}
use microservices_base.FileUpload.Chunk.Session.{
  Parts, part_of, indexes, Kept, Holds, get_session-eq,
}

abbrev pub or_empty : Option Bytes → Bytes
or_empty none = []
or_empty (some b) = b

-- The contents of `count` chunks from `i` on.
abbrev pub join : ℕ → ℕ → Parts → Bytes
join i zero parts = []
join i (suc count) parts = or_empty (part_of i parts) ++ join (suc i) count parts

part_of-some :
    (i : ℕ) (parts : Parts)
    → member i (indexes parts) ≡ true
    → (b : Bytes) × (part_of i parts ≡ some b)
part_of-some i [] h = cc
part_of-some i ((j, b) ∷ parts) h = elim (Bool-cases (j == i)) [
  | inl same ↦ (b, rw same refl)
  | inr other ↦ let (c, found) = part_of-some i parts (rw other at h) in (c, rw other found)
]

append_assoc : (a b c : Bytes) → (a ++ b) ++ c ≡ a ++ (b ++ c)
append_assoc [] b c = refl
append_assoc (x ∷ a) b c = ap (◌∷◌ x) (append_assoc a b c)

append-nil : (a : Bytes) → a ++ [] ≡ a
append-nil [] = refl
append-nil (x ∷ a) = ap (◌∷◌ x) (append-nil a)

module _ {S : Type 0} (sv : Services S) (m : Manager) where
  read_chunks-eq :
      (id : String) (parts : Parts) (s : S) (i count : ℕ) (assembled : Bytes)
      → Kept sv m id parts s
      → ((j : ℕ) → j < i + count → member j (indexes parts) ≡ true)
      → read_chunks sv m id i count assembled s ≡ ok (assembled ++ join i count parts)
  unfolding read_chunks Kept
  read_chunks-eq id parts s i zero assembled kept all = ap ok (sym (append-nil assembled))
  read_chunks-eq id parts s i (suc count) assembled kept all =
      let (b, found) = part_of-some i parts (all i (omega arith)) in
      rw (read_chunks, kept i b found, found)
        (read_chunks-eq id parts s (suc i) count (assembled ++ b) kept (λ j h. all j (omega arith))
          ∙ ap ok (append_assoc assembled b (join (suc i) count parts)))

  -- What `CompleteUpload` answers for a session with these accepted chunks.
  abbrev pub completion : UploadSession → Parts → Result AssembledFile
  completion session parts =
      if eqb_ℤ (pos (length parts)) session.total_chunks
      then ok (assembled_file sv m session (join 0 (length parts) parts))
      else failed incomplete_upload

  full_count : (n : ℕ) (total : ℤ) → eqb_ℤ (pos n) total ≡ true → pos_part total ≡ n
  full_count n (pos k) h = ground arith
  full_count n (negsuc k) h = absurd (ground arith)

  complete_from-eq :
      (id : String) (session : UploadSession) (parts : Parts) (s : S)
      → Holds sv m id session parts s
      → (complete_from sv m id session s).1 ≡ completion session parts
  unfolding complete_from
  complete_from-eq id session parts s h =
      let count : length session.uploaded_chunks ≡ length parts =
        ap length h.lists.listed ∙ length-map parts (λ p. p.0) in
      elim (Bool-cases (eqb_ℤ (pos (length parts)) session.total_chunks)) [
        | inl full ↦
            let all =
              all_there (pos_part session.total_chunks) session.uploaded_chunks h.lists.distinct
                h.lists.below (count ∙ sym (full_count (length parts) session.total_chunks full)) in
            let total = full_count (length parts) session.total_chunks full in
            let listed = λ (j : ℕ) (below : j < 0 + pos_part session.total_chunks).
              ap (member j) (sym h.lists.listed) ∙ all j (omega arith) in
            let read : read_chunks sv m id 0 (pos_part session.total_chunks) [] s
                ≡ ok (join 0 (length parts) parts) =
              read_chunks-eq id parts s 0 (pos_part session.total_chunks) [] h.kept listed
              ∙ ap (λ n. ok (join 0 n parts)) total in
            rw (complete_from, count, full, read) refl
        | inr partial ↦ rw (complete_from, count, partial) refl
      ]

  -- `CompleteUpload` on a session that has not expired: with fewer accepted chunks than the session
  -- counts it answers that the upload is incomplete, and otherwise no chunk is missing and it
  -- gives a file with the contents of all accepted chunks, in the order of their indexes, their
  -- length and their hash.
  pub complete_upload-eq :
      (now : ℤ) (id : String) (session : UploadSession) (parts : Parts) (s : S)
      → ltb_ℤ session.expires_at now ≡ false
      → Holds sv m id session parts s
      → (complete_upload sv m now id s).1 ≡ completion session parts
  unfolding complete_upload
  complete_upload-eq now id session parts s young h =
      rw (complete_upload, get_session-eq sv m now id session s h.stored young)
        (complete_from-eq id session parts s h)
