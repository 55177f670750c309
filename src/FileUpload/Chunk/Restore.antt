-- ===== src/FileUpload/Chunk/Restore.antt =====
-- A whole upload, against the file.
use microservices_base.Prelude.{
  ℕ, suc, ◌<◌, ◌≡◌, refl, ap, ◌∙◌, true, false, List, [], String, length, arith, subst,
}
use microservices_base.Prelude.Int.{ℤ, pos, ltb_ℤ, eqb_ℤ, ◌+ℤ◌}
use microservices_base.Prelude.Word.{half_word}
use microservices_base.FileUpload.Chunk.{
  Bytes, UploadSession, Manager, Services, ok, create_session, complete_upload, assembled_file,
  chunk_count,
}
use microservices_base.FileUpload.Chunk.Cache.{Laws, Reliable}
use microservices_base.FileUpload.Chunk.Pigeonhole.{AllBelow, AllDistinct, all_there}
use microservices_base.FileUpload.Chunk.Session.{Parts, Holds}
use microservices_base.FileUpload.Chunk.Assemble.{join, completion, complete_upload-eq}
use microservices_base.FileUpload.Chunk.Pieces.{piece, pieces, chunk_count-eq, join_file}
use microservices_base.FileUpload.Chunk.RoundTrip.{
  AllInTime, asked, sent, part_of-sent, length-sent, Fresh-nil, with_chunks, expires_at-with_chunks,
  parts_after-eq, upload_all, upload_all-Holds, completion-with_chunks, opened,
  create_session-Holds,
}

module _ {S : Type 0} (sv : Services S) (m : Manager) (laws : Laws sv)
    (reliable : Reliable sv) where
  whole :
      (k : ℕ) (filename : String) (file : Bytes) (parts : Parts) (new : UploadSession)
      → new.total_chunks ≡ pos (pieces (length file) (suc k))
      → new.filename ≡ filename
      → length parts ≡ pieces (length file) (suc k)
      → join 0 (pieces (length file) (suc k)) parts ≡ file
      → completion sv m new parts
        ≡ ok (record {
          content = file;
          size = length file;
          hash = sv.sha256 file;
          filename = filename;
        })
  unfolding assembled_file
  whole k filename file parts new total name count joined =
      let same : eqb_ℤ (pos (length parts)) new.total_chunks ≡ true =
        rw (total, count) (ground arith) in
      rw (same, count, joined, name) refl

  -- A session is created for a file, its chunks are uploaded, each once and in any order, before
  -- the session expires, and the upload is completed: the answer is the file, with its length and
  -- its hash. The cache is taken to keep its laws and not to fail, and the sizes to be words.
  pub complete_upload-upload_all :
      (created now done : ℤ) (id tenant_id user_id filename : String) (k : ℕ) (file : Bytes)
      (requests : List (ℤ × ℕ)) (s : S)
      → m.chunk_size ≡ pos (suc k)
      → suc k < half_word
      → length file < half_word
      → AllDistinct (asked requests)
      → AllBelow (pieces (length file) (suc k)) (asked requests)
      → length (asked requests) ≡ pieces (length file) (suc k)
      → AllInTime (now +ℤ m.session_exp) requests
      → ltb_ℤ (now +ℤ m.session_exp) done ≡ false
      → let s' =
          (create_session sv m created now id tenant_id user_id filename (pos (length file)) s).0 in
        (complete_upload sv m done id
          (upload_all sv m laws reliable (piece (suc k) file) id requests s')).1
        ≡ ok (record {
          content = file;
          size = length file;
          hash = sv.sha256 file;
          filename = filename;
        })
  complete_upload-upload_all created now done id tenant_id user_id filename k file requests s size
        small short distinct below full time young =
      let n = pieces (length file) (suc k) in
      let f = piece (suc k) file in
      let order = asked requests in
      let new =
        opened sv m laws reliable created now id tenant_id user_id filename (length file) n in
      let s' =
        (create_session sv m created now id tenant_id user_id filename (pos (length file)) s).0 in
      let counted =
        ap (chunk_count (pos (length file))) size ∙ chunk_count-eq (length file) k short small in
      let held =
        upload_all-Holds sv m laws reliable f id requests new [] s'
          (create_session-Holds sv m laws reliable created now id tenant_id user_id filename
            (length file) n s counted)
          time distinct below (Fresh-nil order) in
      let all =
        λ (j : ℕ) (h : j < n). part_of-sent f order j (all_there n order distinct below full j h) in
      let there =
        subst
          (λ parts.
            Holds sv m id (with_chunks order new) parts
              (upload_all sv m laws reliable f id requests s'))
          (parts_after-eq f order []) held in
      let in_time = ap (λ e. ltb_ℤ e done) (expires_at-with_chunks order new) ∙ young in
      complete_upload-eq sv m done id (with_chunks order new) (sent f order)
        (upload_all sv m laws reliable f id requests s') in_time there
      ∙ completion-with_chunks sv m laws reliable order new (sent f order)
      ∙ whole k filename file (sent f order) new refl refl (length-sent f order ∙ full)
          (join_file k file (sent f order) all)
