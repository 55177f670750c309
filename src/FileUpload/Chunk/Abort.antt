-- ===== src/FileUpload/Chunk/Abort.antt =====
-- What `AbortUpload` leaves in the cache.
use microservices_base.Prelude.{
  ℕ, zero, suc, ◌+◌, ◌≤◌, ◌<◌, ◌≡◌, refl, ◌∙◌, inl, inr, false, none, some, String, arith, subst,
}
use microservices_base.Prelude.Int.{ℤ, pos_part, ltb_ℤ}
use microservices_base.Prelude.Eq.{eq-cases, comparable_string, comparable_nat}
use microservices_base.FileUpload.Chunk.{
  UploadSession, Manager, Services, Result, ok, failed, session_not_found, session_key, chunk_key,
  get_session, parse_session, delete_chunks, abort_upload,
}
use microservices_base.FileUpload.Chunk.Cache.{Laws, Reliable}
use microservices_base.FileUpload.Chunk.Session.{Stored, get_session-eq}

module _ {S : Type 0} (sv : Services S) (m : Manager) (laws : Laws sv)
    (reliable : Reliable sv) where
  -- What is not in the cache is not there after a deletion.
  delete-absent :
      (k j : String) (s : S) → sv.get j s ≡ some none → sv.get j (sv.delete k s).0 ≡ some none
  delete-absent k j s gone = elim (eq-cases k j) [
    | inl same ↦
        subst (λ x. sv.get x (sv.delete k s).0 ≡ some none) same
          (laws.get-delete k s (reliable.deletes k s))
    | inr other ↦ laws.get-delete_other k j s other ∙ gone
  ]

  delete_chunks-absent :
      (id : String) (i count : ℕ) (j : String) (s : S)
      → sv.get j s ≡ some none
      → sv.get j (delete_chunks sv m id i count s) ≡ some none
  unfolding delete_chunks
  delete_chunks-absent id i zero j s gone = gone
  delete_chunks-absent id i (suc count) j s gone =
      delete_chunks-absent id (suc i) count j (sv.delete (chunk_key m id i) s).0
        (delete-absent (chunk_key m id i) j s gone)

  delete_chunks-gone :
      (id : String) (i count : ℕ) (s : S) (j : ℕ)
      → i ≤ j
      → j < i + count
      → sv.get (chunk_key m id j) (delete_chunks sv m id i count s) ≡ some none
  unfolding delete_chunks
  delete_chunks-gone id i zero s j from below = absurd (omega arith)
  delete_chunks-gone id i (suc count) s j from below =
      let s' = (sv.delete (chunk_key m id i) s).0 in
      elim (eq-cases i j) [
        | inl same ↦ delete_chunks-absent id (suc i) count (chunk_key m id j) s' (
            subst (λ x. sv.get (chunk_key m id x) s' ≡ some none) same
              (laws.get-delete (chunk_key m id i) s (reliable.deletes (chunk_key m id i) s)))
        | inr other ↦ delete_chunks-gone id (suc i) count s' j (omega arith) (omega arith)
      ]

  -- What an abortion does with the session and its chunks.
  pub record Aborts (id : String) (session : UploadSession) (r : S × Result Unit) : Type 0 where
    pub answers : r.1 ≡ ok tt
    pub no_session : (now : ℤ) → get_session sv m now id r.0 ≡ failed session_not_found
    pub no_chunk :
        (i : ℕ) → i < pos_part session.total_chunks → sv.get (chunk_key m id i) r.0 ≡ some none

  -- `AbortUpload` on a session that has not expired, with a cache that keeps its laws and does not
  -- fail: it succeeds, the session is not found any more at any time, and the cache has none of its
  -- chunks.
  pub abort_upload-Aborts :
      (now : ℤ) (id : String) (session : UploadSession) (s : S)
      → ltb_ℤ session.expires_at now ≡ false
      → Stored sv m id session s
      → Aborts id session (abort_upload sv m now id s)
  unfolding abort_upload get_session parse_session
  abort_upload-Aborts now id session s young h =
      let key = session_key m id in
      let s' = delete_chunks sv m id 0 (pos_part session.total_chunks) s in
      rw (abort_upload, get_session-eq sv m now id session s h young, reliable.deletes key s')
        (record {
          answers = refl;
          no_session =
              λ now'. rw (get_session, laws.get-delete key s' (reliable.deletes key s')) refl;
          no_chunk = λ i below. delete-absent key (chunk_key m id i) s' (
              delete_chunks-gone id 0 (pos_part session.total_chunks) s i (omega arith)
                (omega arith));
        })
