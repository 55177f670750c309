-- ===== src/FileUpload/Chunk/Verify.antt =====
-- `UploadChunk` with a chunk that names its checksum.
use microservices_base.Prelude.{ℕ, ◌≡◌, ◌≢◌, false, inl, inr, [], ◌∷◌, ◌++◌, String}
use microservices_base.Prelude.Int.{ℤ, ltb_ℤ}
use microservices_base.FileUpload.Chunk.{
  Bytes, UploadSession, ChunkData, Manager, Services, Result, UploadError, ok, failed, upload_chunk,
}
use microservices_base.FileUpload.Chunk.Cache.{Laws}
use microservices_base.FileUpload.Chunk.Session.{Parts, with_chunk, Holds}
use microservices_base.FileUpload.Chunk.Upload.{
  SaveFails, Fits, Refusal, accepted, unanswered, refused, upload_chunk-Uploads,
}

module _ {S : Type 0} (sv : Services S) (m : Manager) (laws : Laws sv) where
  -- The chunk is in range, new, readable, and its content has its checksum.
  pub record Verified (session : UploadSession) (parts : Parts) (chunk : ChunkData) (i : ℕ)
      (content : Bytes) : Type 0 where
    pub fits : Fits sv m laws session parts chunk i content
    pub same_sum : sv.sha256 content ≡ chunk.checksum

  pub data Verifies (id : String) (session : UploadSession) (parts : Parts) (chunk : ChunkData)
      (r : S × Result Unit) : Type 0 where
    taken :
        (i : ℕ) (content : Bytes)
        → Verified session parts chunk i content
        → r.1 ≡ ok tt
        → Holds sv m id (with_chunk i session) (parts ++ (i, content) ∷ []) r.0
        → Verifies id session parts chunk r
    in_doubt :
        (i : ℕ) (content : Bytes) (e : UploadError)
        → SaveFails sv m laws e
        → Verified session parts chunk i content
        → r.1 ≡ failed e
        → Holds sv m id (with_chunk i session) (parts ++ (i, content) ∷ []) r.0
        → Verifies id session parts chunk r
    turned_away :
        (e : UploadError)
        → Refusal sv m laws session chunk e
        → r.1 ≡ failed e
        → Holds sv m id session parts r.0
        → Verifies id session parts chunk r

  Fits-Verified :
      {session : UploadSession} {parts : Parts} {chunk : ChunkData} {i : ℕ} {content : Bytes}
      → chunk.checksum ≢ ""
      → Fits sv m laws session parts chunk i content
      → Verified session parts chunk i content
  Fits-Verified summed fits = elim (fits.checked) [
    | inl unsummed ↦ absurd (summed unsummed)
    | inr same ↦ record { fits = fits; same_sum = same }
  ]

  -- `UploadChunk` on a session that has not expired, with any cache that keeps its laws and any chunk
  -- that names a checksum: it accepts the chunk, which then is in range, new, readable and has its
  -- checksum, and the cache holds the session with the chunk added and the contents of all accepted
  -- chunks; or it fails with the session and the contents as they were, for an index below zero or
  -- beyond the chunks of the session or accepted before, a content that is not read or has another
  -- checksum, or because the cache or the JSON of a session fails; or it fails because one of these
  -- two does, and the session is in the cache with the chunk added.
  pub upload_chunk-Verifies :
      (now : ℤ) (id : String) (session : UploadSession) (parts : Parts) (chunk : ChunkData) (s : S)
      → chunk.checksum ≢ ""
      → ltb_ℤ session.expires_at now ≡ false
      → Holds sv m id session parts s
      → Verifies id session parts chunk (upload_chunk sv m now id chunk s)
  upload_chunk-Verifies now id session parts chunk s summed young h =
      elim (upload_chunk-Uploads sv m laws now id session parts chunk s young h) [
        | accepted i content fits fine there ↦
            taken i content (Fits-Verified summed fits) fine there
        | unanswered i content e why fits bad there ↦
            in_doubt i content e why (Fits-Verified summed fits) bad there
        | refused e why bad there ↦ turned_away e why bad there
      ]
