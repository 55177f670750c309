-- ===== src/FileUpload/Chunk/Upload.antt =====
-- What `UploadChunk` makes of a chunk, a session and the cache.
use microservices_base.Prelude.{
  ℕ, ◌<◌, ◌≡◌, ◌≢◌, refl, sym, ap, ◌∙◌, ◌⊎◌, inl, inr, true, false, none, some, [], ◌∷◌, ◌++◌,
  String, Bool-cases, Option-cases, arith, subst,
}
use microservices_base.Prelude.Int.{ℤ, pos, negsuc, pos_part, leb_ℤ, ltb_ℤ, ◌≤ℤ◌}
use microservices_base.Prelude.Eq.{
  ◌==◌, comparable_nat, comparable_string, member, eq_of_==, ne_of_==,
}
use microservices_base.FileUpload.Chunk.{
  Bytes, UploadSession, ChunkData, Manager, Services, Result, UploadError, ok, failed, json_failure,
  cache_failure, session_key, chunk_key, save_session, store_chunk, verify_chunk, upload_to,
  upload_chunk, invalid_chunk, duplicate_chunk, read_failure, checksum_mismatch,
}
use microservices_base.FileUpload.Chunk.Cache.{Laws}
use microservices_base.FileUpload.Chunk.Session.{
  Parts, part_of, part_of-none, with_chunk, with_chunk-Lists, Stored, Kept, Holds, get_session-eq,
  Stored-chunk, Kept-session, Kept-other, Kept-concat,
}

module _ {S : Type 0} (sv : Services S) (m : Manager) (laws : Laws sv) where
  -- Why a session or a chunk is not saved.
  pub data SaveFails : UploadError → Type 0 where
    json_fails : (u : UploadSession) → sv.marshal u ≡ none → SaveFails json_failure
    cache_fails :
        (key : String) (b : Bytes) (s : S)
        → (sv.set key b m.session_exp s).1 ≡ false
        → SaveFails cache_failure

  data Saves (id : String) (before after : UploadSession) (r : S × Result Unit) : Type 0 where
    saved : r.1 ≡ ok tt → Stored sv m id after r.0 → Saves id before after r
    unsure :
        (e : UploadError)
        → SaveFails e
        → r.1 ≡ failed e
        → Stored sv m id after r.0
        → Saves id before after r
    unsaved :
        (e : UploadError)
        → SaveFails e
        → r.1 ≡ failed e
        → Stored sv m id before r.0
        → Saves id before after r

  save_session-Saves :
      (before after : UploadSession) (s : S)
      → Stored sv m after.id before s
      → Saves after.id before after (save_session sv m after s)
  unfolding save_session
  save_session-Saves before after s h = elim (Option-cases (sv.marshal after)) [
    | inl fails ↦ rw (save_session, fails) (unsaved json_failure (json_fails after fails) refl h)
    | inr (b, json) ↦
        let key = session_key m after.id in
        let stored : sv.get key (sv.set key b m.session_exp s).0 ≡ some (some b)
            → Stored sv m after.id after (sv.set key b m.session_exp s).0 =
          λ found. record {
            bytes = b;
            found = found;
            parsed = laws.unmarshal-marshal after b json;
            own = refl;
          } in
        elim (Bool-cases ((sv.set key b m.session_exp s).1)) [
          | inl success ↦
              rw (save_session, json, success)
                (saved refl (stored (laws.get-set key b m.session_exp s success)))
          | inr failure ↦ elim (laws.get-failed_set key b m.session_exp s) [
            | inl old ↦
                rw (save_session, json, failure)
                  (unsaved cache_failure (cache_fails key b s failure) refl (record {
                    bytes = h.bytes;
                    found = old ∙ h.found;
                    parsed = h.parsed;
                    own = h.own;
                  }))
            | inr new ↦
                rw (save_session, json, failure)
                  (unsure cache_failure (cache_fails key b s failure) refl (stored new))
          ]
        ]
  ]

  save_at-Saves :
      (id : String) (before after : UploadSession) (s : S)
      → after.id ≡ id
      → Stored sv m id before s
      → Saves id before after (save_session sv m after s)
  save_at-Saves id before after s own h =
      subst (λ k. Saves k before after (save_session sv m after s)) own
        (save_session-Saves before after s (subst (λ k. Stored sv m k before s) (sym own) h))

  save_session-Kept :
      (id : String) (parts : Parts) (after : UploadSession) (s : S)
      → after.id ≡ id
      → Kept sv m id parts s
      → Kept sv m id parts (save_session sv m after s).0
  unfolding save_session Kept
  save_session-Kept id parts after s own h = elim (Option-cases (sv.marshal after)) [
    | inl fails ↦ rw (save_session, fails) h
    | inr (b, json) ↦
        subst (λ k. Kept sv m k parts (save_session sv m after s).0) own
          (rw (save_session, json)
            (Kept-session sv m after.id parts b m.session_exp s laws
              (subst (λ k. Kept sv m k parts s) (sym own) h)))
  ]

  -- The chunk passes every check but the ones on the cache.
  pub record Fits (session : UploadSession) (parts : Parts) (chunk : ChunkData) (i : ℕ)
      (content : Bytes) : Type 0 where
    pub index : chunk.index ≡ pos i
    pub read : chunk.content ≡ some content
    pub checked : (chunk.checksum ≡ "") ⊎ (sv.sha256 content ≡ chunk.checksum)
    pub in_range : i < pos_part session.total_chunks
    pub new : part_of i parts ≡ none

  -- What a chunk can be refused for.
  pub data Refusal (session : UploadSession) (chunk : ChunkData) : UploadError → Type 0 where
    negative_index : (n : ℕ) → chunk.index ≡ negsuc n → Refusal session chunk invalid_chunk
    beyond_total :
        (i : ℕ)
        → chunk.index ≡ pos i
        → session.total_chunks ≤ℤ pos i
        → Refusal session chunk invalid_chunk
    seen_before :
        (i : ℕ)
        → chunk.index ≡ pos i
        → member i session.uploaded_chunks ≡ true
        → Refusal session chunk duplicate_chunk
    unreadable : chunk.content ≡ none → Refusal session chunk read_failure
    other_sum :
        (content : Bytes)
        → chunk.content ≡ some content
        → sv.sha256 content ≢ chunk.checksum
        → Refusal session chunk checksum_mismatch
    not_saved : (e : UploadError) → SaveFails e → Refusal session chunk e

  -- What `UploadChunk` can do with a chunk.
  pub data Uploads (id : String) (session : UploadSession) (parts : Parts) (chunk : ChunkData)
      (r : S × Result Unit) : Type 0 where
    accepted :
        (i : ℕ) (content : Bytes)
        → Fits session parts chunk i content
        → r.1 ≡ ok tt
        → Holds sv m id (with_chunk i session) (parts ++ (i, content) ∷ []) r.0
        → Uploads id session parts chunk r
    unanswered :
        (i : ℕ) (content : Bytes) (e : UploadError)
        → SaveFails e
        → Fits session parts chunk i content
        → r.1 ≡ failed e
        → Holds sv m id (with_chunk i session) (parts ++ (i, content) ∷ []) r.0
        → Uploads id session parts chunk r
    refused :
        (e : UploadError)
        → Refusal session chunk e
        → r.1 ≡ failed e
        → Holds sv m id session parts r.0
        → Uploads id session parts chunk r

  store_chunk-Uploads :
      (id : String) (session : UploadSession) (parts : Parts) (chunk : ChunkData) (i : ℕ)
      (content : Bytes) (s : S)
      → Fits session parts chunk i content
      → member i session.uploaded_chunks ≡ false
      → Holds sv m id session parts s
      → Uploads id session parts chunk (store_chunk sv m id session i content s)
  unfolding store_chunk
  store_chunk-Uploads id session parts chunk i content s fits unseen h =
      let key = chunk_key m id i in
      let s' = (sv.set key content m.session_exp s).0 in
      let still = Stored-chunk sv m id session i content m.session_exp s laws h.stored in
      let added = with_chunk-Lists i content session parts h.lists fits.in_range unseen in
      elim (Bool-cases ((sv.set key content m.session_exp s).1)) [
        | inr failure ↦
            rw (store_chunk, failure)
              (refused cache_failure (not_saved cache_failure (cache_fails key content s failure))
                refl
                (record {
                  stored = still;
                  lists = h.lists;
                  kept = Kept-other sv m id parts i content m.session_exp s laws fits.new h.kept;
                }))
        | inl success ↦
            let kept =
              Kept-concat sv m id parts i content m.session_exp s laws fits.new success h.kept in
            let after = with_chunk i session in
            let before_kept =
              save_session-Kept id parts after s' h.stored.own
                (Kept-other sv m id parts i content m.session_exp s laws fits.new h.kept) in
            let after_kept =
              save_session-Kept id (parts ++ (i, content) ∷ []) after s' h.stored.own kept in
            rw (store_chunk, success)
              (elim (save_at-Saves id session after s' h.stored.own still) [
                | saved good there ↦
                    accepted i content fits good
                      (record { stored = there; lists = added; kept = after_kept })
                | unsure e why bad there ↦
                    unanswered i content e why fits bad
                      (record { stored = there; lists = added; kept = after_kept })
                | unsaved e why bad there ↦
                    refused e (not_saved e why) bad
                      (record { stored = there; lists = h.lists; kept = before_kept })
              ])
      ]

  answer :
      {id : String} {session : UploadSession} {parts : Parts} {chunk : ChunkData}
      {r r' : S × Result Unit}
      → r ≡ r'
      → Uploads id session parts chunk r'
      → Uploads id session parts chunk r
  answer {id} {session} {parts} {chunk} e = subst (Uploads id session parts chunk) (sym e)

  -- A chunk that passes the checks of its content is in the cache of a session or not.
  verify_chunk-Uploads :
      (id : String) (session : UploadSession) (parts : Parts) (chunk : ChunkData) (i : ℕ) (s : S)
      → chunk.index ≡ pos i
      → i < pos_part session.total_chunks
      → member i session.uploaded_chunks ≡ false
      → Holds sv m id session parts s
      → Uploads id session parts chunk (verify_chunk sv m id session i chunk s)
  unfolding verify_chunk
  verify_chunk-Uploads id session parts chunk i s index in_range unseen h =
      let new = part_of-none i parts (ap (member i) (sym h.lists.listed) ∙ unseen) in
      elim (Option-cases chunk.content) [
        | inl unread ↦
            answer (rw (verify_chunk, unread) refl)
              (refused read_failure (unreadable unread) refl h)
        | inr (content, read) ↦
            let fits = λ (checked : (chunk.checksum ≡ "") ⊎ (sv.sha256 content ≡ chunk.checksum)).
              store_chunk-Uploads id session parts chunk i content s
                (record {
                  index = index;
                  read = read;
                  checked = checked;
                  in_range = in_range;
                  new = new;
                })
                unseen h in
            elim (Bool-cases (chunk.checksum == "")) [
              | inl unsummed ↦
                  answer (rw (verify_chunk, read, unsummed) refl)
                    (fits (inl (eq_of_== chunk.checksum "" unsummed)))
              | inr summed ↦ elim (Bool-cases (sv.sha256 content == chunk.checksum)) [
                | inl match ↦
                    answer (rw (verify_chunk, read, summed, match) refl)
                      (fits (inr (eq_of_== (sv.sha256 content) chunk.checksum match)))
                | inr mismatch ↦ answer (rw (verify_chunk, read, summed, mismatch) refl) (
                    refused checksum_mismatch
                      (other_sum content read
                        (ne_of_== (sv.sha256 content) chunk.checksum mismatch))
                      refl h)
              ]
            ]
      ]

  upload_to-Uploads :
      (id : String) (session : UploadSession) (parts : Parts) (chunk : ChunkData) (s : S) (n : ℤ)
      → chunk.index ≡ n
      → Holds sv m id session parts s
      → Uploads id session parts chunk (upload_to sv m id session chunk s)
  unfolding upload_to
  upload_to-Uploads id session parts chunk s (negsuc n) index h =
      answer (rw (upload_to, index) refl) (refused invalid_chunk (negative_index n index) refl h)
  upload_to-Uploads id session parts chunk s (pos i) index h =
      elim (Bool-cases (leb_ℤ session.total_chunks (pos i))) [
        | inl outside ↦
            answer (rw (upload_to, index, outside) refl)
              (refused invalid_chunk (beyond_total i index (ground arith)) refl h)
        | inr inside ↦ elim (Bool-cases (member i session.uploaded_chunks)) [
          | inl seen ↦
              answer (rw (upload_to, index, inside, seen) refl)
                (refused duplicate_chunk (seen_before i index seen) refl h)
          | inr unseen ↦
              answer (rw (upload_to, index, inside, unseen) refl)
                (verify_chunk-Uploads id session parts chunk i s index (ground arith) unseen h)
        ]
      ]

  -- `UploadChunk` with any chunk, also one that names no checksum.
  pub upload_chunk-Uploads :
      (now : ℤ) (id : String) (session : UploadSession) (parts : Parts) (chunk : ChunkData) (s : S)
      → ltb_ℤ session.expires_at now ≡ false
      → Holds sv m id session parts s
      → Uploads id session parts chunk (upload_chunk sv m now id chunk s)
  unfolding upload_chunk
  upload_chunk-Uploads now id session parts chunk s young h =
      rw (upload_chunk, get_session-eq sv m now id session s h.stored young)
        (upload_to-Uploads id session parts chunk s chunk.index refl h)
