-- ===== src/FileUpload/Chunk.antt =====
-- services/file-upload/internal/service/chunk/manager.go. The cache service, the JSON of a session
-- and SHA-256 are parameters. `set` and `delete` answer whether they succeeded; `get` answers
-- `none` for an error and `some none` for a key without data. An accepted chunk index is at least
-- 0, so a session lists natural numbers; the count of chunks is an `int`.
mod Cache
mod Pigeonhole
mod Session
mod Upload
mod Verify
mod Assemble
mod Pieces
mod RoundTrip
mod Restore
mod Abort
mod TextCodec
mod SessionCodec
mod Tests
use microservices_base.Prelude.{
  ℕ, zero, suc, ◌+◌, ◌*◌, ◌/◌, ◌%◌, Bool, true, false, not, ◌&&◌, Option, none, some, List, [], ◌∷◌,
  ◌++◌, String, length, if◌then◌else◌, ltb, leb, ◌==◌ as nat_beq,
}
use Prim.Native.String.{◌++◌ as then_text}
use microservices_base.Prelude.Int.{
  ℤ, pos, negsuc, pos_part, neg_part, sub_ℕ, leb_ℤ, ltb_ℤ, eqb_ℤ, ◌+ℤ◌,
}
use microservices_base.Prelude.Word.{wrap64}
use microservices_base.Prelude.Eq.{Comparable, ◌==◌, comparable_string, comparable_nat, member}
use microservices_base.Prelude.Decimal.{decimal}

abbrev pub Bytes : Type 0
Bytes = List ℕ

pub record UploadSession : Type 0 where
  pub id : String
  pub tenant_id : String
  pub user_id : String
  pub filename : String
  pub total_size : ℤ
  pub chunk_size : ℤ
  pub total_chunks : ℤ
  pub uploaded_chunks : List ℕ
  pub status : String
  pub created_at : ℤ
  pub expires_at : ℤ

-- `none` for a content that cannot be read.
pub record ChunkData : Type 0 where
  pub index : ℤ
  pub content : Option Bytes
  pub size : ℤ
  pub checksum : String

pub record AssembledFile : Type 0 where
  pub content : Bytes
  pub size : ℕ
  pub hash : String
  pub filename : String

pub record Config : Type 0 where
  pub chunk_size : ℤ
  pub session_expiry : ℤ
  pub key_prefix : String

pub record Manager : Type 0 where
  pub chunk_size : ℤ
  pub session_exp : ℤ
  pub key_prefix : String

-- The errors; `division_by_zero` is a panic of Go's.
pub data UploadError : Type 0 where
  session_not_found : UploadError
  session_expired : UploadError
  invalid_chunk : UploadError
  duplicate_chunk : UploadError
  checksum_mismatch : UploadError
  incomplete_upload : UploadError
  cache_failure : UploadError
  json_failure : UploadError
  read_failure : UploadError
  chunk_missing : ℕ → UploadError
  division_by_zero : UploadError

pub data Result (A : Type 0) : Type 0 where
  ok : A → Result A
  failed : UploadError → Result A

-- What the manager calls. `S` is the state of the cache service.
pub record Services (S : Type 0) : Type 0 where
  pub get : String → S → Option (Option Bytes)
  pub set : String → Bytes → ℤ → S → S × Bool
  pub delete : String → S → S × Bool
  pub marshal : UploadSession → Option Bytes
  pub unmarshal : Bytes → Option UploadSession
  pub sha256 : Bytes → String

abbrev one_day : ℤ
one_day = pos 86400000000000

unfoldable pub new_manager : Config → Manager
new_manager cfg = record {
  chunk_size = cfg.chunk_size;
  session_exp = if eqb_ℤ cfg.session_expiry (pos 0) then one_day else cfg.session_expiry;
  key_prefix = if cfg.key_prefix == "" then "file-upload:chunk" else cfg.key_prefix;
}

unfoldable pub session_key : Manager → String → String
session_key m id = then_text m.key_prefix (then_text ":session:" id)

unfoldable pub chunk_key : Manager → String → ℕ → String
chunk_key m id i =
    then_text m.key_prefix (then_text ":data:" (then_text id (then_text ":" (decimal i))))

abbrev magnitude : ℤ → ℕ
magnitude (pos n) = n
magnitude (negsuc n) = suc n

abbrev negative : ℤ → Bool
negative (pos n) = false
negative (negsuc n) = true

-- The count of chunks, with Go's division of `int64`; `none` where it panics.
unfoldable pub chunk_count : ℤ → ℤ → Option ℤ
chunk_count total size =
    let q = magnitude total / magnitude size in
    let same_sign = if negative total then negative size else not (negative size) in
    let chunks = wrap64 (if same_sign then pos q else sub_ℕ 0 q) in
    if nat_beq (magnitude size) 0
    then none
    else some
        (if nat_beq (magnitude total % magnitude size) 0 then chunks else wrap64 (chunks +ℤ pos 1))

module _ {S : Type 0} (sv : Services S) (m : Manager) where
  pub save_session : UploadSession → S → S × Result Unit
  save_session session s = elim (sv.marshal session) [
    | none ↦ (s, failed json_failure)
    | some bytes ↦
        let (s', saved) = sv.set (session_key m session.id) bytes m.session_exp s in
        (s', if saved then ok tt else failed cache_failure)
  ]

  -- `created` and `now` are the two readings of the clock; `id` is the new identifier.
  unfoldable pub create_session :
      ℤ → ℤ → String → String → String → String → ℤ → S → S × Result UploadSession
  unfolding save_session
  create_session created now id tenant_id user_id filename total_size s =
      elim (chunk_count total_size m.chunk_size) [
        | none ↦ (s, failed division_by_zero)
        | some total_chunks ↦
            let session : UploadSession = record {
              id = id;
              tenant_id = tenant_id;
              user_id = user_id;
              filename = filename;
              total_size = total_size;
              chunk_size = m.chunk_size;
              total_chunks = total_chunks;
              uploaded_chunks = [];
              status = "active";
              created_at = created;
              expires_at = now +ℤ m.session_exp;
            } in
            let (s', saved) = save_session session s in
            (s', elim saved [ ok u ↦ ok session | failed e ↦ failed e ])
      ]

  pub parse_session : ℤ → Option (Option Bytes) → Result UploadSession
  parse_session now none = failed cache_failure
  parse_session now (some none) = failed session_not_found
  parse_session now (some (some bytes)) = elim (sv.unmarshal bytes) [
    | none ↦ failed json_failure
    | some session ↦ if ltb_ℤ session.expires_at now then failed session_expired else ok session
  ]

  unfoldable pub get_session : ℤ → String → S → Result UploadSession
  unfolding parse_session
  get_session now id s = parse_session now (sv.get (session_key m id) s)

  -- From `Store chunk data` on.
  pub store_chunk : String → UploadSession → ℕ → Bytes → S → S × Result Unit
  unfolding save_session
  store_chunk id session i content s =
      let (s', stored) = sv.set (chunk_key m id i) content m.session_exp s in
      if stored
      then save_session (record session { uploaded_chunks = session.uploaded_chunks ++ i ∷ [] }) s'
      else (s', failed cache_failure)

  -- From `Read chunk content` on.
  pub verify_chunk : String → UploadSession → ℕ → ChunkData → S → S × Result Unit
  unfolding store_chunk
  verify_chunk id session i chunk s = elim chunk.content [
    | none ↦ (s, failed read_failure)
    | some content ↦
        if not (chunk.checksum == "") && not (sv.sha256 content == chunk.checksum)
        then (s, failed checksum_mismatch)
        else store_chunk id session i content s
  ]

  pub upload_to : String → UploadSession → ChunkData → S → S × Result Unit
  unfolding verify_chunk
  upload_to id session chunk s = elim chunk.index [
    | negsuc n ↦ (s, failed invalid_chunk)
    | pos i ↦
        if leb_ℤ session.total_chunks (pos i)
        then (s, failed invalid_chunk)
        else if member i session.uploaded_chunks
        then (s, failed duplicate_chunk)
        else verify_chunk id session i chunk s
  ]

  unfoldable pub upload_chunk : ℤ → String → ChunkData → S → S × Result Unit
  unfolding upload_to
  upload_chunk now id chunk s = elim (get_session now id s) [
    | ok session ↦ upload_to id session chunk s
    | failed e ↦ (s, failed e)
  ]

  -- The loop of `CompleteUpload`, over `count` chunks from `i` on.
  pub read_chunks : String → ℕ → ℕ → Bytes → S → Result Bytes
  read_chunks id i zero assembled s = ok assembled
  read_chunks id i (suc count) assembled s = elim (sv.get (chunk_key m id i) s) [
    | none ↦ failed (chunk_missing i)
    | some found ↦ elim found [
      | none ↦ failed (chunk_missing i)
      | some bytes ↦ read_chunks id (suc i) count (assembled ++ bytes) s
    ]
  ]

  pub assembled_file : UploadSession → Bytes → AssembledFile
  assembled_file session content = record {
    content = content;
    size = length content;
    hash = sv.sha256 content;
    filename = session.filename;
  }

  pub complete_from : String → UploadSession → S → S × Result AssembledFile
  unfolding read_chunks assembled_file save_session
  complete_from id session s =
      if not (eqb_ℤ (pos (length session.uploaded_chunks)) session.total_chunks)
      then (s, failed incomplete_upload)
      else elim (read_chunks id 0 (pos_part session.total_chunks) [] s) [
        | failed e ↦ (s, failed e)
        | ok content ↦ (
          (save_session (record session { status = "completed" }) s).0,
          ok (assembled_file session content),
        )
      ]

  unfoldable pub complete_upload : ℤ → String → S → S × Result AssembledFile
  unfolding complete_from
  complete_upload now id s = elim (get_session now id s) [
    | ok session ↦ complete_from id session s
    | failed e ↦ (s, failed e)
  ]

  -- The loop of `AbortUpload`, whose deletions are not checked.
  pub delete_chunks : String → ℕ → ℕ → S → S
  delete_chunks id i zero s = s
  delete_chunks id i (suc count) s =
      delete_chunks id (suc i) count (sv.delete (chunk_key m id i) s).0

  unfoldable pub abort_upload : ℤ → String → S → S × Result Unit
  unfolding delete_chunks
  abort_upload now id s = elim (get_session now id s) [
    | failed e ↦ (s, ok tt)
    | ok session ↦
        let s' = delete_chunks id 0 (pos_part session.total_chunks) s in
        let (s'', deleted) = sv.delete (session_key m id) s' in
        (s'', if deleted then ok tt else failed cache_failure)
  ]
