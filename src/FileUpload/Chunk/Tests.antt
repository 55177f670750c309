-- ===== src/FileUpload/Chunk/Tests.antt =====
-- Uploads in chunks on concrete inputs.
use microservices_base.Prelude.{ℕ, ◌≡◌, refl, some, List, [], ◌∷◌, String, arith}
use microservices_base.Prelude.Eq.{comparable_string, ne_of_==}
use microservices_base.Prelude.Int.{ℤ, pos}
use microservices_base.FileUpload.Chunk.{
  Bytes, ChunkData, Manager, ok, create_session, upload_chunk, complete_upload, abort_upload,
}
use microservices_base.FileUpload.Chunk.Session.{Holds}
use microservices_base.FileUpload.Chunk.Verify.{Verifies, upload_chunk-Verifies}
use microservices_base.FileUpload.Chunk.Assemble.{completion, complete_upload-eq}
use microservices_base.FileUpload.Chunk.Pieces.{piece, chunk_count-eq}
use microservices_base.FileUpload.Chunk.RoundTrip.{upload_all, opened, create_session-Holds}
use microservices_base.FileUpload.Chunk.Restore.{complete_upload-upload_all}
use microservices_base.FileUpload.Chunk.Abort.{Aborts, abort_upload-Aborts}
use microservices_base.FileUpload.Chunk.SessionCodec.{in_memory, in_memory-Laws, in_memory-Reliable}

abbrev manager : Manager
manager = record { chunk_size = pos 2; session_exp = pos 100; key_prefix = "file-upload:chunk" }

abbrev file : Bytes
file = 7 ∷ 8 ∷ 9 ∷ []

-- The second chunk comes first.
abbrev requests : List (ℤ × ℕ)
requests = (pos 12, 1) ∷ (pos 13, 0) ∷ []

abbrev created : List (String × Bytes)
created =
    (create_session in_memory manager (pos 10) (pos 11) "id" "tenant" "user" "name" (pos 3) []).0

complete_upload-upload_all_example :
    (complete_upload in_memory manager (pos 14) "id" (
      upload_all in_memory manager in_memory-Laws in_memory-Reliable
        (piece 2 file)
        "id"
        requests
        created)).1
    ≡ ok (record {
      content = 7 ∷ 8 ∷ 9 ∷ [];
      size = 3;
      hash = in_memory.sha256 file;
      filename = "name";
    })
complete_upload-upload_all_example =
    complete_upload-upload_all in_memory manager in_memory-Laws in_memory-Reliable (pos 10) (pos 11)
      (pos 14) "id" "tenant" "user" "name" 1 file requests [] refl (omega arith) (omega arith)
      (refl, (refl, tt)) (omega arith, (omega arith, tt)) refl (refl, (refl, tt)) refl

created-Holds :
    Holds in_memory manager "id"
      (opened in_memory manager in_memory-Laws in_memory-Reliable
        (pos 10)
        (pos 11)
        "id"
        "tenant"
        "user"
        "name"
        3
        2)
      []
      created
created-Holds =
    create_session-Holds in_memory manager in_memory-Laws in_memory-Reliable (pos 10) (pos 11) "id"
      "tenant" "user" "name" 3 2 [] (chunk_count-eq 3 1 (omega arith) (omega arith))

abbrev chunk : ChunkData
chunk = record { index = pos 1; content = some (9 ∷ []); size = pos 1; checksum = "full" }

upload_chunk-Verifies_example :
    Verifies in_memory manager in_memory-Laws "id"
      (opened in_memory manager in_memory-Laws in_memory-Reliable
        (pos 10)
        (pos 11)
        "id"
        "tenant"
        "user"
        "name"
        3
        2)
      []
      chunk
      (upload_chunk in_memory manager (pos 12) "id" chunk created)
upload_chunk-Verifies_example =
    upload_chunk-Verifies in_memory manager in_memory-Laws (pos 12) "id"
      (opened in_memory manager in_memory-Laws in_memory-Reliable (pos 10) (pos 11) "id" "tenant"
        "user" "name" 3 2)
      [] chunk created (ne_of_== "full" "" refl) refl created-Holds

complete_upload-eq_example :
    (complete_upload in_memory manager (pos 14) "id" created).1
    ≡ completion in_memory manager
        (opened in_memory manager in_memory-Laws in_memory-Reliable
          (pos 10)
          (pos 11)
          "id"
          "tenant"
          "user"
          "name"
          3
          2)
        []
complete_upload-eq_example =
    complete_upload-eq in_memory manager (pos 14) "id"
      (opened in_memory manager in_memory-Laws in_memory-Reliable (pos 10) (pos 11) "id" "tenant"
        "user" "name" 3 2)
      [] created refl created-Holds

abort_upload-Aborts_example :
    Aborts in_memory manager in_memory-Laws in_memory-Reliable "id"
      (opened in_memory manager in_memory-Laws in_memory-Reliable
        (pos 10)
        (pos 11)
        "id"
        "tenant"
        "user"
        "name"
        3
        2)
      (abort_upload in_memory manager (pos 12) "id" created)
abort_upload-Aborts_example =
    abort_upload-Aborts in_memory manager in_memory-Laws in_memory-Reliable (pos 12) "id"
      (opened in_memory manager in_memory-Laws in_memory-Reliable (pos 10) (pos 11) "id" "tenant"
        "user" "name" 3 2)
      created refl created-Holds.stored
