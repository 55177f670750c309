-- ===== src/FileUpload/Chunk/SessionCodec.antt =====
-- A cache in memory and a form of a session, for the tests: the parameters of the chunk manager,
-- instantiated.
use microservices_base.Prelude.{
  ℕ, zero, suc, ◌≡◌, refl, subst, ap, ◌∙◌, inr, true, Option, none, some, List, [], ◌∷◌, String,
  length,
}
use microservices_base.Prelude.Int.{ℤ, pos, negsuc}
use microservices_base.Prelude.Eq.{comparable_string, ==_of_ne, ==_refl}
use microservices_base.Prelude.Assoc.{
  lookup, insert, remove, lookup-insert_self, lookup-insert_ne, lookup-remove,
}
use microservices_base.FileUpload.Chunk.{Bytes, UploadSession, Services}
use microservices_base.FileUpload.Chunk.Cache.{Laws, Reliable}
use microservices_base.FileUpload.Chunk.TextCodec.{put_text, get_text, get_text-put_text}

abbrev put_int : ℤ → Bytes → Bytes
put_int (pos n) rest = 0 ∷ n ∷ rest
put_int (negsuc n) rest = 1 ∷ n ∷ rest

abbrev put_items : List ℕ → Bytes → Bytes
put_items [] rest = rest
put_items (x ∷ xs) rest = x ∷ put_items xs rest

abbrev put_list : List ℕ → Bytes → Bytes
put_list xs rest = length xs ∷ put_items xs rest

module _ {A : Type 0} where
  get_int : Bytes → (ℤ → Bytes → Option A) → Option A
  get_int [] then = none
  get_int (s ∷ []) then = none
  get_int (zero ∷ n ∷ b) then = then (pos n) b
  get_int (suc s ∷ n ∷ b) then = then (negsuc n) b

  get_int-put_int :
      (z : ℤ) (rest : Bytes) (then : ℤ → Bytes → Option A)
      → get_int (put_int z rest) then ≡ then z rest
  unfolding get_int
  get_int-put_int (pos n) rest then = refl
  get_int-put_int (negsuc n) rest then = refl

  get_items : ℕ → Bytes → (List ℕ → Bytes → Option A) → Option A
  get_items zero b then = then [] b
  get_items (suc n) [] then = none
  get_items (suc n) (x ∷ b) then = get_items n b (λ xs rest. then (x ∷ xs) rest)

  get_list : Bytes → (List ℕ → Bytes → Option A) → Option A
  get_list [] then = none
  get_list (n ∷ b) then = get_items n b then

  get_items-put_items :
      (xs : List ℕ) (rest : Bytes) (then : List ℕ → Bytes → Option A)
      → get_items (length xs) (put_items xs rest) then ≡ then xs rest
  unfolding get_items
  get_items-put_items [] rest then = refl
  get_items-put_items (x ∷ xs) rest then = get_items-put_items xs rest (λ ys r. then (x ∷ ys) r)

  get_list-put_list :
      (xs : List ℕ) (rest : Bytes) (then : List ℕ → Bytes → Option A)
      → get_list (put_list xs rest) then ≡ then xs rest
  unfolding get_list
  get_list-put_list xs rest then = get_items-put_items xs rest then

pub encode : UploadSession → Bytes
encode x = put_text x.id (
    put_text x.tenant_id (
      put_text x.user_id (
        put_text x.filename (
          put_text x.status (
            put_int x.total_size (
              put_int x.chunk_size (
                put_int x.total_chunks (
                  put_int x.created_at
                    (put_int x.expires_at (put_list x.uploaded_chunks []))))))))))

pub decode : Bytes → Option UploadSession
decode bytes = get_text bytes (λ id b. get_text b (λ tenant_id b. get_text b (λ user_id b.
    get_text b (λ filename b. get_text b (λ status b. get_int b (λ total_size b.
      get_int b (λ chunk_size b. get_int b (λ total_chunks b. get_int b (λ created_at b.
        get_int b (λ expires_at b. get_list b (λ uploaded_chunks b. some (record {
          id = id;
          tenant_id = tenant_id;
          user_id = user_id;
          filename = filename;
          total_size = total_size;
          chunk_size = chunk_size;
          total_chunks = total_chunks;
          uploaded_chunks = uploaded_chunks;
          status = status;
          created_at = created_at;
          expires_at = expires_at;
        }))))))))))))

decode-encode : (x : UploadSession) → decode (encode x) ≡ some x
unfolding decode encode
decode-encode x =
    get_text-put_text x.id _ _
    ∙ get_text-put_text x.tenant_id _ _
    ∙ get_text-put_text x.user_id _ _
    ∙ get_text-put_text x.filename _ _
    ∙ get_text-put_text x.status _ _
    ∙ get_int-put_int x.total_size _ _
    ∙ get_int-put_int x.chunk_size _ _
    ∙ get_int-put_int x.total_chunks _ _
    ∙ get_int-put_int x.created_at _ _
    ∙ get_int-put_int x.expires_at _ _
    ∙ get_list-put_list x.uploaded_chunks _ _

-- A stand-in for the hash: whether there is a content.
abbrev hash_of : Bytes → String
hash_of [] = "empty"
hash_of (x ∷ b) = "full"

unfoldable pub in_memory : Services (List (String × Bytes))
in_memory = record {
  get = λ k s. some (lookup k s);
  set = λ k b t s. (insert k b s, true);
  delete = λ k s. (remove k s, true);
  marshal = λ x. some (encode x);
  unmarshal = decode;
  sha256 = hash_of;
}

pub in_memory-Laws : Laws in_memory
unfolding in_memory encode
in_memory-Laws = record {
  get-set = λ k b t s good. ap some (lookup-insert_self k b s);
  get-failed_set = λ k b t s. inr (ap some (lookup-insert_self k b s));
  get-set_other = λ k j b t s other. ap some (lookup-insert_ne k j b s other);
  get-delete = λ k s good. ap some (rw (lookup-remove k k s, ==_refl k) refl);
  get-delete_other = λ k j s other. ap some (rw (lookup-remove k j s, ==_of_ne k j other) refl);
  unmarshal-marshal =
      λ x b json. subst (λ c. decode c ≡ some x) (some_inj x b json) (decode-encode x);
}
  where
    some_inj : (x : UploadSession) (b : Bytes) → some (encode x) ≡ some b → encode x ≡ b
    some_inj x b e = cc e

pub in_memory-Reliable : Reliable in_memory
unfolding in_memory
in_memory-Reliable = record {
  sets = λ k b t s. refl;
  marshals = λ x. (encode x, refl);
  deletes = λ k s. refl;
}
