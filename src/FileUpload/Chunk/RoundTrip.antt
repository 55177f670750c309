-- ===== src/FileUpload/Chunk/RoundTrip.antt =====
-- The uploads of the pieces of a file, in any order.
use microservices_base.Prelude.{
  ℕ, suc, ◌<◌, ◌≡◌, refl, sym, ap, ◌∙◌, inl, inr, true, false, some, List, [], ◌∷◌, ◌++◌, String,
  map, length, Bool-cases, arith, subst,
}
use microservices_base.Prelude.Int.{ℤ, pos, negsuc, pos_part, leb_ℤ, ltb_ℤ, ◌+ℤ◌}
use microservices_base.Prelude.Eq.{
  ◌==◌, comparable_nat, comparable_string, member, member-concat, ==_refl, eq_of_==,
}
use microservices_base.FileUpload.Chunk.{
  Bytes, UploadSession, ChunkData, Manager, Services, ok, session_key, chunk_key, save_session,
  create_session, chunk_count, store_chunk, verify_chunk, upload_to, upload_chunk, assembled_file,
}
use microservices_base.FileUpload.Chunk.Cache.{Laws, Reliable}
use microservices_base.FileUpload.Chunk.Pigeonhole.{AllBelow, AllDistinct}
use microservices_base.FileUpload.Chunk.Session.{
  Parts, part_of, with_chunk, Kept, Holds, get_session-eq,
}
use microservices_base.FileUpload.Chunk.Upload.{accepted, unanswered, refused, upload_chunk-Uploads}
use microservices_base.FileUpload.Chunk.Assemble.{or_empty, completion}

inside : (n : ℤ) (i : ℕ) → i < pos_part n → leb_ℤ n (pos i) ≡ false
inside (pos n) i h = ground arith
inside (negsuc n) i h = absurd (omega arith)

abbrev pub Fresh : List ℕ → List ℕ → Type 0
Fresh [] seen = Unit
Fresh (i ∷ order) seen = (member i seen ≡ false) × Fresh order seen

Fresh-step :
    (i : ℕ) (order seen : List ℕ)
    → member i order ≡ false
    → Fresh order seen
    → Fresh order (seen ++ i ∷ [])
Fresh-step i [] seen new h = tt
Fresh-step i (j ∷ order) seen new h = (
  ground (
    arith,
    member-concat j i seen,
    h.0,
    comparable_nat.is_equal_iff i j,
    comparable_nat.is_equal_iff j i,
  ),
  Fresh-step i order seen (ground arith) h.1,
)

pub Fresh-nil : (order : List ℕ) → Fresh order []
Fresh-nil [] = tt
Fresh-nil (i ∷ order) = (refl, Fresh-nil order)

-- The requests, with what the clock shows at each.
abbrev pub AllInTime : ℤ → List (ℤ × ℕ) → Type 0
AllInTime expires [] = Unit
AllInTime expires ((now, i) ∷ requests) = (ltb_ℤ expires now ≡ false) × AllInTime expires requests

abbrev pub asked : List (ℤ × ℕ) → List ℕ
asked = map (λ r. r.1)

abbrev pub sent : (ℕ → Bytes) → List ℕ → Parts
sent f [] = []
sent f (i ∷ order) = (i, f i) ∷ sent f order

pub part_of-sent :
    (f : ℕ → Bytes) (order : List ℕ) (i : ℕ)
    → member i order ≡ true
    → part_of i (sent f order) ≡ some (f i)
part_of-sent f [] i h = cc
part_of-sent f (j ∷ order) i h = elim (Bool-cases (j == i)) [
  | inl same ↦ rw same (ap (λ k. some (f k)) (eq_of_== j i same))
  | inr other ↦ rw other (part_of-sent f order i (rw other at h))
]

pub length-sent : (f : ℕ → Bytes) (order : List ℕ) → length (sent f order) ≡ length order
length-sent f [] = refl
length-sent f (i ∷ order) = ap suc (length-sent f order)

-- The session after all the chunks.
abbrev pub with_chunks : List ℕ → UploadSession → UploadSession
with_chunks [] session = session
with_chunks (i ∷ order) session = with_chunks order (with_chunk i session)

pub expires_at-with_chunks :
    (order : List ℕ) (session : UploadSession)
    → (with_chunks order session).expires_at ≡ session.expires_at
expires_at-with_chunks [] session = refl
expires_at-with_chunks (i ∷ order) session = expires_at-with_chunks order (with_chunk i session)

abbrev pub parts_after : (ℕ → Bytes) → List ℕ → Parts → Parts
parts_after f [] parts = parts
parts_after f (i ∷ order) parts = parts_after f order (parts ++ (i, f i) ∷ [])

append_step : {A : Type 0} (xs : List A) (x : A) (ys : List A) → (xs ++ x ∷ []) ++ ys ≡ xs ++ x ∷ ys
append_step [] x ys = refl
append_step (a ∷ xs) x ys = ap (◌∷◌ a) (append_step xs x ys)

pub parts_after-eq :
    (f : ℕ → Bytes) (order : List ℕ) (parts : Parts)
    → parts_after f order parts ≡ parts ++ sent f order
parts_after-eq f [] [] = refl
parts_after-eq f [] (p ∷ parts) = ap (◌∷◌ p) (parts_after-eq f [] parts)
parts_after-eq f (i ∷ order) parts =
    parts_after-eq f order (parts ++ (i, f i) ∷ []) ∙ append_step parts (i, f i) (sent f order)

module _ {S : Type 0} (sv : Services S) (m : Manager) (laws : Laws sv)
    (reliable : Reliable sv) where
  abbrev pub chunk_of : (ℕ → Bytes) → ℕ → ChunkData
  chunk_of f i = record {
    index = pos i;
    content = some (f i);
    size = pos (length (f i));
    checksum = sv.sha256 (f i);
  }

  save_session-ok : (session : UploadSession) (s : S) → (save_session sv m session s).1 ≡ ok tt
  unfolding save_session
  save_session-ok session s =
      let (b, json) = reliable.marshals session in
      rw (save_session, json, reliable.sets (session_key m session.id) b m.session_exp s) refl

  upload_chunk-ok :
      (f : ℕ → Bytes) (now : ℤ) (id : String) (session : UploadSession) (parts : Parts) (i : ℕ)
      (s : S)
      → ltb_ℤ session.expires_at now ≡ false
      → Holds sv m id session parts s
      → i < pos_part session.total_chunks
      → member i session.uploaded_chunks ≡ false
      → (upload_chunk sv m now id (chunk_of f i) s).1 ≡ ok tt
  unfolding upload_chunk upload_to verify_chunk store_chunk
  upload_chunk-ok f now id session parts i s young h below new =
      let key_set = reliable.sets (chunk_key m id i) (f i) m.session_exp s in
      let s' = (sv.set (chunk_key m id i) (f i) m.session_exp s).0 in
      rw
        (
          upload_chunk,
          get_session-eq sv m now id session s h.stored young,
          upload_to,
          inside session.total_chunks i below,
          new,
        )
        (elim (Bool-cases (sv.sha256 (f i) == "")) [
          | inl unsummed ↦
              rw (verify_chunk, unsummed, store_chunk, key_set)
                (save_session-ok (with_chunk i session) s')
          | inr summed ↦
              rw (verify_chunk, summed, ==_refl (sv.sha256 (f i)), store_chunk, key_set)
                (save_session-ok (with_chunk i session) s')
        ])

  upload_chunk-Holds :
      (f : ℕ → Bytes) (now : ℤ) (id : String) (session : UploadSession) (parts : Parts) (i : ℕ)
      (s : S)
      → ltb_ℤ session.expires_at now ≡ false
      → Holds sv m id session parts s
      → i < pos_part session.total_chunks
      → member i session.uploaded_chunks ≡ false
      → Holds sv m id
          (with_chunk i session)
          (parts ++ (i, f i) ∷ [])
          (upload_chunk sv m now id (chunk_of f i) s).0
  upload_chunk-Holds f now id session parts i s young h below new =
      let good = upload_chunk-ok f now id session parts i s young h below new in
      let r = (upload_chunk sv m now id (chunk_of f i) s).0 in
      elim (upload_chunk-Uploads sv m laws now id session parts (chunk_of f i) s young h) [
        | accepted j content fits fine there ↦
            subst (λ k. Holds sv m id (with_chunk k session) (parts ++ (k, f i) ∷ []) r)
              (sym (ap pos_part fits.index))
              (subst (λ c. Holds sv m id (with_chunk j session) (parts ++ (j, c) ∷ []) r)
                (sym (ap or_empty fits.read)) there)
        | unanswered j content e why fits bad there ↦ cc (good, bad)
        | refused e why bad there ↦ cc (good, bad)
      ]

  -- The uploads of the chunks of `f`, one after the other.
  unfoldable pub upload_all : (ℕ → Bytes) → String → List (ℤ × ℕ) → S → S
  upload_all f id [] s = s
  upload_all f id ((now, i) ∷ requests) s =
      upload_all f id requests (upload_chunk sv m now id (chunk_of f i) s).0

  pub upload_all-Holds :
      (f : ℕ → Bytes) (id : String) (requests : List (ℤ × ℕ)) (session : UploadSession)
      (parts : Parts) (s : S)
      → Holds sv m id session parts s
      → AllInTime session.expires_at requests
      → AllDistinct (asked requests)
      → AllBelow (pos_part session.total_chunks) (asked requests)
      → Fresh (asked requests) session.uploaded_chunks
      → Holds sv m id
          (with_chunks (asked requests) session)
          (parts_after f (asked requests) parts)
          (upload_all f id requests s)
  unfolding upload_all
  upload_all-Holds f id [] session parts s h time distinct below fresh = h
  upload_all-Holds f id ((now, i) ∷ requests) session parts s h time distinct below fresh =
      upload_all-Holds f id requests (with_chunk i session) (parts ++ (i, f i) ∷ [])
        (upload_chunk sv m now id (chunk_of f i) s).0
        (upload_chunk-Holds f now id session parts i s time.0 h below.0 fresh.0) time.1 distinct.1
        below.1 (Fresh-step i (asked requests) session.uploaded_chunks distinct.0 fresh.1)

  pub completion-with_chunks :
      (order : List ℕ) (session : UploadSession) (parts : Parts)
      → completion sv m (with_chunks order session) parts ≡ completion sv m session parts
  unfolding assembled_file
  completion-with_chunks [] session parts = refl
  completion-with_chunks (i ∷ order) session parts =
      completion-with_chunks order (with_chunk i session) parts

  -- A new session of `n` chunks.
  abbrev pub opened : ℤ → ℤ → String → String → String → String → ℕ → ℕ → UploadSession
  opened created now id tenant_id user_id filename total n = record {
    id = id;
    tenant_id = tenant_id;
    user_id = user_id;
    filename = filename;
    total_size = pos total;
    chunk_size = m.chunk_size;
    total_chunks = pos n;
    uploaded_chunks = [];
    status = "active";
    created_at = created;
    expires_at = now +ℤ m.session_exp;
  }

  pub create_session-Holds :
      (created now : ℤ) (id tenant_id user_id filename : String) (total n : ℕ) (s : S)
      → chunk_count (pos total) m.chunk_size ≡ some (pos n)
      → Holds sv m id
          (opened created now id tenant_id user_id filename total n)
          []
          (create_session sv m created now id tenant_id user_id filename (pos total) s).0
  unfolding create_session save_session Kept
  create_session-Holds created now id tenant_id user_id filename total n s counted =
      let session = opened created now id tenant_id user_id filename total n in
      let (b, json) = reliable.marshals session in
      let key = session_key m id in
      rw (create_session, counted, save_session, json)
        (record {
          stored = record {
            bytes = b;
            found = laws.get-set key b m.session_exp s (reliable.sets key b m.session_exp s);
            parsed = laws.unmarshal-marshal session b json;
            own = refl;
          };
          lists = record { listed = refl; distinct = tt; below = tt };
          kept = λ i x there. cc there;
        })
