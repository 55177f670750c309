-- ===== src/FileUpload/Chunk/Session.antt =====
-- What an upload session and the cache hold together, and what `UploadChunk` makes of that.
use microservices_base.Prelude.{
  ℕ, ◌<◌, ◌≡◌, refl, sym, ap, ◌∙◌, ◌⊎◌, inl, inr, true, false, Option, none, some, List, [], ◌∷◌,
  ◌++◌, String, map, Bool-cases, arith, subst, if◌then◌else◌,
}
use microservices_base.Prelude.Int.{ℤ, pos_part, ltb_ℤ}
use microservices_base.Prelude.Eq.{◌==◌, comparable_nat, comparable_string, member, eq_of_==}
use microservices_base.FileUpload.Chunk.{
  Bytes, UploadSession, Manager, Services, ok, session_key, chunk_key, parse_session, get_session,
}
use microservices_base.FileUpload.Chunk.Cache.{Laws, chunk_key_inj, keys_apart}
use microservices_base.FileUpload.Chunk.Pigeonhole.{
  AllBelow, AllDistinct, AllBelow-concat, AllDistinct-concat,
}

-- The accepted chunks, in the order of their acceptance.
abbrev pub Parts : Type 0
Parts = List (ℕ × Bytes)

abbrev pub part_of : ℕ → Parts → Option Bytes
part_of i [] = none
part_of i ((j, b) ∷ parts) = if j == i then some b else part_of i parts

abbrev pub indexes : Parts → List ℕ
indexes = map (λ p. p.0)

pub part_of-none :
    (i : ℕ) (parts : Parts) → member i (indexes parts) ≡ false → part_of i parts ≡ none
part_of-none i [] h = refl
part_of-none i ((j, b) ∷ parts) h = ground (arith, part_of-none i parts)

part_of-concat :
    (i j : ℕ) (b : Bytes) (parts : Parts) {found : Bytes}
    → part_of j (parts ++ (i, b) ∷ []) ≡ some found
    → (part_of j parts ≡ some found) ⊎ ((i ≡ j) × (b ≡ found))
part_of-concat i j b [] {found} h = elim (Bool-cases (i == j)) [
  | inl same ↦ inr (eq_of_== i j same, cc (rw same at h))
  | inr other ↦ cc (rw other at h)
]
part_of-concat i j b ((k, x) ∷ parts) {found} h = elim (Bool-cases (k == j)) [
  | inl same ↦ rw same (inl (rw same at h))
  | inr other ↦ rw other (part_of-concat i j b parts (rw other at h))
]

indexes-concat :
    (i : ℕ) (b : Bytes) (parts : Parts) → indexes (parts ++ (i, b) ∷ []) ≡ indexes parts ++ i ∷ []
indexes-concat i b [] = refl
indexes-concat i b (p ∷ parts) = ap (◌∷◌ p.0) (indexes-concat i b parts)

-- The session lists exactly the accepted chunks, all different and in range.
pub record Lists (session : UploadSession) (parts : Parts) : Type 0 where
  pub listed : session.uploaded_chunks ≡ indexes parts
  pub distinct : AllDistinct session.uploaded_chunks
  pub below : AllBelow (pos_part session.total_chunks) session.uploaded_chunks

abbrev pub with_chunk : ℕ → UploadSession → UploadSession
with_chunk i session = record session { uploaded_chunks = session.uploaded_chunks ++ i ∷ [] }

pub with_chunk-Lists :
    (i : ℕ) (b : Bytes) (session : UploadSession) (parts : Parts)
    → Lists session parts
    → i < pos_part session.total_chunks
    → member i session.uploaded_chunks ≡ false
    → Lists (with_chunk i session) (parts ++ (i, b) ∷ [])
with_chunk-Lists i b session parts l h new = record {
  listed = ap (λ xs. xs ++ i ∷ []) l.listed ∙ sym (indexes-concat i b parts);
  distinct = AllDistinct-concat i session.uploaded_chunks l.distinct new;
  below = AllBelow-concat (pos_part session.total_chunks) i session.uploaded_chunks l.below h;
}

module _ {S : Type 0} (sv : Services S) (m : Manager) where
  -- The cache has the session, under its identifier.
  pub record Stored (id : String) (session : UploadSession) (s : S) : Type 0 where
    pub bytes : Bytes
    pub found : sv.get (session_key m id) s ≡ some (some bytes)
    pub parsed : sv.unmarshal bytes ≡ some session
    pub own : session.id ≡ id

  -- The cache has the content of every accepted chunk.
  unfoldable pub Kept : String → Parts → S → Type 0
  Kept id parts s =
      (i : ℕ) (b : Bytes) → part_of i parts ≡ some b → sv.get (chunk_key m id i) s ≡ some (some b)

  pub record Holds (id : String) (session : UploadSession) (parts : Parts) (s : S) : Type 0 where
    pub stored : Stored id session s
    pub lists : Lists session parts
    pub kept : Kept id parts s

  pub get_session-eq :
      (now : ℤ) (id : String) (session : UploadSession) (s : S)
      → Stored id session s
      → ltb_ℤ session.expires_at now ≡ false
      → get_session sv m now id s ≡ ok session
  unfolding get_session parse_session
  get_session-eq now id session s h young = rw (h.found, parse_session, h.parsed, young) refl

  -- A write to the key of a chunk leaves the session as it is.
  pub Stored-chunk :
      (id : String) (session : UploadSession) (i : ℕ) (b : Bytes) (t : ℤ) (s : S)
      → Laws sv
      → Stored id session s
      → Stored id session (sv.set (chunk_key m id i) b t s).0
  Stored-chunk id session i b t s laws h = record {
    bytes = h.bytes;
    found =
        laws.get-set_other (chunk_key m id i) (session_key m id) b t s
          (λ e. keys_apart m id i (sym e))
        ∙ h.found;
    parsed = h.parsed;
    own = h.own;
  }

  -- A write to the key of the session leaves the chunks as they are.
  pub Kept-session :
      (id : String) (parts : Parts) (b : Bytes) (t : ℤ) (s : S)
      → Laws sv
      → Kept id parts s
      → Kept id parts (sv.set (session_key m id) b t s).0
  unfolding Kept
  Kept-session id parts b t s laws h i x there =
      laws.get-set_other (session_key m id) (chunk_key m id i) b t s (keys_apart m id i)
      ∙ h i x there

  -- A write to the key of a chunk that is not accepted leaves the accepted ones as they are.
  pub Kept-other :
      (id : String) (parts : Parts) (i : ℕ) (b : Bytes) (t : ℤ) (s : S)
      → Laws sv
      → part_of i parts ≡ none
      → Kept id parts s
      → Kept id parts (sv.set (chunk_key m id i) b t s).0
  unfolding Kept
  Kept-other id parts i b t s laws new h j x there =
      laws.get-set_other (chunk_key m id i) (chunk_key m id j) b t s
        (λ e. cc (chunk_key_inj m id i j e, new, there))
      ∙ h j x there

  pub Kept-concat :
      (id : String) (parts : Parts) (i : ℕ) (b : Bytes) (t : ℤ) (s : S)
      → Laws sv
      → part_of i parts ≡ none
      → (sv.set (chunk_key m id i) b t s).1 ≡ true
      → Kept id parts s
      → Kept id (parts ++ (i, b) ∷ []) (sv.set (chunk_key m id i) b t s).0
  unfolding Kept
  Kept-concat id parts i b t s laws new success h j x there =
      elim (part_of-concat i j b parts there) [
        | inl before ↦ Kept-other id parts i b t s laws new h j x before
        | inr (index, content) ↦
            subst
              (λ k. sv.get (chunk_key m id k) (sv.set (chunk_key m id i) b t s).0 ≡ some (some x))
              index
              (laws.get-set (chunk_key m id i) b t s success ∙ ap (λ y. some (some y)) content)
      ]
