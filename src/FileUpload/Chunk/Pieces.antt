-- ===== src/FileUpload/Chunk/Pieces.antt =====
-- A file cut in pieces of the size of a chunk, and the count of its chunks.
use native.Mathlib.Nat.{
  div-add-mod', mod-lt, div-le_self, zero-mul, suc-mul, mul-suc, add-mul, one-mul,
}
use microservices_base.Prelude.{
  ℕ, zero, suc, ◌+◌, ◌*◌, ◌/◌, ◌%◌, ◌≤◌, ◌<◌, ◌≡◌, refl, sym, ap, ap₂, ◌∙◌, inl, inr, some, [], ◌∷◌,
  ◌++◌, length, take, take_whole, drop, Bool-cases, arith, if◌then◌else◌, ◌==◌ as nat_beq, ==_iff,
}
use microservices_base.Prelude.Int.{pos}
use microservices_base.Prelude.Word.{wrap64_of_InInt64, half_word}
use microservices_base.FileUpload.Chunk.{Bytes, chunk_count}
use microservices_base.FileUpload.Chunk.Session.{Parts, part_of}
use microservices_base.FileUpload.Chunk.Assemble.{join, or_empty}

abbrev pub piece : ℕ → Bytes → ℕ → Bytes
piece size file i = take size (drop (i * size) file)

abbrev pub pieces : ℕ → ℕ → ℕ
pieces total size = total / size + (if nat_beq (total % size) 0 then 0 else 1)

-- A file is divided by rounding up.
pub chunk_count-eq :
    (total k : ℕ)
    → total < half_word
    → suc k < half_word
    → chunk_count (pos total) (pos (suc k)) ≡ some (pos (pieces total (suc k)))
unfolding chunk_count
chunk_count-eq total k h hk =
    let q = total / suc k in
    let small : q < half_word = omega (arith, div-le_self total (suc k)) in
    let whole = div-add-mod' total (suc k) in
    elim (Bool-cases (nat_beq (total % suc k) 0)) [
      | inl exact ↦ rw (wrap64_of_InInt64 (pos q) (small, omega arith), exact) (ground arith)
      | inr over ↦
          let part : 0 < total % suc k = ground arith in
          let fits : q + 1 < half_word = omega (arith, mul-suc q k) in
          let last = wrap64_of_InInt64 (pos (q + 1)) (fits, omega arith) in
          rw (wrap64_of_InInt64 (pos q) (small, omega arith), over) (ground (arith, last))
    ]

pub pieces_enough : (total k : ℕ) → total ≤ pieces total (suc k) * suc k
pieces_enough total k =
    let r = total % suc k in
    let small : r < suc k = mod-lt total (omega arith) in
    let whole = div-add-mod' total (suc k) in
    elim (Bool-cases (nat_beq r 0)) [
      | inl exact ↦
          rw exact (
            omega
              (arith, (==_iff r 0).0 exact, add-mul (total / suc k) 0 (suc k), zero-mul (suc k)))
      | inr over ↦ rw over (omega (arith, add-mul (total / suc k) 1 (suc k), one-mul (suc k)))
    ]

take-nil : (n : ℕ) → take {A = ℕ} n [] ≡ []
take-nil zero = refl
take-nil (suc n) = refl

drop-nil : (n : ℕ) → drop {A = ℕ} n [] ≡ []
drop-nil zero = refl
drop-nil (suc n) = refl

take-drop : (a b : ℕ) (xs : Bytes) → take a xs ++ take b (drop a xs) ≡ take (a + b) xs
take-drop zero b xs = ap (λ n. take n xs) (omega arith)
take-drop (suc a) b [] = take-nil b ∙ sym (take-nil (suc a + b))
take-drop (suc a) b (x ∷ xs) = ap (◌∷◌ x) (take-drop a b xs) ∙ ap (λ n. take n (x ∷ xs)) sum
  where
    sum : suc (a + b) ≡ suc a + b
    sum = omega arith

drop-drop : (a b : ℕ) (xs : Bytes) → drop b (drop a xs) ≡ drop (a + b) xs
drop-drop zero b xs = ap (λ n. drop n xs) (omega arith)
drop-drop (suc a) b [] = drop-nil b ∙ sym (drop-nil (suc a + b))
drop-drop (suc a) b (x ∷ xs) = drop-drop a b xs ∙ ap (λ n. drop n (x ∷ xs)) sum
  where
    sum : suc (a + b) ≡ suc a + b
    sum = omega arith

join_pieces :
    (size : ℕ) (file : Bytes) (i count : ℕ) (parts : Parts)
    → ((j : ℕ) → j < i + count → part_of j parts ≡ some (piece size file j))
    → join i count parts ≡ take (count * size) (drop (i * size) file)
join_pieces size file i zero parts all =
    ap (λ n. take n (drop (i * size) file)) (sym (zero-mul size))
join_pieces size file i (suc count) parts all =
    let ih = join_pieces size file (suc i) count parts (λ j h. all j (omega arith)) in
    let next : drop (suc i * size) file ≡ drop size (drop (i * size) file) =
      ap (λ n. drop n file) (suc-mul i size) ∙ sym (drop-drop (i * size) size file) in
    let rest = ih ∙ ap (take (count * size)) next in
    let whole : size + count * size ≡ suc count * size = omega (arith, suc-mul count size) in
    ap₂ (λ a b. or_empty a ++ b) (all i (omega arith)) rest
    ∙ take-drop size (count * size) (drop (i * size) file)
    ∙ ap (λ n. take n (drop (i * size) file)) whole

pub join_file :
    (k : ℕ) (file : Bytes) (parts : Parts)
    → ((j : ℕ) → j < pieces (length file) (suc k) → part_of j parts ≡ some (piece (suc k) file j))
    → join 0 (pieces (length file) (suc k)) parts ≡ file
join_file k file parts all =
    join_pieces (suc k) file 0 (pieces (length file) (suc k)) parts (λ j h. all j (omega arith))
    ∙ ap (λ n. take (pieces (length file) (suc k) * suc k) (drop n file)) (zero-mul (suc k))
    ∙ take_whole (pieces (length file) (suc k) * suc k) file (pieces_enough (length file) k)
