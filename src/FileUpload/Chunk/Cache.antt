-- ===== src/FileUpload/Chunk/Cache.antt =====
-- What the chunk manager relies on in the cache service and in the JSON of a session, and its keys.
use Prim.Native.String.{◌++◌ as then_text}
use text.Mathlib.TextLemmas.{append_cancel_left, append_assoc, append_inj}
use microservices_base.Prelude.{ℕ, ◌≡◌, ◌≢◌, refl, sym, ◌∙◌, true, none, some, ◌⊎◌, String}
use microservices_base.Prelude.Int.{ℤ}
use microservices_base.Prelude.Eq.{comparable_string}
use microservices_base.Prelude.Decimal.{decimal, decimal_inj}
use microservices_base.FileUpload.Chunk.{
  Bytes, UploadSession, Manager, Services, session_key, chunk_key,
}

-- The documented behaviour: a write that succeeds is read back, and a deletion too; a write that
-- fails happened or did not; other keys are not touched; and a session is read from its JSON. An
-- entry is taken not to expire in the cache before its session does.
pub record Laws {S : Type 0} (sv : Services S) : Type 0 where
  pub get-set :
      (k : String) (b : Bytes) (t : ℤ) (s : S)
      → (sv.set k b t s).1 ≡ true
      → sv.get k (sv.set k b t s).0 ≡ some (some b)
  pub get-failed_set :
      (k : String) (b : Bytes) (t : ℤ) (s : S)
      → (sv.get k (sv.set k b t s).0 ≡ sv.get k s) ⊎ (sv.get k (sv.set k b t s).0 ≡ some (some b))
  pub get-set_other :
      (k j : String) (b : Bytes) (t : ℤ) (s : S) → k ≢ j → sv.get j (sv.set k b t s).0 ≡ sv.get j s
  pub get-delete :
      (k : String) (s : S) → (sv.delete k s).1 ≡ true → sv.get k (sv.delete k s).0 ≡ some none
  pub get-delete_other : (k j : String) (s : S) → k ≢ j → sv.get j (sv.delete k s).0 ≡ sv.get j s
  pub unmarshal-marshal :
      (x : UploadSession) (b : Bytes) → sv.marshal x ≡ some b → sv.unmarshal b ≡ some x

-- No write and no deletion fails, and every session has a JSON.
pub record Reliable {S : Type 0} (sv : Services S) : Type 0 where
  pub sets : (k : String) (b : Bytes) (t : ℤ) (s : S) → (sv.set k b t s).1 ≡ true
  pub deletes : (k : String) (s : S) → (sv.delete k s).1 ≡ true
  pub marshals : (x : UploadSession) → (b : Bytes) × (sv.marshal x ≡ some b)

pub chunk_key_inj :
    (m : Manager) (id : String) (i j : ℕ) → chunk_key m id i ≡ chunk_key m id j → i ≡ j
unfolding chunk_key
chunk_key_inj m id i j e =
    let after_prefix =
      append_cancel_left m.key_prefix
        (then_text ":data:" (then_text id (then_text ":" (decimal i))))
        (then_text ":data:" (then_text id (then_text ":" (decimal j)))) e in
    let after_word =
      append_cancel_left ":data:" (then_text id (then_text ":" (decimal i)))
        (then_text id (then_text ":" (decimal j))) after_prefix in
    let after_id =
      append_cancel_left id (then_text ":" (decimal i)) (then_text ":" (decimal j)) after_word in
    decimal_inj i j (append_cancel_left ":" (decimal i) (decimal j) after_id)

words_apart : (s t : String) → then_text ":session:" s ≢ then_text ":data:" t
words_apart s t e =
    let split = sym (append_assoc ":s" "ession:" s) ∙ e ∙ append_assoc ":d" "ata:" t in
    let (heads, tails) =
      append_inj {s₁ = ":s"} {s₂ = ":d"} {t₁ = then_text "ession:" s} {t₂ = then_text "ata:" t}
        split refl in
    cc ((comparable_string.is_equal_iff ":s" ":d").1 heads)

pub keys_apart : (m : Manager) (id : String) (i : ℕ) → session_key m id ≢ chunk_key m id i
unfolding session_key chunk_key
keys_apart m id i e = words_apart id (then_text id (then_text ":" (decimal i))) (
    append_cancel_left m.key_prefix (then_text ":session:" id)
      (then_text ":data:" (then_text id (then_text ":" (decimal i)))) e)
