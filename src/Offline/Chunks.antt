-- ===== src/Offline/Chunks.antt =====
-- What `recognize_audio_chunked` (src/offline_transcription.cpp) recognizes, and what it answers.
use asrcpp_gigam.Base.Floats.{Floats}
use asrcpp_gigam.Base.Int.{ℤ, leb_ℤ, pos}
use asrcpp_gigam.Base.{
  if_cases, length, is_empty, take, drop, All, concat, take-append-drop, length-take, length-drop,
  ℕ, zero, suc, ◌≤◌, ◌<◌, ◌≡◌, refl, sym, ap, ◌∙◌, subst, true, false, some, List, [], ◌∷◌, ◌++◌,
  map, append_assoc, arith,
}
use asrcpp_gigam.Base.Bytes.{Bytes}
use asrcpp_gigam.Base.Result.{Result, ok_injective, ok, err}
use asrcpp_gigam.Offline.{
  trim_ascii, ChunkError, append_text, take_text, chunk_loop, chunk_samples, with_callback,
  recognize_audio_chunked,
}

-- The texts that are not empty.
abbrev pub kept : List Bytes → List Bytes
kept [] = []
kept ([] ∷ ts) = kept ts
kept ((c ∷ t) ∷ ts) = (c ∷ t) ∷ kept ts

-- The texts with a space between two of them.
abbrev pub spaced : List Bytes → Bytes
spaced [] = []
spaced (t ∷ []) = t
spaced (t ∷ (u ∷ us)) = t ++ (b' ' ∷ spaced (u ∷ us))

empty_list {ℓ} : {A : Type ℓ} (xs : List A) → is_empty xs ≡ true → [] ≡ xs
empty_list [] h = refl
empty_list (x ∷ xs) h = cc

alone : (t : Bytes) → t ≡ spaced (kept (t ∷ []))
alone [] = refl
alone (c ∷ t) = refl

-- Two texts that are put together are still a space apart.
spaced-append_text :
    (a b : Bytes) (ts : List Bytes)
    → spaced (kept (append_text a b ∷ ts)) ≡ spaced (kept (a ∷ b ∷ ts))
unfolding append_text
spaced-append_text [] [] ts = refl
spaced-append_text (x ∷ a) [] ts = refl
spaced-append_text [] (y ∷ b) ts = refl
spaced-append_text (x ∷ a) (y ∷ b) ts = between (kept ts)
  where
    between :
        (us : List Bytes)
        → spaced ((x ∷ (a ++ (b' ' ∷ (y ∷ b)))) ∷ us) ≡ spaced ((x ∷ a) ∷ (y ∷ b) ∷ us)
    between [] = refl
    between (u ∷ us) = ap (λ t. x ∷ t) (append_assoc a (b' ' ∷ (y ∷ b)) (b' ' ∷ spaced (u ∷ us)))

module _ {κ ι} {W : Type κ} {X : Type ι} where
  take_text_ok :
      (next : Bytes → W → Result (ChunkError X) Bytes × W) (text t : Bytes) (r : Result X Bytes × W)
      → r.0 ≡ ok t
      → take_text next text r ≡ next (append_text text (trim_ascii t)) r.1
  unfolding take_text
  take_text_ok next text t (ok u, w) h =
      ap (λ a. next (append_text text (trim_ascii a)) w) (ok_injective h)
  take_text_ok next text t (err e, w) h = cc

module _ {ℓ κ ι} {F : Type ℓ} {W : Type κ} {X : Type ι}
    (recognize : List F → W → Result X Bytes × W) (texts : List F → Bytes)
    (answers : (chunk : List F) (w : W) → (recognize chunk w).0 ≡ ok (texts chunk)) where
  -- `pieces` are the chunks of `audio`, and `r` is their trimmed texts, behind `text`.
  pub record Cut (size : ℕ) (audio : List F) (text : Bytes) (r : Result (ChunkError X) Bytes × W)
      : Type (ℓ ⊔ ι) where
    pub pieces : List (List F)
    pub whole : concat pieces ≡ audio
    pub sizes : All (λ p. (0 < length p) × (length p ≤ size)) pieces
    pub answer : r.0 ≡ ok (spaced (kept (text ∷ map (λ p. trim_ascii (texts p)) pieces)))

  loop-Cut :
      (fuel size : ℕ) (audio : List F) (text : Bytes) (w : W)
      → 0 < size
      → length audio ≤ fuel
      → Cut size audio text (chunk_loop recognize fuel size audio text w)
  unfolding chunk_loop append_text
  loop-Cut fuel size [] text w p h = record {
    pieces = [];
    whole = refl;
    sizes = tt;
    answer = ap ok (alone text);
  }
  loop-Cut zero size (x ∷ xs) text w p h = ground arith
  loop-Cut (suc fuel) size (x ∷ xs) text w p h =
      let n = take size (x ∷ xs) in
      let v =
        loop-Cut fuel size (drop size (x ∷ xs)) (append_text text (trim_ascii (texts n)))
          ((recognize n w).1) p (omega (arith, length-drop size (x ∷ xs))) in
      subst (Cut size (x ∷ xs) text)
        (sym (
          take_text_ok (chunk_loop recognize fuel size (drop size (x ∷ xs))) text (texts n)
            (recognize n w) (answers n w)))
        (record {
          pieces = n ∷ v.pieces;
          whole = ap (λ r. n ++ r) v.whole ∙ take-append-drop size (x ∷ xs);
          sizes = (
            (omega (arith, length-take size (x ∷ xs), p), omega (arith, length-take size (x ∷ xs))),
            v.sizes,
          );
          answer =
              v.answer
              ∙ ap ok (
                  spaced-append_text text (trim_ascii (texts n))
                    (map (λ p. trim_ascii (texts p)) v.pieces));
        })

module _ {κ ι} (fl : Floats) {W : Type κ} {X : Type ι} where
  open fl use {Float, le, lit}

  -- If the callback answers every chunk and does not throw, then for a positive sample rate and a
  -- positive chunk length the call returns: the audio is cut into consecutive chunks that are not
  -- empty and at most `chunk_samples` long, and the answer is their trimmed texts in order, the empty
  -- ones left out, with one space between two of them.
  pub recognize_audio_chunked-Cut :
      (recognize : List Float → W → Result X Bytes × W) (texts : List Float → Bytes)
      (answers : (chunk : List Float) (w : W) → (recognize chunk w).0 ≡ ok (texts chunk))
      (audio : List Float) (sample_rate : ℤ) (max_chunk_sec : Float) (w : W)
      → leb_ℤ sample_rate (pos 0) ≡ false
      → le max_chunk_sec (lit 0 1) ≡ false
      → Cut recognize texts answers
          (chunk_samples fl sample_rate max_chunk_sec)
          audio
          []
          (recognize_audio_chunked fl (some recognize) audio sample_rate max_chunk_sec w)
  unfolding recognize_audio_chunked with_callback append_text
  recognize_audio_chunked-Cut recognize texts answers audio sample_rate max_chunk_sec w r m =
      let size = chunk_samples fl sample_rate max_chunk_sec in
      rw (r, m)
        (if_cases (Cut recognize texts answers size audio []) (is_empty audio)
          (λ e. record { pieces = []; whole = empty_list audio e; sizes = tt; answer = refl })
          (λ _.
            loop-Cut recognize texts answers (length audio) size audio [] w (omega arith)
              (omega arith)))
