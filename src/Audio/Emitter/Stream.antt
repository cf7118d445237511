-- ===== src/Audio/Emitter/Stream.antt =====
-- The chunks of a `ChunkEmitter` (src/audio/decode.cpp) are the stream that was pushed.
use asrcpp_gigam.Base.{
  ltb, leb, if◌then◌else◌, leb→le, if_cases, length, length-append, take, drop, All, concat,
  take-append-drop, length-take, length-drop, length-zero, drop-append_le, All-append, ℕ, zero, suc,
  ◌+◌, ◌-◌, ◌≤◌, ◌<◌, max, ◌≡◌, refl, sym, ap, ◌∙◌, subst, Bool, true, false, ◌&&◌, List, [], ◌∷◌,
  ◌++◌, append_assoc, append-nil, arith,
}
use asrcpp_gigam.Audio.Emitter.{
  ChunkEmitter, new_emitter, unread, compact, insert, emit, emit_all, push, flush,
}

module _ {ℓ} {F : Type ℓ} where
  -- The chunks that went out and what is unread are the pushed samples, each chunk has the full size.
  pub record Emits (pushed : List F) (e : ChunkEmitter F) : Type ℓ where
    pub positive : 0 < e.chunk_samples
    pub inside : e.offset ≤ length e.buffer
    pub full : All (λ c. length c ≡ e.chunk_samples) e.emitted
    pub whole : concat e.emitted ++ unread e ≡ pushed

  concat-append : (xss : List (List F)) (xs : List F) → concat (xss ++ (xs ∷ [])) ≡ concat xss ++ xs
  concat-append [] xs = append-nil xs
  concat-append (ys ∷ xss) xs =
      ap (λ t. ys ++ t) (concat-append xss xs) ∙ sym (append_assoc ys (concat xss) xs)

  drop-nil : (n : ℕ) → drop {A = F} n [] ≡ []
  drop-nil zero = refl
  drop-nil (suc n) = refl

  drop-drop : (m n : ℕ) (xs : List F) → drop n (drop m xs) ≡ drop (m + n) xs
  drop-drop zero n xs = ap (λ k. drop k xs) {x = n} (omega arith)
  drop-drop (suc m) n [] = drop-nil n ∙ sym (drop-nil (suc m + n))
  drop-drop (suc m) n (x ∷ xs) =
      drop-drop m n xs ∙ ap (λ k. drop k (x ∷ xs)) {x = suc (m + n)} (omega arith)

  compact-Emits :
      (pushed : List F) (e : ChunkEmitter F) (samples : List F)
      → Emits pushed e
      → Emits pushed (compact e samples)
  unfolding compact
  compact-Emits pushed e samples v =
      if_cases (Emits pushed) (ltb 0 e.offset && ltb e.capacity (length e.buffer + length samples))
        (λ _. record {
          positive = v.positive;
          inside = omega arith;
          full = v.full;
          whole = v.whole;
        })
        (λ _. v)

  insert-Emits :
      (grow : ℕ → ℕ → ℕ) (pushed : List F) (e : ChunkEmitter F) (samples : List F)
      → Emits pushed e
      → Emits (pushed ++ samples) (insert grow e samples)
  unfolding insert
  insert-Emits grow pushed e samples v = record {
    positive = v.positive;
    inside = omega (arith, length-append e.buffer samples, v.inside);
    full = v.full;
    whole =
        ap (λ t. concat e.emitted ++ t) (drop-append_le e.offset e.buffer samples v.inside)
        ∙ sym (append_assoc (concat e.emitted) (unread e) samples)
        ∙ ap (λ t. t ++ samples) v.whole;
  }

  emit-Emits :
      (pushed : List F) (e : ChunkEmitter F)
      → e.chunk_samples ≤ length e.buffer - e.offset
      → Emits pushed e
      → Emits pushed (emit e)
  emit-Emits pushed e h v = record {
    positive = v.positive;
    inside = omega (arith, h, v.inside, v.positive);
    full =
        All-append (λ c. length c ≡ e.chunk_samples) e.emitted
          (take e.chunk_samples (unread e) ∷ []) v.full
          (
            omega (arith, length-take e.chunk_samples (unread e), length-drop e.offset e.buffer, h),
            tt,
          );
    whole =
        ap (λ t. t ++ drop (e.offset + e.chunk_samples) e.buffer)
          (concat-append e.emitted (take e.chunk_samples (unread e)))
        ∙ append_assoc (concat e.emitted) (take e.chunk_samples (unread e)) _
        ∙ ap (λ t. concat e.emitted ++ (take e.chunk_samples (unread e) ++ t))
            (sym (drop-drop e.offset e.chunk_samples e.buffer))
        ∙ ap (λ t. concat e.emitted ++ t) (take-append-drop e.chunk_samples (unread e))
        ∙ v.whole;
  }

  -- After the loop, less than a chunk is unread.
  emit_all-Emits :
      (fuel : ℕ) (pushed : List F) (e : ChunkEmitter F)
      → length e.buffer - e.offset ≤ fuel
      → Emits pushed e
      → Emits pushed (emit_all fuel e)
        × (length (unread (emit_all fuel e)) < (emit_all fuel e).chunk_samples)
  unfolding emit_all
  emit_all-Emits zero pushed e h v =
      (v, omega (arith, length-drop e.offset e.buffer, h, v.positive))
  emit_all-Emits (suc fuel) pushed e h v =
      if_cases (λ (r : ChunkEmitter F). Emits pushed r × (length (unread r) < r.chunk_samples))
        (leb e.chunk_samples (length e.buffer - e.offset))
        (λ b.
          emit_all-Emits fuel pushed (emit e)
            (omega (arith, v.positive, h, leb→le e.chunk_samples _ b))
            (emit-Emits pushed e (leb→le e.chunk_samples _ b) v))
        (λ b. (v, ground (arith, length-drop e.offset e.buffer)))

  -- However the buffer grows: if the chunks so far and the unread samples are the pushed ones and less
  -- than a chunk is unread, then after `push` the same holds with the new samples. Each chunk has the
  -- full size.
  pub push-Emits :
      (grow : ℕ → ℕ → ℕ) (pushed : List F) (e : ChunkEmitter F) (samples : List F)
      → Emits pushed e
      → length (unread e) < e.chunk_samples
      → Emits (pushed ++ samples) (push grow e samples)
        × (length (unread (push grow e samples)) < (push grow e samples).chunk_samples)
  unfolding push
  push-Emits grow pushed e [] v h = (subst (λ p. Emits p e) (sym (append-nil pushed)) v, h)
  push-Emits grow pushed e (x ∷ xs) v h =
      let t = insert grow (compact e (x ∷ xs)) (x ∷ xs) in
      emit_all-Emits (length t.buffer) (pushed ++ (x ∷ xs)) t (omega arith)
        (insert-Emits grow pushed (compact e (x ∷ xs)) (x ∷ xs) (compact-Emits pushed e (x ∷ xs) v))

  flushed :
      (pushed : List F) (e : ChunkEmitter F) (c : Bool)
      → (c ≡ false → unread e ≡ [])
      → Emits pushed e
      → concat (if c then e.emitted ++ (unread e ∷ []) else e.emitted) ≡ pushed
  flushed pushed e true h v = concat-append e.emitted (unread e) ∙ v.whole
  flushed pushed e false h v =
      sym (append-nil (concat e.emitted)) ∙ ap (λ t. concat e.emitted ++ t) (sym (h refl)) ∙ v.whole

  -- After `flush` the chunks are all that was pushed, in order, and the buffer is empty.
  pub flush_all :
      (pushed : List F) (e : ChunkEmitter F)
      → Emits pushed e
      → (concat (flush e).emitted ≡ pushed) × ((flush e).buffer ≡ [])
  unfolding flush
  flush_all pushed e v = (
    flushed pushed e (ltb 0 (length e.buffer - e.offset))
        (λ h. length-zero (unread e) (ground (arith, length-drop e.offset e.buffer))) v,
    refl,
  )

  -- The calls of `push` of one decoding.
  abbrev pub push_all : (ℕ → ℕ → ℕ) → ChunkEmitter F → List (List F) → ChunkEmitter F
  push_all grow e [] = e
  push_all grow e (piece ∷ pieces) = push_all grow (push grow e piece) pieces

  emit_all_size :
      (fuel : ℕ) (e : ChunkEmitter F) → (emit_all fuel e).chunk_samples ≡ e.chunk_samples
  unfolding emit_all
  emit_all_size zero e = refl
  emit_all_size (suc fuel) e =
      if_cases (λ (r : ChunkEmitter F). r.chunk_samples ≡ e.chunk_samples)
        (leb e.chunk_samples (length e.buffer - e.offset)) (λ _. emit_all_size fuel (emit e))
        (λ _. refl)

  push_size :
      (grow : ℕ → ℕ → ℕ) (e : ChunkEmitter F) (samples : List F)
      → (push grow e samples).chunk_samples ≡ e.chunk_samples
  unfolding push compact insert
  push_size grow e [] = refl
  push_size grow e (x ∷ xs) =
      emit_all_size _ (insert grow (compact e (x ∷ xs)) (x ∷ xs))
      ∙ if_cases (λ (r : ChunkEmitter F). r.chunk_samples ≡ e.chunk_samples)
          (ltb 0 e.offset && ltb e.capacity (length e.buffer + length (x ∷ xs))) (λ _. refl)
          (λ _. refl)

  push_all-Emits :
      (grow : ℕ → ℕ → ℕ) (pushed : List F) (e : ChunkEmitter F) (pieces : List (List F)) (n : ℕ)
      → Emits pushed e
      → length (unread e) < n
      → e.chunk_samples ≡ n
      → Emits (pushed ++ concat pieces) (push_all grow e pieces)
        × (length (unread (push_all grow e pieces)) < n)
        × ((push_all grow e pieces).chunk_samples ≡ n)
  push_all-Emits grow pushed e [] n v h q =
      (subst (λ p. Emits p e) (sym (append-nil pushed)) v, h, q)
  push_all-Emits grow pushed e (piece ∷ pieces) n v h q =
      let (w, l) = push-Emits grow pushed e piece v (omega arith) in
      let size = push_size grow e piece ∙ q in
      let (a, b, c) =
        push_all-Emits grow (pushed ++ piece) (push grow e piece) pieces n w
          (omega (arith, l, size)) size in
      (
        subst (λ p. Emits p (push_all grow (push grow e piece) pieces))
            (append_assoc pushed piece (concat pieces)) a,
        b,
        c,
      )

  new_emitter-Emits :
      (grow : ℕ → ℕ → ℕ) (n : ℕ)
      → Emits [] (new_emitter grow n)
        × (length (unread (new_emitter {F = F} grow n)) < max 1 n)
        × ((new_emitter {F = F} grow n).chunk_samples ≡ max 1 n)
  unfolding new_emitter
  new_emitter-Emits grow n = (
    record { positive = omega arith; inside = omega arith; full = tt; whole = refl },
    omega arith,
    refl,
  )

  -- Whatever the pieces that are pushed and however the buffer grows: before the last call every
  -- chunk has exactly the chunk size (at least 1) and less than a chunk waits; after `flush` the
  -- chunks in order are the pieces in order, sample for sample.
  pub stream_exact :
      (grow : ℕ → ℕ → ℕ) (n : ℕ) (pieces : List (List F))
      → All (λ c. length c ≡ max 1 n) (push_all grow (new_emitter grow n) pieces).emitted
        × (length (unread (push_all grow (new_emitter grow n) pieces)) < max 1 n)
        × (concat (flush (push_all grow (new_emitter grow n) pieces)).emitted ≡ concat pieces)
  stream_exact grow n pieces =
      let e = push_all grow (new_emitter grow n) pieces in
      let (w, u, z) = new_emitter-Emits grow n in
      let (v, l, q) = push_all-Emits grow [] (new_emitter grow n) pieces (max 1 n) w u z in
      (
        subst (λ k. All (λ c. length c ≡ k) e.emitted) q v.full,
        l,
        (flush_all (concat pieces) e v).0,
      )
