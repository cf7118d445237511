-- ===== src/Audio/Emitter.antt =====
-- `ChunkEmitter` of src/audio/decode.cpp: decoded samples go out in chunks of one size, from a
-- buffer whose read part is moved away only when the buffer would have to grow. `emitted` is what the
-- callback was given so far. The growth of a vector is a parameter: `grow capacity size` is the
-- capacity after an insertion that makes it `size` long.
pub mod Stream
use asrcpp_gigam.Base.{
  ltb, leb, if◌then◌else◌, length, is_empty, take, drop, ℕ, zero, suc, ◌+◌, ◌-◌, ◌*◌, max, ◌&&◌,
  List, [], ◌∷◌, ◌++◌,
}

pub record ChunkEmitter {ℓ} (F : Type ℓ) : Type ℓ where
  pub chunk_samples : ℕ
  pub buffer : List F
  pub offset : ℕ
  pub capacity : ℕ
  pub emitted : List (List F)

module _ {ℓ} {F : Type ℓ} where
  -- The constructor, for a callback that is not empty, and `reserve`.
  unfoldable pub new_emitter : (ℕ → ℕ → ℕ) → ℕ → ChunkEmitter F
  new_emitter grow chunk_samples =
      let size = max 1 chunk_samples in
      record {
        chunk_samples = size;
        buffer = [];
        offset = 0;
        capacity = grow 0 (size * 2);
        emitted = [];
      }

  abbrev pub unread : ChunkEmitter F → List F
  unread e = drop e.offset e.buffer

  unfoldable pub compact : ChunkEmitter F → List F → ChunkEmitter F
  compact e samples =
      if ltb 0 e.offset && ltb e.capacity (length e.buffer + length samples)
      then record e { buffer = unread e; offset = 0 }
      else e

  unfoldable pub insert : (ℕ → ℕ → ℕ) → ChunkEmitter F → List F → ChunkEmitter F
  insert grow e samples = record e {
    buffer = e.buffer ++ samples;
    capacity = grow e.capacity (length e.buffer + length samples);
  }

  abbrev pub emit : ChunkEmitter F → ChunkEmitter F
  emit e = record e {
    offset = e.offset + e.chunk_samples;
    emitted = e.emitted ++ (take e.chunk_samples (unread e) ∷ []);
  }

  -- The loop, which takes at most one round for each buffered sample.
  unfoldable pub emit_all : ℕ → ChunkEmitter F → ChunkEmitter F
  emit_all zero e = e
  emit_all (suc fuel) e =
      let rest = emit_all fuel (emit e) in
      if leb e.chunk_samples (length e.buffer - e.offset) then rest else e

  unfoldable pub push : (ℕ → ℕ → ℕ) → ChunkEmitter F → List F → ChunkEmitter F
  unfolding compact insert emit_all
  push grow e samples =
      if is_empty samples
      then e
      else let t = insert grow (compact e samples) samples in emit_all (length t.buffer) t

  unfoldable pub flush : ChunkEmitter F → ChunkEmitter F
  flush e = record e {
    buffer = [];
    offset = 0;
    emitted =
        if ltb 0 (length e.buffer - e.offset) then e.emitted ++ (unread e ∷ []) else e.emitted;
  }
