-- ===== src/Audio/Resampler.antt =====
-- `StreamResampler` of src/audio/resampler.cpp. The library that it calls (libsamplerate) is a
-- parameter, and so is the double arithmetic. `output_buf_` is the result: both methods clear it.
use asrcpp_gigam.Base.{
  ◌==◌, if◌then◌else◌, length, is_empty, drop, ℕ, zero, suc, ◌+◌, max, Bool, true, false, ◌&&◌,
  Option, none, some, List, [], ◌∷◌, ◌++◌,
}
use asrcpp_gigam.Base.Int.{ℤ}
use asrcpp_gigam.Base.Result.{Result, ok, err}
use asrcpp_gigam.Audio.{
  AudioError, no_resampler, no_progress, stalled, resampling_failed, flush_failed,
}

-- `process state ratio input room last` is `src_process`, `last` its `end_of_input`: an error code, or
-- how many samples it used and those that it generated. `scaled n r` is `std::lround(n * r)`.
pub record SrcLibrary (F : Type 0) : Type 1 where
  pub State : Type 0
  pub Ratio : Type 0
  pub ratio : ℤ → ℤ → Ratio
  pub scaled : ℕ → Ratio → ℕ
  pub create : Option State
  pub process : State → Ratio → List F → ℕ → Bool → Result ℕ (ℕ × List F) × State
  pub reset : State → State

module _ {F : Type 0} (src : SrcLibrary F) where
  pub record StreamResampler : Type 0 where
    pub state : src.State
    pub ratio : src.Ratio

module _ {F : Type 0} (src : SrcLibrary F) where
  abbrev pub Resampler : Type 0
  Resampler = StreamResampler src

  unfoldable pub with_state : src.Ratio → Option src.State → Result AudioError Resampler
  with_state ratio none = err no_resampler
  with_state ratio (some state) = ok (record { state = state; ratio = ratio })

  unfoldable pub create : ℤ → ℤ → Result AudioError Resampler
  unfolding with_state
  create input_rate output_rate = with_state (src.ratio output_rate input_rate) src.create

  abbrev pub chunk_out : Resampler → List F → ℕ
  chunk_out r input = max 64 (src.scaled (length input) r.ratio + 64)

  -- One call of the library in `process`: the rest of the input, the output so far.
  unfoldable pub processed :
      Resampler
      → List F
      → List F
      → Result ℕ (ℕ × List F) × src.State
      → Resampler × Result AudioError (List F × List F)
  processed r input output (err code, state) =
      (record r { state = state }, err (resampling_failed code))
  processed r input output (ok (used, generated), state) = (
    record r { state = state },
    if used == 0 && is_empty generated
        then err no_progress
        else ok (drop used input, output ++ generated),
  )

  -- The loop of `process`, from the input that is left and the output so far on.
  unfoldable pub process_loop :
      ℕ → Resampler × Result AudioError (List F × List F) → Resampler × Result AudioError (List F)
  unfolding processed
  process_loop fuel (r, err e) = (r, err e)
  process_loop fuel (r, ok ([], output)) = (r, ok output)
  process_loop zero (r, ok (x ∷ xs, output)) = (r, err stalled)
  process_loop (suc fuel) (r, ok (x ∷ xs, output)) = process_loop fuel (
      processed r (x ∷ xs) output
        (src.process r.state r.ratio (x ∷ xs) (chunk_out r (x ∷ xs)) false))

  unfoldable pub process : ℕ → List F → Resampler → Resampler × Result AudioError (List F)
  unfolding process_loop
  process fuel input r = process_loop fuel (r, ok (input, []))

  -- One call of the library in `flush`: what it generated.
  unfoldable pub flushed :
      Resampler → Result ℕ (ℕ × List F) × src.State → Resampler × Result AudioError (List F)
  flushed r (err code, state) = (record r { state = state }, err (flush_failed code))
  flushed r (ok (used, generated), state) = (record r { state = state }, ok generated)

  abbrev pub after_flush : Resampler → Resampler
  after_flush r = record r { state = src.reset r.state }

  -- The loop of `flush`, from what the last call generated on.
  unfoldable pub flush_loop :
      ℕ → List F → Resampler × Result AudioError (List F) → Resampler × Result AudioError (List F)
  unfolding flushed
  flush_loop fuel output (r, err e) = (r, err e)
  flush_loop fuel output (r, ok []) = (after_flush r, ok output)
  flush_loop zero output (r, ok (x ∷ xs)) = (r, err stalled)
  flush_loop (suc fuel) output (r, ok (x ∷ xs)) =
      flush_loop fuel (output ++ (x ∷ xs)) (flushed r (src.process r.state r.ratio [] 256 true))

  unfoldable pub flush : ℕ → Resampler → Resampler × Result AudioError (List F)
  unfolding flush_loop flushed
  flush fuel r = flush_loop fuel [] (flushed r (src.process r.state r.ratio [] 256 true))

  unfoldable pub reset : Resampler → Resampler
  reset r = record r { state = src.reset r.state }
