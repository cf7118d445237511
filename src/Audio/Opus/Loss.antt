-- ===== src/Audio/Opus/Loss.antt =====
-- What the loss handling of `decode_packet` (src/audio/realtime_opus.cpp) keeps.
use asrcpp_gigam.Audio.{AudioError}
use asrcpp_gigam.Base.{
  ltb, ◌==◌, if_cases, length, length-append, ℕ, zero, suc, ◌+◌, ◌*◌, ◌≤◌, min, ◌≡◌, refl, ◌∙◌,
  Bool, false, ◌||◌, Option, none, List, arith,
}
use native.Mathlib.Nat.{mul-add, mul-le-mul_left}
use asrcpp_gigam.Base.Bytes.{Bytes}
use asrcpp_gigam.Base.Result.{Result, Ensures, ok, err}
use asrcpp_gigam.Audio.Opus.{
  OpusLibrary, D, store, append_decoded, count_plc, and_then, conceal, after_fec,
}

abbrev pub frames : Result AudioError ℕ → ℕ
frames (ok n) = 1
frames (err e) = 0

module _ {F : Type 0} (lib : OpusLibrary F) where
  -- The documented bound of `opus_decode_float`: at most `frame_size` samples.
  abbrev pub Bounded : Type 0
  Bounded =
      (d : lib.State) (bytes : Option Bytes) (frame_size : ℕ) (fec : Bool)
      → Ensures (λ samples. length samples ≤ frame_size) ((lib.decode d bytes frame_size fec).0)

module _ {F : Type 0} (lib : OpusLibrary F) (bounded : Bounded lib) (m : ℕ) where
  -- From `s` to `t` at most `k` frames were stored and `c` packets counted as concealed.
  pub record Grown (k c : ℕ) (s t : D lib) : Type 0 where
    pub frame : t.max_frame_samples ≡ s.max_frame_samples
    pub plc : t.max_plc_packets ≡ s.max_plc_packets
    pub seq : t.last_seq ≡ s.last_seq
    pub have : t.have_last_seq ≡ s.have_last_seq
    pub room : length t.output ≤ length s.output + m * k
    pub counted :
        t.stats.plc_packets + t.stats.fec_packets ≤ s.stats.plc_packets + s.stats.fec_packets + c
    pub lost : t.stats.lost_packets ≡ s.stats.lost_packets

  Grown-refl : (s : D lib) → Grown 0 0 s s
  Grown-refl s = record {
    frame = refl;
    plc = refl;
    seq = refl;
    have = refl;
    room = omega arith;
    counted = omega arith;
    lost = refl;
  }

  Grown-trans :
      {k c k' c' : ℕ} {s t u : D lib}
      → Grown k c s t
      → Grown k' c' t u
      → Grown (k + k') (c + c') s u
  Grown-trans {k} {c} {k'} g h = record {
    frame = h.frame ∙ g.frame;
    plc = h.plc ∙ g.plc;
    seq = h.seq ∙ g.seq;
    have = h.have ∙ g.have;
    room = omega (arith, g.room, h.room, mul-add m k k');
    counted = omega (arith, g.counted, h.counted);
    lost = h.lost ∙ g.lost;
  }

  store-Grown :
      (s : D lib) (r : Result ℕ (List F) × lib.State)
      → Ensures (λ samples. length samples ≤ m) (r.0)
      → Grown (frames ((store lib s r).1)) 0 s ((store lib s r).0)
  unfolding store
  store-Grown s (err code, d) h = record {
    frame = refl;
    plc = refl;
    seq = refl;
    have = refl;
    room = omega arith;
    counted = omega arith;
    lost = refl;
  }
  store-Grown s (ok samples, d) h = record {
    frame = refl;
    plc = refl;
    seq = refl;
    have = refl;
    room = omega (arith, length-append (s.output) samples);
    counted = omega arith;
    lost = refl;
  }

  Ensures-le :
      {k : ℕ} (r : Result ℕ (List F))
      → k ≤ m
      → Ensures (λ samples. length samples ≤ k) r
      → Ensures (λ samples. length samples ≤ m) r
  Ensures-le (ok samples) h b = omega arith
  Ensures-le (err code) h b = tt

  pub append_decoded-Grown :
      (s : D lib) (bytes : Option Bytes) (frame_size : ℕ) (fec : Bool)
      → s.max_frame_samples ≡ m
      → Grown
          (frames ((append_decoded lib s bytes frame_size fec).1))
          0
          s
          ((append_decoded lib s bytes frame_size fec).0)
  unfolding append_decoded
  append_decoded-Grown s bytes frame_size fec h =
      if_cases (λ (r : D lib × Result AudioError ℕ). Grown (frames (r.1)) 0 s (r.0))
        (frame_size == 0 || ltb (s.max_frame_samples) frame_size) (λ _. Grown-refl s)
        (λ e. store-Grown s (lib.decode (s.decoder) bytes frame_size fec) (
          Ensures-le ((lib.decode (s.decoder) bytes frame_size fec).0) (ground arith)
            (bounded (s.decoder) bytes frame_size fec)))

  pub Grown-le : {k k' c c' : ℕ} {s t : D lib} → k ≤ k' → c ≤ c' → Grown k c s t → Grown k' c' s t
  Grown-le {k} {k'} p q g = record {
    frame = g.frame;
    plc = g.plc;
    seq = g.seq;
    have = g.have;
    room = omega (arith, g.room, mul-le-mul_left m p);
    counted = omega (arith, g.counted);
    lost = g.lost;
  }

  count_plc-Grown :
      (s : D lib) (r : D lib × Result AudioError ℕ)
      → Grown (frames (r.1)) 0 s (r.0)
      → Grown 1 1 s ((count_plc lib r).0)
  unfolding count_plc
  count_plc-Grown s (t, err e) g = Grown-le (omega arith) (omega arith) g
  count_plc-Grown s (t, ok n) g = record {
    frame = g.frame;
    plc = g.plc;
    seq = g.seq;
    have = g.have;
    room = g.room;
    counted = omega (arith, g.counted);
    lost = g.lost;
  }

  and_then-Grown :
      {k c k' c' : ℕ} (s : D lib) (r : D lib × Result AudioError (Unit {0}))
      (f : D lib → D lib × Result AudioError (Unit {0}))
      → Grown k c s (r.0)
      → ((t : D lib) → t.max_frame_samples ≡ s.max_frame_samples → Grown k' c' t ((f t).0))
      → Grown (k + k') (c + c') s ((and_then lib r f).0)
  unfolding and_then
  and_then-Grown s (t, err e) f g h = Grown-le (omega arith) (omega arith) g
  and_then-Grown s (t, ok u) f g h = Grown-trans g (h t (g.frame))

  pub conceal-Grown :
      (frame_size n : ℕ) (s : D lib)
      → s.max_frame_samples ≡ m
      → Grown n n s ((conceal lib frame_size n s).0)
  unfolding conceal
  conceal-Grown frame_size zero s h = Grown-refl s
  conceal-Grown frame_size (suc n) s h = Grown-le (omega arith) (omega arith) (
      and_then-Grown s (count_plc lib (append_decoded lib s none frame_size false))
        (conceal lib frame_size n)
        (count_plc-Grown s (append_decoded lib s none frame_size false)
          (append_decoded-Grown s none frame_size false h))
        (λ t e. conceal-Grown frame_size n t (e ∙ h)))

  pub after_fec-Grown :
      (frame_size : ℕ) (s : D lib) (r : D lib × Result AudioError ℕ)
      → s.max_frame_samples ≡ m
      → Grown (frames (r.1)) 0 s (r.0)
      → Grown 1 1 s ((after_fec lib frame_size r).0)
  unfolding after_fec
  after_fec-Grown frame_size s (t, ok n) h g = record {
    frame = g.frame;
    plc = g.plc;
    seq = g.seq;
    have = g.have;
    room = g.room;
    counted = omega (arith, g.counted);
    lost = g.lost;
  }
  after_fec-Grown frame_size s (t, err e) h g =
      Grown-le (omega arith) (omega arith)
        (Grown-trans g (conceal-Grown frame_size (min 1 (t.max_plc_packets)) t (g.frame ∙ h)))
