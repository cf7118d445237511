-- ===== src/Config/Ranges.antt =====
-- What `Config::validate` (src/config.cpp) establishes, and which detectors can be built from it.
use asrcpp_gigam.Vad.Detector.{initial, create}
use asrcpp_gigam.Vad.{VadConfig}
use asrcpp_gigam.Base.Floats.{Floats}
use asrcpp_gigam.Base.Result.{Ensures, Ensures-ok, Ensures-throw_if, ok}
use asrcpp_gigam.Base.{
  ◌==◌, if◌then◌else◌, if_cases, ℕ, ◌+◌, ◌≤◌, ◌≡◌, refl, sym, ◌∙◌, Bool, true, false, ◌&&◌, ◌||◌,
  arith,
}
use asrcpp_gigam.Base.Int.{ℤ, pos_part, ◌≤ℤ◌, ltb_ℤ, leb_ℤ, pos}
use asrcpp_gigam.Config.{Config, within, fix_threads, fix_pool, fix_threshold, validate}

within_bounds :
    (v : ℤ) (lo hi : ℕ) → lo ≤ hi → (pos lo ≤ℤ within v lo hi) × (within v lo hi ≤ℤ pos hi)
within_bounds v lo hi h = ground arith

fix_threads-bounds : (v : ℕ) → (1 ≤ fix_threads v) × (fix_threads v ≤ 256)
fix_threads-bounds v = ground arith

fix_pool-bounds : (v : ℤ) → (pos 1 ≤ℤ fix_pool v) × (fix_pool v ≤ℤ pos 256)
fix_pool-bounds v =
    within_bounds (if leb_ℤ v (pos 0) && leb_ℤ (pos 0) v then pos 1 else v) 1 256 (omega arith)

contraposed : (a : Bool) {b : Bool} → (a ≡ true → b ≡ true) → b ≡ false → a ≡ false
contraposed true h e = sym (h refl) ∙ e
contraposed false h e = refl

context_below : (a b : ℤ) → (ltb_ℤ a (pos 0) || leb_ℤ b a) ≡ false → ltb_ℤ a b ≡ true
context_below a b h = ground arith

requests_positive : (n : ℕ) (p : ℤ) → pos 1 ≤ℤ p → 1 ≤ (if n == 0 then pos_part p else n)
requests_positive n p h = ground arith

positive : (a : ℤ) (n : ℕ) → pos (n + 1) ≤ℤ a → leb_ℤ a (pos 0) ≡ false
positive a n h = ground arith

in_range : (a b : ℤ) → pos 0 ≤ℤ a → ltb_ℤ a b ≡ true → (ltb_ℤ a (pos 0) || leb_ℤ b a) ≡ false
in_range a b h k = ground arith

module _ (fl : Floats) where
  open fl use {Float, lt, le, lit}

  -- What the rest of the program relies on.
  pub record Ranges (c : Config fl) : Type 0 where
    pub rate_low : pos 8000 ≤ℤ c.sample_rate
    pub rate_high : c.sample_rate ≤ℤ pos 48000
    pub window_low : pos 64 ≤ℤ c.vad_window_size
    pub window_high : c.vad_window_size ≤ℤ pos 4096
    pub context_low : pos 0 ≤ℤ c.vad_context_size
    pub context_high : ltb_ℤ c.vad_context_size c.vad_window_size ≡ true
    pub workers_low : pos 1 ≤ℤ c.num_threads
    pub workers_high : c.num_threads ≤ℤ pos 128
    pub threads_low : 1 ≤ c.threads
    pub threads_high : c.threads ≤ 256
    pub pool_low : pos 1 ≤ℤ c.recognizer_pool_size
    pub pool_high : c.recognizer_pool_size ≤ℤ pos 256
    pub features : pos 0 ≤ℤ c.feature_dim
    pub requests : 1 ≤ c.max_concurrent_requests
    pub waits : 1 ≤ c.recognizer_wait_timeout_ms
    pub upload : 1 ≤ c.max_upload_bytes
    pub listens : 1 ≤ c.port
    pub message : 1 ≤ c.max_ws_message_bytes

  validate-Ensures : (c : Config fl) → Ensures Ranges (validate fl c)
  unfolding validate
  validate-Ensures c = Ensures-throw_if Ranges (leb_ℤ c.sample_rate (pos 0)) _ _ λ e1.
      Ensures-throw_if Ranges (leb_ℤ c.vad_window_size (pos 0)) _ _ λ e2.
        Ensures-throw_if Ranges
          (ltb_ℤ c.vad_context_size (pos 0)
            || leb_ℤ (within c.vad_window_size 64 4096) c.vad_context_size)
          _ _
          λ e3. Ensures-throw_if Ranges (leb_ℤ c.feature_dim (pos 0)) _ _ λ e4.
            Ensures-throw_if Ranges (c.max_upload_bytes == 0) _ _ λ e5.
              Ensures-throw_if Ranges (c.port == 0) _ _ λ e6.
                Ensures-throw_if Ranges (c.max_ws_message_bytes == 0) _ _ λ e7. record {
                  rate_low = (within_bounds c.sample_rate 8000 48000 (omega arith)).0;
                  rate_high = (within_bounds c.sample_rate 8000 48000 (omega arith)).1;
                  window_low = (within_bounds c.vad_window_size 64 4096 (omega arith)).0;
                  window_high = (within_bounds c.vad_window_size 64 4096 (omega arith)).1;
                  context_low = ground arith;
                  context_high =
                      context_below c.vad_context_size (within c.vad_window_size 64 4096) e3;
                  workers_low = (within_bounds c.num_threads 1 128 (omega arith)).0;
                  workers_high = (within_bounds c.num_threads 1 128 (omega arith)).1;
                  threads_low = (fix_threads-bounds c.threads).0;
                  threads_high = (fix_threads-bounds c.threads).1;
                  pool_low = (fix_pool-bounds c.recognizer_pool_size).0;
                  pool_high = (fix_pool-bounds c.recognizer_pool_size).1;
                  features = ground arith;
                  requests =
                      requests_positive c.max_concurrent_requests (fix_pool c.recognizer_pool_size)
                        (fix_pool-bounds c.recognizer_pool_size).0;
                  waits = ground arith;
                  upload = ground arith;
                  listens = ground arith;
                  message = ground arith;
                }

  pub validate-Ranges : (c c' : Config fl) → validate fl c ≡ ok c' → Ranges c'
  validate-Ranges c c' h = Ensures-ok Ranges (validate fl c) h (validate-Ensures c)

  -- Of the literals of `validate` and their order, what IEEE floats have (a NaN meets no test).
  pub record Literals : Type 0 where
    pub low_positive : le (lit 1 100) (lit 0 1) ≡ false
    pub low_below : le (lit 1 1) (lit 1 100) ≡ false
    pub high_positive : le (lit 99 100) (lit 0 1) ≡ false
    pub high_below : le (lit 1 1) (lit 99 100) ≡ false
    pub under : (v : Float) → le v (lit 0 1) ≡ true → lt v (lit 1 100) ≡ true
    pub over : (v : Float) → le (lit 1 1) v ≡ true → lt (lit 99 100) v ≡ true

  -- A threshold that the constructor of the detector accepts.
  abbrev pub Proper : Float → Type 0
  Proper v = (le v (lit 0 1) ≡ false) × (le (lit 1 1) v ≡ false)

  -- `std::clamp(v, 0.01F, 0.99F)`
  pub clamped-Proper :
      Literals
      → (v : Float)
      → Proper (if lt v (lit 1 100) then lit 1 100 else if lt (lit 99 100) v then lit 99 100 else v)
  clamped-Proper l v =
      if_cases Proper (lt v (lit 1 100)) (λ _. (l.low_positive, l.low_below))
        λ f.
          if_cases Proper (lt (lit 99 100) v) (λ _. (l.high_positive, l.high_below))
            λ g. (
              contraposed (le v (lit 0 1)) (l.under v) f,
              contraposed (le (lit 1 1) v) (l.over v) g,
            )

  fix_threshold-Proper : Literals → (v : Float) → Proper (fix_threshold fl v)
  fix_threshold-Proper l v =
      if_cases Proper (le v (lit 0 1) || le (lit 1 1) v) (λ _. clamped-Proper l v) λ e. ground arith

  validate-Proper :
      Literals → (c : Config fl) → Ensures (λ d. Proper d.vad_threshold) (validate fl c)
  unfolding validate
  validate-Proper l c =
      let Q : Config fl → Type 0 = λ d. Proper d.vad_threshold in
      Ensures-throw_if Q (leb_ℤ c.sample_rate (pos 0)) _ _ λ e1.
        Ensures-throw_if Q (leb_ℤ c.vad_window_size (pos 0)) _ _ λ e2.
          Ensures-throw_if Q
            (ltb_ℤ c.vad_context_size (pos 0)
              || leb_ℤ (within c.vad_window_size 64 4096) c.vad_context_size)
            _ _
            λ e3. Ensures-throw_if Q (leb_ℤ c.feature_dim (pos 0)) _ _ λ e4.
              Ensures-throw_if Q (c.max_upload_bytes == 0) _ _ λ e5.
                Ensures-throw_if Q (c.port == 0) _ _ λ e6.
                  Ensures-throw_if Q (c.max_ws_message_bytes == 0) _ _
                    λ e7. fix_threshold-Proper l c.vad_threshold

  pub validated-Proper :
      Literals → (c c' : Config fl) → validate fl c ≡ ok c' → Proper c'.vad_threshold
  validated-Proper l c c' h =
      Ensures-ok (λ d. Proper d.vad_threshold) (validate fl c) h (validate-Proper l c)

  built :
      {M : Type 0} (silent : M) (v : VadConfig fl)
      → leb_ℤ v.window_size (pos 0) ≡ false
      → (ltb_ℤ v.context_size (pos 0) || leb_ℤ v.window_size v.context_size) ≡ false
      → leb_ℤ v.sample_rate (pos 0) ≡ false
      → Proper v.threshold
      → create fl silent v ≡ ok (initial fl silent v)
  unfolding create
  built silent v w x r t = rw (w, x, r, t.0, t.1) refl

  -- A detector with the windows and the rate of such a configuration, and a threshold between 0 and 1.
  pub built_within :
      {M : Type 0} (silent : M) (c : Config fl) (v : VadConfig fl)
      → Ranges c
      → v.window_size ≡ c.vad_window_size
      → v.context_size ≡ c.vad_context_size
      → v.sample_rate ≡ c.sample_rate
      → Proper v.threshold
      → create fl silent v ≡ ok (initial fl silent v)
  built_within silent c v r w x s t =
      built silent v (rw w (positive c.vad_window_size 63 r.window_low))
        (rw (w, x) (in_range c.vad_context_size c.vad_window_size r.context_low r.context_high))
        (rw s (positive c.sample_rate 7999 r.rate_low)) t
