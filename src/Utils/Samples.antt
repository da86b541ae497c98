-- ===== src/Utils/Samples.antt =====
-- RTCUtils::int16_to_float and float_to_int16 (utils/RTCUtils.cc), with float as a parameter; kScale
-- is 1.0f / 32768.0f (rtc_voice_activity/RTCVadInterface.h). Nothing in the repository calls them.
use aone_webrtc_stt.Base.{
  length, drop, length-append, length-map, take-length-append, All, read, write, ℤ, pos, negsuc,
  ◌≤ℤ◌, ltb_ℤ, IsInt16, ℕ, ◌+◌, ◌≤◌, ◌≡◌, refl, sym, ap, ◌∙◌, Bool, false, Option, some, List, [],
  ◌∷◌, ◌++◌, map, append-nil, arith, if◌then◌else◌, le→leb, ◌>>=◌,
}

-- float. IEEE 754 binary32 holds whole numbers of up to 24 bits exactly, and scales by a power of two
-- exactly; the laws say so of the values of int16_t.
pub record FloatApi : Type 1 where
  pub Float : Type 0
  -- A whole number as a literal, or by static_cast.
  pub float_of : ℤ → Float
  pub k_scale : Float
  pub times : Float → Float → Float
  pub less : Float → Float → Bool
  pub round : Float → Float
  -- static_cast<int16_t>.
  pub int16_of : Float → ℤ
  pub less_whole : (a b : ℤ) → IsInt16 a → IsInt16 b → less (float_of a) (float_of b) ≡ ltb_ℤ a b
  -- A sample by kScale lies between -1.0f and 1.0f.
  pub scaled_above :
      (x : ℤ) → IsInt16 x → less (float_of (pos 1)) (times (float_of x) k_scale) ≡ false
  pub scaled_below :
      (x : ℤ) → IsInt16 x → less (times (float_of x) k_scale) (float_of (negsuc 0)) ≡ false
  pub scaled_back :
      (x : ℤ) → IsInt16 x → times (times (float_of x) k_scale) (float_of (pos 32768)) ≡ float_of x
  pub round_whole : (x : ℤ) → IsInt16 x → round (float_of x) ≡ float_of x
  pub int16_of_whole : (x : ℤ) → IsInt16 x → int16_of (float_of x) ≡ x

le→not_lt : (a b : ℤ) → a ≤ℤ b → ltb_ℤ b a ≡ false
le→not_lt a b h = ground arith

-- What is written at the front of an array is read there.
write-front {ℓ} :
    {A : Type ℓ} (xs ys : List A)
    → length ys ≤ length xs
    → write xs 0 ys ≡ some (ys ++ drop (length ys) xs)
unfolding write
write-front xs ys h =
    let from_front : 0 + length ys ≡ length ys = omega arith in
    rw (from_front, le→leb (length ys) (length xs) h)

read-front {ℓ} : {A : Type ℓ} (xs ys : List A) → read (xs ++ ys) 0 (length xs) ≡ some xs
unfolding read
read-front xs ys =
    let within : 0 + length xs ≤ length (xs ++ ys) = omega (arith, length-append xs ys) in
    rw (le→leb (0 + length xs) (length (xs ++ ys)) within, take-length-append xs ys)

read-all {ℓ} : {A : Type ℓ} (xs : List A) → read xs 0 (length xs) ≡ some xs
read-all xs = ap (λ ys. read ys 0 (length xs)) (sym (append-nil xs)) ∙ read-front xs []

module _ (fa : FloatApi) where
  open fa use {Float, float_of, k_scale, times, less, round, int16_of}

  unfoldable pub int16_to_float : List ℤ → List Float → ℕ → Option (List Float)
  int16_to_float input output n =
      read input 0 n >>= λ samples. write output 0 (map (λ x. times (float_of x) k_scale) samples)

  -- `if (sample > high) sample = high; if (sample < low) sample = low;`
  unfoldable pub clamp_float : Float → Float → Float → Float
  clamp_float low high sample =
      let below = if less high sample then high else sample in if less below low then low else below

  unfoldable pub int16_sample : Float → ℤ
  unfolding clamp_float
  int16_sample sample =
      let unit = clamp_float (float_of (negsuc 0)) (float_of (pos 1)) sample in
      let scaled = round (times unit (float_of (pos 32768))) in
      int16_of (clamp_float (float_of (negsuc 32767)) (float_of (pos 32767)) scaled)

  unfoldable pub float_to_int16 : List Float → List ℤ → ℕ → Option (List ℤ)
  unfolding int16_sample
  float_to_int16 input output n =
      read input 0 n >>= λ samples. write output 0 (map int16_sample samples)

  not_above : (x : ℤ) → IsInt16 x → less (float_of (pos 32767)) (float_of x) ≡ false
  not_above x h =
      fa.less_whole (pos 32767) x (omega arith, omega arith) h ∙ le→not_lt x (pos 32767) h.1

  not_below : (x : ℤ) → IsInt16 x → less (float_of x) (float_of (negsuc 32767)) ≡ false
  not_below x h =
      fa.less_whole x (negsuc 32767) h (omega arith, omega arith) ∙ le→not_lt (negsuc 32767) x h.0

  clamp_kept :
      (low high sample : Float)
      → less high sample ≡ false
      → less sample low ≡ false
      → clamp_float low high sample ≡ sample
  unfolding clamp_float
  clamp_kept low high sample above below = rw (above, below)

  sample_kept : (x : ℤ) → IsInt16 x → int16_sample (times (float_of x) k_scale) ≡ x
  unfolding int16_sample
  sample_kept x h =
      rw
        (
          int16_sample,
          clamp_kept (float_of (negsuc 0)) (float_of (pos 1)) (times (float_of x) k_scale)
              (fa.scaled_above x h) (fa.scaled_below x h),
          fa.scaled_back x h,
          fa.round_whole x h,
          clamp_kept (float_of (negsuc 32767)) (float_of (pos 32767)) (float_of x) (not_above x h)
              (not_below x h),
        )
        (fa.int16_of_whole x h)

  samples_kept :
      (xs : List ℤ)
      → All IsInt16 xs
      → map int16_sample (map (λ x. times (float_of x) k_scale) xs) ≡ xs
  samples_kept [] h = refl
  samples_kept (x ∷ xs) h = rw (sample_kept x h.0, samples_kept xs h.1)

  -- For a float that keeps and orders the samples, in which a sample by kScale lies between -1.0f and
  -- 1.0f and comes back by 32768.0f: samples of int16_t that are converted to an array of float that
  -- has room for them, and from there to an array of int16_t that has, are there as they were, and what
  -- is behind them is kept.
  pub float_to_int16-int16_to_float :
      (input output : List ℤ) (floats : List Float)
      → All IsInt16 input
      → length input ≤ length floats
      → length input ≤ length output
      → (int16_to_float input floats (length input) >>= λ fs.
          float_to_int16 fs output (length input))
        ≡ some (input ++ drop (length input) output)
  unfolding int16_to_float float_to_int16
  float_to_int16-int16_to_float input output floats h room room' =
      let scaled = map (λ x. times (float_of x) k_scale) input in
      let same : length scaled ≡ length input =
        length-map (λ x. times (float_of x) k_scale) input in
      let fits : length scaled ≤ length floats = omega (arith, same) in
      rw
        (
          read-all input,
          write-front floats scaled fits,
          ← same,
          read-front scaled (drop (length scaled) floats),
          samples_kept input h,
          same,
        )
        (write-front output input room')
