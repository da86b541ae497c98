-- ===== src/Tests/Samples.antt =====
-- The conversions of samples with fixed-point numbers as float: a number counts units of 1 / 32768.
use aone_webrtc_stt.Base.{
  replicate, ℤ, pos, negsuc, ltb_ℤ, IsInt16, ℕ, suc, ◌+◌, ◌-◌, ◌*◌, ◌/◌, ◌≡◌, false, some, List, [],
  ◌∷◌, arith, ltb, if◌then◌else◌, ◌>>=◌,
}
use aone_webrtc_stt.Utils.Samples.{
  FloatApi, int16_to_float, float_to_int16, float_to_int16-int16_to_float,
}

abbrev minus : ℕ → ℤ
minus n = if ltb 0 n then negsuc (n - 1) else pos 0

unfoldable with_magnitude : (ℕ → ℕ) → ℤ → ℤ
with_magnitude f (pos n) = pos (f n)
with_magnitude f (negsuc n) = minus (f (suc n))

abbrev negate : ℤ → ℤ
negate (pos n) = minus n
negate (negsuc n) = pos (suc n)

unfoldable product : ℤ → ℤ → ℤ
unfolding with_magnitude
product a (pos m) = with_magnitude (λ n. n * m / 32768) a
product a (negsuc m) = negate (with_magnitude (λ n. n * suc m / 32768) a)

less_whole :
    (a b : ℤ)
    → ltb_ℤ (with_magnitude (λ n. n * 32768) a) (with_magnitude (λ n. n * 32768) b) ≡ ltb_ℤ a b
unfolding with_magnitude
less_whole (pos a) (pos b) = ground arith
less_whole (pos a) (negsuc b) = ground arith
less_whole (negsuc a) (pos b) = ground arith
less_whole (negsuc a) (negsuc b) = ground arith

scaled_above :
    (x : ℤ)
    → IsInt16 x
    → ltb_ℤ
        (with_magnitude (λ n. n * 32768) (pos 1))
        (product (with_magnitude (λ n. n * 32768) x) (pos 1))
      ≡ false
unfolding with_magnitude product
scaled_above (pos n) h = ground arith
scaled_above (negsuc n) h = ground arith

scaled_below :
    (x : ℤ)
    → IsInt16 x
    → ltb_ℤ
        (product (with_magnitude (λ n. n * 32768) x) (pos 1))
        (with_magnitude (λ n. n * 32768) (negsuc 0))
      ≡ false
unfolding with_magnitude product
scaled_below (pos n) h = ground arith
scaled_below (negsuc n) h = ground arith

scaled_back :
    (x : ℤ)
    → IsInt16 x
    → product
        (product (with_magnitude (λ n. n * 32768) x) (pos 1))
        (with_magnitude (λ n. n * 32768) (pos 32768))
      ≡ (with_magnitude (λ n. n * 32768) x)
unfolding with_magnitude product
scaled_back (pos n) h = ground arith
scaled_back (negsuc n) h = ground arith

round_whole :
    (x : ℤ)
    → IsInt16 x
    → with_magnitude (λ n. (n + 16384) / 32768 * 32768) (with_magnitude (λ n. n * 32768) x)
      ≡ (with_magnitude (λ n. n * 32768) x)
unfolding with_magnitude product
round_whole (pos n) h = ground arith
round_whole (negsuc n) h = ground arith

int16_of_whole :
    (x : ℤ) → IsInt16 x → with_magnitude (λ n. n / 32768) (with_magnitude (λ n. n * 32768) x) ≡ x
unfolding with_magnitude product
int16_of_whole (pos n) h = ground arith
int16_of_whole (negsuc n) h = ground arith

abbrev fixed_point : FloatApi
fixed_point = record {
  Float = ℤ;
  float_of = with_magnitude (λ n. n * 32768);
  k_scale = pos 1;
  times = product;
  less = ltb_ℤ;
  round = with_magnitude (λ n. (n + 16384) / 32768 * 32768);
  int16_of = with_magnitude (λ n. n / 32768);
  less_whole = λ a b ha hb. less_whole a b;
  scaled_above = scaled_above;
  scaled_below = scaled_below;
  scaled_back = scaled_back;
  round_whole = round_whole;
  int16_of_whole = int16_of_whole;
}

abbrev extremes : List ℤ
extremes = pos 32767 ∷ negsuc 32767 ∷ negsuc 0 ∷ []

float_to_int16-int16_to_float_example :
    (int16_to_float fixed_point extremes (replicate 4 (pos 0)) 3 >>= λ fs.
    float_to_int16 fixed_point fs (replicate 5 (pos 7)) 3)
    ≡ some (pos 32767 ∷ negsuc 32767 ∷ negsuc 0 ∷ pos 7 ∷ pos 7 ∷ [])
float_to_int16-int16_to_float_example =
    float_to_int16-int16_to_float fixed_point extremes (replicate 5 (pos 7)) (replicate 4 (pos 0))
      ((omega arith, omega arith), ((omega arith, omega arith), ((omega arith, omega arith), tt)))
      (omega arith) (omega arith)
