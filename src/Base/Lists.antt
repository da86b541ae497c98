-- ===== src/Base/Lists.antt =====
-- Lists measured and indexed by native numbers, and arrays as lists of fixed length.
use Prim.Native.Nat.{ℕ, zero, suc, ◌+◌, ◌-◌, ◌≤◌, min}
use mathlib.Core.Path.{◌≡◌, refl, ap, ◌∙◌, subst}
use mathlib.Core.Bool.{Bool, true, false}
use mathlib.Core.List.{List, [], ◌∷◌, ◌++◌, map}
use mathlib.Core.Option.{Option, none, some}
use native.Mathlib.Omega.{arith}
use aone_webrtc_stt.Base.Tests.{leb, le→leb, if◌then◌else◌}

module _ {ℓ} {A : Type ℓ} where
  abbrev pub length : List A → ℕ
  length [] = 0
  length (x ∷ xs) = suc (length xs)

  abbrev pub take : ℕ → List A → List A
  take zero xs = []
  take (suc n) [] = []
  take (suc n) (x ∷ xs) = x ∷ take n xs

  abbrev pub drop : ℕ → List A → List A
  drop zero xs = xs
  drop (suc n) [] = []
  drop (suc n) (x ∷ xs) = drop n xs

  abbrev pub replicate : ℕ → A → List A
  replicate zero a = []
  replicate (suc n) a = a ∷ replicate n a

  pub length-append : (xs ys : List A) → length (xs ++ ys) ≡ length xs + length ys
  length-append [] ys = omega arith
  length-append (x ∷ xs) ys = omega (arith, length-append xs ys)

  pub length-take : (n : ℕ) (xs : List A) → length (take n xs) ≡ min n (length xs)
  length-take zero xs = omega arith
  length-take (suc n) [] = omega arith
  length-take (suc n) (x ∷ xs) = omega (arith, length-take n xs)

  pub length-drop : (n : ℕ) (xs : List A) → length (drop n xs) ≡ length xs - n
  length-drop zero xs = omega arith
  length-drop (suc n) [] = omega arith
  length-drop (suc n) (x ∷ xs) = omega (arith, length-drop n xs)

  pub length-replicate : (n : ℕ) (a : A) → length (replicate n a) ≡ n
  length-replicate zero a = refl
  length-replicate (suc n) a = ap suc (length-replicate n a)

  pub replicate_add : (k m : ℕ) (a : A) → replicate k a ++ replicate m a ≡ replicate (k + m) a
  replicate_add zero m a = let e : m ≡ zero + m = omega arith in ap (λ j. replicate j a) e
  replicate_add (suc k) m a =
      let e : suc (k + m) ≡ suc k + m = omega arith in
      ap (◌∷◌ a) (replicate_add k m a) ∙ ap (λ j. replicate j a) e

  pub take-length-append : (xs ys : List A) → take (length xs) (xs ++ ys) ≡ xs
  take-length-append [] ys = refl
  take-length-append (x ∷ xs) ys = ap (◌∷◌ x) (take-length-append xs ys)

  -- A read of `n` elements from index `i`; `none` is a read outside the array.
  unfoldable pub read : List A → ℕ → ℕ → Option (List A)
  read xs i n = if leb (i + n) (length xs) then some (take n (drop i xs)) else none

  -- A write of `ys` from index `i`; `none` is a write outside the array.
  unfoldable pub write : List A → ℕ → List A → Option (List A)
  write xs i ys =
      if leb (i + length ys) (length xs)
      then some (take i xs ++ (ys ++ drop (i + length ys) xs))
      else none

pub length-map {ℓ κ} :
    {A : Type ℓ} {B : Type κ} (f : A → B) (xs : List A) → length (map f xs) ≡ length xs
length-map f [] = refl
length-map f (x ∷ xs) = ap suc (length-map f xs)

-- Every element satisfies the predicate.
abbrev pub All {ℓ κ} : {A : Type ℓ} → (A → Type κ) → List A → Type κ
All P [] = Unit
All P (x ∷ xs) = P x × All P xs

pub All-append {ℓ κ} :
    {A : Type ℓ} (P : A → Type κ) (xs ys : List A) → All P xs → All P ys → All P (xs ++ ys)
All-append P [] ys hx hy = hy
All-append P (x ∷ xs) ys hx hy = (hx.0, All-append P xs ys hx.1 hy)

module _ {ℓ} {A : Type ℓ} where
  -- A read within the array succeeds, and gives as many elements as it asks for.
  pub read-eq :
      (xs : List A) (i n : ℕ)
      → i + n ≤ length xs
      → (ys : List A) × (read xs i n ≡ some ys) × (length ys ≡ n)
  unfolding read
  read-eq xs i n h = (
    take n (drop i xs),
    rw (le→leb (i + n) (length xs) h),
    omega (arith, length-take n (drop i xs), length-drop i xs),
  )

  -- A write within the array succeeds, and keeps its length.
  pub write-eq :
      (xs : List A) (i : ℕ) (ys : List A)
      → i + length ys ≤ length xs
      → (zs : List A) × (write xs i ys ≡ some zs) × (length zs ≡ length xs)
  unfolding write
  write-eq xs i ys h =
      let rest = drop (i + length ys) xs in
      (
        take i xs ++ (ys ++ rest),
        rw (le→leb (i + length ys) (length xs) h),
        omega (
          arith,
          length-append (take i xs) (ys ++ rest),
          length-append ys rest,
          length-take i xs,
          length-drop (i + length ys) xs,
        ),
      )

-- The result of a guard that holds.
guarded {ℓ} : {A : Type ℓ} (b : Bool) (x y : A) → (if b then some x else none) ≡ some y → x ≡ y
guarded true x y e = cc
guarded false x y e = cc

-- Reads and writes of arrays all of whose elements satisfy a predicate.
module _ {ℓ κ} {A : Type ℓ} (P : A → Type κ) where
  pub All-take : (n : ℕ) (xs : List A) → All P xs → All P (take n xs)
  All-take zero xs h = tt
  All-take (suc n) [] h = tt
  All-take (suc n) (x ∷ xs) h = (h.0, All-take n xs h.1)

  All-drop : (n : ℕ) (xs : List A) → All P xs → All P (drop n xs)
  All-drop zero xs h = h
  All-drop (suc n) [] h = tt
  All-drop (suc n) (x ∷ xs) h = All-drop n xs h.1

  pub All-map {κ'} :
      {B : Type κ'} (f : B → A) → ((x : B) → P (f x)) → (xs : List B) → All P (map f xs)
  All-map f h [] = tt
  All-map f h (x ∷ xs) = (h x, All-map f h xs)

  pub All-replicate : (n : ℕ) (a : A) → P a → All P (replicate n a)
  All-replicate zero a h = tt
  All-replicate (suc n) a h = (h, All-replicate n a h)

  pub All-read : (xs : List A) (i n : ℕ) (ys : List A) → All P xs → read xs i n ≡ some ys → All P ys
  unfolding read
  All-read xs i n ys h e =
      subst (All P) (guarded (leb (i + n) (length xs)) _ ys e)
        (All-take n (drop i xs) (All-drop i xs h))

  pub All-write :
      (xs : List A) (i : ℕ) (ys zs : List A)
      → All P xs
      → All P ys
      → write xs i ys ≡ some zs
      → All P zs
  unfolding write
  All-write xs i ys zs h k e =
      let rest = drop (i + length ys) xs in
      let all =
        All-append P (take i xs) (ys ++ rest) (All-take i xs h)
          (All-append P ys rest k (All-drop (i + length ys) xs h)) in
      subst (All P) (guarded (leb (i + length ys) (length xs)) _ zs e) all
