-- ===== src/Base/Lists.antt =====
-- Lists measured by native numbers, under the library's names, and lists of addresses.
use Prim.Native.Nat.{ℕ, zero, suc, ◌+◌, ◌≤◌, min}
use mathlib.Core.Logic.{◌≢◌, ◌⊎◌, inl, inr}
use mathlib.Core.Path.{◌≡◌, refl, ap, sym, ◌∙◌}
use mathlib.Core.Bool.{Bool, true, false, ◌||◌}
use mathlib.Core.List.{List, [], ◌∷◌, ◌++◌}
use native.Mathlib.Omega.{arith}
use multi_threaded_proxy_ser.Base.Tests.{◌==◌, if◌then◌else◌}

module _ {ℓ} {A : Type ℓ} where
  abbrev pub length : List A → ℕ
  length [] = 0
  length (x ∷ xs) = suc (length xs)

  abbrev pub take : ℕ → List A → List A
  take zero xs = []
  take (suc n) [] = []
  take (suc n) (x ∷ xs) = x ∷ take n xs

  abbrev pub drop : ℕ → List A → List A
  drop zero xs = xs
  drop (suc n) [] = []
  drop (suc n) (x ∷ xs) = drop n xs

  pub length-append : (xs ys : List A) → length (xs ++ ys) ≡ length xs + length ys
  length-append [] ys = omega arith
  length-append (x ∷ xs) ys = omega (arith, length-append xs ys)

  pub List-cases : (l : List A) → (l ≡ []) ⊎ ((x : A) × (r : List A) × (l ≡ x ∷ r))
  List-cases [] = inl refl
  List-cases (x ∷ r) = inr (x, r, refl)

  pub length-middle :
      (us : List A) (u : A) (vs : List A) → length (us ++ u ∷ vs) ≡ suc (length (us ++ vs))
  length-middle [] u vs = refl
  length-middle (x ∷ us) u vs = omega (arith, length-middle us u vs)

  pub length-take : (n : ℕ) (xs : List A) → length (take n xs) ≡ min n (length xs)
  length-take zero xs = omega arith
  length-take (suc n) [] = omega arith
  length-take (suc n) (x ∷ xs) = omega (arith, length-take n xs)

  pub take_of_length-le : (n : ℕ) (xs : List A) → length xs ≤ n → take n xs ≡ xs
  take_of_length-le zero [] h = refl
  take_of_length-le zero (x ∷ xs) h = elim h [ ]
  take_of_length-le (suc n) [] h = refl
  take_of_length-le (suc n) (x ∷ xs) h = ap (◌∷◌ x) (take_of_length-le n xs (omega arith))

  pub take-length : (xs ys : List A) → take (length xs) (xs ++ ys) ≡ xs
  take-length [] ys = refl
  take-length (x ∷ xs) ys = ap (◌∷◌ x) (take-length xs ys)

  drop-nil : (n : ℕ) → drop n [] ≡ []
  drop-nil zero = refl
  drop-nil (suc n) = refl

  pub drop-drop : (m n : ℕ) (xs : List A) → drop n (drop m xs) ≡ drop (m + n) xs
  drop-drop zero n xs = let e : 0 + n ≡ n = omega arith in rw e refl
  drop-drop (suc m) n [] = drop-nil n ∙ sym (drop-nil (suc m + n))
  drop-drop (suc m) n (x ∷ xs) =
      let e : suc m + n ≡ suc (m + n) = omega arith in rw e (drop-drop m n xs)

-- Membership of a number, and lists without repetition.
abbrev pub has : ℕ → List ℕ → Bool
has a [] = false
has a (x ∷ xs) = (a == x) || has a xs

abbrev pub Distinct : List ℕ → Type 0
Distinct [] = Unit {0}
Distinct (x ∷ xs) = (has x xs ≡ false) × Distinct xs

pub has-head : (x : ℕ) (xs : List ℕ) → has x (x ∷ xs) ≡ true
has-head x xs = ground arith

-- How often a number occurs.
abbrev pub count : ℕ → List ℕ → ℕ
count x [] = 0
count x (y ∷ l) = (if x == y then 1 else 0) + count x l

pub count-le : (x : ℕ) (l : List ℕ) → count x l ≤ length l
count-le x [] = omega arith
count-le x (y ∷ l) = ground (arith, count-le x l)

pub count-append : (x : ℕ) (ps qs : List ℕ) → count x (ps ++ qs) ≡ count x ps + count x qs
count-append x [] qs = omega arith
count-append x (p ∷ ps) qs = omega (arith, count-append x ps qs)

pub count-middle :
    (x : ℕ) (ps : List ℕ) (p : ℕ) (qs : List ℕ)
    → count x (ps ++ p ∷ qs) ≡ (if x == p then 1 else 0) + count x (ps ++ qs)
count-middle x [] p qs = refl
count-middle x (y ∷ ps) p qs = omega (arith, count-middle x ps p qs)

-- A list of addresses without one of them.
abbrev pub erase : ℕ → List ℕ → List ℕ
erase x [] = []
erase x (y ∷ r) = if y == x then r else y ∷ erase x r

pub has-erase : (x y : ℕ) (xs : List ℕ) → y ≢ x → has y (erase x xs) ≡ has y xs
has-erase x y [] h = refl
has-erase x y (z ∷ r) h = ground (arith, has-erase x y r h)

pub not-has-erase : (x y : ℕ) (xs : List ℕ) → has y xs ≡ false → has y (erase x xs) ≡ false
not-has-erase x y [] h = refl
not-has-erase x y (z ∷ r) h = ground (arith, not-has-erase x y r)

pub not-has-erase_self : (x : ℕ) (xs : List ℕ) → Distinct xs → has x (erase x xs) ≡ false
not-has-erase_self x [] d = refl
not-has-erase_self x (z ∷ r) d = ground (arith, not-has-erase_self x r d.1)

pub erase-Distinct : (x : ℕ) (xs : List ℕ) → Distinct xs → Distinct (erase x xs)
erase-Distinct x [] d = tt
erase-Distinct x (z ∷ r) d = ground (arith, erase-Distinct x r d.1, not-has-erase x z r)
