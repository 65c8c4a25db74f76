-- ===== src/Cache/Order.antt =====
-- Successors and predecessors in a list of addresses, closed at both ends by NULL. With 0 for the
-- element, they are the first and the last address.
use multi_threaded_proxy_ser.Base.{
  erase, ℕ, ◌≡◌, refl, ◌≢◌, false, true, List, [], ◌∷◌, ◌++◌, arith, ◌==◌, if◌then◌else◌, has,
  Distinct,
}

abbrev pub succ_in : ℕ → List ℕ → ℕ → ℕ
succ_in a [] y = 0
succ_in a (b ∷ r) y = if a == y then b else succ_in b r y

abbrev pub pred_in : ℕ → List ℕ → ℕ → ℕ
pred_in a [] y = a
pred_in a (b ∷ r) y = if b == y then a else pred_in b r y

pub has-append : (y : ℕ) (xs : List ℕ) (x : ℕ) → y ≢ x → has y (xs ++ x ∷ []) ≡ has y xs
has-append y [] x h = ground arith
has-append y (z ∷ r) x h = ground (arith, has-append y r x h)

pub has-append_self : (xs : List ℕ) (x : ℕ) → has x (xs ++ x ∷ []) ≡ true
has-append_self [] x = ground arith
has-append_self (z ∷ r) x = ground (arith, has-append_self r x)

pub append-Distinct :
    (xs : List ℕ) (x : ℕ) → Distinct xs → has x xs ≡ false → Distinct (xs ++ x ∷ [])
append-Distinct [] x d h = ground arith
append-Distinct (z ∷ r) x d h = ground (arith, append-Distinct r x d.1, has-append z r x)

-- The predecessor is the left end or an element.
has-pred_in : (a : ℕ) (xs : List ℕ) (y c : ℕ) → has c (a ∷ xs) ≡ false → pred_in a xs y ≢ c
has-pred_in a [] y c h = ground arith
has-pred_in a (b ∷ r) y c h = ground (arith, has-pred_in b r y c)

-- The successor of an absent address is NULL.
succ_in_absent : (a : ℕ) (xs : List ℕ) (y : ℕ) → has y (a ∷ xs) ≡ false → succ_in a xs y ≡ 0
succ_in_absent a [] y h = refl
succ_in_absent a (b ∷ r) y h = ground (arith, succ_in_absent b r y)

-- Only the first element has the left end for its predecessor.
succ_in_end : (a b : ℕ) (xs : List ℕ) (q : ℕ) → a ≢ q → b ≢ q → succ_in a xs q ≡ succ_in b xs q
succ_in_end a b [] q h k = refl
succ_in_end a b (c ∷ r) q h k = ground arith

succ_in_first : (a b : ℕ) (xs : List ℕ) → succ_in a xs a ≡ succ_in b xs b
succ_in_first a b [] = refl
succ_in_first a b (c ∷ r) = ground arith

-- Taking out `x` joins its two neighbours.
pub succ_in-erase :
    (a : ℕ) (xs : List ℕ) (x q : ℕ)
    → Distinct (a ∷ xs)
    → has x xs ≡ true
    → q ≢ x
    → succ_in a (erase x xs) q ≡ (if pred_in a xs x == q then succ_in a xs x else succ_in a xs q)
succ_in-erase a [] x q d m h = cc
succ_in-erase a (b ∷ r) x q d m h = ground (
  arith,
  succ_in-erase b r x q d.1,
  succ_in_end a b r q,
  succ_in_first a b r,
  has-pred_in b r x a d.0,
)

-- The successor is NULL or an element.
has-succ_in : (a : ℕ) (xs : List ℕ) (y c : ℕ) → has c (0 ∷ xs) ≡ false → succ_in a xs y ≢ c
has-succ_in a [] y c h = ground arith
has-succ_in a (b ∷ r) y c h = ground (arith, has-succ_in b r y c)

pred_in_first :
    (a x : ℕ) (r : List ℕ) (q : ℕ)
    → has q (0 ∷ r) ≡ true
    → pred_in a r q ≡ (if succ_in x r x == q then a else pred_in x r q)
pred_in_first a x [] q h = ground arith
pred_in_first a x (c ∷ r) q h = ground arith

pub pred_in-erase :
    (a : ℕ) (xs : List ℕ) (x q : ℕ)
    → Distinct (a ∷ xs)
    → has x xs ≡ true
    → q ≢ x
    → has 0 xs ≡ false
    → has q (0 ∷ xs) ≡ true
    → pred_in a (erase x xs) q ≡ (if succ_in a xs x == q then pred_in a xs x else pred_in a xs q)
pred_in-erase a [] x q d m h k w = cc
pred_in-erase a (b ∷ r) x q d m h k w =
    ground (arith, pred_in-erase b r x q d.1, pred_in_first a x r q, has-succ_in b r x b)

-- A new last address.
pub succ_in-append :
    (a : ℕ) (xs : List ℕ) (x q : ℕ)
    → Distinct (a ∷ xs)
    → has 0 xs ≡ false
    → has x (a ∷ xs) ≡ false
    → succ_in a (xs ++ x ∷ []) q ≡ (if pred_in a xs 0 == q then x else succ_in a xs q)
succ_in-append a [] x q d k h = ground arith
succ_in-append a (b ∷ r) x q d k h =
    ground (arith, succ_in-append b r x q d.1, has-pred_in b r 0 a d.0)

pub succ_in-append_self :
    (a : ℕ) (xs : List ℕ) (x : ℕ) → has x (a ∷ xs) ≡ false → succ_in a (xs ++ x ∷ []) x ≡ 0
succ_in-append_self a [] x h = ground arith
succ_in-append_self a (b ∷ r) x h = ground (arith, succ_in-append_self b r x)

pub pred_in-append :
    (a : ℕ) (xs : List ℕ) (x q : ℕ)
    → q ≢ x
    → has q xs ≡ true
    → pred_in a (xs ++ x ∷ []) q ≡ pred_in a xs q
pred_in-append a [] x q h m = cc
pred_in-append a (b ∷ r) x q h m = ground (arith, pred_in-append b r x q h)

pub pred_in-append_self :
    (a : ℕ) (xs : List ℕ) (x : ℕ)
    → has x xs ≡ false
    → has 0 xs ≡ false
    → x ≢ 0
    → (pred_in a (xs ++ x ∷ []) x ≡ pred_in a xs 0) × (pred_in a (xs ++ x ∷ []) 0 ≡ x)
pred_in-append_self a [] x h k n = ground arith
pred_in-append_self a (b ∷ r) x h k n = ground (arith, pred_in-append_self b r x)

-- The neighbours of an element are NULL or elements.
pub pred_in-has :
    (a : ℕ) (xs : List ℕ) (y : ℕ) → pred_in a xs y ≢ a → has (pred_in a xs y) xs ≡ true
pred_in-has a [] y h = absurd (h refl)
pred_in-has a (b ∷ r) y h = ground (arith, pred_in-has b r y)

pub succ_in-has :
    (a : ℕ) (xs : List ℕ) (y : ℕ) → succ_in a xs y ≢ 0 → has (succ_in a xs y) xs ≡ true
succ_in-has a [] y h = absurd (h refl)
succ_in-has a (b ∷ r) y h = ground (arith, succ_in-has b r y)

-- An element is not its own neighbour.
pub pred_in-ne :
    (a : ℕ) (xs : List ℕ) (y : ℕ) → Distinct (a ∷ xs) → has y xs ≡ true → pred_in a xs y ≢ y
pred_in-ne a [] y d h = cc
pred_in-ne a (b ∷ r) y d h = ground (arith, pred_in-ne b r y d.1)

pub succ_in-ne :
    (a : ℕ) (xs : List ℕ) (y : ℕ)
    → Distinct (a ∷ xs)
    → has 0 xs ≡ false
    → has y (a ∷ xs) ≡ true
    → y ≢ 0
    → succ_in a xs y ≢ y
succ_in-ne a [] y d k h n = ground arith
succ_in-ne a (b ∷ r) y d k h n = ground (arith, succ_in-ne b r y d.1)

-- An empty list is seen at either end.
pub head-append :
    (xs : List ℕ) (x : ℕ)
    → has 0 xs ≡ false
    → succ_in 0 (xs ++ x ∷ []) 0 ≡ (if succ_in 0 xs 0 == 0 then x else succ_in 0 xs 0)
head-append [] x k = refl
head-append (b ∷ r) x k = ground arith
