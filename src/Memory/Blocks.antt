-- ===== src/Memory/Blocks.antt =====
-- Blocks of memory, and commands that allocate and free them.
use multi_threaded_proxy_ser.Base.{
  ℕ, suc, ◌≤◌, ◌<◌, ◌≡◌, Bool, true, false, List, ◌∷◌, ◌==◌, if◌then◌else◌, count, arith,
  Bool-cases, inl, inr,
}

abbrev pub Ptr : Type 0
Ptr = ℕ

abbrev pub null : Ptr
null = 0

-- Which addresses are those of a block that is in use. `malloc` hands out each address once.
pub record Blocks : Type 0 where
  pub live : Ptr → Bool
  pub next : Ptr

-- `fault` is the use of an address that is none of a block in use, `wild` a read behind the end of
-- a text.
pub data Run (A : Type 0) : Type 0 where
  ok : A → Blocks → Run A
  fault : Run A
  wild : Run A
  out_of_fuel : Run A

abbrev pub Cmd : Type 0 → Type 0
Cmd A = Blocks → Run A

abbrev pub pure : {A : Type 0} → A → Cmd A
pure = ok

module _ {A B : Type 0} where
  abbrev pub and_then : Run A → (A → Cmd B) → Run B
  and_then (ok a m) k = k a m
  and_then fault k = fault
  and_then wild k = wild
  and_then out_of_fuel k = out_of_fuel

  infixl 5 ◌>>=◌ ◌>>◌
  abbrev pub ◌>>=◌ : Cmd A → (A → Cmd B) → Cmd B
  c >>= k = λ m. and_then (c m) k

  abbrev pub ◌>>◌ : Cmd A → Cmd B → Cmd B
  c >> d = c >>= λ _. d

abbrev pub set_live : Blocks → Ptr → Bool → Ptr → Bool
set_live m p b q = if q == p then b else m.live q

-- `malloc`, which is taken to give memory.
unfoldable pub malloc : Cmd Ptr
malloc m = ok m.next (record { live = set_live m m.next true; next = suc m.next })

-- `free`, which does nothing with NULL.
unfoldable pub free : Ptr → Cmd (Unit {0})
free p m =
    if p == null
    then ok tt m
    else if m.live p
    then ok tt (record m { live = set_live m p false })
    else fault

-- A read or a write through `p`.
unfoldable pub touch : Ptr → Cmd (Unit {0})
touch p m = if p == null then fault else if m.live p then ok tt m else fault

-- The blocks in use are those of the list, each once. NULL may stand in it.
pub record Owns (m : Blocks) (l : List Ptr) : Type 0 where
  pub alive : (p : Ptr) → 0 < p → (if m.live p then 1 else 0) ≡ count p l
  pub unused : (p : Ptr) → m.next ≤ p → m.live p ≡ false
  pub nonnull : 0 < m.next

-- A run comes back, and with `Q`, unless it reads behind the end of a text; none uses memory that is
-- not in use.
abbrev pub Ends : {A : Type 0} → (A → Blocks → Type 0) → Run A → Type 0
Ends Q (ok a m) = Q a m
Ends Q fault = ⊥
Ends Q wild = Unit {0}
Ends Q out_of_fuel = ⊥

pub and_then-Ends :
    {A B : Type 0} (Q : A → Blocks → Type 0) (R : B → Blocks → Type 0) (r : Run A) (k : A → Cmd B)
    → Ends Q r
    → ((a : A) (m : Blocks) → Q a m → Ends R (k a m))
    → Ends R (and_then r k)
and_then-Ends Q R (ok a m) k e next = next a m e
and_then-Ends Q R fault k e next = absurd e
and_then-Ends Q R wild k e next = tt
and_then-Ends Q R out_of_fuel k e next = absurd e

pub Ends-weaken :
    {A : Type 0} (Q R : A → Blocks → Type 0) (r : Run A)
    → Ends Q r
    → ((a : A) (m : Blocks) → Q a m → R a m)
    → Ends R r
Ends-weaken Q R (ok a m) e next = next a m e
Ends-weaken Q R fault e next = e
Ends-weaken Q R wild e next = tt
Ends-weaken Q R out_of_fuel e next = e

-- Only the addresses that are not NULL count.
pub Owns-same :
    {m : Blocks} {l r : List Ptr}
    → ((p : Ptr) → 0 < p → count p l ≡ count p r)
    → Owns m l
    → Owns m r
Owns-same same o = record {
  alive = λ p k. omega (arith, same p k, o.alive p k);
  unused = o.unused;
  nonnull = o.nonnull;
}

pub Owns-swap :
    {m : Blocks} {l r : List Ptr} → ((p : Ptr) → count p l ≡ count p r) → Owns m l → Owns m r
Owns-swap same o = Owns-same (λ p k. same p) o

module _ {m : Blocks} {l : List Ptr} where
  pub malloc-Ends : Owns m l → Ends (λ p n. (0 < p) × Owns n (p ∷ l)) (malloc m)
  unfolding malloc
  malloc-Ends o = (
    o.nonnull,
    record {
      alive = λ p k. ground (arith, o.alive p k, o.unused p);
      unused = λ p k. ground (arith, o.unused p, k);
      nonnull = omega arith;
    },
  )

  pub free-Ends : (p : Ptr) → Owns m (p ∷ l) → Ends (λ _ n. Owns n l) (free p m)
  unfolding free
  free-Ends p o = elim (Bool-cases (p == null)) [
    | inl e ↦ rw e (record {
      alive = λ q k. ground (arith, o.alive q k, e);
      unused = o.unused;
      nonnull = o.nonnull;
    })
    | inr e ↦
        let alive : m.live p ≡ true = ground (arith, o.alive p, e) in
        rw (e, alive)
          (record {
            alive = λ q k. ground (arith, o.alive q k);
            unused = λ q k. ground (arith, o.unused q k);
            nonnull = o.nonnull;
          })
  ]

  pub touch-Ends :
      (p : Ptr)
      → (p == null) ≡ false
      → 0 < count p l
      → Owns m l
      → Ends (λ _ n. Owns n l) (touch p m)
  unfolding touch
  touch-Ends p e k o =
      let alive : m.live p ≡ true = ground (arith, o.alive p, e, k) in rw (e, alive) o
