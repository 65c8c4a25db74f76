-- ===== src/Request/Readable.antt =====
-- A text that is read is not refused.
use multi_threaded_proxy_ser.Base.{ℕ, ◌==◌, [], ◌∷◌, Bytes, drop, Bool-cases, inl, inr}
use multi_threaded_proxy_ser.Request.Token.{
  Result, ok, rejected, fault, ◌>>=◌, c_str, cons_text, text_at,
}

-- The program reads it, or reads behind the buffer; it is not refused.
abbrev pub IsRead : {A : Type 0} → Result A → Type 0
IsRead (Result.ok text) = Unit {0}
IsRead Result.rejected = ⊥
IsRead Result.fault = Unit {0}

cons_text-IsRead : (c : ℕ) (o : Result Bytes) → IsRead o → IsRead (cons_text c o)
cons_text-IsRead c (Result.ok text) i = tt
cons_text-IsRead c Result.rejected i = absurd i
cons_text-IsRead c Result.fault i = tt

pub c_str-IsRead : (s : Bytes) → IsRead (c_str s)
unfolding c_str
c_str-IsRead [] = tt
c_str-IsRead (c ∷ s) = elim (Bool-cases (c == 0)) [
  | inl e ↦ rw e tt
  | inr e ↦ rw e (cons_text-IsRead c (c_str s) (c_str-IsRead s))
]

pub bind-IsRead :
    {A B : Type 0} (r : Result A) (f : A → Result B)
    → IsRead r
    → ((a : A) → IsRead (f a))
    → IsRead (r >>= f)
bind-IsRead (ok a) f i next = next a
bind-IsRead rejected f i next = absurd i
bind-IsRead fault f i next = tt

pub text_at-IsRead : (buf : Bytes) (p : ℕ) → IsRead (text_at buf p)
unfolding text_at
text_at-IsRead buf p = c_str-IsRead (drop p buf)
