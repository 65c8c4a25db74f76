-- ===== src/Request/Token.antt =====
-- strtok_r and the string functions that ParsedRequest_parse uses with it, on one buffer that the
-- pointers are offsets into. The byte 0 ends a text; a read behind the buffer is a fault.
use multi_threaded_proxy_ser.Base.{
  ℕ, zero, suc, ◌+◌, Bool, true, false, ◌||◌, Option, none, some, [], ◌∷◌, Bytes, ◌==◌,
  if◌then◌else◌, drop,
}

-- `rejected` is the result -1 of the parser.
pub data Result (A : Type 0) : Type 0 where
  ok : A → Result A
  rejected : Result A
  fault : Result A

module _ {A B : Type 0} where
  infixl 5 ◌>>=◌
  abbrev pub ◌>>=◌ : Result A → (A → Result B) → Result B
  ok a >>= f = f a
  rejected >>= f = rejected
  fault >>= f = fault

  infixl 5 ◌>>◌
  abbrev pub ◌>>◌ : Result A → Result B → Result B
  r >> s = r >>= λ _. s

abbrev pub require : Bool → Result (Unit {0})
require true = ok tt
require false = rejected

-- A pointer that is NULL is refused.
abbrev pub present : Option ℕ → Result ℕ
present none = rejected
present (some p) = ok p

abbrev pub one_of : Bytes → ℕ → Bool
one_of [] c = false
one_of (d ∷ delim) c = c == d || one_of delim c

abbrev pub plus_one : Result ℕ → Result ℕ
plus_one (ok n) = ok (suc n)
plus_one rejected = rejected
plus_one fault = fault

unfoldable pub strspn : Bytes → Bytes → Result ℕ
strspn delim [] = fault
strspn delim (c ∷ s) = if one_of delim c then plus_one (strspn delim s) else ok 0

unfoldable pub strcspn : Bytes → Bytes → Result ℕ
strcspn delim [] = fault
strcspn delim (c ∷ s) = if c == 0 || one_of delim c then ok 0 else plus_one (strcspn delim s)

-- `s[p]`
unfoldable pub byte_at : Bytes → ℕ → Result ℕ
byte_at [] p = fault
byte_at (c ∷ s) zero = ok c
byte_at (c ∷ s) (suc p) = byte_at s p

-- `s[p] = '\0'`
unfoldable pub end_at : Bytes → ℕ → Bytes
end_at [] p = []
end_at (c ∷ s) zero = 0 ∷ s
end_at (c ∷ s) (suc p) = c ∷ end_at s p

abbrev pub cons_text : ℕ → Result Bytes → Result Bytes
cons_text c (ok s) = ok (c ∷ s)
cons_text c rejected = rejected
cons_text c fault = fault

-- The text that a pointer to the front of `s` stands for.
unfoldable pub c_str : Bytes → Result Bytes
c_str [] = fault
c_str (c ∷ s) = if c == 0 then ok [] else cons_text c (c_str s)

unfoldable pub text_at : Bytes → ℕ → Result Bytes
unfolding c_str
text_at buf p = c_str (drop p buf)

-- `strncmp(s, prefix, strlen(prefix)) == 0`
unfoldable pub starts_with : Bytes → Bytes → Result Bool
starts_with [] s = ok true
starts_with (c ∷ prefix) [] = fault
starts_with (c ∷ prefix) (d ∷ s) = if d == c then starts_with prefix s else ok false

-- What a call of strtok_r leaves: the buffer, its result, and `*saveptr`.
pub record Token : Type 0 where
  pub buf : Bytes
  pub token : Option ℕ
  pub saveptr : ℕ

-- A token from `p` on: its end is overwritten, unless it is the end of the text.
unfoldable pub token_from : Bytes → Bytes → ℕ → Result Token
unfolding strcspn byte_at end_at
token_from delim buf p = do
  n ← strcspn delim (drop p buf)
  c ← byte_at buf (p + n)
  if c == 0
      then ok (record { buf = buf; token = some p; saveptr = p + n })
      else ok (record { buf = end_at buf (p + n); token = some p; saveptr = p + n + 1 })

unfoldable pub strtok_r : Bytes → Bytes → ℕ → Result Token
unfolding strspn byte_at token_from
strtok_r delim buf s = do
  n ← strspn delim (drop s buf)
  c ← byte_at buf (s + n)
  if c == 0
      then ok (record { buf = buf; token = none; saveptr = s + n })
      else token_from delim buf (s + n)
