-- ===== src/Headers/Parse.antt =====
-- ParsedHeader_parse, and the loop over the headers of ParsedRequest_parse.
use multi_threaded_proxy_ser.Base.{
  ℕ, zero, suc, ◌<◌, ◌≡◌, refl, Bool, true, Option, none, some, [], ◌∷◌, Bytes, if◌then◌else◌, ltb,
  length, drop, arith, Option-cases, Bool-cases, inl, inr, subst,
}
use multi_threaded_proxy_ser.Headers.Text.{
  colon, split_at, find_crlf, starts_crlf, IsSplit, find_crlf-IsSplit,
}
use multi_threaded_proxy_ser.Headers.Store.{Headers, set}

-- `parsed` is the result 0 and `no_colon` the result -1, each with the headers that are left.
-- `lost` is the result 0 of a header whose `realloc` failed, which leaves `headers` NULL, and
-- `fault` is a read outside the text or a `malloc` of the length of a NULL pointer.
pub data Parsed : Type 0 where
  parsed : Headers → Parsed
  no_colon : Headers → Parsed
  lost : Parsed
  fault : Parsed

abbrev pub stored : Option Headers → Parsed
stored none = lost
stored (some h) = parsed h

-- The value, `after` being the text behind the colon: it starts one byte further on.
abbrev pub parse_value : (ℕ → Bool) → Headers → Bytes → Bytes → Parsed
parse_value alloc h key [] = fault
parse_value alloc h key (c ∷ s) = elim (find_crlf s) [
  | none ↦ fault
  | some (value, _) ↦ stored (set (alloc h.headerslen) h key value)
]

-- `alloc n` says whether the `realloc` of a full array of `n` slots succeeds. `line` is the whole
-- text from the line's start.
unfoldable pub parse : (ℕ → Bool) → Headers → Bytes → Parsed
parse alloc h line = elim (split_at colon line) [
  | none ↦ no_colon h
  | some (key, after) ↦ parse_value alloc h key after
]

-- The condition of the loop, negated.
abbrev pub at_end : Bytes → Bool
at_end [] = true
at_end (c ∷ s) = starts_crlf (c ∷ s)

-- `strstr(currentHeader, "\r\n")`, and the text two bytes further on.
unfoldable pub next_line : Bytes → Option Bytes
next_line s = elim (find_crlf s) [
  | none ↦ none
  | some (_, t) ↦ if ltb (length t) 2 then none else some (drop 2 t)
]

-- The loop, `none` when the fuel is used up. With `lost` and `fault` the run is not followed
-- further.
unfoldable pub parse_lines : (ℕ → Bool) → ℕ → Headers → Bytes → Option Parsed
unfolding parse next_line
parse_lines alloc zero h s = none
parse_lines alloc (suc fuel) h s = if at_end s then some (parsed h) else elim (parse alloc h s) [
  | parsed h' ↦ elim (next_line s) [
    | none ↦ some (parsed h')
    | some t ↦ parse_lines alloc fuel h' t
  ]
  | r ↦ some r
]

pub next_line-IsShorter : (s t : Bytes) → next_line s ≡ some t → length t < length s
unfolding next_line
next_line-IsShorter s t e = elim (Option-cases (find_crlf s)) [
  | inl f ↦ ground (arith, f)
  | inr (p, f) ↦ ground (arith, f, subst (IsSplit (length s)) f (find_crlf-IsSplit s))
]

-- The loop over the headers ends, on any text, when it has more fuel than the text has bytes.
pub parse_lines-total :
    (alloc : ℕ → Bool) (fuel : ℕ) (h : Headers) (s : Bytes)
    → length s < fuel
    → (r : Parsed) × (parse_lines alloc fuel h s ≡ some r)
unfolding parse_lines
parse_lines-total alloc zero h s l = absurd (omega arith)
parse_lines-total alloc (suc fuel) h s l = elim (Bool-cases (at_end s)) [
  | inl e ↦ (parsed h, ground (arith, e))
  | inr e ↦ rw e (rest (parse_lines-total alloc fuel) (parse alloc h s))
]
  where
    rest :
        (ih : (h : Headers) (s : Bytes)
          → length s < fuel
          → (r : Parsed) × (parse_lines alloc fuel h s ≡ some r))
        (p : Parsed)
        → (r : Parsed) × ((elim p [
          | parsed h' ↦ elim (next_line s) [
            | none ↦ some (parsed h')
            | some t ↦ parse_lines alloc fuel h' t
          ]
          | r ↦ some r
        ])
            ≡ some r)
    rest ih (parsed h') = elim (Option-cases (next_line s)) [
      | inl f ↦ (parsed h', ground (arith, f))
      | inr (t, f) ↦
          let shorter = next_line-IsShorter s t f in
          let r = ih h' t (omega (arith, shorter)) in (r.0, ground (arith, f, r.1))
    ]
    rest ih (no_colon h') = (no_colon h', refl)
    rest ih lost = (lost, refl)
    rest ih fault = (fault, refl)
