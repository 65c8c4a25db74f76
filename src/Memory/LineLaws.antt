-- ===== src/Memory/LineLaws.antt =====
-- Parsing header lines: each block that is allocated on the way is freed once.
use multi_threaded_proxy_ser.Base.{
  ℕ, zero, suc, ◌<◌, ◌≡◌, refl, sym, subst, Bool, true, false, Option, none, some, List, [], ◌∷◌,
  ◌++◌, Bytes, length, arith, Bool-cases, inl, inr,
}
use multi_threaded_proxy_ser.Headers.Text.{colon, split_at, find_crlf}
use multi_threaded_proxy_ser.Headers.Parse.{at_end, next_line, next_line-IsShorter}
use multi_threaded_proxy_ser.Memory.Blocks.{
  Ptr, Blocks, Cmd, malloc, free, Owns, Owns-swap, Ends, and_then-Ends, malloc-Ends, free-Ends,
}
use multi_threaded_proxy_ser.Memory.Headers.{
  ParsedRequest, freed, set_copies, copy_value, after_line, set, store, with_value, behind_colon,
  with_key, parse, parse_lines,
}
use multi_threaded_proxy_ser.Memory.HeaderLaws.{IsUsable, blocks, Owned}
use multi_threaded_proxy_ser.Memory.SetLaws.{Made, two_first, set-Ends}

-- Only the object's blocks are in use beside `rest`.
abbrev pub Kept : List Ptr → ParsedRequest × Bool → Blocks → Type 0
Kept rest (pr, fine) m = Owned rest pr m

freed-Ends :
    {m : Blocks} (rest : List Ptr) (key value : Ptr) (after : ParsedRequest × Bool)
    → Made (key ∷ value ∷ rest) after m
    → Ends (Kept rest) (freed key value after m)
freed-Ends {m} rest key value (after, done) o =
    let first = Owns-swap (λ x. two_first x key value (blocks after) rest) o.0.0 in
    and_then-Ends (λ _ n. Owns n (value ∷ blocks after ++ rest)) (Kept rest) (free key m) _
      (free-Ends key first)
      (λ _ n p.
        and_then-Ends (λ _ n. Owns n (blocks after ++ rest)) (Kept rest) (free value n) _
          (free-Ends value p) (λ _ k q. (q, o.0.1)))

module _ (alloc : ℕ → Bool) (always : (n : ℕ) → alloc n ≡ true) (rest : List Ptr) where
  set_copies-Ends :
      (pr : ParsedRequest) (text : Bytes) (key value : Ptr) (m : Blocks)
      → IsUsable pr
      → Owns m (value ∷ key ∷ blocks pr ++ rest)
      → Ends (Kept rest) (set_copies alloc pr text key value m)
  set_copies-Ends pr text key value m usable o =
      let inner = key ∷ value ∷ rest in
      let owned : Owned inner pr m =
        (Owns-swap (λ x. omega (arith, two_first x key value (blocks pr) rest)) o, usable) in
      let done =
        subst (λ b. Ends (Made inner) (set b pr text m)) (sym (always pr.headerslen))
          (set-Ends inner pr text owned) in
      and_then-Ends (Made inner) (Kept rest) (set (alloc pr.headerslen) pr text m) (freed key value)
        done (λ after n p. freed-Ends rest key value after p)

  store-Ends :
      {m : Blocks} (pr : ParsedRequest) (text : Bytes)
      → Owned rest pr m
      → Ends (Kept rest) (store alloc pr text m)
  unfolding store
  store-Ends {m} pr text o =
      and_then-Ends (λ key n. (0 < key) × Owns n (key ∷ blocks pr ++ rest)) (Kept rest) (malloc m)
        (copy_value alloc pr text) (malloc-Ends o.0)
        (λ key n p.
          and_then-Ends (λ value k. (0 < value) × Owns k (value ∷ key ∷ blocks pr ++ rest))
            (Kept rest) (malloc n) (set_copies alloc pr text key) (malloc-Ends p.1)
            (λ value k q. set_copies-Ends pr text key value k o.1 q.1))

  with_value-Ends :
      {m : Blocks} (pr : ParsedRequest) (text : Bytes) (found : Option (Bytes × Bytes))
      → Owned rest pr m
      → Ends (Kept rest) (with_value alloc pr text found m)
  with_value-Ends pr text none o = tt
  with_value-Ends pr text (some found) o = store-Ends pr text o

  behind_colon-Ends :
      {m : Blocks} (pr : ParsedRequest) (text after : Bytes)
      → Owned rest pr m
      → Ends (Kept rest) (behind_colon alloc pr text after m)
  behind_colon-Ends pr text [] o = tt
  behind_colon-Ends pr text (c ∷ s) o = with_value-Ends pr text (find_crlf s) o

  with_key-Ends :
      {m : Blocks} (pr : ParsedRequest) (found : Option (Bytes × Bytes))
      → Owned rest pr m
      → Ends (Kept rest) (with_key alloc pr found m)
  with_key-Ends pr none o = o
  with_key-Ends pr (some (text, after)) o = behind_colon-Ends pr text after o

  parse-Ends :
      {m : Blocks} (pr : ParsedRequest) (line : Bytes)
      → Owned rest pr m
      → Ends (Kept rest) (parse alloc pr line m)
  unfolding parse
  parse-Ends pr line o = with_key-Ends pr (split_at colon line) o

  after_line-Ends :
      {m : Blocks} (again : ParsedRequest → Bytes → Cmd (ParsedRequest × Bool)) (s : Bytes)
      (next : Option Bytes) (after : ParsedRequest × Bool)
      → ((n : Blocks) (pr : ParsedRequest) (t : Bytes)
          → next ≡ some t
          → Owned rest pr n
          → Ends (Kept rest) (again pr t n))
      → Kept rest after m
      → Ends (Kept rest) (after_line again next after m)
  after_line-Ends {m} again s (some t) (after, true) ih o = ih m after t refl o
  after_line-Ends again s none (after, true) ih o = o
  after_line-Ends again s (some t) (after, false) ih o = o
  after_line-Ends again s none (after, false) ih o = o

  pub parse_lines-Ends :
      (fuel : ℕ) (m : Blocks) (pr : ParsedRequest) (s : Bytes)
      → length s < fuel
      → Owned rest pr m
      → Ends (Kept rest) (parse_lines alloc fuel pr s m)
  unfolding parse_lines
  parse_lines-Ends zero m pr s enough o = absurd (omega (arith, enough))
  parse_lines-Ends (suc fuel) m pr s enough o = elim (Bool-cases (at_end s)) [
    | inl e ↦ rw e o
    | inr e ↦ rw e (
        and_then-Ends (Kept rest) (Kept rest) (parse alloc pr s m) _ (parse-Ends pr s o)
          (λ after n p.
            after_line-Ends (parse_lines alloc fuel) s (next_line s) after
              (λ k pr' t at q.
                parse_lines-Ends fuel k pr' t (omega (arith, enough, next_line-IsShorter s t at)) q)
              p))
  ]
