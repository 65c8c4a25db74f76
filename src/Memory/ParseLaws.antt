-- ===== src/Memory/ParseLaws.antt =====
-- ParsedRequest_parse leaves all it has allocated to the object, on every way out, and
-- ParsedRequest_destroy frees it.
use multi_threaded_proxy_ser.Base.{
  ℕ, ◌<◌, ◌≡◌, refl, sym, subst, Bool, true, false, ◌||◌, Option, none, some, List, [], ◌∷◌, ◌++◌,
  Bytes, ◌==◌, ltb, length, drop, count-append, arith, Bool-cases, inl, inr,
}
use multi_threaded_proxy_ser.Headers.Text.{find_crlf, find_crlf-IsSplit, IsSplit}
use multi_threaded_proxy_ser.Request.Parse.{until_nul, has_blank_line, min_req_len, max_req_len}
use multi_threaded_proxy_ser.Worker.Served.{length-until_nul}
use multi_threaded_proxy_ser.Request.LineEnd.{
  LineEnd, refused, refused_path, refused_port, accepted, unreadable, line_end,
}
use multi_threaded_proxy_ser.Memory.Blocks.{
  Ptr, null, Blocks, malloc, free, Owns, Owns-same, Owns-swap, Ends, and_then-Ends, malloc-Ends,
  free-Ends,
}
use multi_threaded_proxy_ser.Memory.Headers.{ParsedRequest, parse_lines, set}
use multi_threaded_proxy_ser.Memory.HeaderLaws.{IsUsable, header_blocks, blocks, Owned}
use multi_threaded_proxy_ser.Memory.SetLaws.{Made, set-Ends}
use multi_threaded_proxy_ser.Memory.LineLaws.{Kept, parse_lines-Ends}
use multi_threaded_proxy_ser.Memory.DestroyLaws.{destroy-Ends}
use multi_threaded_proxy_ser.Memory.Request.{
  create, finish, parse_headers, with_buf, with_line, with_copy, parse_request, set_all, used,
  lifetime,
}
use multi_threaded_proxy_ser.Memory.RequestLaws.{
  New, create-Ends, give_up-Ends, give_up_path-Ends, give_up_port-Ends,
}

finish-Ends :
    {m : Blocks} (rest : List Ptr) (tmp_buf : Ptr) (after : ParsedRequest × Bool)
    → Kept (tmp_buf ∷ rest) after m
    → Ends (Kept rest) (finish tmp_buf after m)
finish-Ends {m} rest tmp_buf (pr, fine) o =
    let hb = header_blocks pr.slots in
    and_then-Ends (λ _ n. Owns n (blocks pr ++ rest)) (Kept rest) (free tmp_buf m) _
      (free-Ends tmp_buf (
        Owns-swap (λ x. omega (arith, count-append x hb (tmp_buf ∷ rest), count-append x hb rest))
          o.0))
      (λ _ n p. (p, record { array = o.1.array; room = o.1.room }))

length-rest :
    (fuel : ℕ) (text line rest : Bytes)
    → length text < fuel
    → find_crlf (until_nul text) ≡ some (line, rest)
    → length (drop 2 rest) < fuel
length-rest fuel text line rest enough e =
    let split = subst (IsSplit (length (until_nul text))) e (find_crlf-IsSplit (until_nul text)) in
    omega (arith, split.0, split.2, length-until_nul text, enough)

module _ (alloc : ℕ → Bool) (always : (n : ℕ) → alloc n ≡ true) (bad_port : Bytes → Bool) (fuel : ℕ)
    (rest : List Ptr) where
  module _ (pr : ParsedRequest) (u : IsUsable pr) (no_buf : pr.buf ≡ null)
      (no_path : pr.path ≡ null) where
    parse_headers-Ends :
        {m : Blocks} (tmp_buf buf path : Ptr) (s : Bytes)
        → length s < fuel
        → Owns m (path ∷ buf ∷ tmp_buf ∷ blocks pr ++ rest)
        → Ends (Kept rest) (parse_headers alloc bad_port fuel pr tmp_buf buf s path m)
    parse_headers-Ends {m} tmp_buf buf path s enough o =
        let full = record pr { buf = buf; path = path } in
        let owned : Owned (tmp_buf ∷ rest) full m = (
          Owns-same
              (λ x used. ground (
                arith,
                no_buf,
                no_path,
                count-append x (header_blocks pr.slots) rest,
                count-append x (header_blocks pr.slots) (tmp_buf ∷ rest),
                used,
              ))
              o,
          record { array = u.array; room = u.room },
        ) in
        and_then-Ends (Kept (tmp_buf ∷ rest)) (Kept rest) (parse_lines alloc fuel full s m)
          (finish tmp_buf)
          (parse_lines-Ends alloc always (tmp_buf ∷ rest) fuel m full s enough owned)
          (λ after n p. finish-Ends rest tmp_buf after p)

    with_buf-Ends :
        {m : Blocks} (tmp_buf : Ptr) (s : Bytes) (e : LineEnd) (buf : Ptr)
        → length s < fuel
        → Owns m (buf ∷ tmp_buf ∷ blocks pr ++ rest)
        → Ends (Kept rest) (with_buf alloc bad_port fuel pr tmp_buf s e buf m)
    with_buf-Ends tmp_buf s refused buf enough o =
        give_up-Ends rest pr u no_buf no_path tmp_buf buf o
    with_buf-Ends tmp_buf s refused_path buf enough o =
        give_up_path-Ends rest pr u no_buf no_path tmp_buf buf o
    with_buf-Ends {m} tmp_buf s refused_port buf enough o =
        and_then-Ends (λ path n. (0 < path) × Owns n (path ∷ buf ∷ tmp_buf ∷ blocks pr ++ rest))
          (Kept rest) (malloc m) _ (malloc-Ends o)
          (λ path n p. give_up_port-Ends rest pr u no_buf no_path tmp_buf buf path p.1)
    with_buf-Ends {m} tmp_buf s accepted buf enough o =
        and_then-Ends (λ path n. (0 < path) × Owns n (path ∷ buf ∷ tmp_buf ∷ blocks pr ++ rest))
          (Kept rest) (malloc m) _ (malloc-Ends o)
          (λ path n p. parse_headers-Ends tmp_buf buf path s enough p.1)
    with_buf-Ends tmp_buf s unreadable buf enough o = tt

    with_line-Ends :
        {m : Blocks} (text : Bytes) (found : Option (Bytes × Bytes)) (tmp_buf : Ptr)
        → length text < fuel
        → find_crlf (until_nul text) ≡ found
        → Owns m (tmp_buf ∷ blocks pr ++ rest)
        → Ends (Kept rest) (with_line alloc bad_port fuel pr found tmp_buf m)
    with_line-Ends text none tmp_buf enough e o = tt
    with_line-Ends {m} text (some (line, behind)) tmp_buf enough e o =
        and_then-Ends (λ buf n. (0 < buf) × Owns n (buf ∷ tmp_buf ∷ blocks pr ++ rest)) (Kept rest)
          (malloc m) _ (malloc-Ends o)
          (λ buf n p.
            with_buf-Ends tmp_buf (drop 2 behind) (line_end bad_port line) buf
              (length-rest fuel text line behind enough e) p.1)

    with_copy-Ends :
        {m : Blocks} (text : Bytes) (tmp_buf : Ptr)
        → length text < fuel
        → Owns m (tmp_buf ∷ blocks pr ++ rest)
        → Ends (Kept rest) (with_copy alloc bad_port fuel pr text tmp_buf m)
    with_copy-Ends {m} text tmp_buf enough o = elim (Bool-cases (has_blank_line (until_nul text))) [
      | inl e ↦ rw e (with_line-Ends text (find_crlf (until_nul text)) tmp_buf enough refl o)
      | inr e ↦ rw e (
          and_then-Ends (λ _ n. Owns n (blocks pr ++ rest)) (Kept rest) (free tmp_buf m) _
            (free-Ends tmp_buf o) (λ _ n p. (p, record { array = u.array; room = u.room })))
    ]

  parse_request-Ends :
      {m : Blocks} (pr : ParsedRequest) (text : Bytes)
      → length text < fuel
      → New rest pr m
      → Ends (Kept rest) (parse_request alloc bad_port fuel pr text m)
  unfolding parse_request
  parse_request-Ends {m} pr text enough o =
      let outside = ltb (length text) min_req_len || ltb max_req_len (length text) in
      let unparsed : (pr.buf == null) ≡ true = ground (arith, o.1) in
      elim (Bool-cases outside) [
        | inl e ↦ rw (unparsed, e) o.0
        | inr e ↦
            rw (unparsed, e)
              (and_then-Ends (λ tmp_buf n. (0 < tmp_buf) × Owns n (tmp_buf ∷ blocks pr ++ rest))
                (Kept rest) (malloc m) _ (malloc-Ends o.0.0)
                (λ tmp_buf n p. with_copy-Ends pr o.0.1 o.1 o.2 text tmp_buf enough p.1))
      ]

  set_all-Ends :
      {m : Blocks} (keys : List Bytes) (pr : ParsedRequest)
      → Owned rest pr m
      → Ends (Owned rest) (set_all alloc bad_port fuel keys pr m)
  unfolding set_all
  set_all-Ends [] pr o = o
  set_all-Ends {m} (key ∷ keys) pr o =
      and_then-Ends (Made rest) (Owned rest) (set (alloc pr.headerslen) pr key m) _
        (subst (λ b. Ends (Made rest) (set b pr key m)) (sym (always pr.headerslen))
          (set-Ends rest pr key o))
        (λ after n p. set_all-Ends keys after.0 p.0)

  used-Ends :
      {m : Blocks} (keys : List Bytes) (parsed : ParsedRequest × Bool)
      → Kept rest parsed m
      → Ends (Owned rest) (used alloc bad_port fuel keys parsed m)
  used-Ends keys (pr, true) o = set_all-Ends keys pr o
  used-Ends keys (pr, false) o = o

  -- A request is created, parsed, given further headers if it is accepted, and destroyed: whatever
  -- its text is, unless the parser reads behind the end of a text, this comes to an end, no block is
  -- used or freed that is not in use, and after that just the blocks that were in use before are.
  -- Each malloc and realloc gives memory, and the header loop has more rounds than the text has
  -- bytes.
  pub lifetime-Ends :
      {m : Blocks} (keys : List Bytes) (text : Bytes)
      → length text < fuel
      → Owns m rest
      → Ends (λ _ n. Owns n rest) (lifetime alloc bad_port fuel keys text m)
  unfolding lifetime
  lifetime-Ends {m} keys text enough o =
      let Q = λ (x : Unit {0}) (n : Blocks). Owns n rest in
      and_then-Ends (New rest) Q (create m) _ (create-Ends rest o) (λ pr n p.
        and_then-Ends (Kept rest) Q (parse_request alloc bad_port fuel pr text n) _
          (parse_request-Ends pr text enough p)
          (λ parsed k q.
            and_then-Ends (Owned rest) Q (used alloc bad_port fuel keys parsed k) _
              (used-Ends keys parsed q) (λ after j r. destroy-Ends rest after r)))
