-- ===== src/Request/Split.antt =====
-- The two halves of the parsing of a request line, on a line whose parts are known.
use multi_threaded_proxy_ser.Base.{
  ℕ, suc, ◌+◌, ◌≡◌, refl, false, some, [], ◌∷◌, ◌++◌, arith, Bytes, bytes, ◌==◌, length,
  length-append, append_assoc,
}
unfoldable use multi_threaded_proxy_ser.Base.{same}
use multi_threaded_proxy_ser.Headers.Text.{colon, space, Lacks}
use multi_threaded_proxy_ser.Request.Token.{ok, strtok_r, starts_with}
use multi_threaded_proxy_ser.Request.TokenLaws.{
  NoneOf, text_at-append, starts_with-append, strtok_r-next, strtok_r-last, strtok_r-none,
}
use multi_threaded_proxy_ser.Request.Parse.{slash, scheme_delim, read_path, split_line}

-- A text that is one token between the delimiters.
abbrev pub IsWord : Bytes → Bytes → Type 0
IsWord delim [] = ⊥
IsWord delim (c ∷ s) = NoneOf delim (c ∷ s)

pub NoneOf-Lacks : (delim s : Bytes) → NoneOf delim s → Lacks 0 s
NoneOf-Lacks delim [] n = tt
NoneOf-Lacks delim (c ∷ s) n = (n.0, NoneOf-Lacks delim s n.2)

-- The start of the buffer once the method is a text of its own.
abbrev pub method_end : Bytes
method_end = 71 ∷ 69 ∷ 84 ∷ 0 ∷ []

pub split_line_lem :
    (addr version : Bytes)
    → IsWord (space ∷ []) addr
    → let rest = bytes "HTTP/" ++ version in
      split_line (bytes "GET " ++ (addr ++ space ∷ rest))
      ≡ ok (method_end ++ (addr ++ 0 ∷ rest), 0, 4, 4 + length addr + 1)
unfolding split_line same
split_line_lem [] version w = elim w [ ]
split_line_lem (c ∷ addr) version w =
    let rest = bytes "HTTP/" ++ version in
    let buf = method_end ++ (c ∷ addr ++ 0 ∷ rest) in
    let cut =
      strtok_r-next (space ∷ []) (method_end ++ (c ∷ addr ++ space ∷ rest)) 4 method_end [] c addr
        space rest buf 4 (4 + suc (length addr) + 1) refl refl tt w refl refl refl refl refl in
    let text =
      text_at-append buf 4 method_end (c ∷ addr) rest refl refl
        (NoneOf-Lacks (space ∷ []) (c ∷ addr) w) in
    let place : 4 + suc (length addr) + 1 ≡ length (method_end ++ (c ∷ addr ++ 0 ∷ [])) =
      omega (arith, length-append {0} (c ∷ addr) (0 ∷ [])) in
    let version_ok =
      starts_with-append (bytes "HTTP/") buf (4 + suc (length addr) + 1)
        (method_end ++ (c ∷ addr ++ 0 ∷ [])) version (simp append_assoc) place in
    ground (arith, cut, text, version_ok)

module _ (c : ℕ) (p : Bytes) (d : ℕ) (h pp q w : Bytes) where
  -- The buffer as it is before and after each token of the address.
  abbrev pub addr_buf : ℕ → ℕ → Bytes
  addr_buf x y = method_end ++ (c ∷ p ++ x ∷ slash ∷ slash ∷ (d ∷ h ++ (pp ++ y ∷ (q ++ 0 ∷ w))))

  abbrev pub host_at : ℕ
  host_at = 4 + suc (length p) + 3

  pub protocol_token :
      NoneOf scheme_delim (c ∷ p)
      → strtok_r scheme_delim (addr_buf colon slash) 4
        ≡ ok (record { buf = addr_buf 0 slash; token = some 4; saveptr = 4 + suc (length p) + 1 })
  protocol_token n =
      strtok_r-next scheme_delim (addr_buf colon slash) 4 method_end [] c p colon
        (slash ∷ slash ∷ (d ∷ h ++ (pp ++ slash ∷ (q ++ 0 ∷ w)))) (addr_buf 0 slash) 4
        (4 + suc (length p) + 1) refl refl tt n refl refl refl refl refl

  pub authority_token :
      NoneOf (slash ∷ []) (d ∷ h ++ pp)
      → strtok_r (slash ∷ []) (addr_buf 0 slash) (4 + suc (length p) + 1)
        ≡ ok (record {
          buf = addr_buf 0 0;
          token = some host_at;
          saveptr = host_at + suc (length h) + length pp + 1;
        })
  authority_token n =
      let len = length-append {0} (c ∷ p) (0 ∷ []) in
      let both = length-append {0} h pp in
      strtok_r-next (slash ∷ []) (addr_buf 0 slash) (4 + suc (length p) + 1)
        (method_end ++ (c ∷ p ++ 0 ∷ [])) (slash ∷ slash ∷ []) d (h ++ pp) slash (q ++ 0 ∷ w)
        (addr_buf 0 0) host_at (host_at + suc (length h) + length pp + 1) (simp append_assoc)
        (omega (arith, len)) (refl, (refl, tt)) n refl refl (simp append_assoc) (omega (arith, len))
        (omega (arith, len, both))

  pub read_path-none :
      q ≡ []
      → read_path (addr_buf 0 0) (host_at + suc (length h) + length pp + 1)
        ≡ ok (addr_buf 0 0, slash ∷ q)
  unfolding read_path
  read_path-none e =
      let len = length-append {0} (c ∷ p) (0 ∷ slash ∷ slash ∷ (d ∷ h ++ (pp ++ 0 ∷ []))) in
      let len' = length-append {0} (d ∷ h) (pp ++ 0 ∷ []) in
      let len'' = length-append {0} pp (0 ∷ []) in
      let none_left =
        strtok_r-none (space ∷ []) (addr_buf 0 0) (host_at + suc (length h) + length pp + 1)
          (method_end ++ (c ∷ p ++ 0 ∷ slash ∷ slash ∷ (d ∷ h ++ (pp ++ 0 ∷ [])))) w
          (rw e (simp append_assoc)) (omega (arith, len, len', len'')) refl in
      ground (arith, none_left, e)

  pub read_path-some :
      (x : ℕ) (q' : Bytes)
      → q ≡ x ∷ q'
      → (x == slash) ≡ false
      → NoneOf (space ∷ []) (x ∷ q')
      → read_path (addr_buf 0 0) (host_at + suc (length h) + length pp + 1)
        ≡ ok (addr_buf 0 0, slash ∷ q)
  unfolding read_path starts_with
  read_path-some x q' e other n =
      let pre = method_end ++ (c ∷ p ++ 0 ∷ slash ∷ slash ∷ (d ∷ h ++ (pp ++ 0 ∷ []))) in
      let here = host_at + suc (length h) + length pp + 1 in
      let len = length-append {0} (c ∷ p) (0 ∷ slash ∷ slash ∷ (d ∷ h ++ (pp ++ 0 ∷ []))) in
      let len' = length-append {0} (d ∷ h) (pp ++ 0 ∷ []) in
      let len'' = length-append {0} pp (0 ∷ []) in
      let place : here ≡ length pre = omega (arith, len, len', len'') in
      let parts : addr_buf 0 0 ≡ pre ++ (x ∷ q' ++ 0 ∷ w) = rw e (simp append_assoc) in
      let last =
        strtok_r-last (space ∷ []) (addr_buf 0 0) here pre [] x q' w here (here + suc (length q'))
          parts place tt n (omega (arith, place)) (omega (arith, place)) in
      let text =
        text_at-append (addr_buf 0 0) here pre (x ∷ q') w parts place
          (NoneOf-Lacks (space ∷ []) (x ∷ q') n) in
      ground (arith, last, text, e, other)
