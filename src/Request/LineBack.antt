-- ===== src/Request/LineBack.antt =====
-- A request line that was printed is read back.
use multi_threaded_proxy_ser.Base.{
  ℕ, suc, ◌+◌, ◌⊎◌, ◌≡◌, refl, ◌∙◌, sym, subst, Bool, Option, none, some, [], ◌∷◌, ◌++◌, arith,
  Bytes, bytes, length, length-append, append_assoc, inl, inr,
}
use multi_threaded_proxy_ser.Headers.Text.{colon, space, crlf, Lacks}
use multi_threaded_proxy_ser.Request.Token.{ok, text_at}
use multi_threaded_proxy_ser.Request.TokenLaws.{NoneOf, text_at-append}
use multi_threaded_proxy_ser.Request.Line.{RequestLine, scheme_end, print_port, line_text}
use multi_threaded_proxy_ser.Request.Parse.{slash, scheme_delim, read_path, read_host, parse_line}
use multi_threaded_proxy_ser.Request.Split.{
  IsWord, NoneOf-Lacks, method_end, addr_buf, host_at, read_path-none, read_path-some,
  split_line_lem,
}
use multi_threaded_proxy_ser.Request.Address.{
  before_host, port_buf, read_host-none, read_host-some, split_addr_from,
}
use multi_threaded_proxy_ser.Request.Form.{
  addr_delim, IsPort, IsTail, IsLine, NoneOf-sub, NoneOf-append, addr-scheme, addr-colon,
  addr-slash, addr-space, port-slash, port-space, tail-space,
}

text-cases : (s : Bytes) → (s ≡ []) ⊎ ((x : ℕ) × (s' : Bytes) × (s ≡ x ∷ s'))
text-cases [] = inl refl
text-cases (x ∷ s) = inr (x, s, refl)

-- The printed line, without its CRLF.
abbrev pub line_body : RequestLine → Bytes
line_body l =
    l.method
    ++ space
      ∷ (l.protocol
          ++ (scheme_end ++ (l.host ++ (print_port l.port ++ (l.path ++ space ∷ l.version)))))

pub line_text-line_body : (l : RequestLine) → line_text l ≡ line_body l ++ crlf
line_text-line_body l = simp append_assoc

module _ (bad_port : Bytes → Bool) (c : ℕ) (p : Bytes) (d : ℕ) (h q number : Bytes) where
  abbrev plain_line : Option Bytes → RequestLine
  plain_line port = record {
    method = bytes "GET";
    protocol = c ∷ p;
    host = d ∷ h;
    port = port;
    path = slash ∷ q;
    version = bytes "HTTP/" ++ number;
  }

  abbrev address : Bytes → Bytes
  address pp = c ∷ p ++ colon ∷ slash ∷ slash ∷ (d ∷ h ++ (pp ++ slash ∷ q))

  abbrev behind_addr : Bytes
  behind_addr = bytes "HTTP/" ++ (number ++ 0 ∷ [])

  read_path_lem :
      (pp : Bytes)
      → IsTail q
      → read_path
          (addr_buf c p d h pp q behind_addr 0 0)
          (host_at c p d h pp q behind_addr + suc (length h) + length pp + 1)
        ≡ ok (addr_buf c p d h pp q behind_addr 0 0, slash ∷ q)
  read_path_lem pp t = elim (text-cases q) [
    | inl e ↦ read_path-none c p d h pp q behind_addr e
    | inr (x, q', e) ↦
        let t' = subst IsTail e t in read_path-some c p d h pp q behind_addr x q' e t'.0 t'.1
  ]

  parse_line_from :
      (port : Option Bytes) (rest buf : Bytes)
      → NoneOf addr_delim (c ∷ p)
      → NoneOf addr_delim (d ∷ h)
      → NoneOf (slash ∷ space ∷ []) (print_port port)
      → IsTail q
      → Lacks 0 number
      → read_host bad_port
          (addr_buf c p d h (print_port port) q behind_addr 0 0)
          (host_at c p d h (print_port port) q behind_addr)
        ≡ ok (buf, host_at c p d h (print_port port) q behind_addr, port)
      → buf ≡ before_host bad_port c p d h q behind_addr ++ (d ∷ h ++ 0 ∷ rest)
      → text_at buf (4 + length (address (print_port port)) + 1) ≡ ok (bytes "HTTP/" ++ number)
      → parse_line bad_port (line_body (plain_line port)) ≡ ok (plain_line port)
  unfolding parse_line
  parse_line_from port rest buf n m k t lv authority shape last =
      let pp = print_port port in
      let buf0 = method_end ++ (address pp ++ 0 ∷ behind_addr) in
      let word : NoneOf (space ∷ []) (address pp) =
        NoneOf-append (space ∷ []) (c ∷ p) (colon ∷ slash ∷ slash ∷ (d ∷ h ++ (pp ++ slash ∷ q)))
          (NoneOf-sub addr_delim (space ∷ []) (c ∷ p) addr-space n)
          (
            refl,
            refl,
            (
              refl,
              refl,
              (
                refl,
                refl,
                NoneOf-append (space ∷ []) (d ∷ h) (pp ++ slash ∷ q)
                    (NoneOf-sub addr_delim (space ∷ []) (d ∷ h) addr-space m)
                    (NoneOf-append (space ∷ []) pp (slash ∷ q)
                      (NoneOf-sub (slash ∷ space ∷ []) (space ∷ []) pp port-space k)
                      (refl, refl, tail-space q t)),
              ),
            ),
          ) in
      let lines = split_line_lem (address pp) (number ++ 0 ∷ []) word in
      let text : line_body (plain_line port) ++ 0 ∷ []
          ≡ bytes "GET " ++ (address pp ++ space ∷ behind_addr) =
        simp append_assoc in
      let same_buf : buf0 ≡ addr_buf c p d h pp q behind_addr colon slash = simp append_assoc in
      let parts =
        split_addr_from bad_port c p d h pp q behind_addr buf rest (bytes "HTTP/" ++ number) port
          (4 + length (address pp) + 1) (NoneOf-sub addr_delim scheme_delim (c ∷ p) addr-scheme n)
          (NoneOf-append (slash ∷ []) (d ∷ h) pp
            (NoneOf-sub addr_delim (slash ∷ []) (d ∷ h) addr-slash m)
            (NoneOf-sub (slash ∷ space ∷ []) (slash ∷ []) pp port-slash k))
          (NoneOf-Lacks addr_delim (d ∷ h) m) (NoneOf-Lacks (space ∷ []) q (tail-space q t))
          (read_path_lem pp t) authority shape last in
      ground (arith, lines, text, same_buf, parts)

  -- The version lies behind the address, whatever the end of the host has become.
  version_text :
      (pp pp' : Bytes) (buf : Bytes)
      → length pp' ≡ length pp
      → buf ≡ addr_buf c p d h pp q behind_addr 0 0
      → Lacks 0 number
      → text_at buf (4 + length (address pp') + 1) ≡ ok (bytes "HTTP/" ++ number)
  version_text pp pp' buf e_length e lv =
      let pre = method_end ++ (c ∷ p ++ 0 ∷ slash ∷ slash ∷ (d ∷ h ++ (pp ++ 0 ∷ (q ++ 0 ∷ [])))) in
      let same_length : length (address pp' ++ 0 ∷ [])
          ≡ length (c ∷ p ++ 0 ∷ slash ∷ slash ∷ (d ∷ h ++ (pp ++ 0 ∷ (q ++ 0 ∷ [])))) =
        omega (
          arith,
          e_length,
          length-append {0} (address pp') (0 ∷ []),
          length-append {0} p (colon ∷ slash ∷ slash ∷ (d ∷ h ++ (pp' ++ slash ∷ q))),
          length-append {0} p (0 ∷ slash ∷ slash ∷ (d ∷ h ++ (pp ++ 0 ∷ (q ++ 0 ∷ [])))),
          length-append {0} h (pp' ++ slash ∷ q),
          length-append {0} h (pp ++ 0 ∷ (q ++ 0 ∷ [])),
          length-append {0} pp' (slash ∷ q),
          length-append {0} pp (0 ∷ (q ++ 0 ∷ [])),
          length-append {0} q (0 ∷ []),
        ) in
      let place : 4 + length (address pp') + 1 ≡ length pre =
        omega (arith, same_length, length-append {0} (address pp') (0 ∷ [])) in
      text_at-append buf (4 + length (address pp') + 1) pre (bytes "HTTP/" ++ number) []
        (e ∙ simp append_assoc) place (refl, (refl, (refl, (refl, (refl, lv)))))

  parse_line_plain :
      (port : Option Bytes)
      → NoneOf addr_delim (c ∷ p)
      → NoneOf addr_delim (d ∷ h)
      → IsPort bad_port port
      → IsTail q
      → Lacks 0 number
      → parse_line bad_port (line_body (plain_line port)) ≡ ok (plain_line port)
  parse_line_plain none n m k t lv =
      parse_line_from none (q ++ 0 ∷ behind_addr) (addr_buf c p d h [] q behind_addr 0 0) n m tt t
        lv
        (read_host-none bad_port c p d h q behind_addr
          (NoneOf-sub addr_delim (colon ∷ []) (d ∷ h) addr-colon m))
        (simp append_assoc)
        (version_text [] [] (addr_buf c p d h [] q behind_addr 0 0) refl refl lv)
  parse_line_plain (some []) n m k t lv = elim k.0 [ ]
  parse_line_plain (some (x ∷ r)) n m k t lv =
      parse_line_from (some (x ∷ r)) (x ∷ r ++ 0 ∷ (q ++ 0 ∷ behind_addr))
        (port_buf bad_port c p d h q behind_addr x r) n m (refl, refl, k.0) t lv
        (read_host-some bad_port c p d h q behind_addr x r
          (NoneOf-sub addr_delim (colon ∷ []) (d ∷ h) addr-colon m)
          (NoneOf-sub (slash ∷ space ∷ []) (slash ∷ []) (x ∷ r) port-slash k.0) k.1)
        (simp append_assoc)
        (version_text (0 ∷ x ∷ r) (colon ∷ x ∷ r) (port_buf bad_port c p d h q behind_addr x r) refl
          refl lv)

line-cases : (p : Bytes) → IsWord addr_delim p → (c : ℕ) × (p' : Bytes) × (p ≡ c ∷ p')
line-cases [] w = elim w [ ]
line-cases (c ∷ p) w = (c, p, refl)

-- A printed request line is parsed into the line that it was printed from.
pub parse_line-line_body :
    (bad_port : Bytes → Bool) (l : RequestLine)
    → IsLine bad_port l
    → parse_line bad_port (line_body l) ≡ ok l
parse_line-line_body bad_port l is =
    let (c, p, ep) = line-cases l.protocol is.protocol in
    let (d, h, eh) = line-cases l.host is.host in
    let plain : l ≡ plain_line bad_port c p d h is.tail is.number l.port = λ i. record {
      method = is.method i;
      protocol = ep i;
      host = eh i;
      port = l.port;
      path = is.path i;
      version = is.version i;
    } in
    subst (λ l'. parse_line bad_port (line_body l') ≡ ok l') (sym plain)
      (parse_line_plain bad_port c p d h is.tail is.number l.port
        (subst (IsWord addr_delim) ep is.protocol) (subst (IsWord addr_delim) eh is.host) is.port
        is.tail_fits is.ends)
