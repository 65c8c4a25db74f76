-- ===== src/Request/RoundTrip.antt =====
-- ParsedRequest_unparse and then ParsedRequest_parse of what it wrote.
use multi_threaded_proxy_ser.Base.{
  ℕ, ◌≤◌, ◌<◌, ◌≡◌, refl, ap, ◌∙◌, sym, subst, Bool, true, some, List, [], ◌∷◌, ◌++◌, arith, Bytes,
  length, length-append, append_assoc, inl, inr, Option-cases,
}
use multi_threaded_proxy_ser.Headers.Text.{cr, colon, space, crlf, Lacks, find_crlf-append}
use multi_threaded_proxy_ser.Headers.Store.{
  ParsedHeader, Headers, headers_len, print_line, print_lines, print_headers,
}
use multi_threaded_proxy_ser.Headers.Laws.{IsHeaders}
use multi_threaded_proxy_ser.Headers.RoundTrip.{live, ArePrintable, parse_lines-print_headers}
use multi_threaded_proxy_ser.Request.Line.{
  RequestLine, scheme_end, print_port, create_request, print_request_line, unparse,
}
use multi_threaded_proxy_ser.Request.Parse.{
  success, until_nul, has_blank_line, with_line, with_headers, parse_line, parse_request,
  max_req_len,
}
use multi_threaded_proxy_ser.Request.Form.{IsLine}
use multi_threaded_proxy_ser.Request.LineBack.{line_body, line_text-line_body, parse_line-line_body}

until_nul-Lacks : (s : Bytes) → Lacks 0 s → until_nul s ≡ s
unfolding until_nul
until_nul-Lacks [] l = refl
until_nul-Lacks (c ∷ s) l = ground (arith, l.0, until_nul-Lacks s l.1)

has_blank_line-append : (s t : Bytes) → has_blank_line t ≡ true → has_blank_line (s ++ t) ≡ true
unfolding has_blank_line
has_blank_line-append [] t e = e
has_blank_line-append (c ∷ s) t e = ground (arith, has_blank_line-append s t e)

-- Behind a CRLF the printed headers end with CRLF.
print_lines-ends : (l : List ParsedHeader) → (s : Bytes) × (crlf ++ print_lines l ≡ s ++ crlf)
unfolding print_lines print_line
print_lines-ends [] = ([], refl)
print_lines-ends (ph ∷ l) = elim (Option-cases ph.key) [
  | inl e ↦ let (s, f) = print_lines-ends l in (s, ground (arith, e, f))
  | inr (k, e) ↦
      let (s, f) = print_lines-ends l in
      let front = crlf ++ (k ++ colon ∷ space ∷ ph.value) in
      let line : print_line ph ≡ k ++ colon ∷ space ∷ (ph.value ++ crlf) = ground (arith, e) in
      let moved : crlf ++ ((k ++ colon ∷ space ∷ (ph.value ++ crlf)) ++ print_lines l)
          ≡ front ++ (crlf ++ print_lines l) =
        simp append_assoc in
      (
        front ++ s,
        ap (λ x. crlf ++ (x ++ print_lines l)) line
            ∙ moved
            ∙ ap (front ++◌) f
            ∙ sym (append_assoc front s crlf),
      )
]

has_blank_line-print_lines :
    (s : Bytes) (l : List ParsedHeader)
    → has_blank_line (s ++ (crlf ++ (print_lines l ++ crlf))) ≡ true
unfolding has_blank_line
has_blank_line-print_lines s l =
    let (t, e) = print_lines-ends l in
    let shape : s ++ (crlf ++ (print_lines l ++ crlf)) ≡ (s ++ t) ++ (crlf ++ crlf) =
      ap (s ++◌)
        (sym (append_assoc crlf (print_lines l) crlf) ∙ ap (◌++ crlf) e ∙ append_assoc t crlf crlf)
      ∙ sym (append_assoc s t (crlf ++ crlf)) in
    subst (λ x. has_blank_line x ≡ true) (sym shape)
      (has_blank_line-append (s ++ t) (crlf ++ crlf) refl)

text_lem :
    (l : RequestLine) (h : Headers) (buflen : ℕ) (text : Bytes)
    → unparse (record { line = some l; headers = h }) buflen ≡ some text
    → text ≡ line_body l ++ (crlf ++ (print_lines h.slots ++ crlf))
unfolding unparse print_request_line print_headers
text_lem l h buflen text e =
    let line = ap (◌++ (print_lines h.slots ++ crlf)) (line_text-line_body l) in
    let moved = append_assoc (line_body l) crlf (print_lines h.slots ++ crlf) in
    ground (arith, e, line, moved)

-- The bounds of the parser hold for a printed line: it has more than the bytes of "GET ".
length-line_body :
    (bad_port : Bytes → Bool) (l : RequestLine) (t : Bytes)
    → IsLine bad_port l
    → 4 ≤ length (line_body l ++ t)
length-line_body bad_port l t is =
    let rest =
      l.protocol
      ++ (scheme_end ++ (l.host ++ (print_port l.port ++ (l.path ++ space ∷ l.version)))) in
    let three : length l.method ≡ 3 = ap (length {0}) is.method in
    omega
      (arith, three, length-append {0} l.method (space ∷ rest), length-append {0} (line_body l) t)

-- What parse_request does with a text that has the bounds, no NUL and a line before its blank line.
pub parse_request_lem :
    (bad_port : Bytes → Bool) (fuel : ℕ) (line : Bytes) (l : List ParsedHeader)
    → Lacks cr line
    → Lacks 0 (line ++ (crlf ++ (print_lines l ++ crlf)))
    → 4 ≤ length (line ++ (crlf ++ (print_lines l ++ crlf)))
    → length (line ++ (crlf ++ (print_lines l ++ crlf))) ≤ max_req_len
    → parse_request
        (λ n. true)
        bad_port
        fuel
        create_request
        (line ++ (crlf ++ (print_lines l ++ crlf)))
      ≡ with_line (λ n. true) fuel create_request (print_lines l ++ crlf) (parse_line bad_port line)
unfolding parse_request create_request
parse_request_lem bad_port fuel line l no_cr no_nul low high =
    let whole = until_nul-Lacks (line ++ (crlf ++ (print_lines l ++ crlf))) no_nul in
    let blank = has_blank_line-print_lines line l in
    let first = find_crlf-append line (print_lines l ++ crlf) no_cr in
    ground (arith, whole, blank, first, low, high)

-- What ParsedRequest_unparse writes is parsed by ParsedRequest_parse, into a new object, back into
-- the same request line and the headers that have a key, in order. The parts of the line are of the
-- form that the parser takes apart (IsLine), the keys differ and have neither a colon nor a CR, the
-- values have no CR, the line no CR, the text no NUL and at most MAX_REQ_LEN bytes. The allocator
-- grants the memory, and the fuel is more than the array has slots.
pub parse_request-unparse :
    (bad_port : Bytes → Bool) (l : RequestLine) (h : Headers) (buflen fuel : ℕ) (text : Bytes)
    → IsLine bad_port l
    → IsHeaders h
    → ArePrintable h.slots
    → Lacks cr (line_body l)
    → Lacks 0 text
    → length text ≤ max_req_len
    → length h.slots < fuel
    → unparse (record { line = some l; headers = h }) buflen ≡ some text
    → (h' : Headers) × (parse_request (λ n. true) bad_port fuel create_request text
        ≡ success (record { line = some l; headers = h' }))
      × (h'.slots ≡ live h.slots)
unfolding print_headers create_request
parse_request-unparse bad_port l h buflen fuel text is hs ps no_cr no_nul high enough e =
    let shape = text_lem l h buflen text e in
    let (h', back, slots) =
      parse_lines-print_headers h (headers_len true h) fuel (print_lines h.slots ++ crlf) hs ps
        enough (ground arith) in
    let taken =
      parse_request_lem bad_port fuel (line_body l) h.slots no_cr (subst (Lacks 0) shape no_nul)
        (length-line_body bad_port l (crlf ++ (print_lines h.slots ++ crlf)) is)
        (subst (λ t. length t ≤ max_req_len) shape high) in
    let line = parse_line-line_body bad_port l is in
    (
      h',
      ap (parse_request (λ n. true) bad_port fuel create_request) shape
          ∙ taken
          ∙ ap (with_line (λ n. true) fuel create_request (print_lines h.slots ++ crlf)) line
          ∙ ap (with_headers l) back,
      slots,
    )
