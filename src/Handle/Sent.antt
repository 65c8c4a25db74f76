-- ===== src/Handle/Sent.antt =====
-- What the server gets of a request.
use multi_threaded_proxy_ser.Base.{
  ◌+◌, ◌-◌, ◌≤◌, ◌<◌, ◌≡◌, ap, ◌∙◌, sym, subst, true, none, some, [], ◌∷◌, ◌++◌, Bytes, bytes,
  length, length-append, take, take-length, drop, drop-drop, append_assoc, append-nil, arith, inl,
  inr, Option-cases,
}
unfoldable use multi_threaded_proxy_ser.Base.{same}
use multi_threaded_proxy_ser.Headers.Text.{crlf, Lacks}
use multi_threaded_proxy_ser.Headers.Store.{
  Headers, get, new_header, print_lines, print_headers, unparse_headers, headers_len,
}
use multi_threaded_proxy_ser.Headers.Laws.{IsHeaders}
use multi_threaded_proxy_ser.Headers.Setting.{get-set, set-IsHeaders, set-succeeds}
use multi_threaded_proxy_ser.Headers.RoundTrip.{length-print_lines}
use multi_threaded_proxy_ser.Request.Token.{Result, ok, c_str}
use multi_threaded_proxy_ser.Request.TokenLaws.{drop-append}
use multi_threaded_proxy_ser.Request.Line.{RequestLine}
use multi_threaded_proxy_ser.Worker.Receive.{
  max_bytes, zeros, write_at, drop-zeros, zeros-cons, c_str-append, Lacks-append,
}
use multi_threaded_proxy_ser.Handle.Upstream.{
  first_line, with_host, with_headers, request_buffer, upstream_memory, upstream_text,
  earlier_memory, earlier_text,
}

-- The line and the headers behind it.
abbrev pub request_text : Bytes → Headers → Bytes
request_text line h = line ++ (print_lines h.slots ++ crlf)

-- The headers go over the end of the line, and end before what the memory held behind them.
request_buffer-fits :
    (raw line : Bytes) (h : Headers)
    → length (request_text line h) ≤ max_bytes
    → request_buffer raw line h
      ≡ ok (request_text line h ++ drop (length (request_text line h)) raw)
unfolding request_buffer unparse_headers print_headers headers_len
request_buffer-fits raw line h fits =
    let t = print_lines h.slots ++ crlf in
    let both = length-append line t in
    let ends = length-append (print_lines h.slots) crlf in
    let written = length-print_lines h.slots in
    let memory = write_at raw 0 (line ++ 0 ∷ []) in
    let front : take (length line) memory ≡ line =
      ap (take (length line)) (append_assoc line (0 ∷ []) _) ∙ take-length line _ in
    let len : length line + length t ≡ length (line ++ 0 ∷ []) + (length t - 1) =
      omega (arith, length-append line (0 ∷ []), ends) in
    let len' : 0 + length (line ++ 0 ∷ []) + (length t - 1) ≡ length (line ++ t) =
      omega (arith, len, both) in
    let behind : drop (length line + length t) memory ≡ drop (length (line ++ t)) raw =
      ap (λ n. drop n memory) len
      ∙ drop-append (line ++ 0 ∷ []) _ (length t - 1)
      ∙ drop-drop (0 + length (line ++ 0 ∷ [])) (length t - 1) raw
      ∙ ap (λ n. drop n raw) len' in
    let result : write_at memory (length line) t ≡ (line ++ t) ++ drop (length (line ++ t)) raw =
      ap (λ x. x ++ (t ++ drop (length line + length t) memory)) front
      ∙ ap (λ x. line ++ (t ++ x)) behind
      ∙ sym (append_assoc line t _) in
    ground (arith, fits, both, ends, written, result)

-- What becomes of the two headers that handle_request sets.
pub record IsPrepared (connection host : Bytes) (h h' : Headers) : Type 0 where
  pub ready : IsHeaders h'
  pub connection_is :
      get h' (bytes "Connection") ≡ some (new_header (bytes "Connection") connection)
  pub host_is : get h' (bytes "Host") ≡ elim (get h (bytes "Host")) [
    | none ↦ some (new_header (bytes "Host") host)
    | some ph ↦ some ph
  ]

with_headers-IsPrepared :
    (connection host : Bytes) (h : Headers)
    → IsHeaders h
    → (h' : Headers) × (with_headers true connection host h ≡ ok h')
      × IsPrepared connection host h h'
unfolding with_headers with_host same
with_headers-IsPrepared connection host h c =
    let (h1, run) = set-succeeds h (bytes "Connection") connection in
    let c1 = set-IsHeaders true h h1 (bytes "Connection") connection c run in
    let own = get-set true h h1 (bytes "Connection") connection (bytes "Connection") c run in
    let other = get-set true h h1 (bytes "Connection") connection (bytes "Host") c run in
    elim (Option-cases (get h (bytes "Host"))) [
      | inr (ph, e) ↦ (
        h1,
        ground (arith, run, other, e),
        record { ready = c1; connection_is = own; host_is = rw e (other ∙ e) },
      )
      | inl e ↦
          let (h2, run2) = set-succeeds h1 (bytes "Host") host in
          let c2 = set-IsHeaders true h1 h2 (bytes "Host") host c1 run2 in
          let own2 = get-set true h1 h2 (bytes "Host") host (bytes "Host") c1 run2 in
          let other2 = get-set true h1 h2 (bytes "Host") host (bytes "Connection") c1 run2 in
          (
            h2,
            ground (arith, run, other, e, run2),
            record { ready = c2; connection_is = other2 ∙ own; host_is = rw e own2 },
          )
    ]

ok-headers : {h h' : Headers} → Result.ok h ≡ ok h' → h ≡ h'
ok-headers e = cc

IsPrepared-of :
    (connection host : Bytes) (h h' : Headers)
    → IsHeaders h
    → with_headers true connection host h ≡ ok h'
    → IsPrepared connection host h h'
IsPrepared-of connection host h h' c e =
    let (h'', run, prepared) = with_headers-IsPrepared connection host h c in
    subst (IsPrepared connection host h) (ok-headers (sym run ∙ e)) prepared

-- The bytes at `buf` from its start to the first NUL.
c_str-request_buffer :
    (raw line : Bytes) (h : Headers) (old rest : Bytes)
    → Lacks 0 (request_text line h)
    → length (request_text line h) ≤ max_bytes
    → Lacks 0 old
    → drop (length (request_text line h)) raw ≡ old ++ 0 ∷ rest
    → (memory : Bytes) × (request_buffer raw line h ≡ ok memory)
      × (c_str memory ≡ ok (request_text line h ++ old))
c_str-request_buffer raw line h old rest clean fits clean_old shape =
    let text = request_text line h in
    let all = ap (text ++◌) shape ∙ sym (append_assoc text old (0 ∷ rest)) in
    (
      text ++ drop (length text) raw,
      request_buffer-fits raw line h fits,
      ap c_str all ∙ c_str-append (text ++ old) rest (Lacks-append text old clean clean_old),
    )

-- What handle_request sends to the server, when the allocator grants the memory, the keys of the
-- headers differ, and the request fits into MAX_BYTES bytes and has no NUL: the line, the headers with "Connection" set to
-- "keep-alive" and "Host" to the host where there was none, and behind the empty line whatever the
-- memory held that `malloc` gave, up to its first NUL.
pub upstream_text-old :
    (raw : Bytes) (l : RequestLine) (h h' : Headers) (old rest : Bytes)
    → IsHeaders h
    → with_headers true (bytes "keep-alive") l.host h ≡ ok h'
    → Lacks 0 (request_text (first_line l) h')
    → length (request_text (first_line l) h') ≤ max_bytes
    → Lacks 0 old
    → drop (length (request_text (first_line l) h')) raw ≡ old ++ 0 ∷ rest
    → (upstream_text true raw l h ≡ ok (request_text (first_line l) h' ++ old))
      × IsPrepared (bytes "keep-alive") l.host h h'
unfolding upstream_memory
upstream_text-old raw l h h' old rest c e clean fits clean_old shape =
    let (memory, written, read) =
      c_str-request_buffer raw (first_line l) h' old rest clean fits clean_old shape in
    (ground (arith, e, written, read), IsPrepared-of (bytes "keep-alive") l.host h h' c e)

-- What the handle_request of the earlier server sends, when the allocator grants the memory and
-- the request has fewer than MAX_BYTES bytes and no NUL: the line and the headers, with
-- "Connection" set to "close" and "Host" to the host where there was none, and nothing else.
pub earlier_text-IsPrepared :
    (l : RequestLine) (h h' : Headers)
    → IsHeaders h
    → with_headers true (bytes "close") l.host h ≡ ok h'
    → Lacks 0 (request_text (first_line l) h')
    → length (request_text (first_line l) h') < max_bytes
    → (earlier_text true l h ≡ ok (request_text (first_line l) h'))
      × IsPrepared (bytes "close") l.host h h'
unfolding earlier_memory
earlier_text-IsPrepared l h h' c e clean fits =
    let text = request_text (first_line l) h' in
    let n = max_bytes - length text in
    let shape : drop (length text) (zeros max_bytes) ≡ [] ++ 0 ∷ zeros (n - 1) =
      drop-zeros (length text) max_bytes ∙ zeros-cons n (omega (arith, fits)) in
    let (memory, written, read) =
      c_str-request_buffer (zeros max_bytes) (first_line l) h' [] (zeros (n - 1)) clean
        (omega (arith, fits)) tt shape in
    let text_end = append-nil text in
    (ground (arith, e, written, read, text_end), IsPrepared-of (bytes "close") l.host h h' c e)
