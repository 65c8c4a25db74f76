-- ===== src/Memory/Request.antt =====
-- ParsedRequest_create, _parse and _destroy, by what they allocate, use and free.
use multi_threaded_proxy_ser.Base.{
  ℕ, Bool, true, false, ◌||◌, Option, none, some, List, [], ◌∷◌, Bytes, ◌==◌, if◌then◌else◌, ltb,
  length, drop,
}
use multi_threaded_proxy_ser.Headers.Text.{find_crlf}
use multi_threaded_proxy_ser.Request.Parse.{min_req_len, max_req_len, until_nul, has_blank_line}
use multi_threaded_proxy_ser.Request.LineEnd.{
  LineEnd, refused, refused_path, refused_port, accepted, unreadable, line_end,
}
use multi_threaded_proxy_ser.Memory.Blocks.{Ptr, null, Cmd, wild, pure, ◌>>=◌, ◌>>◌, malloc, free}
use multi_threaded_proxy_ser.Memory.Headers
use multi_threaded_proxy_ser.Memory.Headers.{ParsedRequest, create_headers, parse_lines, set}

-- ParsedRequest_create
unfoldable pub create : Cmd ParsedRequest
unfolding malloc create_headers
create = do self ← malloc; create_headers self

-- The ways out of ParsedRequest_parse that free what it has allocated.
abbrev pub give_up : ParsedRequest → Ptr → Ptr → Cmd (ParsedRequest × Bool)
give_up pr tmp_buf buf = do free tmp_buf; free buf; pure (record pr { buf = null }, false)

abbrev pub give_up_path : ParsedRequest → Ptr → Ptr → Cmd (ParsedRequest × Bool)
give_up_path pr tmp_buf buf = do
  free tmp_buf
  free buf
  pure (record pr { buf = null; path = null }, false)

abbrev pub give_up_port : ParsedRequest → Ptr → Ptr → Ptr → Cmd (ParsedRequest × Bool)
give_up_port pr tmp_buf buf path = do
  free tmp_buf
  free buf
  free path
  pure (record pr { buf = null; path = null }, false)

abbrev pub finish : Ptr → ParsedRequest × Bool → Cmd (ParsedRequest × Bool)
finish tmp_buf after = do free tmp_buf; pure after

module _ (alloc : ℕ → Bool) (bad_port : Bytes → Bool) (fuel : ℕ) where
  -- The header loop, with the copies of the line and the path.
  abbrev pub parse_headers : ParsedRequest → Ptr → Ptr → Bytes → Ptr → Cmd (ParsedRequest × Bool)
  parse_headers pr tmp_buf buf rest path = do
    after ← parse_lines alloc fuel (record pr { buf = buf; path = path }) rest
    finish tmp_buf after

  abbrev pub with_buf : ParsedRequest → Ptr → Bytes → LineEnd → Ptr → Cmd (ParsedRequest × Bool)
  with_buf pr tmp_buf rest refused buf = give_up pr tmp_buf buf
  with_buf pr tmp_buf rest refused_path buf = give_up_path pr tmp_buf buf
  with_buf pr tmp_buf rest refused_port buf = do path ← malloc; give_up_port pr tmp_buf buf path
  with_buf pr tmp_buf rest accepted buf = do path ← malloc; parse_headers pr tmp_buf buf rest path
  with_buf pr tmp_buf rest unreadable buf = λ m. wild

  abbrev pub with_line : ParsedRequest → Option (Bytes × Bytes) → Ptr → Cmd (ParsedRequest × Bool)
  with_line pr none tmp_buf = λ m. wild
  with_line pr (some (line, rest)) tmp_buf = do
    buf ← malloc
    with_buf pr tmp_buf (drop 2 rest) (line_end bad_port line) buf

  abbrev pub with_copy : ParsedRequest → Bytes → Ptr → Cmd (ParsedRequest × Bool)
  with_copy pr text tmp_buf =
      if has_blank_line (until_nul text)
      then with_line pr (find_crlf (until_nul text)) tmp_buf
      else (do free tmp_buf; pure (pr, false))

  -- ParsedRequest_parse
  unfoldable pub parse_request : ParsedRequest → Bytes → Cmd (ParsedRequest × Bool)
  unfolding malloc free parse_lines line_end until_nul has_blank_line find_crlf
  parse_request pr text =
      if pr.buf == null
      then (if ltb (length text) min_req_len || ltb max_req_len (length text)
          then pure (pr, false)
          else (do tmp_buf ← malloc; with_copy pr text tmp_buf))
      else pure (pr, false)

  -- The headers that handle_request sets.
  unfoldable pub set_all : List Bytes → ParsedRequest → Cmd ParsedRequest
  unfolding set
  set_all [] pr = pure pr
  set_all (key ∷ keys) pr = do after ← set (alloc pr.headerslen) pr key; set_all keys after.0

-- ParsedRequest_destroy
abbrev pub destroy_headers : ParsedRequest → Cmd ParsedRequest
destroy_headers pr = if ltb 0 pr.headerslen then Headers.destroy pr else pure pr

unfoldable pub destroy : ParsedRequest → Cmd (Unit {0})
unfolding free Headers.destroy
destroy pr = do
  (if pr.buf == null then pure tt else free pr.buf)
  (if pr.path == null then pure tt else free pr.path)
  after ← destroy_headers pr
  free after.self

-- A request from its creation to its end in thread_fn; handle_request sets headers in between if the
-- request is accepted.
abbrev pub used :
    (ℕ → Bool) → (Bytes → Bool) → ℕ → List Bytes → ParsedRequest × Bool → Cmd ParsedRequest
used alloc bad_port fuel keys (pr, true) = set_all alloc bad_port fuel keys pr
used alloc bad_port fuel keys (pr, false) = pure pr

unfoldable pub lifetime : (ℕ → Bool) → (Bytes → Bool) → ℕ → List Bytes → Bytes → Cmd (Unit {0})
unfolding create parse_request set_all destroy
lifetime alloc bad_port fuel keys text = do
  pr ← create
  parsed ← parse_request alloc bad_port fuel pr text
  after ← used alloc bad_port fuel keys parsed
  destroy after
