-- ===== src/Tests/Memory.antt =====
-- A request whose memory is followed from its creation to its end.
use multi_threaded_proxy_ser.Base.{
  ◌≡◌, refl, Bool, true, List, [], ◌∷◌, Bytes, bytes, length, arith, suc, ◌==◌,
}
unfoldable use multi_threaded_proxy_ser.Base.{same}
use multi_threaded_proxy_ser.Memory.Blocks.{Ptr, Blocks, Run, ok, Ends, Owns}
use multi_threaded_proxy_ser.Memory.Blocks.{malloc, free, touch}
use multi_threaded_proxy_ser.Memory.Headers
use multi_threaded_proxy_ser.Memory.Headers.{
  create_headers, parse_lines, parse, destroy_slots, touch_used, set, store, append, make_room,
  realloc, remove, remove_slot,
}
use multi_threaded_proxy_ser.Memory.Request.{lifetime, create, parse_request, set_all, destroy}
use multi_threaded_proxy_ser.Request.LineEnd.{line_end, authority}
use multi_threaded_proxy_ser.Request.Parse.{
  split_line, read_path, read_host, until_nul, has_blank_line,
}
use multi_threaded_proxy_ser.Request.Token.{
  strspn, strcspn, byte_at, end_at, c_str, text_at, starts_with, token_from, strtok_r,
}
use multi_threaded_proxy_ser.Headers.Text.{find_crlf, split_at}
use multi_threaded_proxy_ser.Headers.Parse.{next_line}
use multi_threaded_proxy_ser.Memory.ParseLaws.{lifetime-Ends}
use multi_threaded_proxy_ser.Base.{leb, false}
use multi_threaded_proxy_ser.Memory.Blocks.{null}
use multi_threaded_proxy_ser.Memory.Headers.{ParsedRequest}
use multi_threaded_proxy_ser.Memory.HeaderLaws.{Owned}
use multi_threaded_proxy_ser.Memory.Lost.{Breaks, set-Breaks}

abbrev bad_port : Bytes → Bool
bad_port s = same s []

-- One block is in use before.
abbrev before : Blocks
before = record { live = λ p. p == 1; next = 2 }

before-Owns : Owns before (1 ∷ [])
before-Owns = record {
  alive = λ p k. ground arith;
  unused = λ p k. ground (arith, k);
  nonnull = omega arith;
}

abbrev text : Bytes
text = bytes "GET http://a.org/x HTTP/1.1\r\nHost: a.org\r\n\r\n"

abbrev keys : List Bytes
keys = bytes "Connection" ∷ bytes "Host" ∷ []

lifetime-Ends_example :
    Ends
      (λ _ n. Owns n (1 ∷ []))
      (lifetime (λ n. true) bad_port (suc (length text)) keys text before)
lifetime-Ends_example =
    lifetime-Ends (λ n. true) (λ n. refl) bad_port (suc (length text)) (1 ∷ []) keys text
      (omega arith) before-Owns

abbrev next_of : Run (Unit {0}) → Ptr
next_of (ok a m) = m.next
next_of _ = 0

-- It comes back, with thirteen blocks more handed out.
lifetime_runs : next_of (lifetime (λ n. true) bad_port (suc (length text)) keys text before) ≡ 15
unfolding lifetime create create_headers parse_request line_end authority split_line read_path
    read_host until_nul has_blank_line find_crlf split_at parse_lines parse next_line same strspn
    strcspn byte_at end_at c_str text_at starts_with token_from strtok_r set_all destroy
    Headers.destroy destroy_slots touch_used set store append make_room realloc remove remove_slot
    malloc free touch
lifetime_runs = refl

-- An object with one header, whose array has no room for more than that and its spare slot.
abbrev full_object : ParsedRequest
full_object = record {
  self = 1;
  headers = 2;
  slots = record { key = 3; text = bytes "Host"; value = 4 } ∷ [];
  headerslen = 2;
  buf = null;
  path = null;
}

abbrev four_blocks : Blocks
four_blocks = record { live = λ p. leb p 4; next = 5 }

four_blocks-Owned : Owned [] full_object four_blocks
four_blocks-Owned = (
  record {
    alive = λ p k. ground (arith, k);
    unused = λ p k. ground (arith, k);
    nonnull = omega arith;
  },
  record { array = refl; room = omega arith },
)

set-Breaks_example : Ends Breaks (set false full_object (bytes "Accept") four_blocks)
set-Breaks_example =
    set-Breaks [] full_object (bytes "Accept") (omega arith) (omega arith) four_blocks-Owned
