-- ===== src/Headers/Store.antt =====
-- ParsedHeader_create, _get, _remove, _set, _lineLen, _headersLen, _printHeaders and _destroy.
use multi_threaded_proxy_ser.Base.{
  ℕ, ◌+◌, ◌*◌, Bool, true, false, Option, none, some, List, [], ◌∷◌, ◌++◌, Bytes, same,
  if◌then◌else◌, ltb, leb, length,
}
use multi_threaded_proxy_ser.Headers.Text.{colon, space, crlf}

-- A removed header has the key NULL; its value is freed, and read no more.
pub record ParsedHeader : Type 0 where
  pub key : Option Bytes
  pub keylen : ℕ
  pub value : Bytes
  pub valuelen : ℕ

-- The array's used part, in order, and `headerslen`, the number of slots that it has room for.
pub record Headers : Type 0 where
  pub slots : List ParsedHeader
  pub headerslen : ℕ

abbrev pub headersused : Headers → ℕ
headersused h = length h.slots

abbrev pub default_nhdrs : ℕ
default_nhdrs = 8

unfoldable pub create : Headers
create = record { slots = []; headerslen = default_nhdrs }

-- `tmp->key && strcmp(tmp->key, key) == 0`
abbrev pub has_key : Bytes → ParsedHeader → Bool
has_key key ph = elim ph.key [ none ↦ false | some k ↦ same k key ]

-- The loop of ParsedHeader_get.
unfoldable pub get_slot : Bytes → List ParsedHeader → Option ParsedHeader
get_slot key [] = none
get_slot key (ph ∷ l) = if has_key key ph then some ph else get_slot key l

unfoldable pub get : Headers → Bytes → Option ParsedHeader
unfolding get_slot
get h key = get_slot key h.slots

-- The slot that ParsedHeader_get finds loses its key.
unfoldable pub clear_slot : Bytes → List ParsedHeader → List ParsedHeader
clear_slot key [] = []
clear_slot key (ph ∷ l) =
    if has_key key ph then record ph { key = none } ∷ l else ph ∷ clear_slot key l

abbrev pub is_found : Option ParsedHeader → Bool
is_found none = false
is_found (some _) = true

-- The result is false for -1.
unfoldable pub remove : Headers → Bytes → Headers × Bool
unfolding get clear_slot
remove h key = (record h { slots = clear_slot key h.slots }, is_found (get h key))

abbrev pub new_header : Bytes → Bytes → ParsedHeader
new_header key value = record {
  key = some key;
  keylen = length key + 1;
  value = value;
  valuelen = length value + 1;
}

-- `alloc` says whether `realloc` succeeds; `none` is the result -1, with `headers` NULL. The
-- copies' own allocations, which the code does not test, are taken to succeed.
unfoldable pub set : Bool → Headers → Bytes → Bytes → Option Headers
unfolding remove
set alloc h key value =
    let r = (remove h key).0 in
    let slots' = r.slots ++ new_header key value ∷ [] in
    if leb r.headerslen (headersused r + 1)
    then (if alloc then some (record { slots = slots'; headerslen = r.headerslen * 2 }) else none)
    else some (record r { slots = slots' })

unfoldable pub line_len : ParsedHeader → ℕ
line_len ph = elim ph.key [ none ↦ 0 | some k ↦ length k + length ph.value + 4 ]

unfoldable pub lines_len : List ParsedHeader → ℕ
unfolding line_len
lines_len [] = 0
lines_len (ph ∷ l) = line_len ph + lines_len l

-- ParsedHeader_headersLen; `parsed` says that `pr->buf` is not NULL. The sum of the lines is far
-- below what its `int` can hold.
unfoldable pub headers_len : Bool → Headers → ℕ
unfolding lines_len
headers_len parsed h = if parsed then lines_len h.slots + 2 else 0

-- One header as it is printed, and the header section.
unfoldable pub print_line : ParsedHeader → Bytes
print_line ph = elim ph.key [ none ↦ [] | some k ↦ k ++ colon ∷ space ∷ (ph.value ++ crlf) ]

unfoldable pub print_lines : List ParsedHeader → Bytes
unfolding print_line
print_lines [] = []
print_lines (ph ∷ l) = print_line ph ++ print_lines l

-- What ParsedHeader_printHeaders writes into `len` bytes, or `none` for -1.
unfoldable pub print_headers : Bool → Headers → ℕ → Option Bytes
unfolding headers_len print_lines
print_headers parsed h len =
    if ltb len (headers_len parsed h) then none else some (print_lines h.slots ++ crlf)

-- ParsedRequest_unparse_headers
unfoldable pub unparse_headers : Bool → Headers → ℕ → Option Bytes
unfolding print_headers
unparse_headers parsed h buflen = if parsed then print_headers parsed h buflen else none

-- ParsedHeader_destroy frees every header that has a key, and the array.
unfoldable pub destroy : Headers → Headers
destroy h = record { slots = []; headerslen = 0 }
