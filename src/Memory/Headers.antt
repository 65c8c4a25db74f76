-- ===== src/Memory/Headers.antt =====
-- The ParsedHeader functions, by what they allocate, use and free.
use multi_threaded_proxy_ser.Base.{
  ℕ, zero, suc, ◌+◌, ◌*◌, Bool, true, false, Option, none, some, List, [], ◌∷◌, ◌++◌, Bytes, same,
  ◌==◌, if◌then◌else◌, leb, length,
}
use multi_threaded_proxy_ser.Headers.Text.{colon, split_at, find_crlf}
use multi_threaded_proxy_ser.Headers.Parse.{at_end, next_line}
use multi_threaded_proxy_ser.Headers.Store.{default_nhdrs}
use multi_threaded_proxy_ser.Memory.Blocks.{
  Ptr, null, Cmd, wild, out_of_fuel, pure, ◌>>=◌, ◌>>◌, malloc, free, touch,
}

-- A header with its two blocks and the text of its key. A removed header has the key NULL.
pub record ParsedHeader : Type 0 where
  pub key : Ptr
  pub text : Bytes
  pub value : Ptr

-- The object at `self`, with its array `headers` and the part of it that is used.
pub record ParsedRequest : Type 0 where
  pub self : Ptr
  pub headers : Ptr
  pub slots : List ParsedHeader
  pub headerslen : ℕ
  pub buf : Ptr
  pub path : Ptr

abbrev pub clear_slot : ParsedHeader → List ParsedHeader → Cmd (List ParsedHeader)
clear_slot ph l = do free ph.key; free ph.value; pure (record ph { key = null } ∷ l)

-- The loop of ParsedHeader_get, and what ParsedHeader_remove frees where it stops.
unfoldable pub remove_slot : Bytes → List ParsedHeader → Cmd (List ParsedHeader)
unfolding touch free same
remove_slot key [] = pure []
remove_slot key (ph ∷ l) =
    let further = (do l' ← remove_slot key l; pure (ph ∷ l')) in
    if ph.key == null
    then further
    else do touch ph.key; if same ph.text key then clear_slot ph l else further

-- Any access to a slot reads the array.
unfoldable pub touch_used : List ParsedHeader → Ptr → Cmd (Unit {0})
unfolding touch
touch_used [] headers = pure tt
touch_used (ph ∷ l) headers = touch headers

abbrev pub touch_array : ParsedRequest → Cmd (Unit {0})
touch_array pr = touch_used pr.slots pr.headers

unfoldable pub remove : ParsedRequest → Bytes → Cmd ParsedRequest
unfolding touch_used remove_slot
remove pr key = do touch_array pr; l ← remove_slot key pr.slots; pure (record pr { slots = l })

-- `realloc`, which keeps the block if it gives no memory.
unfoldable pub realloc : Bool → Ptr → Cmd Ptr
unfolding malloc free touch
realloc true p = do free p; malloc
realloc false p = if p == null then pure null else (do touch p; pure null)

-- The array with room for one more header. `alloc` says whether `realloc` succeeds.
unfoldable pub make_room : Bool → ParsedRequest → Cmd (ParsedRequest × Bool)
unfolding realloc
make_room alloc pr =
    if leb pr.headerslen (length pr.slots + 1)
    then (do
      headers ← realloc alloc pr.headers
      pure (record pr { headers = headers; headerslen = pr.headerslen * 2 }, alloc))
    else pure (pr, true)

abbrev pub new_slot : Ptr → Bytes → Ptr → ParsedHeader
new_slot key text value = record { key = key; text = text; value = value }

unfoldable pub append : ParsedRequest → Bytes → Cmd ParsedRequest
unfolding malloc touch
append pr text = do
  touch pr.headers
  key ← malloc
  value ← malloc
  pure (record pr { slots = pr.slots ++ new_slot key text value ∷ [] })

abbrev pub after_room : Bytes → ParsedRequest × Bool → Cmd (ParsedRequest × Bool)
after_room key (roomy, true) = do added ← append roomy key; pure (added, true)
after_room key (roomy, false) = pure (roomy, false)

-- The result is false for -1.
unfoldable pub set : Bool → ParsedRequest → Bytes → Cmd (ParsedRequest × Bool)
unfolding remove make_room append
set alloc pr key = do removed ← remove pr key; room ← make_room alloc removed; after_room key room

abbrev pub freed : Ptr → Ptr → ParsedRequest × Bool → Cmd (ParsedRequest × Bool)
freed key value (after, done) = do free key; free value; pure (after, true)

abbrev pub set_copies : (ℕ → Bool) → ParsedRequest → Bytes → Ptr → Ptr → Cmd (ParsedRequest × Bool)
set_copies alloc pr text key value = do
  after ← set (alloc pr.headerslen) pr text
  freed key value after

abbrev pub copy_value : (ℕ → Bool) → ParsedRequest → Bytes → Ptr → Cmd (ParsedRequest × Bool)
copy_value alloc pr text key = do value ← malloc; set_copies alloc pr text key value

-- The part of ParsedHeader_parse behind the search for the end of the value. The result of `set` is
-- not looked at.
unfoldable pub store : (ℕ → Bool) → ParsedRequest → Bytes → Cmd (ParsedRequest × Bool)
unfolding malloc free set
store alloc pr text = do key ← malloc; copy_value alloc pr text key

abbrev pub with_value :
    (ℕ → Bool) → ParsedRequest → Bytes → Option (Bytes × Bytes) → Cmd (ParsedRequest × Bool)
with_value alloc pr text none m = wild
with_value alloc pr text (some found) m = store alloc pr text m

abbrev pub behind_colon : (ℕ → Bool) → ParsedRequest → Bytes → Bytes → Cmd (ParsedRequest × Bool)
behind_colon alloc pr text [] m = wild
behind_colon alloc pr text (c ∷ s) m = with_value alloc pr text (find_crlf s) m

abbrev pub with_key :
    (ℕ → Bool) → ParsedRequest → Option (Bytes × Bytes) → Cmd (ParsedRequest × Bool)
with_key alloc pr none m = pure (pr, false) m
with_key alloc pr (some (text, after)) m = behind_colon alloc pr text after m

-- ParsedHeader_parse
unfoldable pub parse : (ℕ → Bool) → ParsedRequest → Bytes → Cmd (ParsedRequest × Bool)
unfolding store split_at find_crlf
parse alloc pr line = with_key alloc pr (split_at colon line)

abbrev pub after_line :
    (ParsedRequest → Bytes → Cmd (ParsedRequest × Bool))
    → Option Bytes
    → ParsedRequest × Bool
    → Cmd (ParsedRequest × Bool)
after_line again (some t) (after, true) = again after t
after_line again none (after, true) = pure (after, true)
after_line again next (after, false) = pure (after, false)

-- The loop over the headers of ParsedRequest_parse.
unfoldable pub parse_lines : (ℕ → Bool) → ℕ → ParsedRequest → Bytes → Cmd (ParsedRequest × Bool)
unfolding parse next_line
parse_lines alloc zero pr s m = out_of_fuel
parse_lines alloc (suc fuel) pr s m =
    let again = parse_lines alloc fuel in
    if at_end s
    then pure (pr, true) m
    else (do after ← parse alloc pr s; after_line again (next_line s) after) m

-- ParsedHeader_destroyOne for each header.
unfoldable pub destroy_slots : List ParsedHeader → Cmd (Unit {0})
unfolding touch free
destroy_slots [] = pure tt
destroy_slots (ph ∷ l) =
    let rest = destroy_slots l in
    if ph.key == null then rest else (do free ph.key; free ph.value; rest)

-- ParsedHeader_destroy
unfoldable pub destroy : ParsedRequest → Cmd ParsedRequest
unfolding touch_used destroy_slots
destroy pr = do
  touch_array pr
  destroy_slots pr.slots
  free pr.headers
  pure (record pr { slots = []; headerslen = 0 })

-- ParsedHeader_create, and the fields that ParsedRequest_create sets.
abbrev pub new_object : Ptr → Ptr → ParsedRequest
new_object self headers = record {
  self = self;
  headers = headers;
  slots = [];
  headerslen = default_nhdrs;
  buf = null;
  path = null;
}

unfoldable pub create_headers : Ptr → Cmd ParsedRequest
unfolding malloc
create_headers self = do headers ← malloc; pure (new_object self headers)
