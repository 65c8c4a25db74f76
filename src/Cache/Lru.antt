-- ===== src/Cache/Lru.antt =====
-- lru_init, lru_remove, lru_append_tail and lru_get_lru: the list in order of use.
use multi_threaded_proxy_ser.Base.{◌==◌, if◌then◌else◌}
use multi_threaded_proxy_ser.Cache.Store.{
  Ptr, null, CacheElement, Cmd, ok, pure, ◌>>=◌, ◌>>◌, load, update,
}

abbrev pub set_next : Ptr → CacheElement → CacheElement
set_next q e = record e { lru_next = q }

abbrev pub set_prev : Ptr → CacheElement → CacheElement
set_prev q e = record e { lru_prev = q }

abbrev set_head : Ptr → Cmd (Unit {0})
set_head p s = ok tt (record s { lru_head = p })

abbrev set_tail : Ptr → Cmd (Unit {0})
set_tail p s = ok tt (record s { lru_tail = p })

unfoldable pub lru_init : Cmd (Unit {0})
lru_init = set_head null >> set_tail null

unfoldable pub lru_remove : Ptr → Cmd (Unit {0})
unfolding load update
lru_remove element = do
  e ← load element
  if e.lru_prev == null then set_head e.lru_next else update e.lru_prev (set_next e.lru_next)
  e ← load element
  if e.lru_next == null then set_tail e.lru_prev else update e.lru_next (set_prev e.lru_prev)
  update element (set_prev null)
  update element (set_next null)

abbrev get_tail : Cmd Ptr
get_tail s = ok s.lru_tail s

-- `if (lru_head == NULL) lru_head = element;`
abbrev fix_head : Ptr → Cmd (Unit {0})
fix_head p s = if s.lru_head == null then set_head p s else ok tt s

unfoldable pub lru_append_tail : Ptr → Cmd (Unit {0})
unfolding load update
lru_append_tail element = do
  tail ← get_tail
  update element (set_prev tail)
  update element (set_next null)
  if tail == null then pure tt else update tail (set_next element)
  set_tail element
  fix_head element

unfoldable pub lru_get_lru : Cmd Ptr
lru_get_lru s = ok s.lru_head s
