-- ===== src/Earlier/Key.antt =====
-- The key that a thread of the earlier server looks for: the end of its text is not copied.
use multi_threaded_proxy_ser.Base.{◌≡◌, refl, ap, some, [], ◌∷◌, ◌++◌, Bytes, length, drop, arith}
use multi_threaded_proxy_ser.Headers.Text.{Lacks}
use multi_threaded_proxy_ser.Request.Token.{Result, c_str}
use multi_threaded_proxy_ser.Request.Readable.{IsRead, c_str-IsRead}
use multi_threaded_proxy_ser.Earlier.Cache.{Cache, empty_cache}
use multi_threaded_proxy_ser.Earlier.Thread.{key_in, key_of, all_inside}

key_in-empty :
    (memory : Bytes) (o : Result Bytes)
    → IsRead o
    → (key : Bytes) × (key_in [] memory o ≡ Result.ok key)
unfolding all_inside
key_in-empty memory (Result.ok key) i = (key, refl)
key_in-empty memory Result.rejected i = absurd i
key_in-empty memory Result.fault i = (memory, refl)

pub key_of-empty :
    (text old : Bytes) → (key : Bytes) × (key_of empty_cache text (some old) ≡ Result.ok key)
unfolding key_of empty_cache
key_of-empty text old =
    let memory = text ++ drop (length text) old in
    key_in-empty memory (c_str memory) (c_str-IsRead memory)

c_str-concat :
    (text behind junk : Bytes)
    → Lacks 0 text
    → c_str behind ≡ Result.ok junk
    → c_str (text ++ behind) ≡ Result.ok (text ++ junk)
unfolding c_str
c_str-concat [] behind junk l e = e
c_str-concat (c ∷ text) behind junk l e = ground (arith, l.0, c_str-concat text behind junk l.1 e)

-- The key that a thread of the earlier server looks for is the text of its request with what the
-- memory of the key held behind it, up to a NUL, whatever the cache holds.
pub key_of-append :
    (s : Cache) (text old junk : Bytes)
    → Lacks 0 text
    → c_str (drop (length text) old) ≡ Result.ok junk
    → key_of s text (some old) ≡ Result.ok (text ++ junk)
unfolding key_of
key_of-append s text old junk l e =
    let memory = text ++ drop (length text) old in
    ap (key_in s.elements memory) (c_str-concat text (drop (length text) old) junk l e)
