-- ===== src/Worker/Cached.antt =====
-- How thread_fn sends what it found in the cache, in both servers.
use multi_threaded_proxy_ser.Base.{
  ℕ, zero, suc, ◌+◌, ◌-◌, ◌*◌, ◌≤◌, ◌<◌, ◌≡◌, refl, ap, ◌∙◌, sym, subst, Option, none, some, List,
  [], ◌∷◌, ◌++◌, Bytes, ltb, leb, if◌then◌else◌, drop-drop, length, length-take, take, drop, arith,
  Bool-cases, inl, inr,
}

abbrev pub max_bytes : ℕ
max_bytes = 4096

-- The loop of proxy_server_with_cache.c from `pos` on: the texts of the calls of `send`. `none` is
-- that the fuel is out.
unfoldable pub send_cached : ℕ → Bytes → ℕ → ℕ → Option (List Bytes)
send_cached zero cached_data cached_len pos = none
send_cached (suc fuel) cached_data cached_len pos =
    let to_send = if ltb (cached_len - pos) max_bytes then cached_len - pos else max_bytes in
    let rest = send_cached fuel cached_data cached_len (pos + to_send) in
    if ltb pos cached_len
    then elim rest [ none ↦ none | some l ↦ some (take to_send (drop pos cached_data) ∷ l) ]
    else some []

-- The same in proxy_server_without_cache.c: a whole `response` each time. `room` is the number of
-- bytes that `data` has, and `fault` a read behind them.
pub data Sending : Type 0 where
  sent : List Bytes → Sending
  fault : Sending
  out_of_fuel : Sending

abbrev pub and_then : Bytes → Sending → Sending
and_then part (sent l) = sent (part ∷ l)
and_then part fault = fault
and_then part out_of_fuel = out_of_fuel

unfoldable pub send_blocks : ℕ → Bytes → ℕ → ℕ → Sending
send_blocks zero data_bytes size pos = out_of_fuel
send_blocks (suc fuel) data_bytes size pos =
    let rest = send_blocks fuel data_bytes size (pos + max_bytes) in
    if ltb pos size
    then (if leb (pos + max_bytes) (length data_bytes)
        then and_then (take max_bytes (drop pos data_bytes)) rest
        else fault)
    else sent []

abbrev pub concat : List Bytes → Bytes
concat [] = []
concat (s ∷ l) = s ++ concat l

abbrev pub AreShort : List Bytes → Type 0
AreShort [] = Unit {0}
AreShort (s ∷ l) = (length s ≤ max_bytes) × AreShort l

take-append_drop : (n : ℕ) (s : Bytes) → take n s ++ drop n s ≡ s
take-append_drop zero s = refl
take-append_drop (suc n) [] = refl
take-append_drop (suc n) (c ∷ s) = ap (◌∷◌ c) (take-append_drop n s)

drop-past : (n : ℕ) (s : Bytes) → length s ≤ n → drop n s ≡ []
drop-past zero [] h = refl
drop-past zero (c ∷ s) h = absurd (omega (arith, h))
drop-past (suc n) [] h = refl
drop-past (suc n) (c ∷ s) h = drop-past n s (omega (arith, h))

send_cached-from :
    (fuel : ℕ) (cached_data : Bytes) (pos : ℕ)
    → pos ≤ length cached_data
    → length cached_data < pos + fuel
    → (l : List Bytes) × (send_cached fuel cached_data (length cached_data) pos ≡ some l)
      × (concat l ≡ drop pos cached_data)
      × AreShort l
unfolding send_cached
send_cached-from zero cached_data pos inside enough = absurd (omega (arith, inside, enough))
send_cached-from (suc fuel) cached_data pos inside enough =
    elim (Bool-cases (ltb pos (length cached_data))) [
      | inr e ↦ ([], ground (arith, e), sym (drop-past pos cached_data (ground (arith, e))), tt)
      | inl e ↦
          let len = length cached_data in
          let to_send = if ltb (len - pos) max_bytes then len - pos else max_bytes in
          let some_bytes : 0 < to_send = ground (arith, e) in
          let not_past : pos + to_send ≤ len = ground (arith, e) in
          let (l, run, all, short) =
            send_cached-from fuel cached_data (pos + to_send) not_past
              (omega (arith, enough, some_bytes)) in
          let few : to_send ≤ max_bytes = ground arith in
          (
            take to_send (drop pos cached_data) ∷ l,
            ground (arith, e, run),
            ap (take to_send (drop pos cached_data) ++◌)
                  (all ∙ sym (drop-drop pos to_send cached_data))
                ∙ take-append_drop to_send (drop pos cached_data),
            (omega (arith, few, length-take to_send (drop pos cached_data)), short),
          )
    ]

-- What thread_fn sends of a cached response is the whole response, in parts of at most MAX_BYTES
-- bytes; as many turns of the loop as it has bytes, and one more, are enough.
pub send_cached-concat :
    (cached_data : Bytes)
    → (l : List Bytes) × (send_cached (suc (length cached_data)) cached_data (length cached_data) 0
        ≡ some l)
      × (concat l ≡ cached_data)
      × AreShort l
send_cached-concat cached_data =
    send_cached-from (suc (length cached_data)) cached_data 0 (omega arith) (omega arith)

blocks-fault :
    (k r pos : ℕ) (data_bytes : Bytes)
    → 0 < r
    → r + 10 < max_bytes
    → length data_bytes ≡ pos + (k * max_bytes + r) + 10
    → send_blocks (suc k) data_bytes (pos + (k * max_bytes + r)) pos ≡ fault
unfolding send_blocks
blocks-fault zero r pos data_bytes some_bytes few len = ground (arith, some_bytes, few, len)
blocks-fault (suc k) r pos data_bytes some_bytes few len =
    let ih = blocks-fault k r (pos + max_bytes) data_bytes some_bytes few (omega (arith, len)) in
    let same : pos + max_bytes + (k * max_bytes + r) ≡ pos + (suc k * max_bytes + r) =
      omega arith in
    ground (arith, ih, same, some_bytes, few, len)

-- The earlier server reads behind the data of an element that find returns, if the rest of its
-- length by MAX_BYTES is neither 0 nor more than 4085: the data has 10 bytes more than its length says,
-- and the loop sends whole blocks of MAX_BYTES bytes.
pub send_blocks-fault :
    (k r : ℕ) (data_bytes : Bytes)
    → 0 < r
    → r + 10 < max_bytes
    → length data_bytes ≡ k * max_bytes + r + 10
    → send_blocks (suc k) data_bytes (k * max_bytes + r) 0 ≡ fault
send_blocks-fault k r data_bytes some_bytes few len =
    let size : 0 + (k * max_bytes + r) ≡ k * max_bytes + r = omega arith in
    subst (λ s. send_blocks (suc k) data_bytes s 0 ≡ fault) size
      (blocks-fault k r 0 data_bytes some_bytes few (omega (arith, len)))
