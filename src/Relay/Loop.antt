-- ===== src/Relay/Loop.antt =====
-- The loop of handle_request: what the server sends is sent to the client and copied for the cache.
-- What the socket calls and `realloc` answer are arguments.
use multi_threaded_proxy_ser.Base.{
  ℕ, zero, suc, ◌+◌, ◌*◌, ◌%◌, ◌^◌, Bool, true, false, ◌||◌, Option, none, some, List, [], ◌∷◌,
  ◌++◌, Bytes, ltb, leb, if◌then◌else◌, length, take, drop,
}

abbrev pub max_bytes : ℕ
max_bytes = 4096

-- What is sent of some bytes: the part that got out, whether all did, and the number of calls so
-- far.
pub record Sent : Type 0 where
  pub out : Bytes
  pub complete : Bool
  pub clock : ℕ

abbrev pub after_sending : Bytes → Option Sent → Option Sent
after_sending part none = none
after_sending part (some s) = some (record s { out = part ++ s.out })

-- The inner loop. `send t n` is the result of the `t`-th call, with `n` bytes to send: a count, or
-- `none` for -1.
unfoldable pub send_all : ℕ → (ℕ → ℕ → Option ℕ) → ℕ → Bytes → Option Sent
send_all zero send clock buf = none
send_all (suc fuel) send clock [] = some (record { out = []; complete = true; clock = clock })
send_all (suc fuel) send clock (c ∷ buf) = elim (send clock (suc (length buf))) [
  | none ↦ some (record { out = []; complete = false; clock = suc clock })
  | some n ↦ after_sending (take n (c ∷ buf)) (send_all fuel send (suc clock) (drop n (c ∷ buf)))
]

-- `a >= b` between `int`s given by their bit patterns, where `a` is not negative.
abbrev pub int_ge : ℕ → ℕ → Bool
int_ge a b = leb (2 ^ 31) b || leb b a

-- `while(need >= temp_buffer_size) temp_buffer_size *= 2;`
unfoldable pub grow : ℕ → ℕ → ℕ → Option ℕ
grow zero need size = none
grow (suc fuel) need size = elim (int_ge need size) [
  | false ↦ some size
  | true ↦ grow fuel need (size * 2 % 2 ^ 32)
]

-- `delivered` is what the client was sent, `copied` the first `temp_buffer_index` bytes of
-- `temp_buffer`, and `size` the number of bytes that it has room for.
pub record Relay : Type 0 where
  pub delivered : Bytes
  pub copied : Bytes
  pub size : ℕ
  pub clock : ℕ

-- `full` is a write outside of `temp_buffer`.
pub data Outcome : Type 0 where
  cleanup : Relay → Outcome
  full : Outcome
  out_of_fuel : Outcome

-- What the copying of one `buf` leads to.
pub data Stored : Type 0 where
  stored : Relay → Stored
  no_memory : Stored
  no_room : Stored
  stuck : Stored

-- `memcpy(temp_buffer + temp_buffer_index, buf, bytes_recv)`
abbrev pub copy : Relay → Bytes → ℕ → Stored
copy r buf size =
    if ltb size (length r.copied + length buf)
    then no_room
    else stored (record r { copied = r.copied ++ buf; size = size })

-- What is behind the inner loop, up to the next `recv`.
unfoldable pub store : ℕ → (ℕ → Bool) → Relay → Bytes → Stored
unfolding grow
store fuel realloc r buf =
    let need = length r.copied + length buf in
    if int_ge need r.size
    then elim (grow fuel need r.size) [
      | none ↦ stuck
      | some size ↦ if realloc size then copy r buf size else no_memory
    ]
    else copy r buf r.size

-- The loop. Each element of `answers` is what one `recv` puts into `buf`; an empty one, and the end
-- of the list, is a `recv` that returns 0 or less.
unfoldable pub relay : ℕ → (ℕ → ℕ → Option ℕ) → (ℕ → Bool) → List Bytes → Relay → Outcome
unfolding send_all store
relay fuel send realloc [] r = cleanup r
relay fuel send realloc ([] ∷ answers) r = cleanup r
relay fuel send realloc ((c ∷ buf) ∷ answers) r = elim (send_all fuel send r.clock (c ∷ buf)) [
  | none ↦ out_of_fuel
  | some s ↦
      let r' = record r { delivered = r.delivered ++ s.out; clock = s.clock } in
      if s.complete
      then elim (store fuel realloc r' (c ∷ buf)) [
        | stored r'' ↦ relay fuel send realloc answers r''
        | no_memory ↦ cleanup r'
        | no_room ↦ full
        | stuck ↦ out_of_fuel
      ]
      else cleanup r'
]

abbrev pub relay_start : Relay
relay_start = record { delivered = []; copied = []; size = max_bytes; clock = 0 }
