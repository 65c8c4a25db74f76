-- ===== src/Earlier/Relay.antt =====
-- The loop of handle_request of proxy_server_without_cache.c. What the socket calls and `realloc`
-- answer are arguments.
use multi_threaded_proxy_ser.Base.{
  ℕ, zero, suc, ◌+◌, ◌-◌, ◌%◌, ◌^◌, Bool, true, false, Option, none, some, List, [], ◌∷◌, ◌++◌,
  Bytes, ltb, if◌then◌else◌, length, take,
}
use multi_threaded_proxy_ser.Worker.Receive.{zeros}

abbrev pub max_bytes : ℕ
max_bytes = 4096

-- `delivered` is what the client was sent, `copied` the first `temp_buffer_index` bytes of
-- `temp_buffer`, `size` the `int` `temp_buffer_size`, and `clock` the number of calls of `send`.
pub record Relay : Type 0 where
  pub delivered : Bytes
  pub copied : Bytes
  pub size : ℕ
  pub clock : ℕ

-- `full` is a write outside of `temp_buffer`.
pub data Outcome : Type 0 where
  done : Relay → Outcome
  full : Outcome

abbrev pub relay_start : Relay
relay_start = record { delivered = []; copied = []; size = max_bytes; clock = 0 }

-- The MAX_BYTES bytes at `buf`, which were cleared before the `recv`.
abbrev pub memory_of : Bytes → Bytes
memory_of chunk = chunk ++ zeros (max_bytes - length chunk)

-- `for(int i=0;i<bytes_send/sizeof(char);i++)`, with the number of turns that are left, the bytes
-- from `buf[i]` on, and what is copied; `none` is an access outside of `buf` or of `temp_buffer`.
unfoldable pub copy_loop : ℕ → Bytes → Bytes → ℕ → Option Bytes
copy_loop zero buf copied size = some copied
copy_loop (suc left) [] copied size = none
copy_loop (suc left) (c ∷ buf) copied size =
    let rest = copy_loop left buf (copied ++ c ∷ []) size in
    if ltb (length copied) size then rest else none

-- `temp_buffer_size += MAX_BYTES`
abbrev pub next_size : Relay → ℕ
next_size r = (r.size + max_bytes) % 2 ^ 32

-- Behind the copying and the `realloc`: `part` is what was sent.
abbrev pub after_turn : Relay → Bytes → Bytes → Relay
after_turn r part copied = record {
  delivered = r.delivered ++ part;
  copied = copied;
  size = next_size r;
  clock = suc r.clock;
}

-- `temp_buffer[temp_buffer_index]='\0'`
abbrev pub terminate : Relay → Outcome
terminate r = if ltb (length r.copied) r.size then done r else full

-- The end of the loop behind a `send` that returned -1.
abbrev pub send_failed : (ℕ → Bool) → Relay → Option Bytes → Outcome
send_failed realloc r none = full
send_failed realloc r (some copied) =
    if realloc (next_size r) then terminate (after_turn r [] copied) else full

-- Each element of `answers` is what one `recv` puts into `buf`; an empty one, and the end of the
-- list, is a `recv` that returns 0 or less. `send t n` is the result of the `t`-th call, with `n`
-- bytes to send: a count, of `n` at most, or `none` for -1. The copying compares its index with it
-- as a `size_t`, in which -1 is 2 ^ 64 - 1. `realloc` says whether it returns memory; its result is
-- used in any case.
unfoldable pub relay : (ℕ → ℕ → Option ℕ) → (ℕ → Bool) → List Bytes → Relay → Outcome
unfolding copy_loop
relay send realloc [] r = terminate r
relay send realloc ([] ∷ answers) r = terminate r
relay send realloc ((c ∷ buf) ∷ answers) r = elim (send r.clock (suc (length buf))) [
  | none ↦ send_failed realloc r (copy_loop (2 ^ 64 - 1) (memory_of (c ∷ buf)) r.copied r.size)
  | some n ↦
      let part = take n (c ∷ buf) in
      elim (copy_loop (length part) (memory_of (c ∷ buf)) r.copied r.size) [
        | none ↦ full
        | some copied ↦ elim (realloc (next_size r)) [
          | true ↦ relay send realloc answers (after_turn r part copied)
          | false ↦ full
        ]
      ]
]
