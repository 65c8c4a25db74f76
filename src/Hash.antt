-- ===== src/Hash.antt =====
-- The hash functions of proxy_server_with_cache.c: fnv1a_hash, pending_hash and pool_hash are the
-- 32-bit FNV-1a loop, reduced by the number of buckets of each table.
use multi_threaded_proxy_ser.Base.{ℕ, ◌*◌, ◌%◌, ◌^◌, ◌<◌, bit_xor, [], ◌∷◌, arith, Bytes}

abbrev pub hash_table_size : ℕ
hash_table_size = 1024

abbrev pub max_pending : ℕ
max_pending = 1024

abbrev pub max_host_buckets : ℕ
max_host_buckets = 50

-- `while (*url) { hash ^= (unsigned char)*url; hash *= 16777619U; url++; }`
fnv_loop : ℕ → Bytes → ℕ
fnv_loop hash [] = hash
fnv_loop hash (c ∷ url) = fnv_loop (bit_xor hash c * 16777619 % 2 ^ 32) url

unfoldable pub fnv1a_hash : Bytes → ℕ
unfolding fnv_loop
fnv1a_hash url = fnv_loop 2166136261 url % hash_table_size

unfoldable pub pending_hash : Bytes → ℕ
unfolding fnv_loop
pending_hash url = fnv_loop 2166136261 url % max_pending

unfoldable pub pool_hash : Bytes → ℕ
unfolding fnv_loop
pool_hash host = fnv_loop 2166136261 host % max_host_buckets

-- Each index lies inside its array.
pub fnv1a_hash-lt : (url : Bytes) → fnv1a_hash url < hash_table_size
unfolding fnv1a_hash
fnv1a_hash-lt url = omega arith

pub pending_hash-lt : (url : Bytes) → pending_hash url < max_pending
unfolding pending_hash
pending_hash-lt url = omega arith

pub pool_hash-lt : (host : Bytes) → pool_hash host < max_host_buckets
unfolding pool_hash
pool_hash-lt host = omega arith
