-- ===== src/Pending/Table.antt =====
-- The pending table and its operations. A bucket is the list of the entries that its `next` links
-- lead through; `none` is a fault, a read or write through NULL or a freed entry. The sections
-- under `pending_lock` are one step each.
use multi_threaded_proxy_ser.Base.{
  ℕ, ◌+◌, ◌-◌, Bool, true, false, Option, none, some, List, [], ◌∷◌, Bytes, same, ◌==◌,
  if◌then◌else◌, take,
}
use multi_threaded_proxy_ser.Hash.{pending_hash}

abbrev pub Ptr : Type 0
Ptr = ℕ

abbrev pub null : Ptr
null = 0

-- `pending_entry_t`, less its lock, its condition variable and the link.
pub record PendingEntry : Type 0 where
  pub url : Bytes
  pub ref_count : ℕ
  pub completed : Bool

abbrev pub Heap : Type 0
Heap = Ptr → Option PendingEntry

pub record Pending : Type 0 where
  pub heap : Heap
  pub pending_table : ℕ → List Ptr

abbrev pub write : Heap → Ptr → Option PendingEntry → Heap
write h p c q = if p == q then c else h q

abbrev pub set_bucket : (ℕ → List Ptr) → ℕ → List Ptr → ℕ → List Ptr
set_bucket t i ps j = if i == j then ps else t j

-- `strncpy(entry->url, url, 511)` and the terminator.
unfoldable pub url_field : Bytes → Bytes
url_field url = take 511 url

-- The walk along a bucket: the first entry with the key, or NULL.
unfoldable pub find_in : Heap → Bytes → List Ptr → Option Ptr
find_in h url [] = some null
find_in h url (p ∷ ps) = elim (h p) [
  | none ↦ none
  | some e ↦ if same e.url url then some p else find_in h url ps
]

unfoldable pub find_pending : Bytes → Pending → Option Ptr
find_pending url s = find_in s.heap url (s.pending_table (pending_hash url))

abbrev pub new_entry : Bytes → PendingEntry
new_entry url = record { url = url_field url; ref_count = 1; completed = false }

-- `create_pending_entry`; `p` is what `malloc` returns, which the code does not test.
unfoldable pub create_pending_entry : Ptr → Bytes → Pending → Option Pending
create_pending_entry p url s =
    if p == null then none else some (record s { heap = write s.heap p (some (new_entry url)) })

-- `add_pending`
unfoldable pub add_pending : Ptr → Pending → Option Pending
add_pending p s = elim (s.heap p) [
  | none ↦ none
  | some e ↦
      let index = pending_hash e.url in
      some
        (record s { pending_table = set_bucket s.pending_table index (p ∷ s.pending_table index) })
]

abbrev pub with_refs : PendingEntry → ℕ → PendingEntry
with_refs e n = record e { ref_count = n }

-- `entry->ref_count++`
abbrev retain : Ptr → Pending → Option Pending
retain p s = elim (s.heap p) [
  | none ↦ none
  | some e ↦ some (record s { heap = write s.heap p (some (with_refs e (e.ref_count + 1))) })
]

abbrev and_then : {A B : Type 0} → Option A → (A → Option B) → Option B
and_then none k = none
and_then (some a) k = k a

abbrev returning : Ptr → Option Pending → Option (Ptr × Pending)
returning p none = none
returning p (some s) = some (p, s)

-- `pending_wait_or_register`: NULL for the thread that is to fetch, else the entry to wait for.
unfoldable pub pending_wait_or_register : Ptr → Bytes → Pending → Option (Ptr × Pending)
unfolding create_pending_entry add_pending
pending_wait_or_register fresh url s = and_then (find_pending url s) λ entry.
    if entry == null
    then returning null (and_then (create_pending_entry fresh url s) (add_pending fresh))
    else returning entry (retain entry s)

-- `ref_count--`, and the release of the entry with its last reference.
unfoldable pub drop_ref : Ptr → Pending → Option Pending
drop_ref p s = elim (s.heap p) [
  | none ↦ none
  | some e ↦ some (record s {
    heap =
        write s.heap p
          (if e.ref_count - 1 == 0 then none else some (with_refs e (e.ref_count - 1)));
  })
]

-- The test of the loop in `pending_wait`, under the entry's mutex.
unfoldable pub is_completed : Ptr → Pending → Option Bool
is_completed p s = elim (s.heap p) [ none ↦ none | some e ↦ some e.completed ]

abbrev pub behind : Ptr → Option (Ptr × List Ptr) → Option (Ptr × List Ptr)
behind q none = none
behind q (some (p, ps)) = some (p, q ∷ ps)

-- The walk of `pending_complete`: the first entry with the key, or NULL, and the bucket without it.
unfoldable pub unlink_in : Heap → Bytes → List Ptr → Option (Ptr × List Ptr)
unlink_in h url [] = some (null, [])
unlink_in h url (p ∷ ps) = elim (h p) [
  | none ↦ none
  | some e ↦ if same e.url url then some (p, ps) else behind p (unlink_in h url ps)
]

-- `completed = 1` and the broadcast
abbrev finish : Ptr → Pending → Option Pending
finish p s = elim (s.heap p) [
  | none ↦ none
  | some e ↦ some (record s { heap = write s.heap p (some (record e { completed = true })) })
]

unfoldable pub pending_complete : Bytes → Pending → Option Pending
pending_complete url s =
    let index = pending_hash url in
    and_then (unlink_in s.heap url (s.pending_table index)) λ (entry, rest).
      if entry == null
      then some s
      else and_then
          (finish entry (record s { pending_table = set_bucket s.pending_table index rest }))
          (drop_ref entry)

-- `main`: an empty table.
abbrev pub init : Pending
init = record { heap = λ p. none; pending_table = λ i. [] }
