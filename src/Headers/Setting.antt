-- ===== src/Headers/Setting.antt =====
-- ParsedHeader_set: the table behind it, and what it takes from the allocator.
use multi_threaded_proxy_ser.Base.{
  ◌+◌, ◌≡◌, refl, Bool, true, none, some, List, [], ◌∷◌, ◌++◌, Bytes, same, same_swap,
  if◌then◌else◌, leb, length-append, arith, Option-cases, Bool-cases, inl, inr,
}
use multi_threaded_proxy_ser.Headers.Store.{
  ParsedHeader, Headers, get_slot, get, clear_slot, remove, set, new_header, headersused,
}
use multi_threaded_proxy_ser.Headers.Laws.{
  AreSlots, IsHeaders, get_slot-append, get_slot-clear_slot_self, get_slot-clear_slot_other,
  clear_slot-AreSlots, length-clear_slot,
}

append-AreSlots :
    (key value : Bytes) (l : List ParsedHeader)
    → AreSlots l
    → get_slot key l ≡ none
    → AreSlots (l ++ new_header key value ∷ [])
unfolding get_slot
append-AreSlots key value [] a n = ((refl, refl), tt)
append-AreSlots key value (ph ∷ l) a n = elim (Option-cases ph.key) [
  | inl e ↦ ground (arith, e, append-AreSlots key value l a.1 (ground (arith, n, e)))
  | inr (k, e) ↦ elim (Bool-cases (same k key)) [
    | inl f ↦ ground (arith, e, f, n)
    | inr f ↦
        let slot = rw e at a.0 in
        let absent : get_slot key l ≡ none = ground (arith, n, e, f) in
        let rest = append-AreSlots key value l a.1 absent in
        ground (arith, e, f, slot, rest, same_swap k key f, get_slot-append k key value l absent)
  ]
]

-- The slots that ParsedHeader_set leaves, when it has the memory that it needs.
pub set-slots :
    (alloc : Bool) (h h' : Headers) (key value : Bytes)
    → set alloc h key value ≡ some h'
    → h'.slots ≡ (remove h key).0.slots ++ new_header key value ∷ []
unfolding set remove
set-slots alloc h h' key value e = ground (arith, e)

-- When the allocator grants the memory, ParsedHeader_set succeeds.
pub set-succeeds :
    (h : Headers) (key value : Bytes) → (h' : Headers) × (set true h key value ≡ some h')
unfolding set
set-succeeds h key value =
    let r = (remove h key).0 in
    elim (Bool-cases (leb r.headerslen (headersused r + 1))) [
      | inl e ↦ rw e (_, refl)
      | inr e ↦ rw e (_, refl)
    ]

-- A ParsedHeader_set that succeeds keeps the keys different and leaves room for one more header:
-- the array has been doubled in time.
pub set-IsHeaders :
    (alloc : Bool) (h h' : Headers) (key value : Bytes)
    → IsHeaders h
    → set alloc h key value ≡ some h'
    → IsHeaders h'
unfolding set remove
set-IsHeaders alloc h h' key value c e = record {
  room = ground (
    arith,
    e,
    c.room,
    length-clear_slot key h.slots,
    length-append (clear_slot key h.slots) (new_header key value ∷ []),
  );
  slots = rw (set-slots alloc h h' key value e) (
      append-AreSlots key value (clear_slot key h.slots) (clear_slot-AreSlots key h.slots c.slots)
        (get_slot-clear_slot_self key h.slots c.slots));
}

-- After a ParsedHeader_set that succeeds the key has the new value, and every other key the
-- header that it had, in an array whose keys differ.
pub get-set :
    (alloc : Bool) (h h' : Headers) (key value k : Bytes)
    → IsHeaders h
    → set alloc h key value ≡ some h'
    → get h' k ≡ (if same key k then some (new_header key value) else get h k)
unfolding set remove get
get-set alloc h h' key value k c e =
    let gone = get_slot-clear_slot_self key h.slots c.slots in
    let found = get_slot-append k key value (clear_slot key h.slots) gone in
    let slots = set-slots alloc h h' key value e in
    elim (Bool-cases (same key k)) [
      | inl f ↦ ground (arith, f, found, slots)
      | inr f ↦ ground (arith, f, found, slots, get_slot-clear_slot_other k key h.slots f)
    ]
