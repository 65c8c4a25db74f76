-- ===== src/Headers/Laws.antt =====
-- The headers as a table: room, keys and copies, and what get, set and remove do to it.
use multi_threaded_proxy_ser.Base.{
  ◌<◌, ◌≡◌, refl, sym, false, none, some, List, [], ◌∷◌, ◌++◌, Bytes, same, same→eq, same_swap,
  if◌then◌else◌, length, arith, Option-cases, Bool-cases, inl, inr, subst,
}
use multi_threaded_proxy_ser.Headers.Store.{
  ParsedHeader, Headers, get_slot, get, clear_slot, remove, new_header, headersused, create,
}

-- The slot of a key that none of the slots `l` behind it has, with its text and lengths as
-- ParsedHeader_set stores them; or a slot without a key.
abbrev pub IsSlot : ParsedHeader → List ParsedHeader → Type 0
IsSlot ph l = elim ph.key [
  | none ↦ Unit {0}
  | some k ↦ (get_slot k l ≡ none) × (ph ≡ new_header k ph.value)
]

abbrev pub AreSlots : List ParsedHeader → Type 0
AreSlots [] = Unit {0}
AreSlots (ph ∷ l) = IsSlot ph l × AreSlots l

-- The slots have different keys, and there is room for one more.
pub record IsHeaders (h : Headers) : Type 0 where
  pub room : headersused h < h.headerslen
  pub slots : AreSlots h.slots

pub create-IsHeaders : IsHeaders create
unfolding create get_slot
create-IsHeaders = record { room = ground arith; slots = tt }

pub length-clear_slot : (key : Bytes) (l : List ParsedHeader) → length (clear_slot key l) ≡ length l
unfolding clear_slot
length-clear_slot key [] = refl
length-clear_slot key (ph ∷ l) = ground (arith, length-clear_slot key l)

-- A key that is found nowhere stays unfound.
get_slot-clear_slot-none :
    (k key : Bytes) (l : List ParsedHeader)
    → get_slot k l ≡ none
    → get_slot k (clear_slot key l) ≡ none
unfolding get_slot clear_slot
get_slot-clear_slot-none k key [] e = refl
get_slot-clear_slot-none k key (ph ∷ l) e = ground (arith, get_slot-clear_slot-none k key l)

pub clear_slot-AreSlots :
    (key : Bytes) (l : List ParsedHeader) → AreSlots l → AreSlots (clear_slot key l)
unfolding clear_slot get_slot
clear_slot-AreSlots key [] a = tt
clear_slot-AreSlots key (ph ∷ l) a = elim (Option-cases ph.key) [
  | inl e ↦ ground (arith, e, clear_slot-AreSlots key l a.1)
  | inr (k, e) ↦
      let slot = rw e at a.0 in
      let others = get_slot-clear_slot-none k key l slot.0 in
      ground (arith, e, slot, others, clear_slot-AreSlots key l a.1)
]

-- The key that is removed is found no more, since no other slot has it.
pub get_slot-clear_slot_self :
    (key : Bytes) (l : List ParsedHeader) → AreSlots l → get_slot key (clear_slot key l) ≡ none
unfolding get_slot clear_slot
get_slot-clear_slot_self key [] a = refl
get_slot-clear_slot_self key (ph ∷ l) a = elim (Option-cases ph.key) [
  | inl e ↦ ground (arith, e, get_slot-clear_slot_self key l a.1)
  | inr (k, e) ↦ elim (Bool-cases (same k key)) [
    | inl f ↦
        let slot = rw e at a.0 in
        let absent = subst (λ x. get_slot x l ≡ none) (same→eq k key f) slot.0 in
        let others = get_slot-clear_slot-none key key l absent in ground (arith, e, f, others)
    | inr f ↦ ground (arith, e, f, get_slot-clear_slot_self key l a.1)
  ]
]

-- Another key's slot is the one that it was.
pub get_slot-clear_slot_other :
    (k key : Bytes) (l : List ParsedHeader)
    → same key k ≡ false
    → get_slot k (clear_slot key l) ≡ get_slot k l
unfolding get_slot clear_slot
get_slot-clear_slot_other k key [] n = refl
get_slot-clear_slot_other k key (ph ∷ l) n = elim (Option-cases ph.key) [
  | inl e ↦ ground (arith, e, get_slot-clear_slot_other k key l n)
  | inr (j, e) ↦ elim (Bool-cases (same j key)) [
    | inl f ↦
        let other = subst (λ x. same x k ≡ false) (sym (same→eq j key f)) n in
        ground (arith, e, f, other)
    | inr f ↦ ground (arith, e, f, get_slot-clear_slot_other k key l n)
  ]
]

-- After ParsedHeader_remove of `key` no header has it, and every other key has the header that it
-- had, in an array whose keys differ.
pub get-remove :
    (h : Headers) (key k : Bytes)
    → IsHeaders h
    → get (remove h key).0 k ≡ (if same key k then none else get h k)
unfolding get remove
get-remove h key k c = elim (Bool-cases (same key k)) [
  | inl e ↦
      let gone = get_slot-clear_slot_self key h.slots c.slots in
      rw e (subst (λ x. get_slot x (clear_slot key h.slots) ≡ none) (same→eq key k e) gone)
  | inr e ↦ rw e (get_slot-clear_slot_other k key h.slots e)
]

-- ParsedHeader_remove keeps the keys different and leaves room for one more header.
pub remove-IsHeaders : (h : Headers) (key : Bytes) → IsHeaders h → IsHeaders (remove h key).0
unfolding remove
remove-IsHeaders h key c = record {
  room = ground (arith, c.room, length-clear_slot key h.slots);
  slots = clear_slot-AreSlots key h.slots c.slots;
}

-- The last slot is reached when no other has the key.
pub get_slot-append :
    (k key value : Bytes) (l : List ParsedHeader)
    → get_slot key l ≡ none
    → get_slot k (l ++ new_header key value ∷ [])
      ≡ (if same key k then some (new_header key value) else get_slot k l)
unfolding get_slot
get_slot-append k key value [] n = refl
get_slot-append k key value (ph ∷ l) n = elim (Option-cases ph.key) [
  | inl e ↦ ground (arith, e, get_slot-append k key value l (ground (arith, n, e)))
  | inr (j, e) ↦ elim (Bool-cases (same j key)) [
    | inl f ↦ ground (arith, e, f, n)
    | inr f ↦ elim (Bool-cases (same j k)) [
      | inl g ↦
          let other = subst (λ x. same key x ≡ false) (same→eq j k g) (same_swap j key f) in
          ground (arith, e, f, g, other)
      | inr g ↦ ground (arith, e, f, g, get_slot-append k key value l (ground (arith, n, e, f)))
    ]
  ]
]
