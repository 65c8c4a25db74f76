-- ===== src/Memory/HeaderLaws.antt =====
-- No ParsedHeader function leaks a block or frees one twice.
use multi_threaded_proxy_ser.Base.{
  ℕ, ◌<◌, ◌≡◌, refl, sym, subst, false, List, [], ◌∷◌, ◌++◌, Bytes, same, ◌==◌, if◌then◌else◌,
  count, count-append, arith, Bool-cases, inl, inr,
}
use multi_threaded_proxy_ser.Memory.Blocks.{
  Ptr, null, Blocks, pure, free, touch, Owns, Owns-swap, Ends, and_then-Ends, Ends-weaken,
  free-Ends, touch-Ends,
}
use multi_threaded_proxy_ser.Memory.Headers.{
  ParsedHeader, ParsedRequest, clear_slot, remove_slot, touch_used, touch_array, remove,
}

-- The blocks that belong to a header, to the headers, and to the whole object.
abbrev pub slot_blocks : ParsedHeader → List Ptr
slot_blocks ph = if ph.key == null then [] else ph.key ∷ ph.value ∷ []

abbrev pub header_blocks : List ParsedHeader → List Ptr
header_blocks [] = []
header_blocks (ph ∷ l) = slot_blocks ph ++ header_blocks l

abbrev pub blocks : ParsedRequest → List Ptr
blocks pr = pr.self ∷ pr.headers ∷ pr.buf ∷ pr.path ∷ header_blocks pr.slots

pub count-rotate : (q : ℕ) (a b c : List ℕ) → count q (a ++ b ++ c) ≡ count q (b ++ (a ++ c))
count-rotate q a b c = omega (
  arith,
  count-append q (a ++ b) c,
  count-append q a b,
  count-append q b (a ++ c),
  count-append q a c,
)

-- What the slots own is theirs, before and after.
abbrev pub Slots : List Ptr → List ParsedHeader → Blocks → Type 0
Slots rest l m = Owns m (header_blocks l ++ rest)

clear_slot-Ends :
    {m : Blocks} (ph : ParsedHeader) (l : List ParsedHeader) (rest : List Ptr)
    → Owns m (ph.key ∷ ph.value ∷ header_blocks l ++ rest)
    → Ends (Slots rest) (clear_slot ph l m)
clear_slot-Ends {m} ph l rest o =
    and_then-Ends (λ _ n. Owns n (ph.value ∷ header_blocks l ++ rest)) (Slots rest) (free ph.key m)
      _ (free-Ends ph.key o)
      (λ _ n o'.
        and_then-Ends (λ _ k. Owns k (header_blocks l ++ rest)) (Slots rest) (free ph.value n) _
          (free-Ends ph.value o') (λ _ k o''. o''))

pub slot_blocks-nonnull :
    (ph : ParsedHeader) → (ph.key == null) ≡ false → slot_blocks ph ≡ ph.key ∷ ph.value ∷ []
slot_blocks-nonnull ph e = rw e refl

remove_slot-Ends :
    {m : Blocks} (key : Bytes) (l : List ParsedHeader) (rest : List Ptr)
    → Owns m (header_blocks l ++ rest)
    → Ends (Slots rest) (remove_slot key l m)
unfolding remove_slot
remove_slot-Ends key [] rest o = o
remove_slot-Ends {m} key (ph ∷ l) rest o =
    let a = slot_blocks ph in
    let further = λ (n : Blocks) (p : Owns n (header_blocks (ph ∷ l) ++ rest)).
      and_then-Ends (Slots (a ++ rest)) (Slots rest) (remove_slot key l n) (λ l'. pure (ph ∷ l'))
        (remove_slot-Ends key l (a ++ rest)
          (Owns-swap (λ q. count-rotate q a (header_blocks l) rest) p))
        (λ l' k p'. Owns-swap (λ q. sym (count-rotate q a (header_blocks l') rest)) p') in
    elim (Bool-cases (ph.key == null)) [
      | inl e ↦ rw e (further m o)
      | inr e ↦
          let opened = slot_blocks-nonnull ph e in
          let R =
            λ (x : Unit {0}) (n : Blocks). Owns n (ph.key ∷ ph.value ∷ header_blocks l ++ rest) in
          rw e (
            and_then-Ends R (Slots rest) (touch ph.key m) _
              (touch-Ends ph.key e (ground arith)
                (subst (λ b. Owns m (b ++ header_blocks l ++ rest)) opened o))
              (λ x n p. elim (Bool-cases (same ph.text key)) [
                | inl f ↦ rw f (clear_slot-Ends ph l rest p)
                | inr f ↦
                    rw f (
                      further n (subst (λ b. Owns n (b ++ header_blocks l ++ rest)) (sym opened) p))
              ]))
    ]

pub record IsUsable (pr : ParsedRequest) : Type 0 where
  pub array : (pr.headers == null) ≡ false
  pub room : 0 < pr.headerslen

-- An object that owns its blocks beside `rest`, with an array.
abbrev pub Owned : List Ptr → ParsedRequest → Blocks → Type 0
Owned rest pr m = Owns m (blocks pr ++ rest) × IsUsable pr

-- With the headers' blocks, or the array, in front of all others.
abbrev pub Loose : List Ptr → ParsedRequest → List ParsedHeader → Blocks → Type 0
Loose rest pr l m = Owns m (header_blocks l ++ (pr.self ∷ pr.headers ∷ pr.buf ∷ pr.path ∷ rest))

module _ {m : Blocks} (rest : List Ptr) (pr : ParsedRequest) where
  pub loosen : Owns m (blocks pr ++ rest) → Loose rest pr pr.slots m
  loosen o =
      Owns-swap
        (λ q.
          count-rotate q (pr.self ∷ pr.headers ∷ pr.buf ∷ pr.path ∷ []) (header_blocks pr.slots)
            rest)
        o

  pub tighten :
      (l : List ParsedHeader)
      → Loose rest pr l m
      → Owns m (blocks (record pr { slots = l }) ++ rest)
  tighten l o =
      Owns-swap
        (λ q.
          sym
            (count-rotate q (pr.self ∷ pr.headers ∷ pr.buf ∷ pr.path ∷ []) (header_blocks l) rest))
        o

  pub array_first :
      Owns m (blocks pr ++ rest)
      → Owns m (pr.headers ∷ pr.self ∷ pr.buf ∷ pr.path ∷ header_blocks pr.slots ++ rest)
  array_first o = Owns-swap (λ q. omega arith) o

module _ {m : Blocks} (rest : List Ptr) (pr : ParsedRequest) (o : Owned rest pr m) where
  pub touch_headers-Ends : Ends (λ _ n. Owned rest pr n) (touch pr.headers m)
  touch_headers-Ends =
      Ends-weaken (λ _ n. Owns n (blocks pr ++ rest)) (λ _ n. Owned rest pr n) (touch pr.headers m)
        (touch-Ends pr.headers o.1.array (ground arith) o.0) (λ _ n p. (p, o.1))

  pub touch_used-Ends :
      (l : List ParsedHeader) → Ends (λ _ n. Owned rest pr n) (touch_used l pr.headers m)
  unfolding touch_used
  touch_used-Ends [] = o
  touch_used-Ends (ph ∷ l) = touch_headers-Ends

  pub remove-Ends : (key : Bytes) → Ends (Owned rest) (remove pr key m)
  unfolding remove
  remove-Ends key =
      and_then-Ends (λ _ n. Owned rest pr n) (Owned rest) (touch_array pr m) _
        (touch_used-Ends pr.slots)
        (λ _ n o'.
          and_then-Ends (Loose rest pr) (Owned rest) (remove_slot key pr.slots n) _
            (remove_slot-Ends key pr.slots _ (loosen rest pr o'.0))
            (λ l k p. (tighten rest pr l p, record { array = o'.1.array; room = o'.1.room })))
