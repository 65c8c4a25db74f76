-- ===== src/Memory/Lost.antt =====
-- What a failed realloc of the array of headers leads to.
use multi_threaded_proxy_ser.Base.{
  suc, ◌+◌, ◌*◌, ◌≤◌, ◌<◌, ◌≡◌, refl, ap, subst, Bool, true, false, List, [], ◌∷◌, ◌++◌, Bytes,
  same, ◌==◌, if◌then◌else◌, leb, ltb, length, arith, Bool-cases, inl, inr,
}
use multi_threaded_proxy_ser.Memory.Blocks.{
  Ptr, null, Blocks, Run, Cmd, ok, fault, wild, out_of_fuel, pure, and_then, set_live, free, touch,
  Owns, Owns-swap, Ends, and_then-Ends,
}
use multi_threaded_proxy_ser.Memory.Headers
use multi_threaded_proxy_ser.Memory.Headers.{
  ParsedHeader, ParsedRequest, clear_slot, remove_slot, touch_used, remove, realloc, make_room,
  after_room, set,
}
use multi_threaded_proxy_ser.Memory.HeaderLaws.{header_blocks, Owned, remove-Ends}
use multi_threaded_proxy_ser.Memory.DestroyLaws.{free_if-Ends}
use multi_threaded_proxy_ser.Memory.Request.{destroy}

-- If the run comes back, then with `Q`.
abbrev Returns : {A : Type 0} → (A → Blocks → Type 0) → Run A → Type 0
Returns Q (ok a m) = Q a m
Returns Q fault = Unit {0}
Returns Q wild = Unit {0}
Returns Q out_of_fuel = Unit {0}

and_then-Returns :
    {A B : Type 0} (Q : A → Blocks → Type 0) (R : B → Blocks → Type 0) (r : Run A) (k : A → Cmd B)
    → Returns Q r
    → ((a : A) (m : Blocks) → Q a m → Returns R (k a m))
    → Returns R (and_then r k)
and_then-Returns Q R (ok a m) k e next = next a m e
and_then-Returns Q R fault k e next = tt
and_then-Returns Q R wild k e next = tt
and_then-Returns Q R out_of_fuel k e next = tt

any-Returns : {A : Type 0} (r : Run A) → Returns (λ a m. Unit {0}) r
any-Returns (ok a m) = tt
any-Returns fault = tt
any-Returns wild = tt
any-Returns out_of_fuel = tt

both-Ends :
    {A : Type 0} (Q R : A → Blocks → Type 0) (r : Run A)
    → Ends Q r
    → Returns R r
    → Ends (λ a m. Q a m × R a m) r
both-Ends Q R (ok a m) e f = (e, f)
both-Ends Q R fault e f = e
both-Ends Q R wild e f = tt
both-Ends Q R out_of_fuel e f = e

abbrev AsLong : List ParsedHeader → List ParsedHeader → Blocks → Type 0
AsLong l after m = length after ≡ length l

clear_slot-AsLong :
    (ph : ParsedHeader) (l : List ParsedHeader) (m : Blocks)
    → Returns (AsLong (ph ∷ l)) (clear_slot ph l m)
clear_slot-AsLong ph l m =
    and_then-Returns (λ _ n. Unit {0}) (AsLong (ph ∷ l)) (free ph.key m) _ (any-Returns _)
      (λ _ n x.
        and_then-Returns (λ _ n. Unit {0}) (AsLong (ph ∷ l)) (free ph.value n) _ (any-Returns _)
          (λ _ k y. refl))

remove_slot-AsLong :
    (key : Bytes) (l : List ParsedHeader) (m : Blocks) → Returns (AsLong l) (remove_slot key l m)
unfolding remove_slot
remove_slot-AsLong key [] m = refl
remove_slot-AsLong key (ph ∷ l) m =
    let further = λ (n : Blocks).
      and_then-Returns (AsLong l) (AsLong (ph ∷ l)) (remove_slot key l n) (λ l'. pure (ph ∷ l'))
        (remove_slot-AsLong key l n) (λ l' k e. ap suc e) in
    elim (Bool-cases (ph.key == null)) [
      | inl e ↦ rw e (further m)
      | inr e ↦ rw e (
          and_then-Returns (λ _ n. Unit {0}) (AsLong (ph ∷ l)) (touch ph.key m) _ (any-Returns _)
            (λ _ n x. elim (Bool-cases (same ph.text key)) [
              | inl f ↦ rw f (clear_slot-AsLong ph l n)
              | inr f ↦ rw f (further n)
            ]))
    ]

-- Removing a header keeps the slots that are used, and the room.
abbrev KeepsRoom : ParsedRequest → ParsedRequest → Blocks → Type 0
KeepsRoom pr after m = (length after.slots ≡ length pr.slots) × (after.headerslen ≡ pr.headerslen)

remove-KeepsRoom :
    (pr : ParsedRequest) (key : Bytes) (m : Blocks) → Returns (KeepsRoom pr) (remove pr key m)
unfolding remove
remove-KeepsRoom pr key m =
    and_then-Returns (λ _ n. Unit {0}) (KeepsRoom pr) (touch_used pr.slots pr.headers m) _
      (any-Returns _)
      (λ _ n x.
        and_then-Returns (AsLong pr.slots) (KeepsRoom pr) (remove_slot key pr.slots n) _
          (remove_slot-AsLong key pr.slots n) (λ l k e. (e, refl)))

-- The array is lost to the object, which is still said to have slots.
abbrev lost : ParsedRequest → ParsedRequest
lost pr = record pr { headers = null; headerslen = pr.headerslen * 2 }

free_if-live :
    {m : Blocks} {l : List Ptr} (p : Ptr)
    → Owns m (p ∷ l)
    → (n : Blocks) × ((if p == null then pure tt else free p) m ≡ ok tt n)
unfolding free
free_if-live {m} p o = elim (Bool-cases (p == null)) [
  | inl e ↦ (m, rw e refl)
  | inr e ↦
      let alive : m.live p ≡ true = ground (arith, o.alive p, e) in
      (record m { live = set_live m p false }, ground (arith, e, alive))
]

free_if-Owns :
    {m n : Blocks} {l : List Ptr} (p : Ptr)
    → Owns m (p ∷ l)
    → (if p == null then pure tt else free p) m ≡ ok tt n
    → Owns n l
free_if-Owns {l} p o run = subst (Ends (λ (x : Unit {0}) k. Owns k l)) run (free_if-Ends p o)

touch_used-null : (l : List ParsedHeader) (m : Blocks) → 0 < length l → touch_used l null m ≡ fault
unfolding touch_used touch
touch_used-null [] m k = absurd (omega (arith, k))
touch_used-null (ph ∷ l) m k = refl

destroy-lost :
    {m : Blocks} (rest : List Ptr) (pr : ParsedRequest)
    → 0 < length pr.slots
    → Owned rest pr m
    → destroy (lost pr) m ≡ fault
unfolding destroy Headers.destroy
destroy-lost {m} rest pr some_slots o =
    let array = pr.self ∷ pr.headers ∷ header_blocks pr.slots ++ rest in
    let first : Owns m (pr.buf ∷ pr.path ∷ array) = Owns-swap (λ x. omega arith) o.0 in
    let (n, run) = free_if-live pr.buf first in
    let second : Owns n (pr.path ∷ array) = free_if-Owns pr.buf first run in
    let (k, run') = free_if-live pr.path second in
    let room : ltb 0 (pr.headerslen * 2) ≡ true = ground (arith, o.1.room) in
    rw (run, run', room, touch_used-null pr.slots k some_slots) refl

-- The outcome is -1, and destroying what is left reads through NULL.
abbrev pub Breaks : ParsedRequest × Bool → Blocks → Type 0
Breaks (after, done) n = (done ≡ false) × (destroy after n ≡ fault)

touch-array :
    {m : Blocks} (rest : List Ptr) (pr : ParsedRequest)
    → Owned rest pr m
    → touch pr.headers m ≡ ok tt m
unfolding touch
touch-array {m} rest pr o =
    let alive : m.live pr.headers ≡ true = ground (arith, o.0.alive pr.headers, o.1.array) in
    rw (o.1.array, alive) refl

make_room-Breaks :
    {m : Blocks} (rest : List Ptr) (pr : ParsedRequest) (key : Bytes)
    → pr.headerslen ≤ length pr.slots + 1
    → 0 < length pr.slots
    → Owned rest pr m
    → Ends Breaks (and_then (make_room false pr m) (after_room key))
unfolding make_room realloc
make_room-Breaks {m} rest pr key full some_slots o =
    let no_room : leb pr.headerslen (length pr.slots + 1) ≡ true = ground (arith, full) in
    let touched = touch-array rest pr o in
    rw (no_room, o.1.array, touched) (refl, destroy-lost rest pr some_slots o)

-- When the array of headers is full, at least one header is left of those that were set, and realloc
-- gives no memory, ParsedHeader_set returns -1, and ParsedRequest_destroy then reads through NULL.
pub set-Breaks :
    {m : Blocks} (rest : List Ptr) (pr : ParsedRequest) (key : Bytes)
    → pr.headerslen ≤ length pr.slots + 1
    → 0 < length pr.slots
    → Owned rest pr m
    → Ends Breaks (set false pr key m)
unfolding set
set-Breaks {m} rest pr key full some_slots o =
    and_then-Ends (λ after n. Owned rest after n × KeepsRoom pr after n) Breaks (remove pr key m) _
      (both-Ends (Owned rest) (KeepsRoom pr) (remove pr key m) (remove-Ends rest pr o key)
        (remove-KeepsRoom pr key m))
      (λ after n p.
        make_room-Breaks rest after key (omega (arith, p.1.0, p.1.1, full))
          (omega (arith, p.1.0, some_slots)) p.0)
