-- ===== src/Memory/SetLaws.antt =====
-- Setting a header: no block is lost or freed twice.
use multi_threaded_proxy_ser.Base.{
  ℕ, ◌+◌, ◌*◌, ◌<◌, ◌≡◌, refl, ap, Bool, true, false, List, [], ◌∷◌, ◌++◌, Bytes, leb, length,
  count, count-append, arith, Bool-cases, inl, inr,
}
use multi_threaded_proxy_ser.Memory.Blocks.{
  Ptr, Blocks, pure, ◌>>=◌, malloc, free, touch, Owns, Owns-swap, Ends, and_then-Ends, Ends-weaken,
  malloc-Ends, free-Ends,
}
use multi_threaded_proxy_ser.Memory.Headers.{
  ParsedHeader, ParsedRequest, remove, realloc, make_room, append, new_slot, after_room, set,
}
use multi_threaded_proxy_ser.Memory.HeaderLaws.{
  slot_blocks, header_blocks, blocks, Owned, array_first, touch_headers-Ends, remove-Ends,
  slot_blocks-nonnull,
}

-- The array can be moved, and there is room for one more block in front.
abbrev pub Made : List Ptr → ParsedRequest × Bool → Blocks → Type 0
Made rest (pr, given) m = Owned rest pr m × (given ≡ true)

count-header_blocks :
    (x : ℕ) (l : List ParsedHeader) (new : ParsedHeader)
    → count x (header_blocks (l ++ new ∷ []))
      ≡ count x (slot_blocks new) + count x (header_blocks l)
count-header_blocks x [] new = omega (arith, count-append x (slot_blocks new) [])
count-header_blocks x (ph ∷ l) new = omega (
  arith,
  count-header_blocks x l new,
  count-append x (slot_blocks ph) (header_blocks l),
  count-append x (slot_blocks ph) (header_blocks (l ++ new ∷ [])),
)

module _ {m : Blocks} (rest : List Ptr) (pr : ParsedRequest) (o : Owned rest pr m) where
  realloc-Ends :
      Ends
        (λ p n. Owned rest (record pr { headers = p; headerslen = pr.headerslen * 2 }) n)
        (realloc true pr.headers m)
  unfolding realloc
  realloc-Ends =
      let others = pr.self ∷ pr.buf ∷ pr.path ∷ header_blocks pr.slots ++ rest in
      let Q = λ (p : Ptr) (n : Blocks).
        Owned rest (record pr { headers = p; headerslen = pr.headerslen * 2 }) n in
      and_then-Ends (λ _ n. Owns n others) Q (free pr.headers m) _
        (free-Ends pr.headers (array_first rest pr o.0))
        (λ _ n p.
          Ends-weaken (λ q k. (0 < q) × Owns k (q ∷ others)) Q (malloc n) (malloc-Ends p)
            (λ q k r. (
              Owns-swap (λ x. omega arith) r.1,
              record { array = ground (arith, r.0); room = omega (arith, o.1.room) },
            )))

  make_room-Ends : Ends (Made rest) (make_room true pr m)
  unfolding make_room
  make_room-Ends = elim (Bool-cases (leb pr.headerslen (length pr.slots + 1))) [
    | inl e ↦ rw e (
        and_then-Ends
          (λ p n. Owned rest (record pr { headers = p; headerslen = pr.headerslen * 2 }) n)
          (Made rest) (realloc true pr.headers m) _ realloc-Ends (λ p n r. (r, refl)))
    | inr e ↦ rw e (o, refl)
  ]

  appended :
      (x key value : ℕ) (text : Bytes)
      → 0 < key
      → count x (value ∷ key ∷ blocks pr ++ rest)
        ≡ count x (blocks (record pr { slots = pr.slots ++ new_slot key text value ∷ [] }) ++ rest)
  appended x key value text k =
      let new = new_slot key text value in
      let opened = slot_blocks-nonnull new (ground (arith, k)) in
      omega (
        arith,
        count-append x (header_blocks pr.slots) rest,
        count-append x (header_blocks (pr.slots ++ new ∷ [])) rest,
        count-header_blocks x pr.slots new,
        ap (count x) opened,
      )

  append-Ends : (text : Bytes) → Ends (Owned rest) (append pr text m)
  unfolding append
  append-Ends text =
      and_then-Ends (λ _ n. Owned rest pr n) (Owned rest) (touch pr.headers m) _
        (touch_headers-Ends rest pr o)
        (λ _ n p.
          and_then-Ends (λ key k. (0 < key) × Owns k (key ∷ blocks pr ++ rest)) (Owned rest)
            (malloc n)
            (λ key. (do
              value ← malloc
              pure (record pr { slots = pr.slots ++ new_slot key text value ∷ [] })))
            (malloc-Ends p.0)
            (λ key k q.
              and_then-Ends (λ value k. (0 < value) × Owns k (value ∷ key ∷ blocks pr ++ rest))
                (Owned rest) (malloc k)
                (λ value. pure (record pr { slots = pr.slots ++ new_slot key text value ∷ [] }))
                (malloc-Ends q.1)
                (λ value j r. (
                  Owns-swap (λ x. appended x key value text q.0) r.1,
                  record { array = p.1.array; room = p.1.room },
                ))))

pub two_first :
    (x key value : ℕ) (l rest : List ℕ)
    → count x (l ++ (key ∷ value ∷ rest)) ≡ count x (key ∷ value ∷ l ++ rest)
two_first x key value l rest =
    omega (arith, count-append x l (key ∷ value ∷ rest), count-append x l rest)

after_room-Ends :
    {m : Blocks} (rest : List Ptr) (key : Bytes) (room : ParsedRequest × Bool)
    → Made rest room m
    → Ends (Made rest) (after_room key room m)
after_room-Ends {m} rest key (roomy, true) o =
    and_then-Ends (Owned rest) (Made rest) (append roomy key m) (λ added. pure (added, true))
      (append-Ends rest roomy o.0 key) (λ added n p. (p, refl))
after_room-Ends rest key (roomy, false) o = absurd cc

pub set-Ends :
    {m : Blocks} (rest : List Ptr) (pr : ParsedRequest) (key : Bytes)
    → Owned rest pr m
    → Ends (Made rest) (set true pr key m)
unfolding set
set-Ends {m} rest pr key o =
    and_then-Ends (Owned rest) (Made rest) (remove pr key m) _ (remove-Ends rest pr o key)
      (λ removed n p.
        and_then-Ends (Made rest) (Made rest) (make_room true removed n) (after_room key)
          (make_room-Ends rest removed p) (λ room k q. after_room-Ends rest key room q))
