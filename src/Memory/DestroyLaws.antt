-- ===== src/Memory/DestroyLaws.antt =====
-- ParsedRequest_destroy frees all that an object owns, once, and nothing else.
use multi_threaded_proxy_ser.Base.{
  ◌<◌, ◌≡◌, refl, subst, true, false, List, [], ◌∷◌, ◌++◌, ◌==◌, if◌then◌else◌, ltb, count, arith,
  Bool-cases, inl, inr,
}
use multi_threaded_proxy_ser.Memory.Blocks.{
  Ptr, null, Blocks, pure, free, Owns, Owns-same, Owns-swap, Ends, and_then-Ends, free-Ends,
  touch-Ends,
}
use multi_threaded_proxy_ser.Memory.Headers
use multi_threaded_proxy_ser.Memory.Headers.{ParsedHeader, ParsedRequest, touch_used, destroy_slots}
use multi_threaded_proxy_ser.Memory.HeaderLaws.{
  IsUsable, slot_blocks, slot_blocks-nonnull, header_blocks, Owned, count-rotate,
}
use multi_threaded_proxy_ser.Memory.Request.{destroy_headers, destroy}

touch_all-Ends :
    {m : Blocks} {o : List Ptr} (l : List ParsedHeader) (p : Ptr)
    → (p == null) ≡ false
    → 0 < count p o
    → Owns m o
    → Ends (λ _ n. Owns n o) (touch_used l p m)
unfolding touch_used
touch_all-Ends [] p e k own = own
touch_all-Ends (ph ∷ l) p e k own = touch-Ends p e k own

destroy_slots-Ends :
    {m : Blocks} (l : List ParsedHeader) (rest : List Ptr)
    → Owns m (header_blocks l ++ rest)
    → Ends (λ _ n. Owns n rest) (destroy_slots l m)
unfolding destroy_slots
destroy_slots-Ends [] rest o = o
destroy_slots-Ends {m} (ph ∷ l) rest o = elim (Bool-cases (ph.key == null)) [
  | inl e ↦
      let closed : slot_blocks ph ≡ [] = rw e refl in
      rw e (destroy_slots-Ends l rest (subst (λ b. Owns m (b ++ header_blocks l ++ rest)) closed o))
  | inr e ↦
      let opened = slot_blocks-nonnull ph e in
      let others = header_blocks l ++ rest in
      rw e (
        and_then-Ends (λ _ n. Owns n (ph.value ∷ others)) (λ _ n. Owns n rest) (free ph.key m) _
          (free-Ends ph.key (subst (λ b. Owns m (b ++ header_blocks l ++ rest)) opened o))
          (λ _ n p.
            and_then-Ends (λ _ k. Owns k others) (λ _ k. Owns k rest) (free ph.value n) _
              (free-Ends ph.value p) (λ _ k q. destroy_slots-Ends l rest q)))
]

pub free_if-Ends :
    {m : Blocks} {l : List Ptr} (p : Ptr)
    → Owns m (p ∷ l)
    → Ends (λ _ n. Owns n l) ((if p == null then pure tt else free p) m)
free_if-Ends p o = elim (Bool-cases (p == null)) [
  | inl e ↦ rw e (Owns-same (λ q k. ground (arith, e, k)) o)
  | inr e ↦ rw e (free-Ends p o)
]

module _ {m : Blocks} (rest : List Ptr) (pr : ParsedRequest) (u : IsUsable pr) where
  destroy_array-Ends :
      Owns m (pr.self ∷ pr.headers ∷ header_blocks pr.slots ++ rest)
      → Ends (λ after n. Owns n (after.self ∷ rest)) (Headers.destroy pr m)
  unfolding Headers.destroy
  destroy_array-Ends o =
      let all = pr.self ∷ pr.headers ∷ header_blocks pr.slots ++ rest in
      let two = pr.self ∷ pr.headers ∷ rest in
      let Q = λ (after : ParsedRequest) (n : Blocks). Owns n (after.self ∷ rest) in
      and_then-Ends (λ _ n. Owns n all) Q (touch_used pr.slots pr.headers m) _
        (touch_all-Ends pr.slots pr.headers u.array (ground arith) o)
        (λ _ n p.
          and_then-Ends (λ _ n. Owns n two) Q (destroy_slots pr.slots n) _
            (destroy_slots-Ends pr.slots two (
              Owns-swap
                (λ q. count-rotate q (pr.self ∷ pr.headers ∷ []) (header_blocks pr.slots) rest) p))
            (λ _ k q.
              and_then-Ends (λ _ n. Owns n (pr.self ∷ rest)) Q (free pr.headers k) _
                (free-Ends pr.headers (Owns-swap (λ x. omega arith) q)) (λ _ j r. r)))

  destroy_headers-Ends :
      Owns m (pr.self ∷ pr.headers ∷ header_blocks pr.slots ++ rest)
      → Ends (λ after n. Owns n (after.self ∷ rest)) (destroy_headers pr m)
  destroy_headers-Ends o =
      let some_room : ltb 0 pr.headerslen ≡ true = ground (arith, u.room) in
      rw some_room (destroy_array-Ends o)

-- ParsedRequest_destroy, on an object that owns its blocks, frees all of them, each once, and leaves
-- what else is in use.
pub destroy-Ends :
    {m : Blocks} (rest : List Ptr) (pr : ParsedRequest)
    → Owned rest pr m
    → Ends (λ _ n. Owns n rest) (destroy pr m)
unfolding destroy
destroy-Ends {m} rest pr o =
    let array = pr.self ∷ pr.headers ∷ header_blocks pr.slots ++ rest in
    let Q = λ (x : Unit {0}) (n : Blocks). Owns n rest in
    and_then-Ends (λ _ n. Owns n (pr.path ∷ array)) Q
      ((if pr.buf == null then pure tt else free pr.buf) m) _
      (free_if-Ends pr.buf (Owns-swap (λ x. omega arith) o.0))
      (λ _ n p.
        and_then-Ends (λ _ n. Owns n array) Q
          ((if pr.path == null then pure tt else free pr.path) n) _ (free_if-Ends pr.path p)
          (λ _ k q.
            and_then-Ends (λ after n. Owns n (after.self ∷ rest)) Q (destroy_headers pr k) _
              (destroy_headers-Ends rest pr o.1 q) (λ after j r. free-Ends after.self r)))
