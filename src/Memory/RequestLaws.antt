-- ===== src/Memory/RequestLaws.antt =====
-- ParsedRequest_create, and the ways out of ParsedRequest_parse without a request.
use multi_threaded_proxy_ser.Base.{◌<◌, ◌≡◌, refl, List, ◌∷◌, ◌++◌, arith}
use multi_threaded_proxy_ser.Memory.Blocks.{
  Ptr, null, Blocks, pure, malloc, free, Owns, Owns-same, Owns-swap, Ends, and_then-Ends,
  malloc-Ends, free-Ends,
}
use multi_threaded_proxy_ser.Memory.Headers.{ParsedRequest, new_object, create_headers}
use multi_threaded_proxy_ser.Memory.HeaderLaws.{IsUsable, blocks, Owned}
use multi_threaded_proxy_ser.Memory.LineLaws.{Kept}
use multi_threaded_proxy_ser.Memory.Request.{create, give_up, give_up_path, give_up_port}

-- A new object, which has no request yet.
abbrev pub New : List Ptr → ParsedRequest → Blocks → Type 0
New rest pr m = Owned rest pr m × (pr.buf ≡ null) × (pr.path ≡ null)

pub create-Ends : {m : Blocks} (rest : List Ptr) → Owns m rest → Ends (New rest) (create m)
unfolding create create_headers
create-Ends {m} rest o =
    and_then-Ends (λ self n. (0 < self) × Owns n (self ∷ rest)) (New rest) (malloc m) create_headers
      (malloc-Ends o)
      (λ self n p.
        and_then-Ends (λ headers k. (0 < headers) × Owns k (headers ∷ self ∷ rest)) (New rest)
          (malloc n) (λ headers. pure (new_object self headers)) (malloc-Ends p.1)
          (λ headers k q. (
            (
              Owns-same (λ x used. ground (arith, used)) q.1,
              record { array = ground (arith, q.0); room = omega arith },
            ),
            refl,
            refl,
          )))

module _ (rest : List Ptr) (pr : ParsedRequest) (u : IsUsable pr) (no_buf : pr.buf ≡ null)
    (no_path : pr.path ≡ null) where
  pub give_up-Ends :
      {m : Blocks} (tmp_buf buf : Ptr)
      → Owns m (buf ∷ tmp_buf ∷ blocks pr ++ rest)
      → Ends (Kept rest) (give_up pr tmp_buf buf m)
  give_up-Ends {m} tmp_buf buf o =
      and_then-Ends (λ _ n. Owns n (buf ∷ blocks pr ++ rest)) (Kept rest) (free tmp_buf m) _
        (free-Ends tmp_buf (Owns-swap (λ x. omega arith) o))
        (λ _ n p.
          and_then-Ends (λ _ k. Owns k (blocks pr ++ rest)) (Kept rest) (free buf n) _
            (free-Ends buf p)
            (λ _ k q. (
              Owns-same (λ x used. ground (arith, no_buf)) q,
              record { array = u.array; room = u.room },
            )))

  pub give_up_path-Ends :
      {m : Blocks} (tmp_buf buf : Ptr)
      → Owns m (buf ∷ tmp_buf ∷ blocks pr ++ rest)
      → Ends (Kept rest) (give_up_path pr tmp_buf buf m)
  give_up_path-Ends {m} tmp_buf buf o =
      and_then-Ends (λ _ n. Owns n (buf ∷ blocks pr ++ rest)) (Kept rest) (free tmp_buf m) _
        (free-Ends tmp_buf (Owns-swap (λ x. omega arith) o))
        (λ _ n p.
          and_then-Ends (λ _ k. Owns k (blocks pr ++ rest)) (Kept rest) (free buf n) _
            (free-Ends buf p)
            (λ _ k q. (
              Owns-same (λ x used. ground (arith, no_buf, no_path)) q,
              record { array = u.array; room = u.room },
            )))

  pub give_up_port-Ends :
      {m : Blocks} (tmp_buf buf path : Ptr)
      → Owns m (path ∷ buf ∷ tmp_buf ∷ blocks pr ++ rest)
      → Ends (Kept rest) (give_up_port pr tmp_buf buf path m)
  give_up_port-Ends {m} tmp_buf buf path o =
      and_then-Ends (λ _ n. Owns n (buf ∷ path ∷ blocks pr ++ rest)) (Kept rest) (free tmp_buf m) _
        (free-Ends tmp_buf (Owns-swap (λ x. omega arith) o))
        (λ _ n p.
          and_then-Ends (λ _ k. Owns k (path ∷ blocks pr ++ rest)) (Kept rest) (free buf n) _
            (free-Ends buf p)
            (λ _ k q.
              and_then-Ends (λ _ k. Owns k (blocks pr ++ rest)) (Kept rest) (free path k) _
                (free-Ends path q)
                (λ _ j r. (
                  Owns-same (λ x used. ground (arith, no_buf, no_path)) r,
                  record { array = u.array; room = u.room },
                ))))
