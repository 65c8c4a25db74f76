-- ===== src/Relay/Whole.antt =====
-- What the loop leaves behind when nothing fails.
use multi_threaded_proxy_ser.Base.{
  ℕ, suc, ◌+◌, ◌^◌, ◌<◌, ◌≡◌, ◌≢◌, refl, ap, ◌∙◌, sym, Bool, true, Option, none, List, [], ◌∷◌,
  ◌++◌, append_assoc, append-nil, arith, Bytes, length, length-append, Option-cases, inl, inr,
  Bool-cases,
}
use multi_threaded_proxy_ser.Relay.Loop.{
  int_ge, grow, Relay, cleanup, no_memory, copy, store, relay, relay_start,
}
use multi_threaded_proxy_ser.Relay.Sending.{Sends, IsSent-out, send_all-IsSent, send_all-complete}
use multi_threaded_proxy_ser.Relay.Answer.{answer, grown, store-cases}

store-given :
    (fuel : ℕ) (realloc : ℕ → Bool) (r : Relay) (buf : Bytes)
    → ((n : ℕ) → realloc n ≡ true)
    → store fuel realloc r buf ≢ no_memory
unfolding store
store-given fuel realloc r buf given e =
    let need = length r.copied + length buf in
    elim (Bool-cases (int_ge need r.size)) [
      | inl g ↦ elim (Option-cases (grow fuel need r.size)) [
        | inl n ↦ ground (arith, e, g, n)
        | inr (size, k) ↦ ground (arith, e, g, k, given size)
      ]
      | inr g ↦ ground (arith, e, g)
    ]

module _ (fuel : ℕ) (send : ℕ → ℕ → Option ℕ) (realloc : ℕ → Bool) (sends : Sends send)
    (sent : (i n : ℕ) → send i n ≢ none) (given : (n : ℕ) → realloc n ≡ true) where
  relay-whole_from :
      (answers : List Bytes) (r : Relay)
      → r.delivered ≡ r.copied
      → length r.copied < r.size
      → r.size < 2 ^ 31
      → length r.copied + length (answer answers) < 2 ^ 30
      → suc (length r.copied + length (answer answers)) < fuel
      → (r' : Relay) × (relay fuel send realloc answers r ≡ cleanup r')
        × (r'.delivered ≡ r.copied ++ answer answers)
        × (r'.copied ≡ r.copied ++ answer answers)
  unfolding relay
  relay-whole_from [] r same room small fits f =
      (r, refl, same ∙ sym (append-nil r.copied), sym (append-nil r.copied))
  relay-whole_from ([] ∷ answers) r same room small fits f =
      (r, refl, same ∙ sym (append-nil r.copied), sym (append-nil r.copied))
  relay-whole_from ((c ∷ buf) ∷ answers) r same room small fits f =
      let len = length-append (c ∷ buf) (answer answers) in
      let (s, run, is_sent) =
        send_all-IsSent fuel send r.clock (c ∷ buf) sends (omega (arith, f, len)) in
      let all = send_all-complete fuel send r.clock (c ∷ buf) s sent run in
      let r' : Relay = record r { delivered = r.delivered ++ s.out; clock = s.clock } in
      elim (store-cases fuel realloc r' (c ∷ buf) (omega (arith, fits, len)) (omega (arith, room))
        small (omega (arith, f, len)) (omega (arith, f))) [
          | inl (refused, full, at) ↦ absurd (store-given fuel realloc r' (c ∷ buf) given refused)
          | inr (size, kept, more, small') ↦
              let next = grown r' (c ∷ buf) size in
              let held = length-append r.copied (c ∷ buf) in
              let same' =
                ap (λ x. x ++ s.out) same
                ∙ ap (λ x. r.copied ++ x) (IsSent-out (c ∷ buf) s is_sent all) in
              let (r'', rest, out, copy) =
                relay-whole_from answers next same' (omega (arith, held, more)) small'
                  (omega (arith, held, fits, len)) (omega (arith, held, f, len)) in
              let assoc = append_assoc r.copied (c ∷ buf) (answer answers) in
              (r'', ground (arith, run, all, kept, rest), out ∙ assoc, copy ∙ assoc)
        ]

-- When no `send` and no `realloc` fails and each `send` sends at least one byte, handle_request
-- sends the client the whole answer of less than 1 GiB and copies the whole of it for the cache,
-- with more fuel than the answer has bytes.
pub relay-whole :
    (fuel : ℕ) (send : ℕ → ℕ → Option ℕ) (realloc : ℕ → Bool) (answers : List Bytes)
    → Sends send
    → ((i n : ℕ) → send i n ≢ none)
    → ((n : ℕ) → realloc n ≡ true)
    → length (answer answers) < 2 ^ 30
    → suc (length (answer answers)) < fuel
    → (r : Relay) × (relay fuel send realloc answers relay_start ≡ cleanup r)
      × (r.delivered ≡ answer answers)
      × (r.copied ≡ answer answers)
relay-whole fuel send realloc answers sends sent given fits f =
    relay-whole_from fuel send realloc sends sent given answers relay_start refl (omega arith)
      (omega arith) (omega (arith, fits)) (omega (arith, f))
