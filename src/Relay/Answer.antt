-- ===== src/Relay/Answer.antt =====
-- What the loop as a whole leaves behind.
use multi_threaded_proxy_ser.Base.{
  ◌⊎◌, ℕ, suc, ◌+◌, ◌^◌, ◌<◌, ◌≤◌, ◌≡◌, refl, ap, ◌∙◌, sym, subst, Bool, false, Option, none, List,
  [], ◌∷◌, ◌++◌, append_assoc, append-nil, arith, Bytes, length, length-append, inl, inr,
  Bool-cases,
}
use multi_threaded_proxy_ser.Relay.Loop.{
  int_ge, Relay, cleanup, stored, no_memory, store, relay, relay_start,
}
use multi_threaded_proxy_ser.Relay.Sending.{
  Sends, IsSent-out, send_all-IsSent, send_all-stopped, grow-lt,
}

-- The bytes that the server sends, until a `recv` returns 0 or less.
abbrev pub answer : List Bytes → Bytes
answer [] = []
answer ([] ∷ answers) = []
answer ((c ∷ buf) ∷ answers) = (c ∷ buf) ++ answer answers

-- Why the loop was left: the client got `whole` and so did the copy; or the last `send` failed; or
-- the copy had no room for what the client got, and `realloc` refused a size that has.
pub data IsEnd (send : ℕ → ℕ → Option ℕ) (realloc : ℕ → Bool) (whole : Bytes) (r : Relay)
    : Type 0 where
  all_relayed : r.delivered ≡ whole → r.copied ≡ whole → IsEnd send realloc whole r
  send_fails : (t n : ℕ) → r.clock ≡ suc t → send t n ≡ none → IsEnd send realloc whole r
  realloc_fails :
      (n : ℕ)
      → r.size ≤ length r.delivered
      → length r.delivered < n
      → realloc n ≡ false
      → IsEnd send realloc whole r

-- The copy has room for its terminator, what the client got begins with the copy, and `whole` begins
-- with what the client got and is that unless a call failed.
pub record IsRelayed (send : ℕ → ℕ → Option ℕ) (realloc : ℕ → Bool) (whole : Bytes) (r : Relay)
    : Type 0 where
  pub room : length r.copied < r.size
  pub partial : Bytes
  pub delivered : r.delivered ≡ r.copied ++ partial
  pub rest : Bytes
  pub parts : whole ≡ r.delivered ++ rest
  pub end : IsEnd send realloc whole r

-- What `store` leaves of a buffer when there is room, or when the allocator gives it.
abbrev pub grown : Relay → Bytes → ℕ → Relay
grown r buf size = record r { copied = r.copied ++ buf; size = size }

pub store-cases :
    (fuel : ℕ) (realloc : ℕ → Bool) (r : Relay) (buf : Bytes)
    → length r.copied + length buf < 2 ^ 30
    → 0 < r.size
    → r.size < 2 ^ 31
    → suc (length r.copied + length buf) < r.size + fuel
    → 0 < fuel
    → ((store fuel realloc r buf ≡ no_memory)
        × (r.size ≤ length r.copied + length buf)
        × ((n : ℕ) × (length r.copied + length buf < n) × (realloc n ≡ false)))
      ⊎ ((size : ℕ) × (store fuel realloc r buf ≡ stored (grown r buf size))
          × (length r.copied + length buf < size)
          × (size < 2 ^ 31))
unfolding store
store-cases fuel realloc r buf a b c d e =
    let need = length r.copied + length buf in
    elim (Bool-cases (int_ge need r.size)) [
      | inl g ↦
          let (size, run, more, small) = grow-lt fuel need r.size a b c d e in
          elim (Bool-cases (realloc size)) [
            | inl given ↦ inr (size, ground (arith, g, run, given, more), more, small)
            | inr refused ↦
                inl (ground (arith, g, run, refused), ground (arith, g, c), (size, more, refused))
          ]
      | inr g ↦ inr (r.size, ground (arith, g, c), ground (arith, g), c)
    ]

chunk-parts :
    (copied delivered buf out rest tail : Bytes)
    → delivered ≡ copied
    → buf ≡ out ++ rest
    → copied ++ (buf ++ tail) ≡ (delivered ++ out) ++ (rest ++ tail)
chunk-parts copied delivered buf out rest tail same parts =
    ap (λ x. copied ++ (x ++ tail)) parts
    ∙ ap (λ x. copied ++ x) (append_assoc out rest tail)
    ∙ sym (append_assoc copied out (rest ++ tail))
    ∙ ap (λ x. (x ++ out) ++ (rest ++ tail)) (sym same)

module _ (fuel : ℕ) (send : ℕ → ℕ → Option ℕ) (realloc : ℕ → Bool) (sends : Sends send) where
  relay-from :
      (answers : List Bytes) (r : Relay)
      → r.delivered ≡ r.copied
      → length r.copied < r.size
      → r.size < 2 ^ 31
      → length r.copied + length (answer answers) < 2 ^ 30
      → suc (length r.copied + length (answer answers)) < fuel
      → (r' : Relay) × (relay fuel send realloc answers r ≡ cleanup r')
        × IsRelayed send realloc (r.copied ++ answer answers) r'
  unfolding relay
  relay-from [] r same room small fits f = (
    r,
    refl,
    record {
      room = room;
      partial = [];
      delivered = same ∙ sym (append-nil r.copied);
      rest = [];
      parts = ap (λ x. x ++ []) (sym same);
      end = all_relayed (same ∙ sym (append-nil r.copied)) (sym (append-nil r.copied));
    },
  )
  relay-from ([] ∷ answers) r same room small fits f = (
    r,
    refl,
    record {
      room = room;
      partial = [];
      delivered = same ∙ sym (append-nil r.copied);
      rest = [];
      parts = ap (λ x. x ++ []) (sym same);
      end = all_relayed (same ∙ sym (append-nil r.copied)) (sym (append-nil r.copied));
    },
  )
  relay-from ((c ∷ buf) ∷ answers) r same room small fits f =
      let len = length-append (c ∷ buf) (answer answers) in
      let (s, run, sent) =
        send_all-IsSent fuel send r.clock (c ∷ buf) sends (omega (arith, f, len)) in
      let r' : Relay = record r { delivered = r.delivered ++ s.out; clock = s.clock } in
      let whole = r.copied ++ ((c ∷ buf) ++ answer answers) in
      let early : IsEnd send realloc whole r' → IsRelayed send realloc whole r' = λ end. record {
        room = room;
        partial = s.out;
        delivered = ap (λ x. x ++ s.out) same;
        rest = sent.rest ++ answer answers;
        parts =
            chunk-parts r.copied r.delivered (c ∷ buf) s.out sent.rest (answer answers) same
              sent.parts;
        end = end;
      } in
      elim (Bool-cases s.complete) [
        | inr stopped ↦
            let (t, n, last, failed) = send_all-stopped fuel send r.clock (c ∷ buf) s run stopped in
            (r', ground (arith, run, stopped), early (send_fails t n last failed))
        | inl all ↦
            elim (store-cases fuel realloc r' (c ∷ buf) (omega (arith, fits, len))
              (omega (arith, room)) small (omega (arith, f, len)) (omega (arith, f))) [
                | inl (refused, full, (n, more, denied)) ↦
                    let out : length r'.delivered ≡ length r.copied + length (c ∷ buf) =
                      ap length (ap (r.delivered ++◌) (IsSent-out (c ∷ buf) s sent all))
                      ∙ ap (λ x. length (x ++ (c ∷ buf))) same
                      ∙ length-append r.copied (c ∷ buf) in
                    (
                      r',
                      ground (arith, run, all, refused),
                      early (
                          realloc_fails n (omega (arith, out, full)) (omega (arith, out, more))
                            denied),
                    )
                | inr (size, kept, more, small') ↦
                    let next = grown r' (c ∷ buf) size in
                    let held = length-append r.copied (c ∷ buf) in
                    let same' =
                      ap (λ x. x ++ s.out) same
                      ∙ ap (λ x. r.copied ++ x) (IsSent-out (c ∷ buf) s sent all) in
                    let (r'', rest, out) =
                      relay-from answers next same' (omega (arith, held, more)) small'
                        (omega (arith, held, fits, len)) (omega (arith, held, f, len)) in
                    (
                      r'',
                      ground (arith, run, all, kept, rest),
                      subst (λ w. IsRelayed send realloc w r'')
                          (append_assoc r.copied (c ∷ buf) (answer answers)) out,
                    )
              ]
      ]

-- For an answer of less than 1 GiB, with more fuel than it has bytes, handle_request leaves its
-- loop and has written nothing outside of `temp_buffer`, which has room for the terminator. The
-- client got the whole answer, and the copy for the cache is all of it, unless the last `send`
-- failed, or `realloc` refused a size above what the client got when the buffer had no room for
-- it; then the client got a beginning of the answer, and the copy is a beginning of that. A `send`
-- fails or sends at least one byte.
pub relay-IsRelayed :
    (fuel : ℕ) (send : ℕ → ℕ → Option ℕ) (realloc : ℕ → Bool) (answers : List Bytes)
    → Sends send
    → length (answer answers) < 2 ^ 30
    → suc (length (answer answers)) < fuel
    → (r : Relay) × (relay fuel send realloc answers relay_start ≡ cleanup r)
      × IsRelayed send realloc (answer answers) r
relay-IsRelayed fuel send realloc answers sends fits f =
    relay-from fuel send realloc sends answers relay_start refl (omega arith) (omega arith)
      (omega (arith, fits)) (omega (arith, f))
