-- ===== src/Relay/Sending.antt =====
-- What the send loop gets out, and how far the buffer grows.
use multi_threaded_proxy_ser.Base.{
  ℕ, zero, suc, ◌+◌, ◌*◌, ◌%◌, ◌^◌, ◌≤◌, ◌<◌, ◌≡◌, ◌≢◌, refl, ap, ◌∙◌, sym, Bool, true, false,
  Option, none, some, [], ◌∷◌, ◌++◌, append_assoc, append-nil, arith, Bytes, length, take, drop,
  Option-cases, inl, inr, Bool-cases,
}
use multi_threaded_proxy_ser.Relay.Loop.{Sent, send_all, int_ge, grow}

-- `send` of some bytes fails or sends at least one of them, and no more than there are.
abbrev pub Sends : (ℕ → ℕ → Option ℕ) → Type 0
Sends send = (t n k : ℕ) → send t (suc n) ≡ some k → (0 < k) × (k ≤ suc n)

abbrev pub is_empty : Bytes → Bool
is_empty [] = true
is_empty (c ∷ s) = false

is_empty_lem : (s : Bytes) → is_empty s ≡ true → s ≡ []
is_empty_lem [] e = refl
is_empty_lem (c ∷ s) e = cc

-- What got out begins the bytes, and is all of them when the loop is complete.
pub record IsSent (buf : Bytes) (s : Sent) : Type 0 where
  pub rest : Bytes
  pub parts : buf ≡ s.out ++ rest
  pub whole : s.complete ≡ is_empty rest

-- A complete loop got everything out.
pub IsSent-out : (buf : Bytes) (s : Sent) → IsSent buf s → s.complete ≡ true → s.out ≡ buf
IsSent-out buf s sent all =
    sym (append-nil s.out)
    ∙ ap (λ x. s.out ++ x) (sym (is_empty_lem sent.rest (sym sent.whole ∙ all)))
    ∙ sym sent.parts

length-drop : (n : ℕ) (s : Bytes) → length (drop n s) ≤ length s
length-drop zero s = omega arith
length-drop (suc n) [] = omega arith
length-drop (suc n) (c ∷ s) = omega (arith, length-drop n s)

length-drop_cons : (n c : ℕ) (s : Bytes) → 0 < n → length (drop n (c ∷ s)) ≤ length s
length-drop_cons zero c s h = absurd (omega arith)
length-drop_cons (suc n) c s h = length-drop n s

pub take-append_drop : (n : ℕ) (s : Bytes) → s ≡ take n s ++ drop n s
take-append_drop zero s = refl
take-append_drop (suc n) [] = refl
take-append_drop (suc n) (c ∷ s) = ap (◌∷◌ c) (take-append_drop n s)

pub send_all-IsSent :
    (fuel : ℕ) (send : ℕ → ℕ → Option ℕ) (t : ℕ) (buf : Bytes)
    → Sends send
    → length buf < fuel
    → (s : Sent) × (send_all fuel send t buf ≡ some s) × IsSent buf s
unfolding send_all
send_all-IsSent zero send t buf p f = absurd (omega arith)
send_all-IsSent (suc fuel) send t [] p f =
    (_, refl, record { rest = []; parts = refl; whole = refl })
send_all-IsSent (suc fuel) send t (c ∷ buf) p f = elim (Option-cases (send t (suc (length buf)))) [
  | inl n ↦ (
    record { out = []; complete = false; clock = suc t },
    ground (arith, n),
    record { rest = c ∷ buf; parts = refl; whole = refl },
  )
  | inr (k, e) ↦
      let some_sent = p t (length buf) k e in
      let shorter = length-drop_cons k c buf some_sent.0 in
      let (s, run, sent) =
        send_all-IsSent fuel send (suc t) (drop k (c ∷ buf)) p (omega (arith, f, shorter)) in
      (
        record s { out = take k (c ∷ buf) ++ s.out },
        ground (arith, e, run),
        record {
          rest = sent.rest;
          parts =
              take-append_drop k (c ∷ buf)
              ∙ ap (λ x. take k (c ∷ buf) ++ x) sent.parts
              ∙ sym (append_assoc (take k (c ∷ buf)) s.out sent.rest);
          whole = sent.whole;
        },
      )
]

-- A loop that is not complete has stopped at a call that failed, its last one.
pub send_all-stopped :
    (fuel : ℕ) (send : ℕ → ℕ → Option ℕ) (t : ℕ) (buf : Bytes) (s : Sent)
    → send_all fuel send t buf ≡ some s
    → s.complete ≡ false
    → (i : ℕ) × (n : ℕ) × (s.clock ≡ suc i) × (send i n ≡ none)
unfolding send_all
send_all-stopped zero send t buf s e stopped = cc
send_all-stopped (suc fuel) send t [] s e stopped = ground (arith, e, stopped)
send_all-stopped (suc fuel) send t (c ∷ buf) s e stopped =
    elim (Option-cases (send t (suc (length buf)))) [
      | inl n ↦ (t, suc (length buf), ground (arith, e, n), n)
      | inr (k, f) ↦ elim (Option-cases (send_all fuel send (suc t) (drop k (c ∷ buf)))) [
        | inl n ↦ absurd (ground (arith, e, f, n))
        | inr (s', g) ↦
            let same_end : (s'.complete ≡ s.complete) × (s'.clock ≡ s.clock) =
              (ground (arith, e, f, g), ground (arith, e, f, g)) in
            let (i, n, last, failed) =
              send_all-stopped fuel send (suc t) (drop k (c ∷ buf)) s' g (same_end.0 ∙ stopped) in
            (i, n, sym same_end.1 ∙ last, failed)
      ]
    ]

-- Without a failure the loop is complete.
pub send_all-complete :
    (fuel : ℕ) (send : ℕ → ℕ → Option ℕ) (t : ℕ) (buf : Bytes) (s : Sent)
    → ((i n : ℕ) → send i n ≢ none)
    → send_all fuel send t buf ≡ some s
    → s.complete ≡ true
unfolding send_all
send_all-complete zero send t buf s p e = cc
send_all-complete (suc fuel) send t [] s p e = ground (arith, e)
send_all-complete (suc fuel) send t (c ∷ buf) s p e =
    elim (Option-cases (send t (suc (length buf)))) [
      | inl n ↦ absurd (p t (suc (length buf)) n)
      | inr (k, f) ↦ elim (Option-cases (send_all fuel send (suc t) (drop k (c ∷ buf)))) [
        | inl n ↦ ground (arith, e, f, n)
        | inr (s', g) ↦
            let ih = send_all-complete fuel send (suc t) (drop k (c ∷ buf)) s' p g in
            ground (arith, e, f, g, ih)
      ]
    ]

-- Doubling passes `need` before it leaves the range of an `int`.
pub grow-lt :
    (fuel need size : ℕ)
    → need < 2 ^ 30
    → 0 < size
    → size < 2 ^ 31
    → suc need < size + fuel
    → 0 < fuel
    → (size' : ℕ) × (grow fuel need size ≡ some size') × (need < size') × (size' < 2 ^ 31)
unfolding grow
grow-lt zero need size a b c d e = absurd (omega arith)
grow-lt (suc fuel) need size a b c d e = elim (Bool-cases (int_ge need size)) [
  | inl g ↦
      let reached : size ≤ need = ground (arith, g, c) in
      let (size', run, more, small) =
        grow-lt fuel need (size * 2 % 2 ^ 32) a (omega arith) (omega arith) (omega arith)
          (omega arith) in
      (size', ground (arith, g, run), more, small)
  | inr g ↦ (size, ground (arith, g), ground (arith, g), c)
]
