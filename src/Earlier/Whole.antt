-- ===== src/Earlier/Whole.antt =====
-- What the loop of the earlier handle_request gets to the client.
use multi_threaded_proxy_ser.Base.{
  ℕ, suc, ◌+◌, ◌*◌, ◌^◌, ◌≤◌, ◌<◌, ◌≡◌, Option, none, some, List, [], ◌∷◌, ◌++◌, Bytes, length,
  take,
}
use multi_threaded_proxy_ser.Earlier.Relay.{
  Relay, Outcome, done, full, relay_start, max_bytes, after_turn,
}

-- Every `recv` but the last returns at least one byte and at most `MAX_BYTES - 1`.
abbrev pub AreAnswers : List Bytes → Type 0
AreAnswers [] = Unit {0}
AreAnswers (s ∷ l) = (0 < length s) × (length s < max_bytes) × AreAnswers l

-- What `send` takes of each answer, from the call `t` on, up to the first that fails.
abbrev pub sent_parts : (ℕ → ℕ → Option ℕ) → ℕ → List Bytes → Option Bytes
sent_parts send t [] = some []
sent_parts send t (s ∷ l) =
    let rest = sent_parts send (suc t) l in
    elim (send t (length s)) [
      | none ↦ none
      | some n ↦ elim rest [ none ↦ none | some b ↦ some (take n s ++ b) ]
    ]

-- What was sent of one `buf` is copied.
abbrev copied_part : Relay → Bytes → Relay
copied_part r part = after_turn r part (r.copied ++ part)

-- The buffer has room for one `recv` more and the terminator, and its size stays an `int`.
abbrev HasRoom : Relay → List Bytes → Type 0
HasRoom r answers =
    (length r.copied + max_bytes ≤ r.size) × (r.size + max_bytes * length answers < 2 ^ 31)

module _ (send : ℕ → ℕ → Option ℕ) (c : ℕ) (buf : Bytes) (answers : List Bytes) (r : Relay) (n : ℕ)
    (a : AreAnswers ((c ∷ buf) ∷ answers)) (room : HasRoom r ((c ∷ buf) ∷ answers))
    (e : send r.clock (suc (length buf)) ≡ some n) where
  abbrev part : Bytes
  part = take n (c ∷ buf)

abbrev pub IsDone : Relay → Bytes → Outcome → Type 0
IsDone r b o =
    (r' : Relay) × (o ≡ done r') × (r'.delivered ≡ r.delivered ++ b) × (r'.copied ≡ r.copied ++ b)

-- What the loop leaves, by what the calls of `send` took.
abbrev pub IsRelayed : Option Bytes → Outcome → Type 0
IsRelayed none o = o ≡ full
IsRelayed (some b) o = IsDone relay_start b o
