-- ===== src/Worker/Receive.antt =====
-- The loop of thread_fn that receives a request into a buffer of MAX_BYTES bytes.
use multi_threaded_proxy_ser.Base.{
  ℕ, zero, suc, ◌+◌, ◌-◌, ◌≤◌, ◌<◌, ◌≡◌, refl, ap, ◌∙◌, sym, subst, Option, none, some, List, [],
  ◌∷◌, ◌++◌, Bytes, if◌then◌else◌, take-length, length, length-append, take, drop,
  take_of_length-le, length-take, arith, append_assoc, append-nil, Bool-cases, inl, inr,
}
use multi_threaded_proxy_ser.Headers.Text.{Lacks}
use multi_threaded_proxy_ser.Request.Token.{Result, ok, fault, ◌>>=◌, c_str}
use multi_threaded_proxy_ser.Request.TokenLaws.{drop-append}
use multi_threaded_proxy_ser.Request.Parse.{has_blank_line}

abbrev pub max_bytes : ℕ
max_bytes = 4096

-- The last result of `recv`: more than 0, 0, or less.
pub data Last : Type 0 where
  some_bytes : Last
  disconnected : Last
  failed : Last

pub record Received : Type 0 where
  pub buffer : Bytes
  pub last : Last

-- `calloc(MAX_BYTES, 1)`
abbrev pub zeros : ℕ → Bytes
zeros zero = []
zeros (suc n) = 0 ∷ zeros n

-- The buffer with `chunk` written from `at` on.
abbrev pub write_at : Bytes → ℕ → Bytes → Bytes
write_at buffer at chunk = take at buffer ++ (chunk ++ drop (at + length chunk) buffer)

-- `recv(socket, buffer + at, MAX_BYTES - at, 0)`, and the loop from there on. Each element of
-- `answers` is what the client sends until then, or `none` for a result of -1; nothing, or no room,
-- is the result 0. `fault` is a text whose end lies behind the buffer.
unfoldable pub receive : List (Option Bytes) → Bytes → ℕ → Result Received
unfolding c_str has_blank_line
receive [] buffer at = ok (record { buffer = buffer; last = disconnected })
receive (none ∷ answers) buffer at = ok (record { buffer = buffer; last = failed })
receive (some bytes_in ∷ answers) buffer at = elim (take (max_bytes - at) bytes_in) [
  | [] ↦ ok (record { buffer = buffer; last = disconnected })
  | c ∷ chunk ↦
      let buffer' = write_at buffer at (c ∷ chunk) in
      c_str buffer' >>= λ text.
      if has_blank_line text
      then ok (record { buffer = buffer'; last = some_bytes })
      else receive answers buffer' (length text)
]

-- The text that the answers make, up to the first that completes a blank line.
abbrev pub gather : List (Option Bytes) → Bytes → Bytes × Last
gather [] text = (text, disconnected)
gather (none ∷ answers) text = (text, failed)
gather (some [] ∷ answers) text = (text, disconnected)
gather (some (c ∷ chunk) ∷ answers) text =
    let rest = gather answers (text ++ c ∷ chunk) in
    if has_blank_line (text ++ c ∷ chunk) then (text ++ c ∷ chunk, some_bytes) else rest

-- What the client sends has no NUL, and there are fewer than `room` bytes of it.
abbrev pub AreTexts : ℕ → List (Option Bytes) → Type 0
AreTexts room [] = Unit {0}
AreTexts room (none ∷ answers) = AreTexts room answers
AreTexts room (some s ∷ answers) =
    Lacks 0 s × (length s < room) × AreTexts (room - length s) answers

pub Lacks-append : (s t : Bytes) → Lacks 0 s → Lacks 0 t → Lacks 0 (s ++ t)
Lacks-append [] t a b = b
Lacks-append (c ∷ s) t a b = (a.0, Lacks-append s t a.1 b)

pub c_str-append : (s t : Bytes) → Lacks 0 s → c_str (s ++ 0 ∷ t) ≡ ok s
unfolding c_str
c_str-append [] t a = ground arith
c_str-append (c ∷ s) t a = ground (arith, a.0, c_str-append s t a.1)

-- A text in the buffer, with zeros behind it.
abbrev pub padded : Bytes → Bytes
padded text = text ++ zeros (max_bytes - length text)

abbrev pub in_buffer : Bytes × Last → Received
in_buffer (text, last) = record { buffer = padded text; last = last }

pub drop-zeros : (m n : ℕ) → drop m (zeros n) ≡ zeros (n - m)
drop-zeros zero n = ground arith
drop-zeros (suc m) zero = ground arith
drop-zeros (suc m) (suc n) = let e : suc n - suc m ≡ n - m = omega arith in rw e (drop-zeros m n)

pub zeros-cons : (n : ℕ) → 0 < n → zeros n ≡ 0 ∷ zeros (n - 1)
zeros-cons zero h = absurd (omega (arith, h))
zeros-cons (suc n) h = let e : suc n - 1 ≡ n = omega arith in rw e refl

pub c_str-padded :
    (text : Bytes) → Lacks 0 text → length text < max_bytes → c_str (padded text) ≡ ok text
c_str-padded text l room =
    ap (λ z. c_str (text ++ z)) (zeros-cons (max_bytes - length text) (omega (arith, room)))
    ∙ c_str-append text (zeros (max_bytes - length text - 1)) l

write_at-padded : (text s : Bytes) → write_at (padded text) (length text) s ≡ padded (text ++ s)
write_at-padded text s =
    let n = max_bytes - length text in
    let behind = drop-append text (zeros n) (length s) ∙ drop-zeros (length s) n in
    let size : n - length s ≡ max_bytes - length (text ++ s) =
      omega (arith, length-append text s) in
    ap (λ x. x ++ (s ++ drop (length text + length s) (padded text))) (take-length text (zeros n))
    ∙ ap (λ x. text ++ (s ++ x)) (behind ∙ ap zeros size)
    ∙ sym (append_assoc text s (zeros (max_bytes - length (text ++ s))))

receive-gather_from :
    (answers : List (Option Bytes)) (text : Bytes)
    → Lacks 0 text
    → length text < max_bytes
    → AreTexts (max_bytes - length text) answers
    → receive answers (padded text) (length text) ≡ ok (in_buffer (gather answers text))
unfolding receive
receive-gather_from [] text l room a = refl
receive-gather_from (none ∷ answers) text l room a = refl
receive-gather_from (some [] ∷ answers) text l room a =
    let none_taken = take_of_length-le {A = ℕ} (max_bytes - length text) [] (omega arith) in
    ground (arith, none_taken)
receive-gather_from (some (c ∷ chunk) ∷ answers) text l room a =
    let s = c ∷ chunk in
    let both = length-append text s in
    let all_taken = take_of_length-le (max_bytes - length text) s (omega (arith, a.1)) in
    let l' = Lacks-append text s l a.0 in
    let room' : length (text ++ s) < max_bytes = omega (arith, both, a.1, room) in
    let left : max_bytes - length text - length s ≡ max_bytes - length (text ++ s) =
      omega (arith, both) in
    let ih =
      receive-gather_from answers (text ++ s) l' room' (subst (λ n. AreTexts n answers) left a.2) in
    let written = write_at-padded text s in
    let read = c_str-padded (text ++ s) l' room' in
    elim (Bool-cases (has_blank_line (text ++ s))) [
      | inl e ↦ ground (arith, all_taken, written, read, e)
      | inr e ↦ ground (arith, all_taken, written, read, e, ih)
    ]

-- What thread_fn receives is the text that the client's parts make, up to the part that completes
-- a blank line, in front of zeros. The parts have no NUL, and fewer than MAX_BYTES bytes together.
pub receive-gather :
    (answers : List (Option Bytes))
    → AreTexts max_bytes answers
    → receive answers (zeros max_bytes) 0 ≡ ok (in_buffer (gather answers []))
receive-gather answers a = receive-gather_from answers [] tt (omega arith) a

-- c_str
c_str-fault : (s : Bytes) → Lacks 0 s → c_str s ≡ fault
unfolding c_str
c_str-fault [] l = refl
c_str-fault (c ∷ s) l = ground (arith, l.0, c_str-fault s l.1)

full_buffer :
    (bytes_in : Bytes) (answers : List (Option Bytes)) (t : Bytes)
    → take max_bytes bytes_in ≡ t
    → length t ≡ max_bytes
    → Lacks 0 t
    → receive (some bytes_in ∷ answers) (zeros max_bytes) 0 ≡ fault
unfolding receive
full_buffer bytes_in answers [] e len l = absurd (omega (arith, len))
full_buffer bytes_in answers (c ∷ chunk) e len l =
    let nothing : max_bytes - length (c ∷ chunk) ≡ 0 = omega (arith, len) in
    let behind : drop (length (c ∷ chunk)) (zeros max_bytes) ≡ [] =
      drop-zeros (length (c ∷ chunk)) max_bytes ∙ ap zeros nothing in
    let place : 0 + length (c ∷ chunk) ≡ length (c ∷ chunk) = omega arith in
    let written : write_at (zeros max_bytes) 0 (c ∷ chunk) ≡ c ∷ chunk =
      ap (λ n. c ∷ chunk ++ drop n (zeros max_bytes)) place
      ∙ ap (λ x. c ∷ chunk ++ x) behind
      ∙ append-nil (c ∷ chunk) in
    let read = ap c_str written ∙ c_str-fault (c ∷ chunk) l in ground (arith, e, read)

-- A client whose first MAX_BYTES bytes arrive at once and have no NUL makes thread_fn look for the
-- end of the text behind its buffer.
pub receive-fault :
    (bytes_in : Bytes) (answers : List (Option Bytes))
    → max_bytes ≤ length bytes_in
    → Lacks 0 (take max_bytes bytes_in)
    → receive (some bytes_in ∷ answers) (zeros max_bytes) 0 ≡ fault
receive-fault bytes_in answers many l =
    full_buffer bytes_in answers (take max_bytes bytes_in) refl
      (omega (arith, many, length-take max_bytes bytes_in)) l
