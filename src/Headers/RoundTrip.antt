-- ===== src/Headers/RoundTrip.antt =====
-- ParsedHeader_printHeaders and the loop that reads headers back.
use multi_threaded_proxy_ser.Base.{
  ℕ, zero, suc, ◌≤◌, ◌<◌, ◌≡◌, refl, Bool, true, false, none, some, List, [], ◌∷◌, ◌++◌, Bytes,
  same, same_swap, length, length-append, arith, Option-cases, Bool-cases, inl, inr, append_assoc,
  append-nil, ◌∙◌, sym, subst, ap,
}
use multi_threaded_proxy_ser.Headers.Text.{
  cr, lf, colon, space, crlf, Lacks, split_at-append, find_crlf-append,
}
use multi_threaded_proxy_ser.Headers.Store.{
  ParsedHeader, Headers, get_slot, clear_slot, remove, set, new_header, create, print_line,
  print_lines, print_headers, line_len, lines_len, headers_len,
}
use multi_threaded_proxy_ser.Headers.Laws.{AreSlots, IsHeaders, get_slot-append}
use multi_threaded_proxy_ser.Headers.Setting.{set-slots, set-succeeds}
use multi_threaded_proxy_ser.Headers.Parse.{parsed, parse, parse_lines, next_line, at_end, stored}

-- A line as it stands before the text `rest`.
abbrev printed : Bytes → Bytes → Bytes → Bytes
printed k v rest = k ++ colon ∷ space ∷ (v ++ cr ∷ lf ∷ rest)

parse-printed :
    (alloc : ℕ → Bool) (h : Headers) (k v rest : Bytes)
    → Lacks colon k
    → Lacks cr v
    → parse alloc h (printed k v rest) ≡ stored (set (alloc h.headerslen) h k v)
unfolding parse
parse-printed alloc h k v rest a b =
    ground
      (arith, split_at-append colon k (space ∷ (v ++ cr ∷ lf ∷ rest)) a, find_crlf-append v rest b)

Lacks-line : (k v : Bytes) → Lacks cr k → Lacks cr v → Lacks cr (k ++ colon ∷ space ∷ v)
Lacks-line [] v a b = (refl, (refl, b))
Lacks-line (c ∷ k) v a b = (a.0, Lacks-line k v a.1 b)

next_line-printed :
    (k v rest : Bytes) → Lacks cr k → Lacks cr v → next_line (printed k v rest) ≡ some rest
unfolding next_line
next_line-printed k v rest a b =
    let found = find_crlf-append (k ++ colon ∷ space ∷ v) rest (Lacks-line k v a b) in
    let line = append_assoc k (colon ∷ space ∷ v) (cr ∷ lf ∷ rest) in ground (arith, found, line)

at_end-printed : (k v rest : Bytes) → Lacks cr k → at_end (printed k v rest) ≡ false
at_end-printed [] v rest a = refl
at_end-printed (c ∷ []) v rest a = ground (arith, a)
at_end-printed (c ∷ d ∷ k) v rest a = ground (arith, a)

-- The headers that have a key, which are those that are printed.
abbrev pub live : List ParsedHeader → List ParsedHeader
live [] = []
live (ph ∷ l) = elim ph.key [ none ↦ live l | some _ ↦ ph ∷ live l ]

-- No key has a colon or a CR in it, and no value a CR.
abbrev pub ArePrintable : List ParsedHeader → Type 0
ArePrintable [] = Unit {0}
ArePrintable (ph ∷ l) =
    elim ph.key [ none ↦ Unit {0} | some k ↦ Lacks colon k × Lacks cr k × Lacks cr ph.value ]
    × ArePrintable l

-- None of the slots `s` has a key of `l`.
abbrev AreNew : List ParsedHeader → List ParsedHeader → Type 0
AreNew s [] = Unit {0}
AreNew s (ph ∷ l) = elim ph.key [ none ↦ Unit {0} | some k ↦ get_slot k s ≡ none ] × AreNew s l

AreNew-nil : (l : List ParsedHeader) → AreNew [] l
unfolding get_slot
AreNew-nil [] = tt
AreNew-nil (ph ∷ l) = elim (Option-cases ph.key) [
  | inl e ↦ ground (arith, e, AreNew-nil l)
  | inr (k, e) ↦ ground (arith, e, AreNew-nil l)
]

AreNew-snoc :
    (s l : List ParsedHeader) (key value : Bytes)
    → AreNew s l
    → get_slot key s ≡ none
    → get_slot key l ≡ none
    → AreNew (s ++ new_header key value ∷ []) l
unfolding get_slot
AreNew-snoc s [] key value a n m = tt
AreNew-snoc s (ph ∷ l) key value a n m = elim (Option-cases ph.key) [
  | inl e ↦ ground (arith, e, AreNew-snoc s l key value a.1 n (ground (arith, m, e)))
  | inr (k, e) ↦ elim (Bool-cases (same k key)) [
    | inl f ↦ ground (arith, e, f, m)
    | inr f ↦
        let absent : get_slot key l ≡ none = ground (arith, m, e, f) in
        let rest = AreNew-snoc s l key value a.1 n absent in
        let new = rw e at a.0 in
        ground (arith, e, f, rest, new, same_swap k key f, get_slot-append k key value s n)
  ]
]

clear_slot-none :
    (key : Bytes) (l : List ParsedHeader) → get_slot key l ≡ none → clear_slot key l ≡ l
unfolding get_slot clear_slot
clear_slot-none key [] n = refl
clear_slot-none key (ph ∷ l) n = ground (arith, n, clear_slot-none key l)

-- One turn of the loop.
read_line :
    (h h' : Headers) (fuel : ℕ) (k v rest : Bytes)
    → Lacks colon k
    → Lacks cr k
    → Lacks cr v
    → set true h k v ≡ some h'
    → parse_lines (λ n. true) (suc fuel) h (printed k v rest) ≡ parse_lines (λ n. true) fuel h' rest
unfolding parse_lines
read_line h h' fuel k v rest a b c e =
    let result = parse-printed (λ n. true) h k v rest a c in
    ground (arith, e, result, at_end-printed k v rest b, next_line-printed k v rest b c)

print_lines-printed :
    (ph : ParsedHeader) (l : List ParsedHeader) (k : Bytes)
    → ph.key ≡ some k
    → print_lines (ph ∷ l) ++ crlf ≡ printed k ph.value (print_lines l ++ crlf)
unfolding print_lines print_line
print_lines-printed ph l k e =
    let rest = print_lines l ++ crlf in
    let line = append_assoc (k ++ colon ∷ space ∷ (ph.value ++ crlf)) (print_lines l) crlf in
    let inner = append_assoc k (colon ∷ space ∷ (ph.value ++ crlf)) rest in
    let value = append_assoc ph.value crlf rest in ground (arith, e, line, inner, value)

-- Headers that are printed behind `h` and read into it.
read_back :
    (l : List ParsedHeader) (h : Headers) (fuel : ℕ)
    → AreSlots l
    → ArePrintable l
    → AreNew h.slots l
    → length l < fuel
    → (h' : Headers) × (parse_lines (λ n. true) fuel h (print_lines l ++ crlf) ≡ some (parsed h'))
      × (h'.slots ≡ h.slots ++ live l)
unfolding parse_lines print_lines print_line remove
read_back l h zero s p n f = absurd (omega arith)
read_back [] h (suc fuel) s p n f = (h, refl, sym (append-nil h.slots))
read_back (ph ∷ l) h (suc fuel) s p n f = elim (Option-cases ph.key) [
  | inl e ↦
      let r = read_back l h (suc fuel) s.1 p.1 n.1 (omega (arith, f)) in
      (r.0, ground (arith, e, r.1), ground (arith, e, r.2))
  | inr (k, e) ↦
      let chars = rw e at p.0 in
      let absent = rw e at n.0 in
      let slot = rw e at s.0 in
      let added = set-succeeds h k ph.value in
      let slots =
        set-slots true h added.0 k ph.value added.1
        ∙ ap (◌++ new_header k ph.value ∷ []) (clear_slot-none k h.slots absent) in
      let new = AreNew-snoc h.slots l k ph.value n.1 absent slot.0 in
      let r =
        read_back l added.0 fuel s.1 p.1 (subst (λ x. AreNew x l) (sym slots) new)
          (omega (arith, f)) in
      let line = print_lines-printed ph l k e in
      let turn =
        read_line h added.0 fuel k ph.value (print_lines l ++ crlf) chars.0 chars.1 chars.2
          added.1 in
      let all = append_assoc h.slots (new_header k ph.value ∷ []) (live l) in
      (r.0, ground (arith, line, turn, r.1), ground (arith, e, slot, r.2, all, slots))
]

length-print_line : (ph : ParsedHeader) → length (print_line ph) ≡ line_len ph
unfolding print_line line_len
length-print_line ph = elim (Option-cases ph.key) [
  | inl e ↦ ground (arith, e)
  | inr (k, e) ↦
      let outer = length-append k (colon ∷ space ∷ (ph.value ++ crlf)) in
      ground (arith, e, outer, length-append ph.value crlf)
]

pub length-print_lines : (l : List ParsedHeader) → length (print_lines l) ≡ lines_len l
unfolding print_lines lines_len
length-print_lines [] = refl
length-print_lines (ph ∷ l) =
    let both = length-append (print_line ph) (print_lines l) in
    omega (arith, both, length-print_line ph, length-print_lines l)

-- What ParsedHeader_printHeaders writes is read back into a new request by the loop of
-- ParsedRequest_parse: the headers that are printed come back, in order, each with its key, its
-- value and their lengths. The keys differ and have neither a colon nor a CR, the values have no
-- CR, the allocator grants the memory, and the fuel is more than the array has slots.
pub parse_lines-print_headers :
    (h : Headers) (len fuel : ℕ) (text : Bytes)
    → IsHeaders h
    → ArePrintable h.slots
    → length h.slots < fuel
    → print_headers true h len ≡ some text
    → (h' : Headers) × (parse_lines (λ n. true) fuel create text ≡ some (parsed h'))
      × (h'.slots ≡ live h.slots)
unfolding print_headers create
parse_lines-print_headers h len fuel text c p f e =
    let r = read_back h.slots create fuel c.slots p (AreNew-nil h.slots) f in
    (r.0, ground (arith, e, r.1), r.2)

-- The room that ParsedHeader_printHeaders asks for is what it writes.
pub length-print_headers :
    (h : Headers) (len : ℕ) (text : Bytes)
    → print_headers true h len ≡ some text
    → (length text ≡ headers_len true h) × (length text ≤ len)
unfolding print_headers headers_len
length-print_headers h len text e =
    let written = length-append (print_lines h.slots) crlf in
    let lines = length-print_lines h.slots in
    (ground (arith, e, written, lines), ground (arith, e, written, lines))
