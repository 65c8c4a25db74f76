-- ===== src/Request/TokenLaws.antt =====
-- What one call of strtok_r does to a buffer whose parts are known.
use multi_threaded_proxy_ser.Base.{
  ℕ, suc, ◌+◌, ◌≡◌, refl, ap, ◌∙◌, true, false, ◌||◌, none, some, [], ◌∷◌, ◌++◌, arith, Bytes, ◌==◌,
  length, drop,
}
use multi_threaded_proxy_ser.Headers.Text.{Lacks}
use multi_threaded_proxy_ser.Request.Token.{
  ok, one_of, strspn, strcspn, byte_at, end_at, c_str, text_at, token_from, strtok_r, starts_with,
}

-- Every byte of the text is one of `delim`, and none of them is.
abbrev pub AllOf : Bytes → Bytes → Type 0
AllOf delim [] = Unit {0}
AllOf delim (c ∷ s) = (one_of delim c ≡ true) × AllOf delim s

abbrev pub NoneOf : Bytes → Bytes → Type 0
NoneOf delim [] = Unit {0}
NoneOf delim (c ∷ s) = ((c == 0) ≡ false) × (one_of delim c ≡ false) × NoneOf delim s

strspn-append :
    (delim lead : Bytes) (c : ℕ) (s : Bytes)
    → AllOf delim lead
    → one_of delim c ≡ false
    → strspn delim (lead ++ c ∷ s) ≡ ok (length lead)
unfolding strspn
strspn-append delim [] c s a n = ground (arith, n)
strspn-append delim (d ∷ lead) c s a n = ground (arith, strspn-append delim lead c s a.1 n)

strcspn-append :
    (delim tok : Bytes) (c : ℕ) (s : Bytes)
    → NoneOf delim tok
    → (c == 0 || one_of delim c) ≡ true
    → strcspn delim (tok ++ c ∷ s) ≡ ok (length tok)
unfolding strcspn
strcspn-append delim [] c s a n = ground (arith, n)
strcspn-append delim (d ∷ tok) c s a n =
    ground (arith, strcspn-append delim tok c s a.2 n, a.0, a.1)

pub drop-append : (pre s : Bytes) (n : ℕ) → drop (length pre + n) (pre ++ s) ≡ drop n s
drop-append [] s n = ground arith
drop-append (c ∷ pre) s n =
    let e : suc (length pre) + n ≡ suc (length pre + n) = omega arith in rw e (drop-append pre s n)

byte_at-append : (pre s : Bytes) (n : ℕ) → byte_at (pre ++ s) (length pre + n) ≡ byte_at s n
unfolding byte_at
byte_at-append [] s n = ground arith
byte_at-append (c ∷ pre) s n = ground (arith, byte_at-append pre s n)

end_at-append : (pre s : Bytes) (n : ℕ) → end_at (pre ++ s) (length pre + n) ≡ pre ++ end_at s n
unfolding end_at
end_at-append [] s n = ground arith
end_at-append (c ∷ pre) s n = ground (arith, end_at-append pre s n)

pub drop-length : (pre s : Bytes) → drop (length pre) (pre ++ s) ≡ s
drop-length [] s = refl
drop-length (c ∷ pre) s = drop-length pre s

byte_at-length : (pre : Bytes) (c : ℕ) (s : Bytes) → byte_at (pre ++ c ∷ s) (length pre) ≡ ok c
unfolding byte_at
byte_at-length [] c s = refl
byte_at-length (d ∷ pre) c s = byte_at-length pre c s

end_at-length :
    (pre : Bytes) (c : ℕ) (s : Bytes) → end_at (pre ++ c ∷ s) (length pre) ≡ pre ++ 0 ∷ s
unfolding end_at
end_at-length [] c s = refl
end_at-length (d ∷ pre) c s = ap (◌∷◌ d) (end_at-length pre c s)

c_str-append : (s t : Bytes) → Lacks 0 s → c_str (s ++ 0 ∷ t) ≡ ok s
unfolding c_str
c_str-append [] t l = refl
c_str-append (c ∷ s) t l = ground (arith, c_str-append s t l.1)

-- The text at a pointer.
pub text_at-append :
    (buf : Bytes) (p : ℕ) (pre s t : Bytes)
    → buf ≡ pre ++ (s ++ 0 ∷ t)
    → p ≡ length pre
    → Lacks 0 s
    → text_at buf p ≡ ok s
unfolding text_at
text_at-append buf p pre s t e q l = rw (e, q, drop-length pre (s ++ 0 ∷ t), c_str-append s t l)

starts_with_self : (prefix s : Bytes) → starts_with prefix (prefix ++ s) ≡ ok true
unfolding starts_with
starts_with_self [] s = refl
starts_with_self (c ∷ prefix) s = ground (arith, starts_with_self prefix s)

pub starts_with-append :
    (prefix buf : Bytes) (p : ℕ) (pre s : Bytes)
    → buf ≡ pre ++ (prefix ++ s)
    → p ≡ length pre
    → starts_with prefix (drop p buf) ≡ ok true
starts_with-append prefix buf p pre s e q =
    rw (e, q, drop-length pre (prefix ++ s)) (starts_with_self prefix s)

module _ (delim pre lead tok : Bytes) (c d : ℕ) (rest : Bytes) where
  token_from-next :
      NoneOf delim (c ∷ tok)
      → one_of delim d ≡ true
      → (d == 0) ≡ false
      → token_from delim (pre ++ (lead ++ (c ∷ tok ++ d ∷ rest))) (length pre + length lead)
        ≡ ok (record {
          buf = pre ++ (lead ++ (c ∷ tok ++ 0 ∷ rest));
          token = some (length pre + length lead);
          saveptr = length pre + length lead + suc (length tok) + 1;
        })
  unfolding token_from
  token_from-next n o z =
      let inner = c ∷ tok ++ d ∷ rest in
      let here = drop-append pre (lead ++ inner) (length lead) ∙ drop-length lead inner in
      let len = strcspn-append delim (c ∷ tok) d rest n (ground (arith, o)) in
      let deep : length pre + length lead + suc (length tok)
          ≡ length pre + (length lead + suc (length tok)) =
        omega arith in
      let found =
        byte_at-append pre (lead ++ inner) (length lead + suc (length tok))
        ∙ byte_at-append lead inner (suc (length tok))
        ∙ byte_at-length (c ∷ tok) d rest in
      let cut =
        end_at-append pre (lead ++ inner) (length lead + suc (length tok))
        ∙ ap (λ x. pre ++ x) (end_at-append lead inner (suc (length tok)))
        ∙ ap (λ x. pre ++ (lead ++ x)) (end_at-length (c ∷ tok) d rest) in
      ground (arith, here, len, deep, found, cut, z)

  token_from-last :
      NoneOf delim (c ∷ tok)
      → token_from delim (pre ++ (lead ++ (c ∷ tok ++ 0 ∷ rest))) (length pre + length lead)
        ≡ ok (record {
          buf = pre ++ (lead ++ (c ∷ tok ++ 0 ∷ rest));
          token = some (length pre + length lead);
          saveptr = length pre + length lead + suc (length tok);
        })
  unfolding token_from
  token_from-last n =
      let inner = c ∷ tok ++ 0 ∷ rest in
      let here = drop-append pre (lead ++ inner) (length lead) ∙ drop-length lead inner in
      let len = strcspn-append delim (c ∷ tok) 0 rest n refl in
      let deep : length pre + length lead + suc (length tok)
          ≡ length pre + (length lead + suc (length tok)) =
        omega arith in
      let found =
        byte_at-append pre (lead ++ inner) (length lead + suc (length tok))
        ∙ byte_at-append lead inner (suc (length tok))
        ∙ byte_at-length (c ∷ tok) 0 rest in
      ground (arith, here, len, deep, found)

-- Leading delimiters are skipped, up to a byte that is none.
strtok_r-skip :
    (delim pre lead : Bytes) (c : ℕ) (s : Bytes)
    → AllOf delim lead
    → one_of delim c ≡ false
    → (c == 0) ≡ false
    → strtok_r delim (pre ++ (lead ++ c ∷ s)) (length pre)
      ≡ token_from delim (pre ++ (lead ++ c ∷ s)) (length pre + length lead)
unfolding strtok_r
strtok_r-skip delim pre lead c s a n z =
    let here = drop-length pre (lead ++ c ∷ s) in
    let len = strspn-append delim lead c s a n in
    let found = byte_at-append pre (lead ++ c ∷ s) (length lead) ∙ byte_at-length lead c s in
    ground (arith, here, len, found, z)

module _ (delim buf : Bytes) (p : ℕ) (pre lead : Bytes) where
  -- A token that a delimiter ends, which is overwritten.
  pub strtok_r-next :
      (c : ℕ) (tok : Bytes) (d : ℕ) (rest buf' : Bytes) (token saveptr : ℕ)
      → buf ≡ pre ++ (lead ++ (c ∷ tok ++ d ∷ rest))
      → p ≡ length pre
      → AllOf delim lead
      → NoneOf delim (c ∷ tok)
      → one_of delim d ≡ true
      → (d == 0) ≡ false
      → buf' ≡ pre ++ (lead ++ (c ∷ tok ++ 0 ∷ rest))
      → token ≡ length pre + length lead
      → saveptr ≡ length pre + length lead + suc (length tok) + 1
      → strtok_r delim buf p ≡ ok (record { buf = buf'; token = some token; saveptr = saveptr })
  strtok_r-next c tok d rest buf' token saveptr e q a n o z e' t s =
      rw (e, q, e', t, s)
        (strtok_r-skip delim pre lead c (tok ++ d ∷ rest) a n.1 n.0
          ∙ token_from-next delim pre lead tok c d rest n o z)

  -- The last token of the text.
  pub strtok_r-last :
      (c : ℕ) (tok rest : Bytes) (token saveptr : ℕ)
      → buf ≡ pre ++ (lead ++ (c ∷ tok ++ 0 ∷ rest))
      → p ≡ length pre
      → AllOf delim lead
      → NoneOf delim (c ∷ tok)
      → token ≡ length pre + length lead
      → saveptr ≡ length pre + length lead + suc (length tok)
      → strtok_r delim buf p ≡ ok (record { buf = buf; token = some token; saveptr = saveptr })
  strtok_r-last c tok rest token saveptr e q a n t s =
      rw (e, q, t, s)
        (strtok_r-skip delim pre lead c (tok ++ 0 ∷ rest) a n.1 n.0
          ∙ token_from-last delim pre lead tok c 0 rest n)

-- No token is left.
pub strtok_r-none :
    (delim buf : Bytes) (p : ℕ) (pre rest : Bytes)
    → buf ≡ pre ++ 0 ∷ rest
    → p ≡ length pre
    → one_of delim 0 ≡ false
    → strtok_r delim buf p ≡ ok (record { buf = buf; token = none; saveptr = p })
unfolding strtok_r strspn
strtok_r-none delim buf p pre rest e q n =
    let here = drop-length pre (0 ∷ rest) in
    let found = byte_at-length pre 0 rest in rw (e, q) (ground (arith, here, found, n))
