-- ===== src/Headers/Text.antt =====
-- The searches in NUL-terminated text that the parser uses: index(s, ':') and strstr(s, "\r\n").
use multi_threaded_proxy_ser.Base.{
  ℕ, ◌+◌, ◌≡◌, refl, Bool, true, false, ◌&&◌, Option, none, some, [], ◌∷◌, ◌++◌, arith, Bytes, ◌==◌,
  if◌then◌else◌, length, drop,
}

abbrev pub cr : ℕ
cr = 13

abbrev pub lf : ℕ
lf = 10

abbrev pub colon : ℕ
colon = 58

abbrev pub space : ℕ
space = 32

abbrev pub crlf : Bytes
crlf = cr ∷ lf ∷ []

abbrev pub behind : ℕ → Option (Bytes × Bytes) → Option (Bytes × Bytes)
behind c none = none
behind c (some (s, t)) = some (c ∷ s, t)

-- `index(s, c)`: the text before the first `c`, and the text behind it.
unfoldable pub split_at : ℕ → Bytes → Option (Bytes × Bytes)
split_at c [] = none
split_at c (d ∷ s) = if d == c then some ([], s) else behind d (split_at c s)

-- `s[0] == '\r' && s[1] == '\n'`
abbrev pub starts_crlf : Bytes → Bool
starts_crlf [] = false
starts_crlf (c ∷ []) = false
starts_crlf (c ∷ d ∷ s) = c == cr && d == lf

-- `strstr(s, "\r\n")`: the text before the first CRLF, and the text from it on.
unfoldable pub find_crlf : Bytes → Option (Bytes × Bytes)
find_crlf [] = none
find_crlf (c ∷ s) = if starts_crlf (c ∷ s) then some ([], c ∷ s) else behind c (find_crlf s)

-- No byte of the text is `c`.
abbrev pub Lacks : ℕ → Bytes → Type 0
Lacks c [] = Unit {0}
Lacks c (d ∷ s) = ((d == c) ≡ false) × Lacks c s

pub split_at-append : (c : ℕ) (s t : Bytes) → Lacks c s → split_at c (s ++ c ∷ t) ≡ some (s, t)
unfolding split_at
split_at-append c [] t l = ground arith
split_at-append c (d ∷ s) t l = ground (arith, split_at-append c s t l.1)

pub find_crlf-append :
    (s t : Bytes) → Lacks cr s → find_crlf (s ++ cr ∷ lf ∷ t) ≡ some (s, cr ∷ lf ∷ t)
unfolding find_crlf
find_crlf-append [] t l = refl
find_crlf-append (d ∷ []) t l = ground arith
find_crlf-append (d ∷ e ∷ s) t l = ground (arith, find_crlf-append (e ∷ s) t l.1)

-- Nothing, or two parts of `n` bytes together, of which the second begins with CRLF.
abbrev pub IsSplit : ℕ → Option (Bytes × Bytes) → Type 0
IsSplit n none = Unit {0}
IsSplit n (some (a, b)) =
    (length a + length b ≡ n) × (starts_crlf b ≡ true) × (2 + length (drop 2 b) ≡ length b)

starts_crlf-drop : (s : Bytes) → starts_crlf s ≡ true → 2 + length (drop 2 s) ≡ length s
starts_crlf-drop [] e = cc
starts_crlf-drop (c ∷ []) e = cc
starts_crlf-drop (c ∷ d ∷ s) e = omega arith

pub find_crlf-IsSplit : (s : Bytes) → IsSplit (length s) (find_crlf s)
unfolding find_crlf
find_crlf-IsSplit [] = tt
find_crlf-IsSplit (c ∷ []) = ground arith
find_crlf-IsSplit (c ∷ d ∷ s) =
    ground (arith, find_crlf-IsSplit (d ∷ s), starts_crlf-drop (c ∷ d ∷ s))
