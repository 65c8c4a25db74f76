-- ===== src/Request/Form.antt =====
-- The form of a request line that the parser takes apart.
use multi_threaded_proxy_ser.Base.{
  ℕ, ◌≡◌, Bool, false, Option, none, some, [], ◌∷◌, ◌++◌, arith, Bytes, bytes, ◌==◌,
}
use multi_threaded_proxy_ser.Headers.Text.{colon, space, Lacks}
use multi_threaded_proxy_ser.Request.Token.{one_of}
use multi_threaded_proxy_ser.Request.TokenLaws.{NoneOf}
use multi_threaded_proxy_ser.Request.Line.{RequestLine}
use multi_threaded_proxy_ser.Request.Parse.{slash, scheme_delim}
use multi_threaded_proxy_ser.Request.Split.{IsWord}

-- What neither a protocol nor a host has in it.
abbrev pub addr_delim : Bytes
addr_delim = colon ∷ slash ∷ space ∷ []

abbrev pub IsPort : (Bytes → Bool) → Option Bytes → Type 0
IsPort bad_port none = Unit {0}
IsPort bad_port (some s) = IsWord (slash ∷ space ∷ []) s × (bad_port s ≡ false)

-- The path behind its first slash.
abbrev pub IsTail : Bytes → Type 0
IsTail [] = Unit {0}
IsTail (x ∷ q) = ((x == slash) ≡ false) × NoneOf (space ∷ []) (x ∷ q)

-- A request line whose parts are of the form that the parser takes apart.
pub record IsLine (bad_port : Bytes → Bool) (l : RequestLine) : Type 0 where
  pub method : l.method ≡ bytes "GET"
  pub protocol : IsWord addr_delim l.protocol
  pub host : IsWord addr_delim l.host
  pub port : IsPort bad_port l.port
  pub tail : Bytes
  pub path : l.path ≡ slash ∷ tail
  pub tail_fits : IsTail tail
  pub number : Bytes
  pub version : l.version ≡ bytes "HTTP/" ++ number
  pub ends : Lacks 0 number

pub NoneOf-sub :
    (D E s : Bytes) → ((c : ℕ) → one_of D c ≡ false → one_of E c ≡ false) → NoneOf D s → NoneOf E s
NoneOf-sub D E [] f n = tt
NoneOf-sub D E (c ∷ s) f n = (n.0, f c n.1, NoneOf-sub D E s f n.2)

pub NoneOf-append : (D s t : Bytes) → NoneOf D s → NoneOf D t → NoneOf D (s ++ t)
NoneOf-append D [] t n m = m
NoneOf-append D (c ∷ s) t n m = (n.0, n.1, NoneOf-append D s t n.2 m)

pub addr-scheme : (c : ℕ) → one_of addr_delim c ≡ false → one_of scheme_delim c ≡ false
addr-scheme c e = ground arith

pub addr-colon : (c : ℕ) → one_of addr_delim c ≡ false → one_of (colon ∷ []) c ≡ false
addr-colon c e = ground arith

pub addr-slash : (c : ℕ) → one_of addr_delim c ≡ false → one_of (slash ∷ []) c ≡ false
addr-slash c e = ground arith

pub addr-space : (c : ℕ) → one_of addr_delim c ≡ false → one_of (space ∷ []) c ≡ false
addr-space c e = ground arith

pub port-slash : (c : ℕ) → one_of (slash ∷ space ∷ []) c ≡ false → one_of (slash ∷ []) c ≡ false
port-slash c e = ground arith

pub port-space : (c : ℕ) → one_of (slash ∷ space ∷ []) c ≡ false → one_of (space ∷ []) c ≡ false
port-space c e = ground arith

pub tail-space : (q : Bytes) → IsTail q → NoneOf (space ∷ []) q
tail-space [] t = tt
tail-space (x ∷ q) t = t.1
