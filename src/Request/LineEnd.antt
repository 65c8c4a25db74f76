-- ===== src/Request/LineEnd.antt =====
-- Where ParsedRequest_parse gives a request line up, which decides what it frees.
use multi_threaded_proxy_ser.Base.{
  ℕ, ◌+◌, ◌≡◌, refl, subst, Bool, not, Option, [], ◌∷◌, ◌++◌, Bytes, ◌==◌, length,
}
use multi_threaded_proxy_ser.Request.Token.{
  Result, ok, rejected, fault, ◌>>=◌, ◌>>◌, require, present, text_at, strtok_r,
}
use multi_threaded_proxy_ser.Request.Readable.{IsRead, bind-IsRead, text_at-IsRead}
use multi_threaded_proxy_ser.Request.Line.{RequestLine}
use multi_threaded_proxy_ser.Request.Parse.{
  slash, scheme_delim, split_line, split_addr, read_path, read_host, parse_line,
}

-- `refused` is before the search for the path, `refused_path` at a path that begins with two
-- slashes, and `refused_port` behind the copy of the path. `unreadable` is a read outside of the
-- buffer.
pub data LineEnd : Type 0 where
  refused : LineEnd
  refused_path : LineEnd
  refused_port : LineEnd
  accepted : LineEnd
  unreadable : LineEnd

-- Up to the search for the path: the buffer, the state of strtok_r, and the offsets of the
-- protocol and the authority.
unfoldable pub authority : Bytes → ℕ → Result (Bytes × ℕ × ℕ × ℕ)
unfolding strtok_r text_at
authority buf full_addr = do
  p ← strtok_r scheme_delim buf full_addr
  protocol ← present p.token
  proto ← text_at p.buf protocol
  abs_uri ← text_at p.buf (full_addr + length proto + 3)
  h ← strtok_r (slash ∷ []) p.buf p.saveptr
  host ← present h.token
  name ← text_at h.buf host
  require (not (length name == length abs_uri))
  ok (h.buf, h.saveptr, protocol, host)

abbrev pub with_host : Result (Bytes × ℕ × Option Bytes) → LineEnd
with_host (ok r) = accepted
with_host rejected = refused_port
with_host fault = unreadable

abbrev pub with_path : (Bytes → Bool) → ℕ → Result (Bytes × Bytes) → LineEnd
with_path bad_port host (ok r) = with_host (read_host bad_port r.0 host)
with_path bad_port host rejected = refused_path
with_path bad_port host fault = unreadable

abbrev pub with_authority : (Bytes → Bool) → Result (Bytes × ℕ × ℕ × ℕ) → LineEnd
with_authority bad_port (ok r) = with_path bad_port r.3 (read_path r.0 r.1)
with_authority bad_port rejected = refused
with_authority bad_port fault = unreadable

unfoldable pub line_end : (Bytes → Bool) → Bytes → LineEnd
unfolding split_line authority read_path read_host
line_end bad_port line =
    with_authority bad_port
      (do (buf, method, full_addr, version) ← split_line (line ++ 0 ∷ []); authority buf full_addr)

module _ {A B C : Type 0} where
  bind_assoc :
      (r : Result A) (f : A → Result B) (g : B → Result C) → (r >>= f) >>= g ≡ r >>= λ a. f a >>= g
  bind_assoc (ok a) f g = refl
  bind_assoc rejected f g = refl
  bind_assoc fault f g = refl

  -- A sequence is taken apart in one step of it.
  bind_step :
      (r : Result A) (f : A → Result B) (g : B → Result C) (h : A → Result C)
      → ((a : A) → f a >>= g ≡ h a)
      → (r >>= f) >>= g ≡ r >>= h
  bind_step (ok a) f g h e = e a
  bind_step rejected f g h e = refl
  bind_step fault f g h e = refl

-- What split_addr does behind the host.
abbrev texts_at : ℕ → ℕ → Bytes → ℕ → Bytes × ℕ × Option Bytes → Result RequestLine
texts_at method version path protocol (buf, host, port) = do
  method' ← text_at buf method
  protocol' ← text_at buf protocol
  name ← text_at buf host
  version' ← text_at buf version
  ok (record {
    method = method';
    protocol = protocol';
    host = name;
    port = port;
    path = path;
    version = version';
  })

abbrev behind_path : (Bytes → Bool) → ℕ → ℕ → ℕ → ℕ → Bytes × Bytes → Result RequestLine
behind_path bad_port method version protocol host (buf, path) =
    read_host bad_port buf host >>= texts_at method version path protocol

abbrev behind_authority : (Bytes → Bool) → ℕ → ℕ → Bytes × ℕ × ℕ × ℕ → Result RequestLine
behind_authority bad_port method version (buf, saveptr, protocol, host) =
    read_path buf saveptr >>= behind_path bad_port method version protocol host

split_addr-authority :
    (bad_port : Bytes → Bool) (buf : Bytes) (method full_addr version : ℕ)
    → authority buf full_addr >>= behind_authority bad_port method version
      ≡ split_addr bad_port buf method full_addr version
unfolding authority split_addr
split_addr-authority bad_port buf method full_addr version =
    let g = behind_authority bad_port method version in
    bind_step (strtok_r scheme_delim buf full_addr) _ g _ (λ p.
      bind_step (present p.token) _ g _ (λ protocol.
        bind_step (text_at p.buf protocol) _ g _ (λ proto.
          bind_step (text_at p.buf (full_addr + length proto + 3)) _ g _ (λ abs_uri.
            bind_step (strtok_r (slash ∷ []) p.buf p.saveptr) _ g _ (λ h.
              bind_step (present h.token) _ g _ (λ host.
                bind_step (text_at h.buf host) _ g _ (λ name.
                  bind_step (require (not (length name == length abs_uri))) _ g _ (λ x. refl))))))))

abbrev Agrees : LineEnd → Result RequestLine → Type 0
Agrees accepted r = IsRead r
Agrees unreadable r = r ≡ fault
Agrees refused r = r ≡ rejected
Agrees refused_path r = r ≡ rejected
Agrees refused_port r = r ≡ rejected

module _ (bad_port : Bytes → Bool) (method version : ℕ) where
  texts-IsRead :
      (path buf : Bytes) (protocol host : ℕ) (port : Option Bytes)
      → IsRead (texts_at method version path protocol (buf, host, port))
  texts-IsRead path buf protocol host port =
      bind-IsRead (text_at buf method) _ (text_at-IsRead buf method) (λ m.
        bind-IsRead (text_at buf protocol) _ (text_at-IsRead buf protocol) (λ p.
          bind-IsRead (text_at buf host) _ (text_at-IsRead buf host)
            (λ n. bind-IsRead (text_at buf version) _ (text_at-IsRead buf version) (λ v. tt))))

  with_host-Agrees :
      (path : Bytes) (protocol : ℕ) (r : Result (Bytes × ℕ × Option Bytes))
      → Agrees (with_host r) (r >>= texts_at method version path protocol)
  with_host-Agrees path protocol (ok r) = texts-IsRead path r.0 protocol r.1 r.2
  with_host-Agrees path protocol rejected = refl
  with_host-Agrees path protocol fault = refl

  with_path-Agrees :
      (protocol host : ℕ) (r : Result (Bytes × Bytes))
      → Agrees (with_path bad_port host r) (r >>= behind_path bad_port method version protocol host)
  with_path-Agrees protocol host (ok r) =
      with_host-Agrees r.1 protocol (read_host bad_port r.0 host)
  with_path-Agrees protocol host rejected = refl
  with_path-Agrees protocol host fault = refl

  with_authority-Agrees :
      (r : Result (Bytes × ℕ × ℕ × ℕ))
      → Agrees (with_authority bad_port r) (r >>= behind_authority bad_port method version)
  with_authority-Agrees (ok r) = with_path-Agrees r.2 r.3 (read_path r.0 r.1)
  with_authority-Agrees rejected = refl
  with_authority-Agrees fault = refl

with_line-Agrees :
    (bad_port : Bytes → Bool) (r : Result (Bytes × ℕ × ℕ × ℕ))
    → Agrees
        (with_authority bad_port
          (r >>= λ (buf, method, full_addr, version). authority buf full_addr))
        (r >>= λ (buf, method, full_addr, version).
          split_addr bad_port buf method full_addr version)
with_line-Agrees bad_port (ok (buf, method, full_addr, version)) =
    subst (Agrees (with_authority bad_port (authority buf full_addr)))
      (split_addr-authority bad_port buf method full_addr version)
      (with_authority-Agrees bad_port method version (authority buf full_addr))
with_line-Agrees bad_port rejected = refl
with_line-Agrees bad_port fault = refl

-- The place where a line is given up agrees with what parse_line makes of it.
pub line_end-Agrees :
    (bad_port : Bytes → Bool) (line : Bytes)
    → Agrees (line_end bad_port line) (parse_line bad_port line)
unfolding line_end parse_line
line_end-Agrees bad_port line = with_line-Agrees bad_port (split_line (line ++ 0 ∷ []))
