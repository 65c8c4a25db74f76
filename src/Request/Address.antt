-- ===== src/Request/Address.antt =====
-- The address of a request line: its authority, and all of its parts at once.
use multi_threaded_proxy_ser.Base.{
  ℕ, suc, ◌+◌, ◌≡◌, refl, Bool, false, Option, none, some, [], ◌∷◌, ◌++◌, arith, Bytes, bytes,
  length, length-append, append_assoc,
}
use multi_threaded_proxy_ser.Headers.Text.{colon, Lacks}
use multi_threaded_proxy_ser.Request.Token.{ok, text_at}
use multi_threaded_proxy_ser.Request.TokenLaws.{
  NoneOf, text_at-append, strtok_r-next, strtok_r-last, strtok_r-none,
}
use multi_threaded_proxy_ser.Request.Parse.{slash, scheme_delim, read_path, read_host, split_addr}
use multi_threaded_proxy_ser.Request.Split.{
  NoneOf-Lacks, method_end, addr_buf, host_at, protocol_token, authority_token,
}

module _ (bad_port : Bytes → Bool) (c : ℕ) (p : Bytes) (d : ℕ) (h q w : Bytes) where
  abbrev pub before_host : Bytes
  before_host = method_end ++ (c ∷ p ++ 0 ∷ slash ∷ slash ∷ [])

  pub read_host-none :
      NoneOf (colon ∷ []) (d ∷ h)
      → read_host bad_port (addr_buf c p d h [] q w 0 0) (host_at c p d h [] q w)
        ≡ ok (addr_buf c p d h [] q w 0 0, host_at c p d h [] q w, none)
  unfolding read_host
  read_host-none n =
      let buf = addr_buf c p d h [] q w 0 0 in
      let host = host_at c p d h [] q w in
      let len = length-append {0} (c ∷ p) (0 ∷ slash ∷ slash ∷ []) in
      let len' = length-append {0} before_host (d ∷ h) in
      let name =
        strtok_r-last (colon ∷ []) buf host before_host [] d h (q ++ 0 ∷ w) host
          (host + suc (length h)) (simp append_assoc) (omega (arith, len)) tt n (omega (arith, len))
          (omega (arith, len)) in
      let no_port =
        strtok_r-none (slash ∷ []) buf (host + suc (length h)) (before_host ++ (d ∷ h)) (q ++ 0 ∷ w)
          (simp append_assoc) (omega (arith, len, len')) refl in
      ground (arith, name, no_port)

  abbrev pub port_buf : ℕ → Bytes → Bytes
  port_buf x r = addr_buf c p d h (0 ∷ x ∷ r) q w 0 0

  pub read_host-some :
      (x : ℕ) (r : Bytes)
      → NoneOf (colon ∷ []) (d ∷ h)
      → NoneOf (slash ∷ []) (x ∷ r)
      → bad_port (x ∷ r) ≡ false
      → read_host bad_port (addr_buf c p d h (colon ∷ x ∷ r) q w 0 0) (host_at c p d h [] q w)
        ≡ ok (port_buf x r, host_at c p d h [] q w, some (x ∷ r))
  unfolding read_host
  read_host-some x r n m good =
      let buf = addr_buf c p d h (colon ∷ x ∷ r) q w 0 0 in
      let host = host_at c p d h [] q w in
      let len = length-append {0} (c ∷ p) (0 ∷ slash ∷ slash ∷ []) in
      let len' = length-append {0} before_host (d ∷ h ++ 0 ∷ []) in
      let len'' = length-append {0} (d ∷ h) (0 ∷ []) in
      let name =
        strtok_r-next (colon ∷ []) buf host before_host [] d h colon (x ∷ r ++ 0 ∷ (q ++ 0 ∷ w))
          (port_buf x r) host (host + suc (length h) + 1) (simp append_assoc) (omega (arith, len))
          tt n refl refl (simp append_assoc) (omega (arith, len)) (omega (arith, len)) in
      let port_at = host + suc (length h) + 1 in
      let pre = before_host ++ (d ∷ h ++ 0 ∷ []) in
      let parts : port_buf x r ≡ pre ++ (x ∷ r ++ 0 ∷ (q ++ 0 ∷ w)) = simp append_assoc in
      let place : port_at ≡ length pre = omega (arith, len, len', len'') in
      let port =
        strtok_r-last (slash ∷ []) (port_buf x r) port_at pre [] x r (q ++ 0 ∷ w) port_at
          (port_at + suc (length r)) parts place tt m (omega (arith, place))
          (omega (arith, place)) in
      let text =
        text_at-append (port_buf x r) port_at pre (x ∷ r) (q ++ 0 ∷ w) parts place
          (NoneOf-Lacks (slash ∷ []) (x ∷ r) m) in
      ground (arith, name, port, text, good)

pub Lacks-append : (c : ℕ) (s t : Bytes) → Lacks c s → Lacks c t → Lacks c (s ++ t)
Lacks-append c [] t l m = m
Lacks-append c (d ∷ s) t l m = (l.0, Lacks-append c s t l.1 m)

module _ (bad_port : Bytes → Bool) (c : ℕ) (p : Bytes) (d : ℕ) (h pp q w : Bytes)
    (buf rest v : Bytes) (port : Option Bytes) (version : ℕ) where
  -- All parts, when the path and the host are read as they should be.
  pub split_addr_from :
      NoneOf scheme_delim (c ∷ p)
      → NoneOf (slash ∷ []) (d ∷ h ++ pp)
      → Lacks 0 (d ∷ h)
      → Lacks 0 q
      → read_path
          (addr_buf c p d h pp q w 0 0)
          (host_at c p d h pp q w + suc (length h) + length pp + 1)
        ≡ ok (addr_buf c p d h pp q w 0 0, slash ∷ q)
      → read_host bad_port (addr_buf c p d h pp q w 0 0) (host_at c p d h pp q w)
        ≡ ok (buf, host_at c p d h pp q w, port)
      → buf ≡ before_host bad_port c p d h q w ++ (d ∷ h ++ 0 ∷ rest)
      → text_at buf version ≡ ok v
      → split_addr bad_port (addr_buf c p d h pp q w colon slash) 0 4 version
        ≡ ok (record {
          method = bytes "GET";
          protocol = c ∷ p;
          host = d ∷ h;
          port = port;
          path = slash ∷ q;
          version = v;
        })
  unfolding split_addr
  split_addr_from n m l0 lq path authority shape last =
      let host = host_at c p d h pp q w in
      let one = addr_buf c p d h pp q w 0 slash in
      let two = addr_buf c p d h pp q w 0 0 in
      let pre = method_end ++ (c ∷ p ++ 0 ∷ slash ∷ slash ∷ []) in
      let len = length-append {0} (c ∷ p) (0 ∷ slash ∷ slash ∷ []) in
      let place : host ≡ length pre = omega (arith, len) in
      let lp = NoneOf-Lacks scheme_delim (c ∷ p) n in
      let lm = NoneOf-Lacks (slash ∷ []) (d ∷ h ++ pp) m in
      let proto =
        text_at-append one 4 method_end (c ∷ p)
          (slash ∷ slash ∷ (d ∷ h ++ (pp ++ slash ∷ (q ++ 0 ∷ w)))) refl refl lp in
      let uri =
        text_at-append one host pre ((d ∷ h ++ pp) ++ slash ∷ q) w (simp append_assoc) place
          (Lacks-append 0 (d ∷ h ++ pp) (slash ∷ q) lm (refl, lq)) in
      let auth =
        text_at-append two host pre (d ∷ h ++ pp) (q ++ 0 ∷ w) (simp append_assoc) place lm in
      let shorter = length-append {0} (d ∷ h ++ pp) (slash ∷ q) in
      let get =
        text_at-append buf 0 [] (bytes "GET") (c ∷ p ++ 0 ∷ slash ∷ slash ∷ (d ∷ h ++ 0 ∷ rest))
          (rw shape (simp append_assoc)) refl (refl, (refl, (refl, tt))) in
      let proto' =
        text_at-append buf 4 method_end (c ∷ p) (slash ∷ slash ∷ (d ∷ h ++ 0 ∷ rest))
          (rw shape (simp append_assoc)) refl lp in
      let name = text_at-append buf host pre (d ∷ h) rest shape place l0 in
      ground (
        arith,
        protocol_token c p d h pp q w n,
        proto,
        uri,
        authority_token c p d h pp q w m,
        auth,
        shorter,
        path,
        authority,
        get,
        proto',
        name,
        last,
      )
