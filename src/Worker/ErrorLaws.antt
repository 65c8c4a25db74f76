-- ===== src/Worker/ErrorLaws.antt =====
-- The answers that sendErrorMessage makes up are whole.
use multi_threaded_proxy_ser.Base.{
  ℕ, zero, suc, ◌+◌, ◌/◌, ◌%◌, ◌<◌, ◌≡◌, refl, sym, false, true, Option, none, some, [], ◌∷◌, ◌++◌,
  Bytes, bytes, ◌==◌, ltb, if◌then◌else◌, length, length-append, take_of_length-le, append_assoc,
  arith, inl, inr, Bool-cases, subst,
}
use multi_threaded_proxy_ser.Headers.Text.{cr, crlf, Lacks}
use multi_threaded_proxy_ser.Request.Token.{one_of}
use multi_threaded_proxy_ser.Worker.Errors.{
  error_400, error_403, error_404, error_500, error_501, error_505, truncated, send_error_message,
}

-- The digits of a number below 10 ^ 20, in front of `s`.
unfoldable pub digits : ℕ → ℕ → Bytes → Bytes
digits zero n s = s
digits (suc fuel) n s =
    let s' = (48 + n % 10) ∷ s in
    let rest = digits fuel (n / 10) s' in if ltb n 10 then s' else rest

unfoldable pub decimal : ℕ → Bytes
unfolding digits
decimal n = digits 20 n []

-- A response with the status code, whose Content-Length is the length of its body.
pub record IsReply (status_code : ℕ) (text : Bytes) : Type 0 where
  pub reason : Bytes
  pub fields : Bytes
  pub body : Bytes
  pub one_line : Lacks cr reason
  pub parts :
      text
      ≡ bytes "HTTP/1.1 "
        ++ (decimal status_code
            ++ (reason
                ++ (crlf
                    ++ (bytes "Content-Length: "
                        ++ (decimal (length body)
                            ++ (crlf ++ (fields ++ (crlf ++ (crlf ++ body)))))))))

-- A response is sent for a code of `codes`, and nothing for others.
abbrev pub HasReply : Bytes → ℕ → Option Bytes → Type 0
HasReply codes status_code none = one_of codes status_code ≡ false
HasReply codes status_code (some text) =
    (one_of codes status_code ≡ true) × IsReply status_code text

HasReply-some :
    (codes : Bytes) (status_code : ℕ) (o : Option Bytes)
    → one_of codes status_code ≡ true
    → HasReply codes status_code o
    → (text : Bytes) × (o ≡ some text) × IsReply status_code text
HasReply-some codes status_code none e h = absurd (ground (arith, e, h))
HasReply-some codes status_code (some text) e h = (text, refl, h.1)

HasReply-more :
    (codes : Bytes) (status_code k : ℕ) (rest : Option Bytes)
    → (status_code == k) ≡ false
    → HasReply codes status_code rest
    → HasReply (k ∷ codes) status_code rest
HasReply-more codes status_code k none e h = ground (arith, e, h)
HasReply-more codes status_code k (some text) e h = (ground (arith, e, h.0), h.1)

reply_or :
    (codes : Bytes) (status_code k : ℕ) (text : Bytes) (rest : Option Bytes)
    → IsReply k text
    → length text < 1024
    → HasReply codes status_code rest
    → HasReply (k ∷ codes) status_code (if status_code == k then some (truncated text) else rest)
reply_or codes status_code k text rest r fits others = elim (Bool-cases (status_code == k)) [
  | inl e ↦
      let same_code : status_code ≡ k = ground (arith, e) in
      let whole = take_of_length-le 1023 text (omega (arith, fits)) in
      let reply = subst (λ c. IsReply c text) (sym same_code) r in
      rw (e, whole) (ground (arith, e), reply)
  | inr e ↦ rw e (HasReply-more codes status_code k rest e others)
]

error_400-IsReply : (date : Bytes) → IsReply 400 (error_400 date)
unfolding decimal
error_400-IsReply date = record {
  reason = bytes " Bad Request";
  fields =
      bytes "Connection: keep-alive\r\n"
      ++ (bytes "Content-Type: text/html\r\n"
          ++ (bytes "Date: " ++ (date ++ bytes "\r\nServer: VaibhavN/14785")));
  body =
      bytes "<HTML><HEAD><TITLE>400 Bad Request</TITLE></HEAD>\n"
      ++ (bytes "<BODY><H1>400 Bad Rqeuest</H1>\n" ++ (bytes "</BODY></HTML>"));
  one_line = ground arith;
  parts = simp append_assoc;
}

error_403-IsReply : (date : Bytes) → IsReply 403 (error_403 date)
unfolding decimal
error_403-IsReply date = record {
  reason = bytes " Forbidden";
  fields =
      bytes "Content-Type: text/html\r\n"
      ++ (bytes "Connection: keep-alive\r\n"
          ++ (bytes "Date: " ++ (date ++ bytes "\r\nServer: VaibhavN/14785")));
  body =
      bytes "<HTML><HEAD><TITLE>403 Forbidden</TITLE></HEAD>\n"
      ++ (bytes "<BODY><H1>403 Forbidden</H1><br>Permission Denied\n" ++ (bytes "</BODY></HTML>"));
  one_line = ground arith;
  parts = simp append_assoc;
}

error_404-IsReply : (date : Bytes) → IsReply 404 (error_404 date)
unfolding decimal
error_404-IsReply date = record {
  reason = bytes " Not Found";
  fields =
      bytes "Content-Type: text/html\r\n"
      ++ (bytes "Connection: keep-alive\r\n"
          ++ (bytes "Date: " ++ (date ++ bytes "\r\nServer: VaibhavN/14785")));
  body =
      bytes "<HTML><HEAD><TITLE>404 Not Found</TITLE></HEAD>\n"
      ++ (bytes "<BODY><H1>404 Not Found</H1>\n" ++ (bytes "</BODY></HTML>"));
  one_line = ground arith;
  parts = simp append_assoc;
}

error_500-IsReply : (date : Bytes) → IsReply 500 (error_500 date)
unfolding decimal
error_500-IsReply date = record {
  reason = bytes " Internal Server Error";
  fields =
      bytes "Connection: keep-alive\r\n"
      ++ (bytes "Content-Type: text/html\r\n"
          ++ (bytes "Date: " ++ (date ++ bytes "\r\nServer: VaibhavN/14785")));
  body =
      bytes "<HTML><HEAD><TITLE>500 Internal Server Error</TITLE></HEAD>\n"
      ++ (bytes "<BODY><H1>500 Internal Server Error</H1>\n" ++ (bytes "</BODY></HTML>"));
  one_line = ground arith;
  parts = simp append_assoc;
}

error_501-IsReply : (date : Bytes) → IsReply 501 (error_501 date)
unfolding decimal
error_501-IsReply date = record {
  reason = bytes " Not Implemented";
  fields =
      bytes "Connection: keep-alive\r\n"
      ++ (bytes "Content-Type: text/html\r\n"
          ++ (bytes "Date: " ++ (date ++ bytes "\r\nServer: VaibhavN/14785")));
  body =
      bytes "<HTML><HEAD><TITLE>404 Not Implemented</TITLE></HEAD>\n"
      ++ (bytes "<BODY><H1>501 Not Implemented</H1>\n" ++ (bytes "</BODY></HTML>"));
  one_line = ground arith;
  parts = simp append_assoc;
}

error_505-IsReply : (date : Bytes) → IsReply 505 (error_505 date)
unfolding decimal
error_505-IsReply date = record {
  reason = bytes " HTTP Version Not Supported";
  fields =
      bytes "Connection: keep-alive\r\n"
      ++ (bytes "Content-Type: text/html\r\n"
          ++ (bytes "Date: " ++ (date ++ bytes "\r\nServer: VaibhavN/14785")));
  body =
      bytes "<HTML><HEAD><TITLE>505 HTTP Version Not Supported</TITLE></HEAD>\n"
      ++ (bytes "<BODY><H1>505 HTTP Version Not Supported</H1>\n" ++ (bytes "</BODY></HTML>"));
  one_line = ground arith;
  parts = simp append_assoc;
}

length-error_400 : (date : Bytes) → length date < 50 → length (error_400 date) < 1024
length-error_400 date short =
    let rest =
      bytes "\r\nServer: VaibhavN/14785\r\n\r\n"
      ++ (bytes "<HTML><HEAD><TITLE>400 Bad Request</TITLE></HEAD>\n"
          ++ (bytes "<BODY><H1>400 Bad Rqeuest</H1>\n" ++ (bytes "</BODY></HTML>"))) in
    omega (arith, short, length-append {0} date rest)

length-error_403 : (date : Bytes) → length date < 50 → length (error_403 date) < 1024
length-error_403 date short =
    let rest =
      bytes "\r\nServer: VaibhavN/14785\r\n\r\n"
      ++ (bytes "<HTML><HEAD><TITLE>403 Forbidden</TITLE></HEAD>\n"
          ++ (bytes "<BODY><H1>403 Forbidden</H1><br>Permission Denied\n"
              ++ (bytes "</BODY></HTML>"))) in
    omega (arith, short, length-append {0} date rest)

length-error_404 : (date : Bytes) → length date < 50 → length (error_404 date) < 1024
length-error_404 date short =
    let rest =
      bytes "\r\nServer: VaibhavN/14785\r\n\r\n"
      ++ (bytes "<HTML><HEAD><TITLE>404 Not Found</TITLE></HEAD>\n"
          ++ (bytes "<BODY><H1>404 Not Found</H1>\n" ++ (bytes "</BODY></HTML>"))) in
    omega (arith, short, length-append {0} date rest)

length-error_500 : (date : Bytes) → length date < 50 → length (error_500 date) < 1024
length-error_500 date short =
    let rest =
      bytes "\r\nServer: VaibhavN/14785\r\n\r\n"
      ++ (bytes "<HTML><HEAD><TITLE>500 Internal Server Error</TITLE></HEAD>\n"
          ++ (bytes "<BODY><H1>500 Internal Server Error</H1>\n" ++ (bytes "</BODY></HTML>"))) in
    omega (arith, short, length-append {0} date rest)

length-error_501 : (date : Bytes) → length date < 50 → length (error_501 date) < 1024
length-error_501 date short =
    let rest =
      bytes "\r\nServer: VaibhavN/14785\r\n\r\n"
      ++ (bytes "<HTML><HEAD><TITLE>404 Not Implemented</TITLE></HEAD>\n"
          ++ (bytes "<BODY><H1>501 Not Implemented</H1>\n" ++ (bytes "</BODY></HTML>"))) in
    omega (arith, short, length-append {0} date rest)

length-error_505 : (date : Bytes) → length date < 50 → length (error_505 date) < 1024
length-error_505 date short =
    let rest =
      bytes "\r\nServer: VaibhavN/14785\r\n\r\n"
      ++ (bytes "<HTML><HEAD><TITLE>505 HTTP Version Not Supported</TITLE></HEAD>\n"
          ++ (bytes "<BODY><H1>505 HTTP Version Not Supported</H1>\n"
              ++ (bytes "</BODY></HTML>"))) in
    omega (arith, short, length-append {0} date rest)

-- For each of its six codes sendErrorMessage sends a whole response, whose status line has the code
-- and whose Content-Length is the length of the body, when the date has fewer than 50 bytes. For
-- any other code it sends nothing and returns -1.
pub send_error_message-HasReply :
    (status_code : ℕ) (date : Bytes)
    → length date < 50
    → HasReply
        (400 ∷ 403 ∷ 404 ∷ 500 ∷ 501 ∷ 505 ∷ [])
        status_code
        (send_error_message status_code date)
unfolding send_error_message
send_error_message-HasReply status_code date short =
    reply_or (403 ∷ 404 ∷ 500 ∷ 501 ∷ 505 ∷ []) status_code 400 (error_400 date) _
      (error_400-IsReply date) (length-error_400 date short)
      (reply_or (404 ∷ 500 ∷ 501 ∷ 505 ∷ []) status_code 403 (error_403 date) _
        (error_403-IsReply date) (length-error_403 date short)
        (reply_or (500 ∷ 501 ∷ 505 ∷ []) status_code 404 (error_404 date) _ (error_404-IsReply date)
          (length-error_404 date short)
          (reply_or (501 ∷ 505 ∷ []) status_code 500 (error_500 date) _ (error_500-IsReply date)
            (length-error_500 date short)
            (reply_or (505 ∷ []) status_code 501 (error_501 date) _ (error_501-IsReply date)
              (length-error_501 date short)
              (reply_or ([]) status_code 505 (error_505 date) _ (error_505-IsReply date)
                (length-error_505 date short) (refl))))))

-- The one error that thread_fn sends.
pub send_error_message-internal :
    (date : Bytes)
    → length date < 50
    → (text : Bytes) × (send_error_message 500 date ≡ some text) × IsReply 500 text
send_error_message-internal date short =
    HasReply-some (400 ∷ 403 ∷ 404 ∷ 500 ∷ 501 ∷ 505 ∷ []) 500 (send_error_message 500 date)
      (ground arith) (send_error_message-HasReply 500 date short)
