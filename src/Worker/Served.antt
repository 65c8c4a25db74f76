-- ===== src/Worker/Served.antt =====
-- How a thread ends.
use multi_threaded_proxy_ser.Base.{
  ℕ, suc, ◌≤◌, ◌<◌, ◌≡◌, refl, sym, subst, Bool, true, false, ◌||◌, Option, none, some, [], ◌∷◌,
  Bytes, bytes, same, if◌then◌else◌, length, drop, arith, ltb, Bool-cases, Option-cases, inl, inr,
}
use multi_threaded_proxy_ser.Headers.Text.{find_crlf, find_crlf-IsSplit, IsSplit}
use multi_threaded_proxy_ser.Headers.Store.{create}
use multi_threaded_proxy_ser.Headers.Parse.{Parsed, parse_lines-total}
use multi_threaded_proxy_ser.Request.Token.{Result, c_str}
use multi_threaded_proxy_ser.Request.Line.{
  RequestLine, ParsedRequest, create_request, check_http_version,
}
use multi_threaded_proxy_ser.Request.Parse
use multi_threaded_proxy_ser.Request.Parse.{
  parse_request, until_nul, has_blank_line, parse_line, with_headers, with_line, min_req_len,
  max_req_len,
}
use multi_threaded_proxy_ser.Worker.Receive.{
  Received, Last, some_bytes, disconnected, failed, receive, zeros, max_bytes,
}
use multi_threaded_proxy_ser.Worker.Cached.{send_cached, send_cached-concat}
use multi_threaded_proxy_ser.Worker.Thread
use multi_threaded_proxy_ser.Worker.Thread.{
  Answers, Ended, ended, finish, all_parts, error_500, answer_request, after_parse, after_miss,
  after_lookup, serve, with_key, after_receive, thread_fn,
}

-- The parser has enough fuel.
abbrev pub IsParsed : Parse.Outcome → Type 0
IsParsed (Parse.success pr) = Unit {0}
IsParsed (Parse.failure pr) = Unit {0}
IsParsed Parse.wild = Unit {0}
IsParsed Parse.out_of_fuel = ⊥

pub length-until_nul : (s : Bytes) → length (until_nul s) ≤ length s
unfolding until_nul
length-until_nul [] = omega arith
length-until_nul (c ∷ s) = ground (arith, length-until_nul s)

with_headers-IsParsed : (l : RequestLine) (p : Parsed) → IsParsed (with_headers l (some p))
with_headers-IsParsed l (Parsed.parsed h) = tt
with_headers-IsParsed l (Parsed.no_colon h) = tt
with_headers-IsParsed l Parsed.lost = tt
with_headers-IsParsed l Parsed.fault = tt

with_line-IsParsed :
    (alloc : ℕ → Bool) (fuel : ℕ) (pr : ParsedRequest) (rest : Bytes) (l : Result RequestLine)
    → length rest < fuel
    → IsParsed (with_line alloc fuel pr rest l)
with_line-IsParsed alloc fuel pr rest (Result.ok l) enough =
    let (p, run) = parse_lines-total alloc fuel pr.headers rest enough in
    subst (λ o. IsParsed (with_headers l o)) (sym run) (with_headers-IsParsed l p)
with_line-IsParsed alloc fuel pr rest Result.rejected enough = tt
with_line-IsParsed alloc fuel pr rest Result.fault enough = tt

pub parse_request-IsParsed :
    (alloc : ℕ → Bool) (bad_port : Bytes → Bool) (fuel : ℕ) (buf : Bytes)
    → length buf < fuel
    → IsParsed (parse_request alloc bad_port fuel create_request buf)
unfolding parse_request create_request
parse_request-IsParsed alloc bad_port fuel buf enough =
    elim (Bool-cases (ltb (length buf) min_req_len || ltb max_req_len (length buf))) [
      | inl e ↦ rw e tt
      | inr e ↦ elim (Bool-cases (has_blank_line (until_nul buf))) [
        | inr f ↦ rw (e, f) tt
        | inl f ↦ elim (Option-cases (find_crlf (until_nul buf))) [
          | inl n ↦ rw (e, f, n) tt
          | inr (p, g) ↦
              let (line, rest) = p in
              let split =
                subst (IsSplit (length (until_nul buf))) g (find_crlf-IsSplit (until_nul buf)) in
              let shorter : length (drop 2 p.1) < fuel =
                omega (arith, split.0, split.2, length-until_nul buf, enough) in
              rw (e, f, g)
                (with_line-IsParsed alloc fuel (record { line = none; headers = create })
                  (drop 2 p.1) (parse_line bad_port p.0) shorter)
        ]
      ]
    ]

-- The thread has come to its end: the semaphore is posted once, and the socket is closed as often
-- as `closed` says. A read outside of a buffer is not excluded here.
abbrev pub HasEnded : ℕ → Ended → Type 0
HasEnded n (ended sent closed posts) = (closed ≡ n) × (posts ≡ 1)
HasEnded n Ended.fault = Unit {0}
HasEnded n Ended.out_of_fuel = ⊥

all_parts-HasEnded :
    (d : Bytes) → HasEnded 1 (all_parts (send_cached (suc (length d)) d (length d) 0))
all_parts-HasEnded d =
    let (l, run, whole, short) = send_cached-concat d in
    subst (λ o. HasEnded 1 (all_parts o)) (sym run) (refl, refl)

module _ (a : Answers) (again : Ended) where
  answer_request-HasEnded :
      (l : RequestLine) → HasEnded 1 again → HasEnded 1 (answer_request a again l)
  unfolding answer_request
  answer_request-HasEnded l e = elim (Bool-cases (same l.method (bytes "GET"))) [
    | inr f ↦ rw f (refl, refl)
    | inl f ↦ elim (Bool-cases (check_http_version l.version)) [
      | inr g ↦ rw (f, g) (refl, refl)
      | inl g ↦ elim (Bool-cases a.fetches) [
        | inr k ↦ rw (f, g, k) e
        | inl k ↦ rw (f, g, k) (refl, refl)
      ]
    ]
  ]

  with_line-HasEnded :
      (l : Option RequestLine) → HasEnded 1 again → HasEnded 1 (Thread.with_line a again l)
  with_line-HasEnded none e = tt
  with_line-HasEnded (some l) e = answer_request-HasEnded l e

  after_parse-HasEnded :
      (o : Parse.Outcome) → IsParsed o → HasEnded 1 again → HasEnded 1 (after_parse a again o)
  after_parse-HasEnded (Parse.success pr) p e = with_line-HasEnded pr.line e
  after_parse-HasEnded (Parse.failure pr) p e = (refl, refl)
  after_parse-HasEnded Parse.wild p e = tt
  after_parse-HasEnded Parse.out_of_fuel p e = absurd p

  after_miss-HasEnded :
      (text : Bytes) (last : Last) → HasEnded 1 again → HasEnded 1 (after_miss a again text last)
  after_miss-HasEnded text some_bytes e =
      let o = parse_request a.alloc a.bad_port (suc (length text)) create_request text in
      after_parse-HasEnded o
        (parse_request-IsParsed a.alloc a.bad_port (suc (length text)) text (omega arith)) e
  after_miss-HasEnded text disconnected e = (refl, refl)
  after_miss-HasEnded text failed e = (refl, refl)

  after_lookup-HasEnded :
      (text : Bytes) (last : Last) (d : Option Bytes)
      → HasEnded 1 again
      → HasEnded 1 (after_lookup a again text last d)
  after_lookup-HasEnded text last (some d) e = all_parts-HasEnded d
  after_lookup-HasEnded text last none e = after_miss-HasEnded text last e

-- The cleared buffer holds no request.
cleared_buffer :
    (a : Answers) (again : Ended) (d : Option Bytes)
    → HasEnded 1 (after_lookup a again [] some_bytes d)
unfolding parse_request create_request
cleared_buffer a again (some d) = all_parts-HasEnded d
cleared_buffer a again none = (refl, refl)

serve-HasEnded : (a : Answers) (text : Bytes) (last : Last) → HasEnded 1 (serve a 2 0 text last)
unfolding serve
serve-HasEnded a text last =
    after_lookup-HasEnded a (serve a 1 1 [] some_bytes) text last (a.lookup 0)
      (cleared_buffer a (serve a 0 2 [] some_bytes) (a.lookup 1))

with_key_or_not :
    (a : Answers) (last : Last) (text : Bytes) (given : Bool)
    → HasEnded 1 (if given then serve a 2 0 text last else finish [])
with_key_or_not a last text true = serve-HasEnded a text last
with_key_or_not a last text false = (refl, refl)

with_key-HasEnded :
    (a : Answers) (last : Last) (text : Result Bytes) → HasEnded 1 (with_key a 2 last text)
with_key-HasEnded a last (Result.ok text) = with_key_or_not a last text a.key_given
with_key-HasEnded a last Result.rejected = tt
with_key-HasEnded a last Result.fault = tt

after_receive-HasEnded : (a : Answers) (r : Result Received) → HasEnded 1 (after_receive a 2 r)
after_receive-HasEnded a (Result.ok r) = with_key-HasEnded a r.last (c_str r.buffer)
after_receive-HasEnded a Result.rejected = tt
after_receive-HasEnded a Result.fault = tt

-- A thread that reads in no place outside of its buffers comes to its end after at most one jump
-- back to the lookup, whatever its calls answer. It then has posted the semaphore once, and closed
-- its socket once, or never where it got no buffer.
pub thread_fn-HasEnded : (a : Answers) → HasEnded (if a.buffer_given then 1 else 0) (thread_fn a 2)
unfolding thread_fn
thread_fn-HasEnded a = elim (Bool-cases a.buffer_given) [
  | inl e ↦ rw e (after_receive-HasEnded a (receive a.received (zeros max_bytes) 0))
  | inr e ↦ rw e (refl, refl)
]

-- A thread that has come to its end has posted the semaphore once.
pub thread_fn-posts :
    (a : Answers) (sent : Bytes) (closed posts : ℕ)
    → thread_fn a 2 ≡ ended sent closed posts
    → posts ≡ 1
thread_fn-posts a sent closed posts run =
    (subst (HasEnded (if a.buffer_given then 1 else 0)) run (thread_fn-HasEnded a)).1
