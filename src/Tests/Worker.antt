-- ===== src/Tests/Worker.antt =====
-- Runs of what a thread receives and answers.
use multi_threaded_proxy_ser.Base.{
  ◌≡◌, refl, ℕ, suc, some, [], ◌∷◌, Bytes, bytes, length, take, zero, arith,
}
use multi_threaded_proxy_ser.Request.Token.{ok}
use multi_threaded_proxy_ser.Headers.Text.{Lacks}
use multi_threaded_proxy_ser.Worker.Errors.{send_error_message}
use multi_threaded_proxy_ser.Worker.ErrorLaws.{HasReply, send_error_message-HasReply}
use multi_threaded_proxy_ser.Worker.Accept.{
  Accepting, waiting, accept_loop, all_some, accepting_start, IsAccepting, accept_loop-IsAccepting,
}
use multi_threaded_proxy_ser.Worker.Receive.{receive, receive-gather, gather, in_buffer, zeros}

abbrev date : Bytes
date = bytes "Thu, 01 Jan 1970 00:00:00 GMT"

send_error_message-HasReply_example :
    HasReply (400 ∷ 403 ∷ 404 ∷ 500 ∷ 501 ∷ 505 ∷ []) 500 (send_error_message 500 date)
send_error_message-HasReply_example = send_error_message-HasReply 500 date (omega arith)

accept_loop-IsAccepting_example :
    (b : Accepting) × (accept_loop (all_some (5 ∷ 6 ∷ [])) accepting_start ≡ waiting b)
    × IsAccepting 0 (5 ∷ 6 ∷ []) accepting_start b
accept_loop-IsAccepting_example = accept_loop-IsAccepting (5 ∷ 6 ∷ [])

receive-gather_example :
    receive (some (bytes "GET ") ∷ some (bytes "/\r\n\r\n") ∷ []) (zeros 4096) 0
    ≡ ok (in_buffer (gather (some (bytes "GET ") ∷ some (bytes "/\r\n\r\n") ∷ []) []))
receive-gather_example =
    receive-gather (some (bytes "GET ") ∷ some (bytes "/\r\n\r\n") ∷ []) (ground arith)

-- A text of one letter.
unfoldable letters : ℕ → Bytes
letters zero = []
letters (suc n) = 65 ∷ letters n

length-letters : (n : ℕ) → length (letters n) ≡ n
unfolding letters
length-letters zero = refl
length-letters (suc n) = omega (arith, length-letters n)

Lacks-letters : (n m : ℕ) → Lacks 0 (take n (letters m))
unfolding letters
Lacks-letters zero m = tt
Lacks-letters (suc n) zero = tt
Lacks-letters (suc n) (suc m) = (refl, Lacks-letters n m)
