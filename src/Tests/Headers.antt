-- ===== src/Tests/Headers.antt =====
-- Runs of the headers: two are set, one is removed, and what is left is printed and read back.
use multi_threaded_proxy_ser.Base.{◌≡◌, refl, true, Option, none, some, [], Bytes, bytes, arith}
unfoldable use multi_threaded_proxy_ser.Base.{same}
use multi_threaded_proxy_ser.Headers.Store.{Headers, create, set, print_headers}
use multi_threaded_proxy_ser.Headers.Parse.{parsed, parse_lines}
use multi_threaded_proxy_ser.Headers.Laws.{IsHeaders, create-IsHeaders}
use multi_threaded_proxy_ser.Headers.Setting.{set-IsHeaders}
use multi_threaded_proxy_ser.Headers.RoundTrip.{ArePrintable, live, parse_lines-print_headers}

abbrev host : Bytes
host = bytes "Host"

abbrev accept : Bytes
accept = bytes "Accept"

abbrev or_create : Option Headers → Headers
or_create none = create
or_create (some h) = h

abbrev one_header : Headers
one_header = or_create (set true create host (bytes "a.org"))

one_header-set : set true create host (bytes "a.org") ≡ some one_header
unfolding set create same
one_header-set = refl

one_header-IsHeaders : IsHeaders one_header
one_header-IsHeaders =
    set-IsHeaders true create one_header host (bytes "a.org") create-IsHeaders one_header-set

abbrev two_headers : Headers
two_headers = or_create (set true one_header accept (bytes "*/*"))

two_headers-set : set true one_header accept (bytes "*/*") ≡ some two_headers
unfolding set create same
two_headers-set = refl

two_headers-IsHeaders : IsHeaders two_headers
two_headers-IsHeaders =
    set-IsHeaders true one_header two_headers accept (bytes "*/*") one_header-IsHeaders
      two_headers-set

abbrev text_of : Option Bytes → Bytes
text_of none = []
text_of (some s) = s

abbrev printed_text : Bytes
printed_text = text_of (print_headers true two_headers 100)

printed_is : print_headers true two_headers 100 ≡ some printed_text
unfolding print_headers set create same
printed_is = refl

text_is : printed_text ≡ bytes "Host: a.org\r\nAccept: */*\r\n\r\n"
unfolding print_headers set create same
text_is = refl

two_headers-ArePrintable : ArePrintable two_headers.slots
unfolding set create same
two_headers-ArePrintable = ground arith

parse_lines-print_headers_example :
    (h' : Headers) × (parse_lines (λ n. true) 3 create printed_text ≡ some (parsed h'))
    × (h'.slots ≡ live two_headers.slots)
unfolding set create same
parse_lines-print_headers_example =
    parse_lines-print_headers two_headers 100 3 printed_text two_headers-IsHeaders
      two_headers-ArePrintable (omega arith) printed_is
