-- ===== src/Agent/Httpc.antt =====
-- The HTTP client of tapio-agent/src/httpc.rs. A text is its code points, and what is written and read its
-- bytes. The socket is a parameter: what connecting and the two writes end with, and the reads, the last of
-- them at the end of the stream.
use tapio.Prelude.{
  ℕ, zero, suc, ◌-◌, String, List, [], ◌∷◌, ◌++◌, Option, none, some, Result, ok, err, ◌>>=◌, ltb,
  leb, ◌==◌, if◌then◌else◌, length, is_empty, and_then, ◌^◌, ◌⊎◌, inl, inr, ◌&&◌,
}
use tapio.Prelude.Text.{codes, bytes_of, encode_utf8}
use tapio.Prelude.Utf8.{from_utf8}
use tapio.Prelude.Decimal.{to_string}
use tapio.Prelude.Parse.{parse_codes}
use tapio.Prelude.Split.{strip_prefix}
use tapio.Agent.Sink.{HttpResponse}

-- Where a request fails, with the text of the system or the library, if there is one.
pub data HttpError : Type 0 where
  requires_http bad_response headers_utf8 missing_status bad_version bad_status : HttpError
  connect write write_body read : String → HttpError
  exceeded : ℕ → HttpError

pub data Method : Type 0 where
  get post : Method

abbrev method_name : Method → String
method_name get = "GET"
method_name post = "POST"

abbrev default_path : Method → String
default_path get = "/"
default_path post = "/v1/occurrences"

-- The host with its port, and the path from the first slash on.
unfoldable pub find_path : Method → List ℕ → List ℕ × List ℕ
find_path method [] = ([], codes (default_path method))
find_path method (c ∷ url) =
    let (host_port, path) = find_path method url in
    if c == b'/' then ([], c ∷ url) else (c ∷ host_port, path)

-- Whether a path follows the host; without one the method has its own.
unfoldable pub target : Method → List ℕ → Result HttpError (List ℕ × List ℕ)
unfolding find_path strip_prefix
target method endpoint = elim (strip_prefix (codes "http://") endpoint) [
  | none ↦ err requires_http
  | some url ↦ ok (find_path method url)
]

abbrev crlf : List ℕ
crlf = 13 ∷ 10 ∷ []

unfoldable pub header_lines : List (List ℕ × List ℕ) → List ℕ
header_lines [] = []
header_lines ((name, value) ∷ headers) =
    name ++ (codes ": " ++ (value ++ (crlf ++ header_lines headers)))

abbrev length_line : List ℕ → List ℕ
length_line [] = []
length_line (b ∷ body) = codes "Content-Length: " ++ (codes (to_string (length (b ∷ body))) ++ crlf)

-- The text of a request before its body.
unfoldable pub request_head : Method → List ℕ × List ℕ → List (List ℕ × List ℕ) → List ℕ → List ℕ
unfolding header_lines
request_head method (host_port, path) headers body =
    (codes (method_name method) ++ (codes " " ++ (path ++ (codes " HTTP/1.1" ++ crlf))))
    ++ ((codes "Host: " ++ (host_port ++ crlf))
        ++ (header_lines headers
            ++ (length_line body ++ (codes "Connection: close" ++ (crlf ++ crlf)))))

-- A read: some bytes, none at the end, or an error.
pub data Read : Type 0 where
  chunk : List ℕ → Read
  connection_reset failed : String → Read

-- The loop that reads; the stream's end is its last read.
unfoldable pub read_all : ℕ → List ℕ → List Read → Result HttpError (List ℕ)
read_all limit response [] = ok response
read_all limit response (chunk [] ∷ reads) = ok response
read_all limit response (chunk (b ∷ bs) ∷ reads) =
    let extended = response ++ b ∷ bs in
    let rest = read_all limit extended reads in
    if ltb limit (length extended) then err (exceeded limit) else rest
read_all limit response (connection_reset e ∷ reads) =
    if is_empty response then err (read e) else ok response
read_all limit response (failed e ∷ reads) = err (read e)

-- What stands before and after the first empty line.
abbrev head_with : ℕ → Option (List ℕ × List ℕ) → Option (List ℕ × List ℕ)
head_with b none = none
head_with b (some (head, body)) = some (b ∷ head, body)

unfoldable pub split_head : List ℕ → Option (List ℕ × List ℕ)
unfolding strip_prefix
split_head [] = none
split_head (b ∷ bs) =
    let rest = split_head bs in
    elim (strip_prefix (crlf ++ crlf) (b ∷ bs)) [
      | some body ↦ some ([], body)
      | none ↦ head_with b rest
    ]

-- `str::lines().next()`: the first line, without its end.
unfoldable pub line_before : List ℕ → List ℕ
line_before [] = []
line_before (c ∷ cs) = let rest = line_before cs in if c == 10 then [] else c ∷ rest

abbrev pub strip_cr : List ℕ → List ℕ
strip_cr [] = []
strip_cr (c ∷ []) = if c == 13 then [] else c ∷ []
strip_cr (c ∷ d ∷ cs) = c ∷ strip_cr (d ∷ cs)

-- A carriage return goes only with the line feed after it.
unfoldable pub first_line : List ℕ → Option (List ℕ)
unfolding line_before
first_line [] = none
first_line (c ∷ cs) =
    let line = line_before (c ∷ cs) in
    some (if ltb (length line) (length (c ∷ cs)) then strip_cr line else line)

-- `str::get(..n)`: so many bytes, if a character ends there.
unfoldable pub take_bytes : ℕ → List ℕ → Option (List ℕ)
take_bytes zero cs = some []
take_bytes (suc n) [] = none
take_bytes (suc n) (c ∷ cs) =
    let more = take_bytes (suc n - length (encode_utf8 c)) cs in
    if leb (length (encode_utf8 c)) (suc n) then and_then more (λ taken. some (c ∷ taken)) else none

abbrev pub u16_limit : ℕ
u16_limit = 2 ^ 16

abbrev status_of : Option ℕ → Result HttpError ℕ
status_of none = err bad_status
status_of (some status) = ok status

-- After the version, which is nine bytes long.
abbrev pub versioned : Option (List ℕ) → Option (List ℕ) → Result HttpError ℕ
versioned none none = err bad_version
versioned (some rest) other =
    status_of (and_then (take_bytes 3 rest) (λ digits. parse_codes u16_limit digits))
versioned none (some rest) =
    status_of (and_then (take_bytes 3 rest) (λ digits. parse_codes u16_limit digits))

unfoldable pub parse_status : List ℕ → Result HttpError ℕ
unfolding take_bytes strip_prefix parse_codes
parse_status status_line =
    versioned (strip_prefix (codes "HTTP/1.1 ") status_line)
      (strip_prefix (codes "HTTP/1.0 ") status_line)

abbrev pub or_error : {A : Type 0} → HttpError → Option A → Result HttpError A
or_error e none = err e
or_error e (some a) = ok a

-- What follows the loop of `read_response`.
unfoldable pub parse_response : List ℕ → Result HttpError HttpResponse
unfolding split_head first_line parse_status from_utf8
parse_response response = do
  parts ← or_error bad_response (split_head response)
  head ← or_error headers_utf8 (from_utf8 parts.0)
  status_line ← or_error missing_status (first_line (codes head))
  status ← parse_status status_line
  ok (record { status = status; body = parts.1 })

unfoldable pub read_response : ℕ → List Read → Result HttpError HttpResponse
unfolding read_all parse_response
read_response limit reads = do response ← read_all limit [] reads; parse_response response

-- A connection to a host: what its writes end with, and its reads.
pub record Stream : Type 0 where
  pub write_all : List ℕ → Result String (Unit {0})
  pub reads : List Read

abbrev with_error : {A : Type 0} → (String → HttpError) → Result String A → Result HttpError A
with_error f (ok a) = ok a
with_error f (err e) = err (f e)

unfoldable pub request :
    (List ℕ → Result String Stream)
    → Method
    → List ℕ
    → List (List ℕ × List ℕ)
    → List ℕ
    → ℕ
    → Result HttpError HttpResponse
unfolding target request_head read_response
request connect_to method endpoint headers body limit = do
  where_ ← target method endpoint
  stream ← with_error connect (connect_to where_.0)
  _ ← with_error write (stream.write_all (bytes_of (request_head method where_ headers body)))
  _ ← if is_empty body then ok tt else with_error write_body (stream.write_all body)
  read_response limit stream.reads

abbrev pub default_max_response_bytes : ℕ
default_max_response_bytes = 1_048_576

abbrev pub post_max_response_bytes : ℕ
post_max_response_bytes = 8192

unfoldable pub post_json_response :
    (List ℕ → Result String Stream) → List ℕ → List ℕ → ℕ → Result HttpError HttpResponse
unfolding request
post_json_response connect_to endpoint body limit =
    request connect_to post endpoint ((codes "Content-Type", codes "application/json") ∷ []) body
      limit

-- `post_json`: a status of failure is an error as well.
unfoldable pub post_json :
    (List ℕ → Result String Stream) → List ℕ → List ℕ → Result (HttpError ⊎ ℕ) (Unit {0})
unfolding post_json_response
post_json connect_to endpoint body =
    elim (post_json_response connect_to endpoint body post_max_response_bytes) [
      | err e ↦ err (inl e)
      | ok response ↦
          if leb 200 response.status && ltb response.status 300
          then ok tt
          else err (inr response.status)
    ]
