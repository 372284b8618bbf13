-- ===== src/Http/Response.antt =====
-- A response, src/http/Response.cpp: its fields and its text.
use eventhub.Prelude.{
  ℕ, not, ◌&&◌, List, [], ◌∷◌, ◌++◌, none, some, ltb, ◌==◌, if◌then◌else◌, is_empty, length, Bytes,
  bytes_eq, codes, decimal,
}
use eventhub.StringMap.{find, assign}

pub record Response : Type 0 where
  pub status_code : ℕ
  pub status_msg : Bytes
  pub body : Bytes
  pub headers : List (Bytes × Bytes)

unfoldable pub get_status_msg : ℕ → Bytes
get_status_msg status_code =
    if status_code == 200
    then codes "OK"
    else if status_code == 204
    then codes "No Content"
    else if status_code == 100
    then codes "Continue"
    else if status_code == 101
    then codes "Switching Protocols"
    else if status_code == 400
    then codes "Bad Request"
    else if status_code == 401
    then codes "Unauthorized"
    else if status_code == 403
    then codes "Forbidden"
    else if status_code == 404
    then codes "Not Found"
    else if status_code == 405
    then codes "Method not allowed"
    else if status_code == 411
    then codes "Length Required"
    else if status_code == 413
    then codes "Request Entity Too Large"
    else if status_code == 501
    then codes "Not Implemented"
    else codes "OK"

-- The constructor `Response(statusCode, body)`
unfoldable pub new_response : ℕ → Bytes → Response
unfolding get_status_msg
new_response status_code body = record {
  status_code = status_code;
  status_msg = get_status_msg status_code;
  body = body;
  headers = [];
}

unfoldable pub set_status : ℕ → Response → Response
unfolding get_status_msg
set_status status r = record r { status_code = status; status_msg = get_status_msg status }

unfoldable pub set_header : Bytes → Bytes → Response → Response
unfolding assign
set_header name value r = record r { headers = assign name value r.headers }

unfoldable pub set_body : Bytes → Response → Response
set_body data' r = record r { body = data' }

-- The first block of `get`: a length is declared for a response that closes the connection and
-- names its type, an event stream aside. `at` throws where a header is missing, which ends the block.
unfoldable pub add_content_length : Response → Response
unfolding find set_header
add_content_length r = elim (find (codes "Connection") r.headers) [
  | none ↦ r
  | some connection ↦ elim (find (codes "Content-Type") r.headers) [
    | none ↦ r
    | some content_type ↦
        if not (bytes_eq content_type (codes "text/event-stream"))
          && bytes_eq connection (codes "close")
          && ltb 0 (length r.body)
        then set_header (codes "Content-Length") (decimal (length r.body)) r
        else r
  ]
]

-- The second block of `get`.
unfoldable pub add_content_type : Response → Response
unfolding find set_header
add_content_type r = elim (find (codes "Content-Type") r.headers) [
  | some content_type ↦ r
  | none ↦
      if r.status_code == 200 && not (is_empty r.body)
      then set_header (codes "Content-Type") (codes "text/html") r
      else r
]

abbrev pub crlf : Bytes
crlf = 13 ∷ 10 ∷ []

unfoldable pub header_lines : List (Bytes × Bytes) → Bytes
header_lines [] = []
header_lines ((name, value) ∷ headers) = name ++ codes ": " ++ value ++ crlf ++ header_lines headers

unfoldable pub render : Response → Bytes
unfolding header_lines
render r =
    codes "HTTP/1.1 "
    ++ decimal r.status_code
    ++ codes " "
    ++ r.status_msg
    ++ crlf
    ++ header_lines r.headers
    ++ crlf
    ++ r.body

unfoldable pub get : Response → Bytes
unfolding add_content_length add_content_type render
get r = render (add_content_type (add_content_length r))
