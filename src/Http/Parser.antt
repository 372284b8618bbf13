-- ===== src/Http/Parser.antt =====
-- The parser of requests, src/http/Parser.cpp and include/http/Parser.hpp. `phr_parse_request` is
-- picohttpparser's: a parameter, from the buffer and the number of bytes that it had seen before.
-- A method, a path and headers are texts where the source has pointers into the buffer, and what
-- the callback is called with is returned.
pub mod Bounds
pub mod Chunks
pub mod QueryString
pub mod Parameters
use eventhub.Prelude.{
  ℕ, zero, suc, ◌+◌, ◌-◌, Bool, true, false, not, ◌&&◌, ◌||◌, List, [], ◌∷◌, ◌++◌, Option, none,
  some, ltb, leb, ◌==◌, if◌then◌else◌, is_empty, length, Bytes, codes, str_to_lower,
}
use eventhub.StringMap.{find, assign}

pub data RequestState : Type 0 where
  req_failed req_incomplete req_to_big req_ok : RequestState

-- What `phr_parse_request` returns: -1, -2, or the length of the request, with what it then has
-- written.
pub data PhrResult : Type 0 where
  parse_error incomplete : PhrResult
  parsed : Bytes → Bytes → List (Bytes × Bytes) → PhrResult

-- `HTTP_BUFSIZ`
abbrev pub http_bufsiz : ℕ
http_bufsiz = 8192

pub record Parser : Type 0 where
  pub buf : Bytes
  pub bytes_read : ℕ
  pub bytes_read_prev : ℕ
  pub is_complete : Bool
  pub path : Bytes
  pub method : Bytes
  pub error_message : Bytes
  pub headers : List (Bytes × Bytes)
  pub qsmap : List (Bytes × Bytes)

-- `_resetState`, from any state: each member that is modelled is cleared.
abbrev pub reset_state : Parser
reset_state = record {
  buf = [];
  bytes_read = 0;
  bytes_read_prev = 0;
  is_complete = false;
  path = [];
  method = [];
  error_message = [];
  headers = [];
  qsmap = [];
}

-- `find` of a character and the two `substr` around it: what stands in front of the first `c`, and
-- what behind it.
unfoldable pub cut : ℕ → Bytes → Option (Bytes × Bytes)
cut c [] = none
cut c (b ∷ s) = elim (b == c) [
  | true ↦ some ([], s)
  | false ↦ elim (cut c s) [ none ↦ none | some (front, back) ↦ some (b ∷ front, back) ]
]

-- `substr` up to the first `c`, and where the next token starts.
unfoldable pub token : ℕ → Bytes → Bytes × Bytes
unfolding cut
token c s = elim (cut c s) [ none ↦ (s, []) | some parts ↦ parts ]

unfoldable pub add_parameter : Bytes → Bytes → List (Bytes × Bytes) → List (Bytes × Bytes)
unfolding assign str_to_lower
add_parameter param val qsmap =
    if not (is_empty param) && not (is_empty val)
    then assign (str_to_lower param) val qsmap
    else qsmap

-- The loop of `_parse_query_string` from `pos`; each pass leaves a shorter text, so that as much fuel
-- as there are characters is enough.
unfoldable pub query_loop : ℕ → Bytes → List (Bytes × Bytes) → List (Bytes × Bytes)
unfolding cut token add_parameter
query_loop zero s qsmap = qsmap
query_loop (suc fuel) s qsmap = elim (cut b'=' s) [
  | none ↦ qsmap
  | some (param, rest) ↦
      query_loop fuel (token b'&' rest).1 (add_parameter param (token b'&' rest).0 qsmap)
]

unfoldable pub parse_query_string : Bytes → List (Bytes × Bytes) → List (Bytes × Bytes)
unfolding query_loop
parse_query_string buf qsmap = query_loop (length buf) buf qsmap

-- `rawPath.substr(0, rawPath.find_last_of(' ', 0))`: the search ends at the first character.
unfoldable pub without_leading_space : Bytes → Bytes
without_leading_space [] = []
without_leading_space (c ∷ s) = if c == 32 then [] else c ∷ s

-- `_path` and the query parameters, where the request has a path.
unfoldable pub set_path : Bytes → Parser → Parser
unfolding cut parse_query_string without_leading_space
set_path raw_path p = if is_empty raw_path then p else elim (cut b'?' raw_path) [
  | none ↦ record p { path = without_leading_space raw_path }
  | some (path, q_str) ↦ record p { path = path; qsmap = parse_query_string q_str p.qsmap }
]

unfoldable pub set_headers : List (Bytes × Bytes) → List (Bytes × Bytes) → List (Bytes × Bytes)
unfolding assign str_to_lower
set_headers [] headers = headers
set_headers ((name, value) ∷ phr_headers) headers =
    set_headers phr_headers (assign (str_to_lower name) value headers)

-- What `parse` does with the result of `phr_parse_request`.
unfoldable pub after_phr : PhrResult → Parser → RequestState × Parser
unfolding set_path set_headers
after_phr parse_error p =
    (RequestState.req_failed, record p { error_message = codes "REQ_FAILED: Parse failed." })
after_phr incomplete p = (RequestState.req_incomplete, p)
after_phr (parsed method path phr_headers) p =
    let p' = set_path path (record p { method = method ++ p.method }) in
    (
      RequestState.req_ok,
      record p' { headers = set_headers phr_headers p'.headers; is_complete = true },
    )

-- `parse` behind the test of `_is_complete`.
unfoldable pub parse_more : (Bytes → ℕ → PhrResult) → Bytes → Parser → RequestState × Parser
unfolding after_phr
parse_more phr_parse_request data' p =
    if ltb http_bufsiz (p.bytes_read + length data')
    then (
      RequestState.req_to_big,
      record p {
        bytes_read_prev = p.bytes_read;
        error_message = codes "REQ_TO_BIG: Request to large.";
      },
    )
    else after_phr (phr_parse_request (p.buf ++ data') p.bytes_read) (record p {
      bytes_read_prev = p.bytes_read;
      bytes_read = p.bytes_read + length data';
      buf = p.buf ++ data';
    })

unfoldable pub parse : (Bytes → ℕ → PhrResult) → Bytes → Parser → RequestState × Parser
unfolding parse_more
parse phr_parse_request data' p =
    if p.is_complete
    then if length data' == 0
      then (RequestState.req_ok, p)
      else parse_more phr_parse_request data' reset_state
    else parse_more phr_parse_request data' p

-- A missing header or parameter is the empty string.
abbrev pub text_of : Option Bytes → Bytes
text_of none = []
text_of (some s) = s

unfoldable pub get_header : Bytes → Parser → Bytes
unfolding find str_to_lower
get_header header p = text_of (find (str_to_lower header) p.headers)

unfoldable pub get_query_string : Bytes → Parser → Bytes
unfolding find str_to_lower
get_query_string param p = text_of (find (str_to_lower param) p.qsmap)
