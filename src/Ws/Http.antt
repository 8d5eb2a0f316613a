-- ===== src/Ws/Http.antt =====
-- ws_server.rs up to the upgrade: the request head, its parsing and how it is answered. A head is
-- bytes; `from_utf8_lossy` of the library is a parameter.
use apprtc.Prelude.{
  ℕ, Text, codes, ◌+◌, ◌*◌, ◌≤◌, ◌<◌, ◌≡◌, Option, some, none, List, [], ◌∷◌, ◌++◌, map, Bool, true,
  false, ◌&&◌, ◌||◌, not, eqb, leb, length, Result, ok, err, if◌then◌else◌,
}
use apprtc.Std.Decimal.{decimal}
use apprtc.Std.Split.{
  split_crlf, split_whitespace, split_once, trim, text_eq, eq_ignore_ascii_case, strip_prefix,
}
pub mod Head
pub mod Parsed

pub record HttpRequest : Type 0 where
  pub method : Text
  pub path : Text
  pub headers : List (Text × Text)

abbrev pub first_or : Text → List Text → Text
first_or d [] = d
first_or d (word ∷ words) = word

abbrev pub second_or : Text → List Text → Text
second_or d [] = d
second_or d (word ∷ words) = first_or d words

-- `filter_map` over the lines up to the first empty one.
unfoldable pub parse_headers : List Text → List (Text × Text)
unfolding split_once trim
parse_headers [] = []
parse_headers ([] ∷ lines) = []
parse_headers ((c ∷ line) ∷ lines) =
    let rest = parse_headers lines in
    elim (split_once b':' (c ∷ line)) [
      | none ↦ rest
      | some (key, value) ↦ (trim key, trim value) ∷ rest
    ]

unfoldable pub parse_lines : List Text → HttpRequest
unfolding parse_headers split_whitespace
parse_lines [] = record { method = []; path = b'/' ∷ []; headers = [] }
parse_lines (line ∷ lines) = record {
  method = first_or [] (split_whitespace line);
  path = second_or (b'/' ∷ []) (split_whitespace line);
  headers = parse_headers lines;
}

unfoldable pub parse : (List ℕ → Text) → List ℕ → HttpRequest
unfolding parse_lines split_crlf
parse from_utf8_lossy head = parse_lines (split_crlf (from_utf8_lossy head))

unfoldable pub find_header : Text → List (Text × Text) → Option Text
unfolding eq_ignore_ascii_case
find_header name [] = none
find_header name ((key, value) ∷ headers) =
    let rest = find_header name headers in
    if eq_ignore_ascii_case key name then some value else rest

unfoldable pub header : HttpRequest → Text → Option Text
unfolding find_header
header request name = find_header name request.headers

-- "\r\n"
abbrev pub crlf : Text
crlf = 13 ∷ 10 ∷ []

-- The body's length is in bytes; the bodies that are sent are ASCII.
unfoldable pub respond : Text → Text → Text
unfolding decimal
respond status body =
    codes "HTTP/1.1 "
    ++ status
    ++ crlf
    ++ codes "Content-Type: text/plain; charset=utf-8"
    ++ crlf
    ++ codes "Content-Length: "
    ++ decimal (length body)
    ++ crlf
    ++ codes "Connection: close"
    ++ crlf
    ++ crlf
    ++ body

-- What `handle_connection` answers a request with: `upgraded` goes on as a WebSocket, and `panicked` is
-- the unwrap of a key that is not there.
pub data Answer : Type 0 where
  refused : Text → Answer
  upgraded : Text → Answer
  panicked : Answer

abbrev pub is_some : Option Text → Bool
is_some none = false
is_some (some _) = true

abbrev pub is_some_and : Option Text → (Text → Bool) → Bool
is_some_and none f = false
is_some_and (some value) f = f value

unfoldable pub is_upgrade : HttpRequest → Bool
unfolding header eq_ignore_ascii_case
is_upgrade request =
    is_some_and (header request (codes "upgrade")) (λ v. eq_ignore_ascii_case v (codes "websocket"))
    && is_some (header request (codes "sec-websocket-key"))

unfoldable pub switching : Text → Text
switching accept =
    codes "HTTP/1.1 101 Switching Protocols"
    ++ crlf
    ++ codes "Upgrade: websocket"
    ++ crlf
    ++ codes "Connection: Upgrade"
    ++ crlf
    ++ codes "Sec-WebSocket-Accept: "
    ++ accept
    ++ crlf
    ++ crlf

unfoldable pub is_ws_path : Text → Bool
unfolding text_eq
is_ws_path path = text_eq path (codes "/ws") || text_eq path (codes "/ws/")

-- `derive_accept_key` belongs to the WebSocket library.
unfoldable pub answer_request : (Text → Text) → HttpRequest → Answer
unfolding is_ws_path is_upgrade header respond switching
answer_request derive_accept_key request =
    if not (is_ws_path request.path)
    then refused (respond (codes "404 Not Found") (codes "not found"))
    else if not (is_upgrade request)
    then refused (respond (codes "426 Upgrade Required") (codes "upgrade required"))
    else elim (header request (codes "sec-websocket-key")) [
      | none ↦ panicked
      | some key ↦ upgraded (switching (derive_accept_key key))
    ]

-- `buf.windows(4).any(|w| w == b"\r\n\r\n")`
unfoldable pub has_blank_line : List ℕ → Bool
unfolding strip_prefix
has_blank_line [] = false
has_blank_line (b ∷ bs) =
    let rest = has_blank_line bs in
    elim (strip_prefix (crlf ++ crlf) (b ∷ bs)) [ none ↦ rest | some _ ↦ true ]

pub data HeadError : Type 0 where
  failed closed too_large : HeadError

-- The loop of `read_http_head` over what the reads give: `none` is an error, an empty chunk a closed
-- connection. The result is `none` while it waits for another chunk.
unfoldable pub read_http_head : List (Option (List ℕ)) → List ℕ → Option (Result (List ℕ) HeadError)
unfolding has_blank_line
read_http_head [] buf = none
read_http_head (none ∷ chunks) buf = some (err failed)
read_http_head (some [] ∷ chunks) buf = some (err closed)
read_http_head (some (b ∷ bs) ∷ chunks) buf =
    let rest = read_http_head chunks (buf ++ b ∷ bs) in
    if has_blank_line (buf ++ b ∷ bs)
    then some (ok (buf ++ b ∷ bs))
    else if leb (length (buf ++ b ∷ bs)) (64 * 1024)
    then rest
    else some (err too_large)
