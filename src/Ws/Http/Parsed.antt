-- ===== src/Ws/Http/Parsed.antt =====
-- HttpRequest::parse of ws_server.rs on a request that is written as HTTP.
use apprtc.Prelude.{
  ℕ, Text, codes, ◌≡◌, ◌≢◌, refl, ◌∙◌, ap, some, List, [], ◌∷◌, ◌++◌, false, eqb, All, All-append,
  All-map, arith,
}
use apprtc.Std.Split.{
  split_crlf, split, split_whitespace, filter_nonempty, is_whitespace, split_once, trim, trim_start,
  onto_first,
}
use apprtc.Ws.Http.{parse_headers, parse_lines, parse, crlf}

-- A word of the request line.
pub record IsWord (w : Text) : Type 0 where
  pub nonempty : w ≢ []
  pub no_space : All (λ c. is_whitespace c ≡ false) w

-- A header whose key and value are lines without spaces around them.
pub record IsField (field : Text × Text) : Type 0 where
  pub nonempty : field.0 ≢ []
  pub one_line : All (λ c. c ≢ 13) (field.0 ++ b':' ∷ 32 ∷ field.1)
  pub no_colon : All (λ c. c ≢ b':') field.0
  pub key_trimmed : trim field.0 ≡ field.0
  pub value_trimmed : trim field.1 ≡ field.1

-- The lines of the headers, as a client writes them.
abbrev pub header_lines : List (Text × Text) → Text → Text
header_lines [] rest = crlf ++ rest
header_lines ((key, value) ∷ fields) rest =
    (key ++ b':' ∷ 32 ∷ value) ++ crlf ++ header_lines fields rest

abbrev pub request_text : Text → Text → List (Text × Text) → Text → Text
request_text method path fields rest =
    (method ++ 32 ∷ (path ++ 32 ∷ codes "HTTP/1.1")) ++ crlf ++ header_lines fields rest

eqb_ne : (a b : ℕ) → a ≢ b → eqb a b ≡ false
eqb_ne a b h = ground (arith, h)

split_crlf_end : (s : Text) → split_crlf (crlf ++ s) ≡ [] ∷ split_crlf s
unfolding split_crlf
split_crlf_end s = refl

split_crlf-cons :
    (c d : ℕ) (s : Text) → c ≢ 13 → split_crlf (c ∷ d ∷ s) ≡ onto_first c (split_crlf (d ∷ s))
unfolding split_crlf
split_crlf-cons c d s h = rw (eqb_ne c 13 h) refl

split_crlf-line :
    (line s : Text) → All (λ c. c ≢ 13) line → split_crlf (line ++ crlf ++ s) ≡ line ∷ split_crlf s
split_crlf-line [] s h = split_crlf_end s
split_crlf-line (c ∷ []) s h =
    split_crlf-cons c 13 (10 ∷ s) h.0 ∙ ap (onto_first c) (split_crlf_end s)
split_crlf-line (c ∷ d ∷ line) s h =
    split_crlf-cons c d (line ++ crlf ++ s) h.0
    ∙ ap (onto_first c) (split_crlf-line (d ∷ line) s h.1)

split-word :
    (w s : Text)
    → All (λ c. is_whitespace c ≡ false) w
    → split is_whitespace (w ++ 32 ∷ s) ≡ w ∷ split is_whitespace s
unfolding split is_whitespace
split-word [] s h = refl
split-word (c ∷ w) s h = ground (arith, h.0, split-word w s h.1)

filter_nonempty-cons :
    (w : Text) (ws : List Text) → w ≢ [] → filter_nonempty (w ∷ ws) ≡ w ∷ filter_nonempty ws
unfolding filter_nonempty
filter_nonempty-cons [] ws h = absurd (h refl)
filter_nonempty-cons (c ∷ w) ws h = refl

split_whitespace-request_line :
    (method path version : Text)
    → IsWord method
    → IsWord path
    → split_whitespace (method ++ 32 ∷ (path ++ 32 ∷ version))
      ≡ method ∷ path ∷ split_whitespace version
unfolding split_whitespace
split_whitespace-request_line method path version m p =
    ap filter_nonempty (split-word method (path ++ 32 ∷ version) m.no_space)
    ∙ (filter_nonempty-cons method _ m.nonempty
        ∙ ap (◌∷◌ method) (
            ap filter_nonempty (split-word path version p.no_space)
            ∙ filter_nonempty-cons path _ p.nonempty))

split_once-key :
    (key value : Text)
    → All (λ c. c ≢ b':') key
    → split_once b':' (key ++ b':' ∷ value) ≡ some (key, value)
unfolding split_once
split_once-key [] value h = refl
split_once-key (c ∷ key) value h = ground (arith, h.0, split_once-key key value h.1)

trim-space : (s : Text) → trim (32 ∷ s) ≡ trim s
unfolding trim trim_start is_whitespace
trim-space s = refl

-- One line of a header is read as that header.
parse_headers-line :
    (line key value : Text) (lines : List Text)
    → line ≢ []
    → split_once b':' line ≡ some (key, value)
    → parse_headers (line ∷ lines) ≡ (trim key, trim value) ∷ parse_headers lines
unfolding parse_headers
parse_headers-line [] key value lines n e = absurd (n refl)
parse_headers-line (c ∷ line) key value lines n e = rw (e, parse_headers) refl

parse_headers-field :
    (field : Text × Text) (lines : List Text)
    → IsField field
    → parse_headers ((field.0 ++ b':' ∷ 32 ∷ field.1) ∷ lines) ≡ field ∷ parse_headers lines
parse_headers-field ([], value) lines f = absurd (f.nonempty refl)
parse_headers-field (c ∷ key, value) lines f =
    parse_headers-line ((c ∷ key) ++ b':' ∷ 32 ∷ value) (c ∷ key) (32 ∷ value) lines
      (λ e. ground (arith, e)) (split_once-key (c ∷ key) (32 ∷ value) f.no_colon)
    ∙ ap (λ p. p ∷ parse_headers lines)
        (ap (λ k. (k, trim (32 ∷ value))) f.key_trimmed
          ∙ ap (λ v. (c ∷ key, v)) (trim-space value ∙ f.value_trimmed))

parse_headers_end : (lines : List Text) → parse_headers ([] ∷ lines) ≡ []
unfolding parse_headers
parse_headers_end lines = refl

parse_headers-header_lines :
    (fields : List (Text × Text)) (rest : Text)
    → All IsField fields
    → parse_headers (split_crlf (header_lines fields rest)) ≡ fields
parse_headers-header_lines [] rest f =
    ap parse_headers (split_crlf-line [] rest tt) ∙ parse_headers_end (split_crlf rest)
parse_headers-header_lines (field ∷ fields) rest f =
    ap parse_headers
      (split_crlf-line (field.0 ++ b':' ∷ 32 ∷ field.1) (header_lines fields rest) f.0.one_line)
    ∙ (parse_headers-field field (split_crlf (header_lines fields rest)) f.0
        ∙ ap (◌∷◌ field) (parse_headers-header_lines fields rest f.1))

space-not_return : (c : ℕ) → is_whitespace c ≡ false → c ≢ 13
unfolding is_whitespace
space-not_return c h e = ground (arith, h, e)

request_line-one_line :
    (method path : Text)
    → IsWord method
    → IsWord path
    → All (λ c. c ≢ 13) (method ++ 32 ∷ (path ++ 32 ∷ codes "HTTP/1.1"))
request_line-one_line method path m p =
    let in_word =
      λ (w : Text) (h : IsWord w). All-map _ (λ c. c ≢ 13) w space-not_return h.no_space in
    All-append (λ c. c ≢ 13) method _ (in_word method m)
      (omega arith, All-append (λ c. c ≢ 13) path _ (in_word path p) version)
  where
    version : All (λ c. c ≢ 13) (32 ∷ codes "HTTP/1.1")
    version = ground arith

parse_lines-cons :
    (method path line : Text) (words lines : List Text) (headers : List (Text × Text))
    → split_whitespace line ≡ method ∷ path ∷ words
    → parse_headers lines ≡ headers
    → parse_lines (line ∷ lines) ≡ record { method = method; path = path; headers = headers }
unfolding parse_lines
parse_lines-cons method path line words lines headers e f = rw (e, f) refl

-- Where the method and the path are words, and every header is a line whose key has no colon and
-- whose key and value have no spaces around them, a head whose text is that request is parsed to
-- exactly this method, this path and these headers, whatever follows the blank line.
pub parse-request_text :
    (from_utf8_lossy : List ℕ → Text) (head : List ℕ) (method path rest : Text)
    (fields : List (Text × Text))
    → IsWord method
    → IsWord path
    → All IsField fields
    → from_utf8_lossy head ≡ request_text method path fields rest
    → parse from_utf8_lossy head ≡ record { method = method; path = path; headers = fields }
unfolding parse
parse-request_text from_utf8_lossy head method path rest fields m p f e =
    let line = method ++ 32 ∷ (path ++ 32 ∷ codes "HTTP/1.1") in
    ap (λ t. parse_lines (split_crlf t)) e
    ∙ (ap parse_lines
          (split_crlf-line line (header_lines fields rest) (request_line-one_line method path m p))
        ∙ parse_lines-cons method path line _ (split_crlf (header_lines fields rest)) fields
            (split_whitespace-request_line method path (codes "HTTP/1.1") m p)
            (parse_headers-header_lines fields rest f))
