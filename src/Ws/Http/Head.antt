-- ===== src/Ws/Http/Head.antt =====
-- read_http_head of ws_server.rs, and the answer to a request.
use apprtc.Prelude.{
  ℕ, Text, Option, none, codes, ◌*◌, ◌≤◌, ◌≡◌, ◌≢◌, inl, inr, some, List, [], ◌∷◌, ◌++◌, true,
  length, length-append, All, Result, ok, err, arith, Option-cases,
}
use apprtc.Ws.Http.{
  HttpRequest, header, panicked, is_upgrade, answer_request, has_blank_line, HeadError,
  read_http_head,
}

abbrev chunk_size : Option (List ℕ) → ℕ
chunk_size none = 0
chunk_size (some chunk) = length chunk

abbrev pub IsHead : ℕ → Result (List ℕ) HeadError → Type 0
IsHead limit (ok head) = (has_blank_line head ≡ true) × (length head ≤ limit)
IsHead limit (err e) = Unit

-- Where no chunk has more bytes than the buffer of 1024, a head that is accepted has the blank line
-- that ends it and at most 65 KiB, from a buffer of at most 64 KiB on.
pub IsHead-read_http_head :
    (chunks : List (Option (List ℕ))) (buf : List ℕ) (r : Result (List ℕ) HeadError)
    → All (λ chunk. chunk_size chunk ≤ 1024) chunks
    → length buf ≤ 64 * 1024
    → read_http_head chunks buf ≡ some r
    → IsHead (65 * 1024) r
unfolding read_http_head
IsHead-read_http_head [] buf r a l h = absurd (ground (arith, h))
IsHead-read_http_head (none ∷ chunks) buf (ok head) a l h = absurd (ground (arith, h))
IsHead-read_http_head (none ∷ chunks) buf (err e) a l h = tt
IsHead-read_http_head (some [] ∷ chunks) buf (ok head) a l h = absurd (ground (arith, h))
IsHead-read_http_head (some [] ∷ chunks) buf (err e) a l h = tt
IsHead-read_http_head (some (b ∷ bs) ∷ chunks) buf r a l h =
    ground (
      arith,
      h,
      a.0,
      length-append buf (b ∷ bs),
      IsHead-read_http_head chunks (buf ++ b ∷ bs) r a.1,
    )

-- The unwrap of the key never panics: a request that gets to it has the header.
answer_request_total :
    (derive_accept_key : Text → Text) (request : HttpRequest)
    → answer_request derive_accept_key request ≢ panicked
unfolding answer_request is_upgrade
answer_request_total derive_accept_key request e =
    elim (Option-cases (header request (codes "sec-websocket-key"))) [
      | inl n ↦ ground (arith, n, e)
      | inr (key, f) ↦ ground (arith, f, e)
    ]
