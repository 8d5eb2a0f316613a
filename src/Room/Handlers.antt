-- ===== src/Room/Handlers.antt =====
-- The other handlers of room_server.rs that call the authority. Path segments that the code walks are
-- texts of code points; the `Authorization` header is what `get` and `to_str` give of it.
use apprtc.Prelude.{
  ℕ, String, Text, ◌≡◌, Option, some, none, List, [], ◌∷◌, Result, ok, err, Bool, true, false, ◌&&◌,
  eqb, and_then, str_eq, leb, if◌then◌else◌,
}
use apprtc.RoomId.{RoomId}
use apprtc.Std.Split.{strip_prefix}
use apprtc.Std.Parse.{is_ascii_digit, parse_u64}
use apprtc.Room.Server.{
  RoomAuthority, Response, result, ok_empty, text, server_error, cors, Inner, http_error,
}
pub mod Errors
pub mod Canonical

-- `value.bytes().all(is_ascii_digit)`
unfoldable pub all_digits : Text → Bool
unfolding is_ascii_digit
all_digits [] = true
all_digits (c ∷ s) = is_ascii_digit c && all_digits s

unfoldable pub canonical_u64 : Text → Option ℕ
unfolding all_digits parse_u64
canonical_u64 [] = none
canonical_u64 (c ∷ []) =
    if eqb c b'0' then some 0 else if all_digits (c ∷ []) then parse_u64 (c ∷ []) else none
canonical_u64 (c ∷ d ∷ s) =
    if eqb c b'0' then none else if all_digits (c ∷ d ∷ s) then parse_u64 (c ∷ d ∷ s) else none

unfoldable pub nonempty : Text → Option Text
nonempty [] = none
nonempty (c ∷ s) = some (c ∷ s)

-- "Bearer "
abbrev pub bearer : Text
bearer = b'B' ∷ b'e' ∷ b'a' ∷ b'r' ∷ b'e' ∷ b'r' ∷ b' ' ∷ []

unfoldable pub bearer_token : Option Text → Option Text
unfolding strip_prefix nonempty
bearer_token authorization =
    and_then authorization (λ value. and_then (strip_prefix bearer value) nonempty)

module _ {S : Type 0} (a : RoomAuthority S) where
  unfoldable pub leave : String → String → Inner S → Inner S × Response
  unfolding http_error
  leave roomid clientid s =
      let (authority, outcome) = a.remove roomid clientid s.authority in
      let s' : Inner S = record s { authority = authority } in
      elim outcome [ ok _ ↦ (s', ok_empty) | err error ↦ http_error error s' ]

  unfoldable pub message : String → String → String → Inner S → Inner S × Response
  message roomid clientid body s =
      let (authority, outcome) = a.inject roomid clientid body s.authority in
      (
        record s { authority = authority },
        elim outcome [ ok _ ↦ result "SUCCESS" | err error ↦ result error ],
      )

  abbrev pub with_cors : Inner S × Response → Inner S × Response
  with_cors (s, response) = (s, cors response)

  -- `failed` is what `format!` makes of an error: "Failed to send the message: {error}".
  unfoldable pub bridge_post :
      (String → String) → String → String → String → Inner S → Inner S × Response
  unfolding http_error
  bridge_post failed roomid clientid body s =
      let (authority, outcome) = a.inject roomid clientid body s.authority in
      let s' : Inner S = record s { authority = authority } in
      if str_eq body "" then with_cors (http_error "Empty request body" s) else elim outcome [
        | ok _ ↦ (s', cors (text "OK\n"))
        | err error ↦ with_cors (http_error (failed error) s')
      ]

  unfoldable pub bridge_delete : String → String → Inner S → Inner S × Response
  unfolding http_error
  bridge_delete roomid clientid s =
      let (authority, outcome) = a.remove roomid clientid s.authority in
      let s' : Inner S = record s { authority = authority } in
      elim outcome [ ok _ ↦ (s', cors (text "OK\n")) | err error ↦ with_cors (http_error error s') ]

  -- `string_of` makes a `String` of the token's characters.
  unfoldable pub v2_leave :
      (String → Option RoomId)
      → (Text → String)
      → String
      → Text
      → Option Text
      → Inner S
      → Inner S × Response
  unfolding canonical_u64 bearer_token
  v2_leave parse_room_token string_of roomid clientid authorization s =
      elim (parse_room_token roomid) [
        | none ↦ (s, result "INVALID_ROOM_ID")
        | some room ↦ elim (canonical_u64 clientid) [
          | none ↦ (s, result "INVALID_CLIENT_ID")
          | some client ↦ elim (bearer_token authorization) [
            | none ↦ (s, result "UNAUTHORIZED")
            | some token ↦
                let (authority, outcome) = a.remove_v2 room client (string_of token) s.authority in
                (
                  record s { authority = authority },
                  elim outcome [ ok _ ↦ result "SUCCESS" | err error ↦ result error ],
                )
          ]
        ]
      ]
