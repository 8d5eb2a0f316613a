-- ===== src/Room/Pages/Counted.antt =====
-- What the pages, V1 join and the status add to the count of HTTP errors.
use apprtc.Prelude.{
  ℕ, String, Text, ◌%◌, ◌≡◌, Option, Result, ok, err, arith, Result-cases, Option-cases, inl, inr,
}
use apprtc.RoomId.{RoomId}
use apprtc.Std.Parse.{u64_mod}
use apprtc.Params.{Config, Url}
use apprtc.Room.Server.{RoomAuthority, Response, Inner, http_error}
use apprtc.Room.Handlers.Errors.{Counts}
use apprtc.Room.Pages.{
  External, Request, request_context, rendered, with_context, main_page, v2_room_page, get_params,
  v2_params, room_page, join, status,
}

module _ (e : External) (config : Config) {S : Type 0} where
  Counts-http_error :
      (message : String) (s : Inner S)
      → s.http_errors % u64_mod ≡ s.http_errors
      → Counts s (http_error message s)
  unfolding http_error
  Counts-http_error message s h = ground (arith, h)

  Counts-rendered :
      (failed : String) (r : Result Text String) (s : Inner S)
      → s.http_errors % u64_mod ≡ s.http_errors
      → Counts s (rendered e config failed r s)
  unfolding rendered
  Counts-rendered failed (ok body) s h = ground (arith, h)
  Counts-rendered failed (err error) s h = ground (arith, h)

  Counts-with_context :
      (request : Request) (s : Inner S) (f : Text → Url → Inner S × Response)
      → s.http_errors % u64_mod ≡ s.http_errors
      → ((host : Text) (url : Url) → Counts s (f host url))
      → Counts s (with_context e config request s f)
  Counts-with_context request s f h g = elim (Result-cases (request_context e config request)) [
    | inl ((host, url), r) ↦ rw (r, with_context) (g host url)
    | inr (error, r) ↦ rw (r, with_context) (Counts-http_error error s h)
  ]

  pub Counts-main_page :
      (request : Request) (s : Inner S)
      → s.http_errors % u64_mod ≡ s.http_errors
      → Counts s (main_page e config request s)
  unfolding main_page
  Counts-main_page request s h =
      Counts-with_context request s _ h (λ host url. Counts-rendered _ _ s h)

  pub Counts-v2_room_page :
      (parse_room_token : String → Option RoomId) (roomid : String) (request : Request)
      (s : Inner S)
      → s.http_errors % u64_mod ≡ s.http_errors
      → Counts s (v2_room_page e config parse_room_token roomid request s)
  unfolding v2_room_page
  Counts-v2_room_page parse_room_token roomid request s h =
      elim (Option-cases (parse_room_token roomid)) [
        | inl r ↦ rw (r, v2_room_page) (ground (arith, h))
        | inr (room, r) ↦
            rw (r, v2_room_page)
              (Counts-with_context request s _ h (λ host url. Counts-rendered _ _ s h))
      ]

  pub Counts-get_params :
      (request : Request) (s : Inner S)
      → s.http_errors % u64_mod ≡ s.http_errors
      → Counts s (get_params e config request s) × Counts s (v2_params e config request s)
  unfolding get_params v2_params
  Counts-get_params request s h = (
    Counts-with_context request s _ h (λ host url. ground (arith, h)),
    Counts-with_context request s _ h (λ host url. ground (arith, h)),
  )

  module _ (a : RoomAuthority S) where
    pub Counts-room_page :
        (roomid : String) (request : Request) (s : Inner S)
        → s.http_errors % u64_mod ≡ s.http_errors
        → Counts s (room_page e config a roomid request s)
    unfolding room_page
    Counts-room_page roomid request s h = Counts-with_context request s _ h (λ host url.
        let (authority, outcome) = a.occupancy roomid s.authority in
        let s' : Inner S = record s { authority = authority } in
        elim (Result-cases outcome) [
          | inl (occupancy, r) ↦ rw r (Counts-rendered _ _ s' h)
          | inr (error, r) ↦ rw r (Counts-http_error error s' h)
        ])

    pub Counts-join :
        (client roomid : String) (request : Request) (s : Inner S)
        → s.http_errors % u64_mod ≡ s.http_errors
        → Counts s (join e config a client roomid request s)
    unfolding join
    Counts-join client roomid request s h =
        Counts-with_context request s _ h (λ host url. ground (arith, h))

    pub Counts-status :
        (up_time_sec : ℕ) (s : Inner S)
        → s.http_errors % u64_mod ≡ s.http_errors
        → Counts s (status e config a up_time_sec s)
    unfolding status
    Counts-status up_time_sec s h = ground (arith, h)
