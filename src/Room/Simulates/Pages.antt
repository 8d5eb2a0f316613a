-- ===== src/Room/Simulates/Pages.antt =====
-- The pages of room_server.rs over two authorities that answer alike.
use apprtc.Prelude.{ℕ, String, Text, ◌+◌, refl, Result, ok, err, Result-cases, inl, inr, ◌∙◌}
use apprtc.RoomId.{RoomId}
use apprtc.Params.{Config, Url}
use apprtc.Room.Server.{RoomAuthority, Response, Inner, http_error}
use apprtc.Room.Pages.{
  is_loopback, External, Request, request_context, rendered, with_context, room_page, join, status,
}
use apprtc.Room.Simulates.{Simulates, IsAlike}
use apprtc.Room.Simulates.Handlers.{inner}

module _ {S T : Type 0} (valid : RoomId → Type 0) (R : ℕ → S → T → Type 0) (a : RoomAuthority S)
    (b : RoomAuthority T) (m : Simulates valid R a b) where
  pub status-IsAlike :
      (e : External) (config : Config) (up n h : ℕ) (s : S) (t : T)
      → R (n + 1) s t
      → IsAlike (R n) (status e config a up (inner s h)) (status e config b up (inner t h))
  unfolding status
  status-IsAlike e config up n h s t r =
      let (after, same) = m.status n s t r in
      elim (Result-cases (b.status t).1) [
        | inl (v, f) ↦ rw (same ∙ f, status) (rw (f, status) (after, refl, refl))
        | inr (v, f) ↦ rw (same ∙ f, status) (rw (f, status) (after, refl, refl))
      ]

  http_error-IsAlike :
      (error : String) (n h : ℕ) (s : S) (t : T)
      → R n s t
      → IsAlike (R n) (http_error error (inner s h)) (http_error error (inner t h))
  unfolding http_error
  http_error-IsAlike error n h s t r = (r, refl, refl)

  pub rendered-IsAlike :
      (e : External) (config : Config) (failed : String) (body : Result Text String) (n h : ℕ)
      (s : S) (t : T)
      → R n s t
      → IsAlike
          (R n)
          (rendered e config failed body (inner s h))
          (rendered e config failed body (inner t h))
  unfolding rendered
  rendered-IsAlike e config failed (ok body) n h s t r = (r, refl, refl)
  rendered-IsAlike e config failed (err error) n h s t r = (r, refl, refl)

  pub with_context-IsAlike :
      (e : External) (config : Config) (request : Request) (f : Text → Url → Inner S × Response)
      (g : Text → Url → Inner T × Response) (n h : ℕ) (s : S) (t : T)
      → R n s t
      → ((host : Text) (url : Url) → IsAlike (R n) (f host url) (g host url))
      → IsAlike
          (R n)
          (with_context e config request (inner s h) f)
          (with_context e config request (inner t h) g)
  with_context-IsAlike e config request f g n h s t r each =
      elim (Result-cases (request_context e config request)) [
        | inl ((host, url), q) ↦ rw (q, with_context) (each host url)
        | inr (error, q) ↦ rw (q, with_context) (http_error-IsAlike error n h s t r)
      ]

  pub room_page-IsAlike :
      (e : External) (config : Config) (room : String) (request : Request) (n h : ℕ) (s : S) (t : T)
      → R (n + 1) s t
      → IsAlike
          (R n)
          (room_page e config a room request (inner s h))
          (room_page e config b room request (inner t h))
  unfolding room_page
  room_page-IsAlike e config room request n h s t r =
      with_context-IsAlike e config request _ _ n h s t (m.fewer n s t r) (λ host url.
        let (after, same) = m.occupancy room n s t r in
        elim (Result-cases (b.occupancy room t).1) [
          | inl (v, f) ↦ rw (same ∙ f) (rw f (rendered-IsAlike e config _ _ n h _ _ after))
          | inr (v, f) ↦ rw (same ∙ f) (rw f (http_error-IsAlike v n h _ _ after))
        ])

  pub join-IsAlike :
      (e : External) (config : Config) (client room : String) (request : Request) (n h : ℕ) (s : S)
      (t : T)
      → R (n + 1) s t
      → IsAlike
          (R n)
          (join e config a client room request (inner s h))
          (join e config b client room request (inner t h))
  unfolding join
  join-IsAlike e config client room request n h s t r =
      with_context-IsAlike e config request _ _ n h s t (m.fewer n s t r) (λ host url.
        let (after, same) = m.admit room client (is_loopback e config url.query_pairs) n s t r in
        rw same (after, refl, refl))
