-- ===== src/Room/Handlers/Errors.antt =====
-- What the handlers count and what they let through to the authority.
use apprtc.Prelude.{
  ◌<◌, ◌≢◌, and_then, ℕ_discrete, ◌↔◌, ◌++◌, [], ◌∷◌, codes, refl, sym, ap, ◌∙◌, subst, some_inj, ℕ,
  String, Text, ◌+◌, ◌%◌, ◌≡◌, ◌⊎◌, inl, inr, Option, some, none, arith, Option-cases,
}
use apprtc.RoomId.{RoomId}
use apprtc.Std.Parse.{u64_mod}
use apprtc.Std.Decimal.{decimal}
use apprtc.Std.Split.{strip_prefix}
use apprtc.Room.Handlers.Canonical.{canonical_u64_iff}
use apprtc.Room.Server.{RoomAuthority, Response, result, server_error, cors, Inner}
use apprtc.Room.Handlers.{
  leave, message, bridge_post, bridge_delete, v2_leave, canonical_u64, bearer, nonempty,
  bearer_token,
}

-- How many HTTP errors a response is.
abbrev pub errors : Response → ℕ
errors (server_error _) = 1
errors (cors r) = errors r
errors _ = 0

-- The count of HTTP errors grows by the errors among the responses.
abbrev pub Counts : {S : Type 0} → Inner S → Inner S × Response → Type 0
Counts s (s', r) = s'.http_errors ≡ (s.http_errors + errors r) % u64_mod

-- A client id as the path has it.
abbrev pub IsClientId : Text → ℕ → Type 0
IsClientId client id = (client ≡ decimal id) × (id < u64_mod)

-- The header with a token.
abbrev pub IsBearer : Option Text → Text → Type 0
IsBearer authorization token = (authorization ≡ some (codes "Bearer " ++ token)) × (token ≢ [])

strip_prefix_iff : (p s t : Text) → (strip_prefix p s ≡ some t) ↔ (s ≡ p ++ t)
unfolding strip_prefix
strip_prefix_iff [] s t = (some_inj, ap some)
strip_prefix_iff (a ∷ p) [] t = (λ e. cc, λ e. cc)
strip_prefix_iff (a ∷ p) (c ∷ s) t = (
  λ h. elim (ℕ_discrete a c) [
    | yes e ↦
        subst (λ i. i ∷ s ≡ a ∷ (p ++ t)) e
          (ap (◌∷◌ a) ((strip_prefix_iff p s t).0 (ground (arith, e, h))))
    | no n ↦ absurd (ground (arith, n, h))
  ],
  λ h.
      let first : a ≡ c = cc in
      let rest : s ≡ p ++ t = cc in ground (arith, first, (strip_prefix_iff p s t).1 rest),
)

nonempty_iff : (t token : Text) → (nonempty t ≡ some token) ↔ ((t ≡ token) × (token ≢ []))
unfolding nonempty
nonempty_iff [] token = (λ e. cc, λ h. absurd (h.1 (sym h.0)))
nonempty_iff (c ∷ t) token = (λ e. (some_inj e, λ n. cc), λ h. ap some h.0)

bearer_token_iff :
    (authorization : Option Text) (token : Text)
    → (bearer_token authorization ≡ some token) ↔ IsBearer authorization token
unfolding bearer_token
bearer_token_iff none token = (λ h. cc, λ h. cc (h.0))
bearer_token_iff (some value) token = (
  λ h. elim (Option-cases (strip_prefix bearer value)) [
    | inl n ↦ absurd (ground (arith, n, h))
    | inr (t, f) ↦
        let (same, ne) =
          (nonempty_iff t token).0 (subst (λ o. and_then o nonempty ≡ some token) f h) in
        (ap some ((strip_prefix_iff bearer value t).0 f ∙ ap (λ i. bearer ++ i) same), ne)
  ],
  λ h.
      let f = (strip_prefix_iff bearer value token).1 (some_inj h.0) in
      rw f ((nonempty_iff token token).1 (refl, h.1)),
)

no_some : {A : Type 0} {o : Option A} {a : A} → o ≡ none → o ≡ some a → ⊥
no_some e f = cc

module _ {S : Type 0} (a : RoomAuthority S) where
  -- While the count of HTTP errors is a u64, the handlers of leave, of messages, of the bridge and
  -- of V2 leave add to it exactly their responses with the status 500, whatever the authority
  -- answers.
  pub handlers-Counts :
      (failed : String → String) (parse_room_token : String → Option RoomId)
      (string_of : Text → String) (roomid clientid body : String) (client : Text)
      (authorization : Option Text) (s : Inner S)
      → s.http_errors % u64_mod ≡ s.http_errors
      → Counts s (leave a roomid clientid s)
        × Counts s (message a roomid clientid body s)
        × Counts s (bridge_post a failed roomid clientid body s)
        × Counts s (bridge_delete a roomid clientid s)
        × Counts s (v2_leave a parse_room_token string_of roomid client authorization s)
  unfolding leave message bridge_post bridge_delete v2_leave
  handlers-Counts failed parse_room_token string_of roomid clientid body client authorization s h =
      (
        ground (arith, h),
        ground (arith, h),
        ground (arith, h),
        ground (arith, h),
        ground (arith, h),
      )

  -- A V2 leave reaches the authority only with the room of its path, with a client id whose decimal is
  -- the text in the path and which is a u64, and with a token that is not empty and that follows "Bearer "
  -- in the header Authorization; it is then passed on as these. Otherwise nothing changes, and the answer
  -- is that the room is none, or that no u64 has that decimal, or that there is no such token.
  pub v2_leave-checked :
      (parse_room_token : String → Option RoomId) (string_of : Text → String) (roomid : String)
      (client : Text) (authorization : Option Text) (s : Inner S)
      → ((v2_leave a parse_room_token string_of roomid client authorization s).0 ≡ s)
          × (((parse_room_token roomid ≡ none)
                × ((v2_leave a parse_room_token string_of roomid client authorization s).1
                    ≡ result "INVALID_ROOM_ID"))
              ⊎ (((id : ℕ) → IsClientId client id → ⊥)
                  × ((v2_leave a parse_room_token string_of roomid client authorization s).1
                      ≡ result "INVALID_CLIENT_ID"))
              ⊎ (((token : Text) → IsBearer authorization token → ⊥)
                  × ((v2_leave a parse_room_token string_of roomid client authorization s).1
                      ≡ result "UNAUTHORIZED")))
        ⊎ ((room : RoomId) × (id : ℕ) × (token : Text) × (parse_room_token roomid ≡ some room)
            × IsClientId client id
            × IsBearer authorization token
            × ((v2_leave a parse_room_token string_of roomid client authorization s).0.authority
                ≡ (a.remove_v2 room id (string_of token) s.authority).0))
  unfolding v2_leave
  v2_leave-checked parse_room_token string_of roomid client authorization s =
      elim (Option-cases (parse_room_token roomid)) [
        | inl e ↦ inl (ground (arith, e), inl (e, ground (arith, e)))
        | inr (room, e) ↦ elim (Option-cases (canonical_u64 client)) [
          | inl f ↦ inl (
            ground arith,
            inr (inl ((λ id h. no_some f ((canonical_u64_iff client id).1 h)), ground arith)),
          )
          | inr (id, f) ↦ elim (Option-cases (bearer_token authorization)) [
            | inl g ↦ inl (
              ground arith,
              inr (
                  inr (
                    (λ token h. no_some g ((bearer_token_iff authorization token).1 h)),
                    ground arith,
                  )),
            )
            | inr (token, g) ↦ inr (
              room,
              id,
              token,
              e,
              (canonical_u64_iff client id).0 f,
              (bearer_token_iff authorization token).0 g,
              ground arith,
            )
          ]
        ]
      ]
