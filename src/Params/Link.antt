-- ===== src/Params/Link.antt =====
-- The room link of a V2 page.
use apprtc.Prelude.{
  ℕ, Text, codes, ◌≡◌, ◌≢◌, refl, ◌∙◌, ap, none, [], ◌∷◌, ◌++◌, All, arith, Bool-cases, inl, inr,
}
use apprtc.Std.Split.{strip_prefix}
use apprtc.Params.{
  at_host, Config, Url, Value, self_origin, link_query, room_link, build_room_parameters,
  replace_first, build_v2_room_parameters,
}

-- "/r/" and "/v2/r/"
abbrev from : Text
from = codes "/r/"

abbrev to : Text
to = codes "/v2/r/"

abbrev pub NoSlash : Text → Type 0
NoSlash = All (λ c. c ≢ b'/')

replace_first_here : (s : Text) → replace_first from to (codes "/r/" ++ s) ≡ to ++ s
unfolding replace_first strip_prefix
replace_first_here s = refl

replace_first_later :
    (c : ℕ) (s : Text)
    → strip_prefix from (c ∷ s) ≡ none
    → replace_first from to (c ∷ s) ≡ c ∷ replace_first from to s
unfolding replace_first
replace_first_later c s h = rw (h, replace_first) refl

strip_prefix-other : (c : ℕ) (s : Text) → c ≢ b'/' → strip_prefix from (c ∷ s) ≡ none
unfolding strip_prefix
strip_prefix-other c s h = ground (arith, h)

-- Nothing is replaced in a part without slashes.
replace_first_skip :
    (part s : Text)
    → NoSlash part
    → replace_first from to (part ++ s) ≡ part ++ replace_first from to s
replace_first_skip [] s h = refl
replace_first_skip (c ∷ part) s h =
    replace_first_later c (part ++ s) (strip_prefix-other c (part ++ s) h.0)
    ∙ ap (◌∷◌ c) (replace_first_skip part s h.1)

-- The slash before a host is not where "/r/" begins.
strip_prefix-host :
    (host s : Text)
    → NoSlash host
    → host ≢ codes "r"
    → strip_prefix from (b'/' ∷ (host ++ (codes "/r/" ++ s))) ≡ none
unfolding strip_prefix
strip_prefix-host [] s h n = refl
strip_prefix-host (c ∷ []) s h n = ground (arith, n)
strip_prefix-host (c ∷ d ∷ host) s h n = ground (arith, h.1.0)

two_slashes : (s : Text) → strip_prefix from (b'/' ∷ b'/' ∷ s) ≡ none
unfolding strip_prefix
two_slashes s = refl

colon : (s : Text) → replace_first from to (codes "://r/r/" ++ s) ≡ codes "://v2/r/r/" ++ s
unfolding replace_first strip_prefix
colon s = refl

scheme-NoSlash : (config : Config) (host : Text) → NoSlash (self_origin config host).0
unfolding self_origin
scheme-NoSlash config host = elim (Bool-cases config.force_tls) [
  | inl e ↦ rw e (ground arith)
  | inr e ↦ rw e (ground arith)
]

-- A link of V1 is rewritten in its path, where the host is not in the way.
replace_first-at_host :
    (scheme host s : Text)
    → NoSlash scheme
    → NoSlash host
    → host ≢ codes "r"
    → replace_first from to (at_host scheme host (codes "/r/" ++ s))
      ≡ at_host scheme host (codes "/v2/r/" ++ s)
replace_first-at_host scheme host s a b n =
    let path = host ++ (codes "/r/" ++ s) in
    replace_first_skip scheme (codes "://" ++ path) a
    ∙ ap (λ t. scheme ++ t)
        (replace_first_later b':' (codes "//" ++ path)
            (strip_prefix-other b':' (codes "//" ++ path) (omega arith))
          ∙ ap (◌∷◌ b':') (
              replace_first_later b'/' (b'/' ∷ path) (two_slashes path)
              ∙ ap (◌∷◌ b'/') (
                  replace_first_later b'/' path (strip_prefix-host host s b n)
                  ∙ ap (◌∷◌ b'/') (
                      replace_first_skip host (codes "/r/" ++ s) b
                      ∙ ap (λ t. host ++ t) (replace_first_here s)))))

-- A host "r" is taken for the path.
replace_first-host_r :
    (scheme s : Text)
    → NoSlash scheme
    → replace_first from to (at_host scheme (codes "r") (codes "/r/" ++ s))
      ≡ at_host scheme (codes "v2") (codes "/r/r/" ++ s)
replace_first-host_r scheme s a =
    replace_first_skip scheme (codes "://r/r/" ++ s) a ∙ ap (λ t. scheme ++ t) (colon s)

module _ (must_json : Value → Text) where
  -- Where the room has a name and the host has no slash and is not "r", the link on a V2 page is this
  -- server's origin, then "/v2/r/", the room, and the query of the request.
  pub room_link-build_v2 :
      (config : Config) (request_host : Text) (url : Url) (room : Text)
      → room ≢ []
      → NoSlash (self_origin config request_host).2
      → (self_origin config request_host).2 ≢ codes "r"
      → (build_v2_room_parameters must_json config request_host url room).room_link
        ≡ at_host
            (self_origin config request_host).0
            (self_origin config request_host).2
            (codes "/v2/r/" ++ (room ++ link_query url.query))
  unfolding build_v2_room_parameters build_room_parameters room_link
  room_link-build_v2 config request_host url [] h a n = absurd (h refl)
  room_link-build_v2 config request_host url (c ∷ room) h a n =
      let (scheme, ws, host) = self_origin config request_host in
      replace_first-at_host scheme host ((c ∷ room) ++ link_query url.query)
        (scheme-NoSlash config request_host) a n

  -- Where the host is "r", the link on a V2 page of a room with a name is one of the host "v2", whose
  -- path is "/r/r/" and the room.
  pub room_link-host_r :
      (config : Config) (request_host : Text) (url : Url) (room : Text)
      → room ≢ []
      → (self_origin config request_host).2 ≡ codes "r"
      → (build_v2_room_parameters must_json config request_host url room).room_link
        ≡ at_host
            (self_origin config request_host).0
            (codes "v2")
            (codes "/r/r/" ++ (room ++ link_query url.query))
  unfolding build_v2_room_parameters build_room_parameters room_link
  room_link-host_r config request_host url [] h e = absurd (h refl)
  room_link-host_r config request_host url (c ∷ room) h e =
      let (scheme, ws, host) = self_origin config request_host in
      let path = (c ∷ room) ++ link_query url.query in
      ap (λ t. replace_first from to (at_host scheme t (codes "/r/" ++ path))) e
      ∙ replace_first-host_r scheme path (scheme-NoSlash config request_host)
