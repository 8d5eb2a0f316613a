-- ===== src/Startup/Pages.antt =====
-- What the pages of an AppRTC server that has started say of it.
use apprtc.Prelude.{
  ℕ, String, Text, codes, ◌≡◌, ◌≢◌, refl, sym, ap, subst, ◌∙◌, Option, some, none, [], ◌∷◌, ◌++◌,
  Result, ok, eqb, Bool, true, false, arith, Bool-cases, inl, inr, ◌⊎◌, Option-cases, Result, ◌≢◌,
  some,
}
use apprtc.Std.Split.{trim_end_matches, text_eq}
use apprtc.Params.{
  Url, Value, RoomParameters, at_host, link_query, build_room_parameters, build_v2_room_parameters,
  room_link, wss_url, self_origin,
}
use apprtc.Std.Decimal.{decimal}
use apprtc.Params.Link.{NoSlash, room_link-build_v2}
use apprtc.Tls.{Files, Rustls}
use apprtc.Grpc.Client.Connect.{Transport}
use apprtc.Startup.Parts.{configure-IsConfigured, main-parts}
use apprtc.Startup.{
  Cli, WebUrl, is_http, public_host, signaling_url, with_port, config, System, Server, main,
}

text_eq-eq : (s t : Text) → text_eq s t ≡ true → s ≡ t
unfolding text_eq
text_eq-eq [] [] h = refl
text_eq-eq [] (_ ∷ _) h = absurd (ground (arith, h))
text_eq-eq (_ ∷ _) [] h = absurd (ground (arith, h))
text_eq-eq (c ∷ s) (d ∷ t) h =
    let rest = text_eq-eq s t (ground (arith, h)) in
    let first : c ≡ d = ground (arith, h) in ap (◌∷◌ c) rest ∙ ap (λ i. i ∷ t) first

-- Nothing is trimmed off a text that ends in one off which nothing is trimmed.
trim_end_matches-append :
    (at : ℕ → Bool) (s : Text) (c : ℕ) (t : Text)
    → trim_end_matches at (c ∷ t) ≡ c ∷ t
    → trim_end_matches at (s ++ (c ∷ t)) ≡ s ++ (c ∷ t)
unfolding trim_end_matches
trim_end_matches-append at [] c t h = h
trim_end_matches-append at (a ∷ []) c t h = rw (h, trim_end_matches) refl
trim_end_matches-append at (a ∷ b ∷ s) c t h =
    rw (trim_end_matches-append at (b ∷ s) c t h, trim_end_matches) refl

ws_stays : trim_end_matches (λ c. eqb c b'/') (codes "/ws") ≡ codes "/ws"
unfolding trim_end_matches
ws_stays = refl

append-ne : (s : Text) (c : ℕ) (t : Text) → s ++ (c ∷ t) ≢ []
append-ne [] c t e = cc
append-ne (a ∷ s) c t e = cc

with_port-ne : (host : Text) (port : Option ℕ) → host ≢ [] → with_port host port ≢ []
with_port-ne host none h = h
with_port-ne host (some port) h = append-ne host b':' (decimal port)

-- A public URL that passes the check.
public_host-IsPublic :
    (public : WebUrl) (host : Text)
    → public_host public ≡ ok host
    → ((text_eq public.scheme (codes "https") ≡ false) × (public.scheme ≡ codes "http"))
      ⊎ ((text_eq public.scheme (codes "https") ≡ true) × (public.scheme ≡ codes "https"))
unfolding public_host
public_host-IsPublic public host h = elim (Bool-cases (text_eq public.scheme (codes "https"))) [
  | inl secure ↦ inr (secure, text_eq-eq public.scheme (codes "https") secure)
  | inr other ↦ inl (other, text_eq-eq public.scheme (codes "http") (ground (arith, other, h)))
]

-- A signaling URL that passes the check.
signaling_url-IsWs :
    (url : WebUrl) (text : Text)
    → signaling_url url ≡ ok text
    → (url.path ≡ codes "/ws") × (url.query ≡ none) × (url.fragment ≡ none) × (url.text ≡ text)
unfolding signaling_url
signaling_url-IsWs url text h = (
  text_eq-eq url.path (codes "/ws") (ground (arith, h)),
  ground (arith, h),
  ground (arith, h),
  ground (arith, h),
)

-- What is relied on of the URL parser: an http URL with a host has one that is not empty, and a URL
-- without query and fragment ends in its path.
pub record IsUrlParser (parse_url : Text → Result WebUrl String) : Type 0 where
  pub host :
      {t : Text} {u : WebUrl} {h : Text}
      → parse_url t ≡ ok u
      → is_http u ≡ true
      → u.host_str ≡ some h
      → h ≢ []
  pub text :
      {t : Text} {u : WebUrl}
      → parse_url t ≡ ok u
      → u.query ≡ none
      → u.fragment ≡ none
      → (front : Text) × (u.text ≡ front ++ u.path)

public_host-ne :
    (public : WebUrl) (host : Text)
    → ((h : Text) → is_http public ≡ true → public.host_str ≡ some h → h ≢ [])
    → public_host public ≡ ok host
    → host ≢ []
unfolding public_host
public_host-ne public host named h = elim (Bool-cases (is_http public)) [
  | inr other ↦ absurd (ground (arith, other, h))
  | inl known ↦ elim (Option-cases public.host_str) [
    | inl n ↦ absurd (ground (arith, known, n, h))
    | inr (name, n) ↦
        λ e. with_port-ne name public.port (named name known n) (ground (arith, known, n, h, e))
  ]
]

-- The parameters of the pages of a room, `p` of V1 and `q` of V2, name the server by its public URL and
-- signaling by its own.
abbrev pub Names :
    (Text → Result WebUrl String) → Cli → Text → Url → RoomParameters → RoomParameters → Type 0
Names parse_url cli room url p q =
    (public parsed : WebUrl) × (host : Text) × (parse_url cli.public_url ≡ ok public)
    × (public_host public ≡ ok host)
    × (parse_url (trim_end_matches (λ c. eqb c b'/') cli.ws_url) ≡ ok parsed)
    × (parsed.path ≡ codes "/ws")
    × (p.wss_post_url ≡ at_host public.scheme host [])
    × (p.room_link ≡ at_host public.scheme host (codes "/r/" ++ (room ++ link_query url.query)))
    × (p.wss_url ≡ parsed.text)
    × (q.wss_post_url ≡ [])
    × (q.room_link ≡ at_host public.scheme host (codes "/v2/r/" ++ (room ++ link_query url.query)))
    × (q.wss_url ≡ parsed.text)

-- The scheme of a public URL, and whether it is https.
abbrev IsScheme : WebUrl → Type 0
IsScheme public =
    ((text_eq public.scheme (codes "https") ≡ false) × (public.scheme ≡ codes "http"))
    ⊎ ((text_eq public.scheme (codes "https") ≡ true) × (public.scheme ≡ codes "https"))

-- Where the configuration names a host, that is the host of the pages, whatever the request's is.
self_origin-config :
    (cli : Cli) (public : WebUrl) (host request_host ws_url : Text)
    → host ≢ []
    → IsScheme public
    → ((self_origin (config cli host public ws_url) request_host).0 ≡ public.scheme)
      × ((self_origin (config cli host public ws_url) request_host).2 ≡ host)
unfolding self_origin config
self_origin-config cli public [] request_host ws_url h s = absurd (h refl)
self_origin-config cli public (a ∷ host) request_host ws_url h (inl (f, e)) = rw (f, e) (refl, refl)
self_origin-config cli public (a ∷ host) request_host ws_url h (inr (f, e)) = rw (f, e) (refl, refl)

-- What a page is told where the configuration names a host and a signaling URL.
module _ (must_json : Value → Text) where
  page_names :
      (cli : Cli) (public : WebUrl) (host request_host room client ws_url : Text) (url : Url)
      (initiator : Option Bool)
      → host ≢ []
      → ws_url ≢ []
      → room ≢ []
      → IsScheme public
      → let p =
          build_room_parameters must_json
            (config cli host public ws_url)
            request_host
            url
            room
            client
            initiator in
        (p.wss_post_url ≡ at_host public.scheme host [])
        × (p.room_link ≡ at_host public.scheme host (codes "/r/" ++ (room ++ link_query url.query)))
        × (p.wss_url ≡ trim_end_matches (λ c. eqb c b'/') ws_url)
  unfolding build_room_parameters config room_link wss_url self_origin
  page_names cli public [] request_host room client ws_url url i h w r s = absurd (h refl)
  page_names cli public host request_host room client [] url i h w r s = absurd (w refl)
  page_names cli public host request_host [] client ws_url url i h w r s = absurd (r refl)
  page_names cli public (a ∷ host) request_host (b ∷ room) client (c ∷ ws_url) url i h w r
        (inl (f, e)) =
      rw (f, e) (refl, refl, refl)
  page_names cli public (a ∷ host) request_host (b ∷ room) client (c ∷ ws_url) url i h w r
        (inr (f, e)) =
      rw (f, e) (refl, refl, refl)

  v2_page_names :
      (cli : Cli) (public : WebUrl) (host request_host room ws_url : Text) (url : Url)
      → host ≢ []
      → ws_url ≢ []
      → room ≢ []
      → NoSlash host
      → host ≢ codes "r"
      → IsScheme public
      → let q =
          build_v2_room_parameters must_json
            (config cli host public ws_url)
            request_host
            url
            room in
        (q.wss_post_url ≡ [])
        × (q.room_link
            ≡ at_host public.scheme host (codes "/v2/r/" ++ (room ++ link_query url.query)))
        × (q.wss_url ≡ trim_end_matches (λ c. eqb c b'/') ws_url)
  unfolding build_v2_room_parameters
  v2_page_names cli public host request_host room ws_url url h w r slash other s =
      let made = config cli host public ws_url in
      let (scheme, named) = self_origin-config cli public host request_host ws_url h s in
      let path = codes "/v2/r/" ++ (room ++ link_query url.query) in
      (
        refl,
        room_link-build_v2 must_json made request_host url room r (subst NoSlash (sym named) slash)
              (λ e. other (sym named ∙ e))
            ∙ (ap (λ i. at_host i (self_origin made request_host).2 path) scheme
                ∙ ap (λ i. at_host public.scheme i path) named),
        (page_names cli public host request_host room [] ws_url url none h w r s).2,
      )

  module _ {T A L E C K S : Type 0} (system : System T A L) (transport : Transport E)
      (rustls : Rustls C K S) (files : Files) where
    -- Where the parser gives an http URL with a host one that is not empty, and a URL without query and
    -- fragment ends in its path, a server that starts, and whose host and port have no slash and are not
    -- "r" alone, tells every page of a room with a name, whatever the Host header of the request is: a V1
    -- page the origin of the public URL, with its scheme, host and port, and the link /r/ of the room
    -- there; a V2 page the link /v2/r/ of the room there and no origin to post to; and both, as their
    -- WebSocket, the URL given for signaling, whose path is /ws.
    pub main-pages :
        (instance_id : String) (cli : Cli) (server : Server T L E S)
        (request_host room client : Text) (url : Url) (initiator : Option Bool)
        → IsUrlParser system.parse_url
        → main system transport rustls files instance_id cli ≡ ok server
        → room ≢ []
        → NoSlash server.config.host
        → server.config.host ≢ codes "r"
        → Names system.parse_url cli room url
            (build_room_parameters must_json server.config request_host url room client initiator)
            (build_v2_room_parameters must_json server.config request_host url room)
    unfolding config
    main-pages instance_id cli server request_host room client url initiator parser h r slash
          other =
        let (configured, _, _) =
          main-parts system transport rustls files instance_id cli server h in
        let d = configure-IsConfigured system transport rustls files cli server.config configured in
        let (path, query, fragment, text) = signaling_url-IsWs d.parsed d.ws_url d.has_ws in
        let (front, ends) = parser.text d.parse_ws query fragment in
        let shape : d.ws_url ≡ front ++ codes "/ws" =
          sym text ∙ (ends ∙ ap (λ t. front ++ t) path) in
        let host_ne =
          public_host-ne d.public d.host (λ name known n. parser.host d.parse_public known n)
            d.has_host in
        let ws_ne : d.ws_url ≢ [] = λ e. append-ne front b'/' (codes "ws") (sym shape ∙ e) in
        let scheme = public_host-IsPublic d.public d.host d.has_host in
        let host : d.host ≡ server.config.host = ap (λ c. c.host) d.has_config in
        let trimmed : trim_end_matches (λ c. eqb c b'/') d.ws_url ≡ d.parsed.text =
          ap (trim_end_matches (λ c. eqb c b'/')) shape
          ∙ (trim_end_matches-append (λ c. eqb c b'/') front b'/' (codes "ws") ws_stays
              ∙ (sym shape ∙ sym text)) in
        let (origin, link, ws) =
          page_names cli d.public d.host request_host room client d.ws_url url initiator host_ne
            ws_ne r scheme in
        let (no_origin, v2_link, v2_ws) =
          v2_page_names cli d.public d.host request_host room d.ws_url url host_ne ws_ne r
            (subst NoSlash (sym host) slash) (λ e. other (sym host ∙ e)) scheme in
        subst
          (λ made.
            Names system.parse_url cli room url
              (build_room_parameters must_json made request_host url room client initiator)
              (build_v2_room_parameters must_json made request_host url room))
          d.has_config
          (
            d.public,
            d.parsed,
            d.host,
            d.parse_public,
            d.has_host,
            d.parse_ws,
            path,
            origin,
            link,
            ws ∙ trimmed,
            no_origin,
            v2_link,
            v2_ws ∙ trimmed,
          )
