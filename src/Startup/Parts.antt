-- ===== src/Startup/Parts.antt =====
-- What an AppRTC server that starts has been made of.
use apprtc.Prelude.{
  String, Text, ◌≡◌, ap, ◌∙◌, subst, ok, >>=-inv, ok_inj, eqb, true, false, some, none, ◌⊎◌, inl,
  inr, arith, Bool-cases, Result-cases,
}
use apprtc.Std.Split.{trim_end_matches}
use apprtc.Params.{Config}
use apprtc.Tls.{Files, Rustls, tls_config}
use apprtc.Grpc.Client.Connect.{Transport, IsEndpoint, webpki_roots, connect, connect-IsEndpoint}
use apprtc.Startup.{
  Cli, WebUrl, public_host, signaling_url, config, System, Server, serve_tls, configure, main,
}

module _ {T A L E C K S : Type 0} (system : System T A L) (transport : Transport E)
    (rustls : Rustls C K S) (files : Files) where
  -- What the configuration of a server that starts has been made of.
  pub record IsConfigured (cli : Cli) (made : Config) : Type 0 where
    pub public : WebUrl
    pub host : Text
    pub parsed : WebUrl
    pub ws_url : Text
    pub parse_public : system.parse_url cli.public_url ≡ ok public
    pub has_host : public_host public ≡ ok host
    pub parse_ws : system.parse_url (trim_end_matches (λ c. eqb c b'/') cli.ws_url) ≡ ok parsed
    pub has_ws : signaling_url parsed ≡ ok ws_url
    pub has_config : config cli host public ws_url ≡ made

  pub configure-IsConfigured :
      (cli : Cli) (made : Config)
      → configure system transport rustls files cli ≡ ok made
      → IsConfigured cli made
  unfolding configure
  configure-IsConfigured cli made h =
      >>=-inv (system.parse_url cli.public_url) _ h (λ public parse_public h1.
        >>=-inv (public_host public) _ h1 (λ host has_host h2.
          >>=-inv (system.parse_url (trim_end_matches (λ c. eqb c b'/') cli.ws_url)) _ h2
            (λ parsed parse_ws h3. >>=-inv (signaling_url parsed) _ h3 (λ ws_url has_ws h4. record {
              public = public;
              host = host;
              parsed = parsed;
              ws_url = ws_url;
              parse_public = parse_public;
              has_host = has_host;
              parse_ws = parse_ws;
              has_ws = has_ws;
              has_config = ok_inj h4;
            }))))

  pub main-parts :
      (instance_id : String) (cli : Cli) (server : Server T L E S)
      → main system transport rustls files instance_id cli ≡ ok server
      → (configure system transport rustls files cli ≡ ok server.config)
        × (connect transport instance_id cli.grpc_url cli.insecure_tls
            ≡ ok (server.channel, server.authority))
        × (serve_tls system transport rustls files cli ≡ ok server.tls)
  unfolding main
  main-parts instance_id cli server h =
      >>=-inv (configure system transport rustls files cli) _ h (λ made c h1.
        >>=-inv (connect transport instance_id cli.grpc_url cli.insecure_tls) _ h1 (λ client n h2.
          >>=-inv (system.load_templates cli.web_root) _ h2 (λ templates _ h3.
            >>=-inv (system.parse_address cli.host_ip cli.port) _ h3 (λ address _ h4.
              >>=-inv (system.bind address) _ h4 (λ listener _ h5.
                >>=-inv (serve_tls system transport rustls files cli) _ h5 (λ tls t h6.
                  let same = ok_inj h6 in
                  (
                    c ∙ ap (λ s. ok s.config) same,
                    n ∙ ap (λ s. ok (s.channel, s.authority)) same,
                    t ∙ ap (λ s. ok s.tls) same,
                  )))))))

  -- With the option tls a server that starts serves over TLS, with the certificate and the key of its
  -- options, and without it in the clear. Without the option insecure_tls its channel to signaling
  -- checks the certificate of an https URL, and is in the clear only for an http URL.
  pub main-served :
      (instance_id : String) (cli : Cli) (server : Server T L E S)
      → cli.insecure_tls ≡ false
      → main system transport rustls files instance_id cli ≡ ok server
      → IsEndpoint transport webpki_roots cli.grpc_url server.channel
        × (((cli.tls ≡ false) × (server.tls ≡ none))
            ⊎ ((cli.tls ≡ true)
                × ((s : S) × (tls_config rustls files cli.certificate cli.private_key ≡ ok s)
                    × (server.tls ≡ some s))))
  unfolding serve_tls
  main-served instance_id cli server secure h =
      let (_, connects, served) = main-parts instance_id cli server h in
      (
        (connect-IsEndpoint transport instance_id cli.grpc_url server.channel server.authority (
            subst
              (λ i.
                connect transport instance_id cli.grpc_url i
                ≡ ok (server.channel, server.authority))
              secure connects)).0,
        elim (Bool-cases cli.tls) [
          | inr clear ↦ inl (clear, ground (arith, clear, served))
          | inl over ↦
              elim (Result-cases (tls_config rustls files cli.certificate cli.private_key)) [
                | inl (s, t) ↦ inr (over, (s, t, ground (arith, over, t, served)))
                | inr (e, t) ↦ absurd (ground (arith, over, t, served))
              ]
        ],
      )
