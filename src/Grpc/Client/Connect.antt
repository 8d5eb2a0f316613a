-- ===== src/Grpc/Client/Connect.antt =====
-- `connect` of grpc_client.rs and `grpc_endpoint` of sfu_server.rs: the channel to signaling. The URL
-- parser and the transport library are parameters.
use apprtc.Prelude.{
  String, ◌≡◌, ◌⊎◌, inl, inr, Bool, true, false, Option, some, Result, ok, err, ◌>>=◌, ◌||◌, ok_or,
  str_eq, if◌then◌else◌, arith, eq_iff, subst, Bool-cases, Option-cases, Result-cases,
}
use apprtc.Grpc.Client.{GrpcAuthority}

-- What `Url::parse` gives: the scheme, and the host if there is one.
pub record ParsedUrl : Type 0 where
  pub scheme : String
  pub host_str : Option String

-- How the certificate of the server is checked: not at all, or against the roots of the web.
pub data Verifier : Type 0 where
  no_certificate_verification webpki_roots : Verifier

pub record Transport (E : Type 0) : Type 0 where
  pub parse_url : String → Result ParsedUrl String
  -- an endpoint with the timeouts and keep-alives of this crate
  pub from_shared : String → Result E String
  -- TLS for a domain
  pub tls_config : Verifier → String → E → Result E String

module _ {E : Type 0} (x : Transport E) where
  -- What the two share after the check of the scheme; `no_host` is the error for an https URL without
  -- a host.
  unfoldable pub endpoint_for : String → String → Bool → ParsedUrl → Result E String
  endpoint_for no_host url insecure_tls parsed = x.from_shared url >>= λ endpoint.
      if str_eq parsed.scheme "https"
      then (ok_or parsed.host_str no_host >>= λ domain.
          x.tls_config (if insecure_tls then no_certificate_verification else webpki_roots) domain
            endpoint)
      else ok endpoint

  -- `instance_id` is "apprtc-" with the drawn number; the channel connects when it is first used.
  unfoldable pub connect : String → String → Bool → Result (E × GrpcAuthority) String
  unfolding endpoint_for
  connect instance_id url insecure_tls = x.parse_url url >>= λ parsed.
      if str_eq parsed.scheme "http" || str_eq parsed.scheme "https"
      then (endpoint_for "signaling gRPC URL has no host" url insecure_tls parsed >>= λ endpoint.
          ok (endpoint, record { instance_id = instance_id; next_request_id = 1 }))
      else err "signaling gRPC URL must use http or https"

  unfoldable pub grpc_endpoint : String → Bool → Result E String
  unfolding endpoint_for
  grpc_endpoint url insecure_tls = x.parse_url url >>= λ parsed.
      if str_eq parsed.scheme "http" || str_eq parsed.scheme "https"
      then endpoint_for "gRPC URL has no host" url insecure_tls parsed
      else err "--grpc-url must use http or https"

  -- How an endpoint for a URL comes about: in the clear, or with a verifier for the host.
  abbrev pub IsEndpoint : Verifier → String → E → Type 0
  IsEndpoint verifier url e =
      (parsed : ParsedUrl) × (x.parse_url url ≡ ok parsed)
      × (((parsed.scheme ≡ "http") × (x.from_shared url ≡ ok e))
          ⊎ ((parsed.scheme ≡ "https")
              × ((plain : E) × (domain : String) × (parsed.host_str ≡ some domain)
                  × (x.from_shared url ≡ ok plain)
                  × (x.tls_config verifier domain plain ≡ ok e))))

  endpoint_for-IsEndpoint :
      (no_host url : String) (parsed : ParsedUrl) (e : E)
      → x.parse_url url ≡ ok parsed
      → (str_eq parsed.scheme "http" || str_eq parsed.scheme "https") ≡ true
      → endpoint_for no_host url false parsed ≡ ok e
      → IsEndpoint webpki_roots url e
  unfolding endpoint_for
  endpoint_for-IsEndpoint no_host url parsed e p known h = elim (Result-cases (x.from_shared url)) [
    | inr (error, f) ↦ absurd (ground (arith, f, h))
    | inl (plain, f) ↦ elim (Bool-cases (str_eq parsed.scheme "https")) [
      | inr other ↦
          let http = (eq_iff parsed.scheme "http").0 (ground (arith, other, known)) in
          (parsed, p, inl (http, ground (arith, f, other, h)))
      | inl secure ↦ elim (Option-cases parsed.host_str) [
        | inl n ↦ absurd (ground (arith, f, secure, n, h))
        | inr (domain, d) ↦ (
          parsed,
          p,
          inr (
            (eq_iff parsed.scheme "https").0 secure,
            (plain, domain, d, f, ground (arith, f, secure, d, h)),
          ),
        )
      ]
    ]
  ]

  -- The client that `connect` makes.
  pub connect-new :
      (instance_id url : String) (insecure_tls : Bool) (e : E) (g : GrpcAuthority)
      → connect instance_id url insecure_tls ≡ ok (e, g)
      → g ≡ record { instance_id = instance_id; next_request_id = 1 }
  unfolding connect
  connect-new instance_id url insecure_tls e g h = elim (Result-cases (x.parse_url url)) [
    | inr (error, p) ↦ absurd (ground (arith, p, h))
    | inl (parsed, p) ↦
        elim (Result-cases
          (endpoint_for "signaling gRPC URL has no host" url insecure_tls parsed)) [
            | inr (error, f) ↦ absurd (ground (arith, p, f, h))
            | inl (made, f) ↦ ground (arith, p, f, h)
          ]
  ]

  -- Without the option insecure_tls, a channel that `connect` makes is for a URL that parses, is in the
  -- clear only where the scheme is http, and otherwise, for https, checks the certificate of the URL's
  -- host against the roots of the web. The client has the given instance id and draws 1 first.
  pub connect-IsEndpoint :
      (instance_id url : String) (e : E) (g : GrpcAuthority)
      → connect instance_id url false ≡ ok (e, g)
      → IsEndpoint webpki_roots url e
        × (g ≡ record { instance_id = instance_id; next_request_id = 1 })
  unfolding connect
  connect-IsEndpoint instance_id url e g h = elim (Result-cases (x.parse_url url)) [
    | inr (error, p) ↦ absurd (ground (arith, p, h))
    | inl (parsed, p) ↦
        elim (Bool-cases (str_eq parsed.scheme "http" || str_eq parsed.scheme "https")) [
          | inr unknown ↦ absurd (ground (arith, p, unknown, h))
          | inl known ↦
              elim (Result-cases (endpoint_for "signaling gRPC URL has no host" url false parsed)) [
                | inr (error, f) ↦ absurd (ground (arith, p, known, f, h))
                | inl (made, f) ↦
                    let same : made ≡ e = ground (arith, p, known, f, h) in
                    (
                      endpoint_for-IsEndpoint "signaling gRPC URL has no host" url parsed e p known
                          (subst
                            (λ i.
                              endpoint_for "signaling gRPC URL has no host" url false parsed ≡ ok i)
                            same f),
                      connect-new instance_id url false e g h,
                    )
              ]
        ]
  ]

  -- The same of the endpoint of an SFU.
  pub grpc_endpoint-IsEndpoint :
      (url : String) (e : E) → grpc_endpoint url false ≡ ok e → IsEndpoint webpki_roots url e
  unfolding grpc_endpoint
  grpc_endpoint-IsEndpoint url e h = elim (Result-cases (x.parse_url url)) [
    | inr (error, p) ↦ absurd (ground (arith, p, h))
    | inl (parsed, p) ↦
        elim (Bool-cases (str_eq parsed.scheme "http" || str_eq parsed.scheme "https")) [
          | inr unknown ↦ absurd (ground (arith, p, unknown, h))
          | inl known ↦
              endpoint_for-IsEndpoint "gRPC URL has no host" url parsed e p known
                (ground (arith, p, known, h))
        ]
  ]
