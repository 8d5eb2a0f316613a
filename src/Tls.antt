-- ===== src/Tls.antt =====
-- tls.rs: which certificate and private key a server presents. Reading a file, the bundled pair and the
-- parsing of PEM belong to the system and to libraries; an error is its text.
use apprtc.Prelude.{
  ℕ, String, ◌&&◌, not, Option, List, Result, ok, err, ◌>>=◌, ok_or, str_eq, if◌then◌else◌,
}

-- `read kind path` reads a file; its error is "failed to read certificate {path}" or that of the private
-- key, as the kind says.
pub data Pem : Type 0 where
  certificate private_key : Pem

pub record Files : Type 0 where
  pub read : Pem → String → Result (List ℕ) String
  pub bundled : Pem → List ℕ

unfoldable pub tls_pem : Files → String → String → Result (List ℕ × List ℕ) String
tls_pem files cert key =
    if str_eq cert "" && str_eq key ""
    then ok (files.bundled certificate, files.bundled private_key)
    else if not (str_eq cert "") && not (str_eq key "")
    then (files.read certificate cert >>= λ chain.
        files.read private_key key >>= λ secret. ok (chain, secret))
    else err "--certificate and --private-key must be supplied together"

-- The PEM library: the chain of certificates, the first private key if there is one, and the server's
-- configuration of them.
pub record Rustls (C K S : Type 0) : Type 0 where
  pub certs : List ℕ → Result (List C) String
  pub key : List ℕ → Result (Option K) String
  pub with_single_cert : List C → K → Result S String

unfoldable pub tls_config :
    {C K S : Type 0} → Rustls C K S → Files → String → String → Result S String
unfolding tls_pem
tls_config x files cert key = tls_pem files cert key >>= λ (chain, secret).
    x.certs chain >>= λ certificates. x.key secret >>= λ found.
    ok_or found "no private key found in PEM input" >>= λ k. x.with_single_cert certificates k
