-- ===== src/Room/Join/Attempts.antt =====
-- The attempts of `v2_join`.
use apprtc.Prelude.{
  ℕ, zero, suc, String, ◌+◌, ◌<◌, ◌≤◌, ◌≡◌, ◌≢◌, refl, ok, err, arith, eq_iff, Result-cases, inl,
  inr, dec_lt, subst, sym, String-discrete,
}
use apprtc.RoomId.{RoomId}
use apprtc.Room.Server.{RoomAuthority}
use apprtc.Room.Join.{Joined, admitted, rejected, attempts, client_id_attempts}

module _ {S : Type 0} (a : RoomAuthority S) (client_id : ℕ → ℕ) (room : RoomId) where
  -- `Tried s n t`: the attempts from the first to just before the n-th each met a client id in use, and
  -- took the authority from `s` to `t`.
  pub data Tried (s : S) : ℕ → S → Type 0 where
    first : Tried s 1 s
    again :
        {n : ℕ} {t : S}
        → Tried s n t
        → (a.admit_v2 room (client_id n) t).1 ≡ err "DUPLICATE_CLIENT"
        → Tried s (n + 1) (a.admit_v2 room (client_id n) t).0

  -- What an attempt's answer comes to when it is the last.
  abbrev pub decided : ℕ → S → S × Joined
  decided n t = (
    (a.admit_v2 room (client_id n) t).0,
    elim (a.admit_v2 room (client_id n) t).1 [
      | ok admission ↦ admitted (client_id n) admission
      | err error ↦ rejected error
    ],
  )

  -- The attempt whose answer the loop returns.
  pub record Decides (s : S) (result : S × Joined) : Type 0 where
    pub attempt : ℕ
    pub state : S
    pub tried : Tried s attempt state
    pub within : attempt ≤ client_id_attempts
    pub answer : result ≡ decided attempt state
    pub last :
        (a.admit_v2 room (client_id attempt) state).1 ≡ err "DUPLICATE_CLIENT"
        → attempt ≡ client_id_attempts

  attempts_again :
      (left n : ℕ) (t : S)
      → (a.admit_v2 room (client_id n) t).1 ≡ err "DUPLICATE_CLIENT"
      → n < client_id_attempts
      → attempts a client_id room (suc left) n t
        ≡ attempts a client_id room left (n + 1) (a.admit_v2 room (client_id n) t).0
  unfolding attempts
  attempts_again left n t e more = rw (e, attempts) (ground arith)

  attempts_other :
      (left n : ℕ) (t : S) (error : String)
      → (a.admit_v2 room (client_id n) t).1 ≡ err error
      → error ≢ "DUPLICATE_CLIENT"
      → attempts a client_id room (suc left) n t ≡ decided n t
  unfolding attempts
  attempts_other left n t error e differs = ground (arith, e, (eq_iff error "DUPLICATE_CLIENT").0)

  attempts_last :
      (left n : ℕ) (t : S) (error : String)
      → (a.admit_v2 room (client_id n) t).1 ≡ err error
      → n ≡ client_id_attempts
      → attempts a client_id room (suc left) n t ≡ decided n t
  unfolding attempts
  attempts_last left n t error e done = ground (arith, e)

  attempts-Decides :
      (left n : ℕ) (s t : S)
      → Tried s n t
      → n + left ≡ client_id_attempts + 1
      → 0 < left
      → Decides s (attempts a client_id room left n t)
  unfolding attempts
  attempts-Decides zero n s t tried h p = absurd (omega arith)
  attempts-Decides (suc left) n s t tried h p =
      elim (Result-cases (a.admit_v2 room (client_id n) t).1) [
        | inl (admission, e) ↦ record {
          attempt = n;
          state = t;
          tried = tried;
          within = omega arith;
          answer = rw (e, attempts) refl;
          last = λ i. absurd (ground arith);
        }
        | inr (error, e) ↦ elim (String-discrete error "DUPLICATE_CLIENT") [
          | yes same ↦ elim (dec_lt n client_id_attempts) [
            | yes more ↦
                let duplicate = subst (λ i. (a.admit_v2 room (client_id n) t).1 ≡ err i) same e in
                subst (Decides s) (sym (attempts_again left n t duplicate more)) (
                  attempts-Decides left (n + 1) s (a.admit_v2 room (client_id n) t).0
                    (Tried.again tried duplicate) (omega arith) (omega arith))
            | no done ↦ record {
              attempt = n;
              state = t;
              tried = tried;
              within = omega arith;
              answer = attempts_last left n t error e (omega arith);
              last = λ i. omega arith;
            }
          ]
          | no differs ↦ record {
            attempt = n;
            state = t;
            tried = tried;
            within = omega arith;
            answer = attempts_other left n t error e differs;
            last = λ i. absurd (ground (arith, i, e, differs));
          }
        ]
      ]

  -- The loop always ends with an answer of the authority: after attempts that all met a client id in
  -- use, that of the first attempt with another answer, or of the eighth. The code after the loop, which
  -- answers RESOURCE_EXHAUSTED, is never reached.
  pub attempts-first : (s : S) → Decides s (attempts a client_id room client_id_attempts 1 s)
  attempts-first s = attempts-Decides client_id_attempts 1 s s Tried.first refl (omega arith)
