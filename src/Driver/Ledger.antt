-- ===== src/Driver/Ledger.antt =====
-- Which operations wait for an answer, and which answers were given.
use apprtc.Prelude.{
  ℕ, ◌+◌, ◌≤◌, ◌≡◌, refl, sym, ◌∙◌, ap, some, List, [], ◌∷◌, ◌++◌, All, arith, ite, if_pos, if_neg,
  ℕ_discrete,
}
use apprtc.Prelude.HashMap.{HashMap}
use apprtc.Prelude.HashMap
use apprtc.Driver.{AuthorityResponse, Sent, to_socket, to_session, answered}

-- The answers among what was sent: the channel and the response.
abbrev pub answers : List Sent → List (ℕ × AuthorityResponse)
answers [] = []
answers (to_socket _ _ ∷ ms) = answers ms
answers (to_session _ _ ∷ ms) = answers ms
answers (answered sender r ∷ ms) = (sender, r) ∷ answers ms

pub answers-append : (xs ys : List Sent) → answers (xs ++ ys) ≡ answers xs ++ answers ys
answers-append [] ys = refl
answers-append (to_socket _ _ ∷ xs) ys = answers-append xs ys
answers-append (to_session _ _ ∷ xs) ys = answers-append xs ys
answers-append (answered sender r ∷ xs) ys = ap (◌∷◌ (sender, r)) (answers-append xs ys)

-- How often a channel waits, and how often it was answered.
abbrev pub waits : ℕ → HashMap ℕ ℕ → ℕ
waits s [] = 0
waits s ((_, t) ∷ m) = ite (ℕ_discrete t s) 1 0 + waits s m

abbrev pub given : ℕ → List (ℕ × AuthorityResponse) → ℕ
given s [] = 0
given s ((t, _) ∷ rest) = ite (ℕ_discrete t s) 1 0 + given s rest

pub given-append :
    (s : ℕ) (xs ys : List (ℕ × AuthorityResponse)) → given s (xs ++ ys) ≡ given s xs + given s ys
given-append s [] ys = omega arith
given-append s ((t, _) ∷ xs) ys = omega (arith, given-append s xs ys)

pub waits-insert :
    (s : ℕ) (m : HashMap ℕ ℕ) (k t : ℕ)
    → waits s (HashMap.insert ℕ_discrete m k t) ≤ waits s m + ite (ℕ_discrete t s) 1 0
unfolding HashMap.insert
waits-insert s [] k t = ground arith
waits-insert s ((j, u) ∷ m) k t = ground (arith, waits-insert s m k t)

waits-remove_le :
    (s : ℕ) (m : HashMap ℕ ℕ) (k : ℕ) → waits s (HashMap.remove ℕ_discrete m k) ≤ waits s m
unfolding HashMap.remove
waits-remove_le s [] k = omega arith
waits-remove_le s ((j, u) ∷ m) k = ground (arith, waits-remove_le s m k)

pub waits-remove :
    (s : ℕ) (m : HashMap ℕ ℕ) (k t : ℕ)
    → HashMap.get ℕ_discrete m k ≡ some t
    → waits s (HashMap.remove ℕ_discrete m k) + ite (ℕ_discrete t s) 1 0 ≤ waits s m
unfolding HashMap.remove HashMap.get
waits-remove s [] k t h = absurd (ground (arith, h))
waits-remove s ((j, u) ∷ m) k t h = ground (arith, waits-remove s m k t, waits-remove_le s m k)

-- A channel waits for the response with the request id that was asked through it.
abbrev pub Waits : (ℕ → ℕ) → HashMap ℕ ℕ → Type 0
Waits asked = All (λ e. asked e.1 ≡ e.0)

-- A channel was answered with that request id.
abbrev pub Answers : (ℕ → ℕ) → List (ℕ × AuthorityResponse) → Type 0
Answers asked = All (λ a. asked a.0 ≡ a.1.request_id)

pub Waits-insert :
    (asked : ℕ → ℕ) (m : HashMap ℕ ℕ) (k t : ℕ)
    → Waits asked m
    → asked t ≡ k
    → Waits asked (HashMap.insert ℕ_discrete m k t)
unfolding HashMap.insert
Waits-insert asked [] k t w e = (e, tt)
Waits-insert asked ((j, u) ∷ m) k t w e = elim (ℕ_discrete j k) [
  | yes p ↦ rw (if_pos _ p) (e ∙ sym p, w.1)
  | no p ↦ rw (if_neg _ p) (w.0, Waits-insert asked m k t w.1 e)
]

pub Waits-remove :
    (asked : ℕ → ℕ) (m : HashMap ℕ ℕ) (k : ℕ)
    → Waits asked m
    → Waits asked (HashMap.remove ℕ_discrete m k)
unfolding HashMap.remove
Waits-remove asked [] k w = tt
Waits-remove asked ((j, u) ∷ m) k w = elim (ℕ_discrete j k) [
  | yes p ↦ rw (if_pos _ p) (Waits-remove asked m k w.1)
  | no p ↦ rw (if_neg _ p) (w.0, Waits-remove asked m k w.1)
]

pub asked-get :
    (asked : ℕ → ℕ) (m : HashMap ℕ ℕ) (k t : ℕ)
    → Waits asked m
    → HashMap.get ℕ_discrete m k ≡ some t
    → asked t ≡ k
unfolding HashMap.get
asked-get asked [] k t w h = absurd (ground (arith, h))
asked-get asked ((j, u) ∷ m) k t w h = ground (arith, w.0, ap asked, asked-get asked m k t w.1)
