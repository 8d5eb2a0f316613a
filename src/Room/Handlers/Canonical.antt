-- ===== src/Room/Handlers/Canonical.antt =====
-- Client ids have one spelling: `canonical_u64` reads exactly what `to_string` writes of a u64.
use apprtc.Prelude.{
  ℕ, Text, ◌<◌, ◌≡◌, ◌≢◌, ◌↔◌, refl, sym, ◌∙◌, ap, subst, some, some_inj, [], ◌∷◌, true, arith,
  ℕ_discrete, All, zero, suc,
}
use apprtc.Std.Parse.{u64_mod, scan_u64, parse_u64}
use apprtc.Std.Decimal.{
  IsDigit, decimal, decimal-value, decimal_shape, scan_u64-value, value-scan_u64,
}
use apprtc.Room.Handlers.{all_digits, canonical_u64}

all_digits-All : (s : Text) → All IsDigit s → all_digits s ≡ true
unfolding all_digits
all_digits-All [] d = refl
all_digits-All (c ∷ s) d = ground (arith, d.0, all_digits-All s d.1)

All-all_digits : (s : Text) → all_digits s ≡ true → All IsDigit s
unfolding all_digits
All-all_digits [] h = tt
All-all_digits (c ∷ s) h =
    ((ground (arith, h), ground (arith, h)), All-all_digits s (ground (arith, h)))

parse_u64-digits : (c : ℕ) (s : Text) → IsDigit c → parse_u64 (c ∷ s) ≡ scan_u64 (c ∷ s) 0
unfolding parse_u64
parse_u64-digits c [] d = refl
parse_u64-digits c (e ∷ s) d = ground (arith, d)

canonical_u64-digits :
    (c : ℕ) (s : Text) → c ≢ b'0' → All IsDigit (c ∷ s) → canonical_u64 (c ∷ s) ≡ scan_u64 (c ∷ s) 0
unfolding canonical_u64
canonical_u64-digits c [] ne d =
    ground (arith, ne, all_digits-All (c ∷ []) d, parse_u64-digits c [] d.0)
canonical_u64-digits c (e ∷ s) ne d =
    ground (arith, ne, all_digits-All (c ∷ e ∷ s) d, parse_u64-digits c (e ∷ s) d.0)

digits-canonical_u64 :
    (c : ℕ) (s : Text) (n : ℕ) → c ≢ b'0' → canonical_u64 (c ∷ s) ≡ some n → All IsDigit (c ∷ s)
unfolding canonical_u64
digits-canonical_u64 c [] n ne h = All-all_digits (c ∷ []) (ground (arith, h, ne))
digits-canonical_u64 c (e ∷ s) n ne h = All-all_digits (c ∷ e ∷ s) (ground (arith, h, ne))

canonical_u64-decimal : (n : ℕ) → n < u64_mod → canonical_u64 (decimal n) ≡ some n
unfolding canonical_u64 decimal
canonical_u64-decimal zero h = refl
canonical_u64-decimal (suc n) h =
    let (c, s, e, ne, d, v) = decimal_shape (suc n) (omega arith) in
    subst (λ t. canonical_u64 t ≡ some (suc n)) (sym e)
      (canonical_u64-digits c s ne d
        ∙ (scan_u64-value (c ∷ s) 0 d (omega (arith, v, h)) ∙ ap some v))

zero-canonical_u64 :
    (s : Text) (n : ℕ) → canonical_u64 (b'0' ∷ s) ≡ some n → (b'0' ∷ s ≡ decimal n) × (n < u64_mod)
unfolding canonical_u64 decimal
zero-canonical_u64 [] n h =
    subst (λ i. (b'0' ∷ [] ≡ decimal i) × (i < u64_mod)) (some_inj h) (refl, omega arith)
zero-canonical_u64 (c ∷ s) n h = absurd (ground (arith, h))

decimal-canonical_u64 :
    (s : Text) (n : ℕ) → canonical_u64 s ≡ some n → (s ≡ decimal n) × (n < u64_mod)
unfolding canonical_u64
decimal-canonical_u64 [] n h = absurd (ground (arith, h))
decimal-canonical_u64 (c ∷ s) n h = elim (ℕ_discrete c b'0') [
  | yes e ↦
      subst (λ i. (i ∷ s ≡ decimal n) × (n < u64_mod)) (sym e)
        (zero-canonical_u64 s n (subst (λ i. canonical_u64 (i ∷ s) ≡ some n) e h))
  | no ne ↦
      let d = digits-canonical_u64 c s n ne h in
      let (_, v, bound) =
        value-scan_u64 (c ∷ s) 0 n (omega arith) (sym (canonical_u64-digits c s ne d) ∙ h) in
      (sym (decimal-value c s d ne) ∙ ap decimal v, bound)
]

-- A text is read as a client id exactly when it is the decimal of that id and the id is a u64: every
-- u64 is read back from its decimal, and there are no leading zeros, signs or other spellings.
pub canonical_u64_iff :
    (s : Text) (n : ℕ) → (canonical_u64 s ≡ some n) ↔ ((s ≡ decimal n) × (n < u64_mod))
canonical_u64_iff s n = (
  decimal-canonical_u64 s n,
  λ h. subst (λ t. canonical_u64 t ≡ some n) (sym h.0) (canonical_u64-decimal n h.1),
)
