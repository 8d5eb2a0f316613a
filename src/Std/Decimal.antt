-- ===== src/Std/Decimal.antt =====
-- The decimal `Display` of u64, and reading it back.
use apprtc.Prelude.{
  ℕ, zero, suc, Text, ◌+◌, ◌*◌, ◌-◌, ◌/◌, ◌%◌, ◌<◌, ◌≤◌, ◌≡◌, ◌≢◌, refl, sym, ◌∙◌, ap, subst, some,
  some_inj, [], ◌∷◌, ◌++◌, ltb, ◌&&◌, if◌then◌else◌, arith, dec_lt, All, inl, inr, Bool-cases,
}
use mathlib.Core.List.{append-nil}
use apprtc.Std.Parse.{u64_mod, is_ascii_digit, scan_u64}

-- Digits of `n` before `out`, over fuel.
unfoldable pub digits : ℕ → ℕ → Text → Text
digits zero n out = out
digits (suc fuel) n out =
    let more = digits fuel (n / 10) ((b'0' + n % 10) ∷ out) in
    if ltb n 10 then (b'0' + n) ∷ out else more

unfoldable pub decimal : ℕ → Text
unfolding digits
decimal n = digits (suc n) n []

abbrev pub IsDigit : ℕ → Type 0
IsDigit c = (b'0' ≤ c) × (c ≤ b'9')

-- The number that a text of digits continues `n` to.
abbrev pub value : Text → ℕ → ℕ
value [] n = n
value (c ∷ s) n = value s (n * 10 + (c - b'0'))

value_le : (s : Text) (n : ℕ) → n ≤ value s n
value_le [] n = omega arith
value_le (c ∷ s) n = omega (arith, value_le s (n * 10 + (c - b'0')))

pub scan_u64-value :
    (s : Text) (n : ℕ) → All IsDigit s → value s n < u64_mod → scan_u64 s n ≡ some (value s n)
unfolding scan_u64
scan_u64-value [] n d h = refl
scan_u64-value (c ∷ s) n d h =
    ground
      (arith, d.0, value_le s (n * 10 + (c - b'0')), scan_u64-value s (n * 10 + (c - b'0')) d.1 h)

pub value-scan_u64 :
    (s : Text) (n m : ℕ)
    → n < u64_mod
    → scan_u64 s n ≡ some m
    → All IsDigit s × (value s n ≡ m) × (m < u64_mod)
unfolding scan_u64
value-scan_u64 [] n m h e = (tt, some_inj e, subst (λ i. i < u64_mod) (some_inj e) h)
value-scan_u64 (c ∷ s) n m h e =
    elim (Bool-cases (is_ascii_digit c && ltb (n * 10 + (c - b'0')) u64_mod)) [
      | inl t ↦
          let rest =
            value-scan_u64 s (n * 10 + (c - b'0')) m (ground (arith, t)) (ground (arith, t, e)) in
          (((ground (arith, t), ground (arith, t)), rest.0), rest.1, rest.2)
      | inr f ↦ absurd (ground (arith, e, f))
    ]

digits_big :
    (f n : ℕ) (out : Text)
    → 10 ≤ n
    → digits (suc f) n out ≡ digits f (n / 10) ((b'0' + n % 10) ∷ out)
unfolding digits
digits_big f n out h = ground arith

value-digits_small :
    (fuel n : ℕ) (out : Text) → n < 10 → value (digits (suc fuel) n out) 0 ≡ value out n
unfolding digits
value-digits_small fuel n out h = ground arith

value-digits : (fuel n : ℕ) (out : Text) → n < fuel → value (digits fuel n out) 0 ≡ value out n
value-digits zero n out h = absurd (omega arith)
value-digits (suc fuel) n out h = elim (dec_lt n 10) [
  | yes small ↦ value-digits_small fuel n out small
  | no big ↦
      ap (λ t. value t 0) (digits_big fuel n out (omega arith))
      ∙ (value-digits fuel (n / 10) ((b'0' + n % 10) ∷ out) (omega arith)
          ∙ ap (value out) (omega arith))
]

digits_fuel : (f g n : ℕ) (out : Text) → n < f → n < g → digits f n out ≡ digits g n out
unfolding digits
digits_fuel zero g n out h k = absurd (omega arith)
digits_fuel (suc f) zero n out h k = absurd (omega arith)
digits_fuel (suc f) (suc g) n out h k = elim (dec_lt n 10) [
  | yes small ↦ ground arith
  | no big ↦
      ground (arith, digits_fuel f g (n / 10) ((b'0' + n % 10) ∷ out) (omega arith) (omega arith))
]

digit_mod : (n c : ℕ) → IsDigit c → b'0' + (n * 10 + (c - b'0')) % 10 ≡ c
digit_mod n c d = omega (arith, d.0, d.1)

-- A digit is taken off the end.
digits-snoc :
    (f n c : ℕ) (out : Text)
    → 0 < n
    → IsDigit c
    → n * 10 + (c - b'0') < f
    → digits f (n * 10 + (c - b'0')) out ≡ digits f n (c ∷ out)
digits-snoc zero n c out p d h = absurd (omega arith)
digits-snoc (suc f) n c out p d h =
    digits_big f (n * 10 + (c - b'0')) out (omega arith)
    ∙ (ap (λ i. digits f i ((b'0' + (n * 10 + (c - b'0')) % 10) ∷ out)) (omega arith)
        ∙ (ap (λ i. digits f n (i ∷ out)) (digit_mod n c d)
            ∙ digits_fuel f (suc f) n (c ∷ out) (omega arith) (omega arith)))

digits-value :
    (f : ℕ) (s : Text) (n : ℕ) (out : Text)
    → 0 < n
    → All IsDigit s
    → value s n < f
    → digits f (value s n) out ≡ digits f n (s ++ out)
digits-value f [] n out p d h = refl
digits-value f (c ∷ s) n out p d h =
    digits-value f s (n * 10 + (c - b'0')) out (omega arith) d.1 h
    ∙ digits-snoc f n c (s ++ out) p d.0 (omega (arith, value_le s (n * 10 + (c - b'0'))))

digits_small : (f n : ℕ) (out : Text) → n < 10 → digits (suc f) n out ≡ (b'0' + n) ∷ out
unfolding digits
digits_small f n out h = ground arith

digits_one : (f c : ℕ) (s : Text) → IsDigit c → digits (suc f) (c - b'0') s ≡ c ∷ s
digits_one f c s d =
    digits_small f (c - b'0') s (omega (arith, d.1)) ∙ ap (λ i. i ∷ s) (omega (arith, d.0))

-- The text of digits without a leading zero that has a value is the decimal of that value.
pub decimal-value :
    (c : ℕ) (s : Text) → All IsDigit (c ∷ s) → c ≢ b'0' → decimal (value (c ∷ s) 0) ≡ c ∷ s
unfolding decimal
decimal-value c s d ne =
    let first : 0 < c - b'0' = omega (arith, d.0, ne) in
    subst (λ i. decimal (value s i) ≡ c ∷ s) (omega arith)
      (digits-value (suc (value s (c - b'0'))) s (c - b'0') [] first d.1 (omega arith)
        ∙ (ap (digits (suc (value s (c - b'0'))) (c - b'0')) (append-nil s)
            ∙ digits_one (value s (c - b'0')) c s d.0))

digits-All : (f n : ℕ) (out : Text) → All IsDigit out → All IsDigit (digits f n out)
unfolding digits
digits-All zero n out d = d
digits-All (suc f) n out d = elim (dec_lt n 10) [
  | yes small ↦
      subst (All IsDigit) (sym (digits_small f n out small)) ((omega arith, omega arith), d)
  | no big ↦
      subst (All IsDigit) (sym (digits_big f n out (omega arith)))
        (digits-All f (n / 10) ((b'0' + n % 10) ∷ out) ((omega arith, omega arith), d))
]

digits_head :
    (f n : ℕ) (out : Text)
    → 0 < n
    → n < f
    → (c : ℕ) × (s : Text) × (digits f n out ≡ c ∷ s) × (c ≢ b'0')
digits_head zero n out p h = absurd (omega arith)
digits_head (suc f) n out p h = elim (dec_lt n 10) [
  | yes small ↦ (b'0' + n, out, digits_small f n out small, λ e. omega (arith, e))
  | no big ↦
      let (c, s, e, ne) =
        digits_head f (n / 10) ((b'0' + n % 10) ∷ out) (omega arith) (omega arith) in
      (c, s, digits_big f n out (omega arith) ∙ e, ne)
]

-- The decimal of a positive number has digits only, does not begin with a zero, and has the number as
-- its value.
pub decimal_shape :
    (n : ℕ)
    → 0 < n
    → (c : ℕ) × (s : Text) × (decimal n ≡ c ∷ s)
      × (c ≢ b'0')
      × All IsDigit (c ∷ s)
      × (value (c ∷ s) 0 ≡ n)
unfolding decimal
decimal_shape n p =
    let (c, s, e, ne) = digits_head (suc n) n [] p (omega arith) in
    (
      c,
      s,
      e,
      ne,
      subst (All IsDigit) e (digits-All (suc n) n [] tt),
      sym (ap (λ t. value t 0) e) ∙ value-digits (suc n) n [] (omega arith),
    )
