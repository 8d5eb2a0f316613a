-- ===== src/Std/Parse.antt =====
-- `str::parse::<u64>` and the decimal `Display` of u64.
use apprtc.Prelude.{
  ℕ, Text, ◌+◌, ◌*◌, ◌-◌, ◌^◌, Option, some, none, [], ◌∷◌, ltb, leb, eqb, Bool, ◌&&◌,
  if◌then◌else◌,
}

abbrev pub u64_mod : ℕ
u64_mod = 2 ^ 64

unfoldable pub is_ascii_digit : ℕ → Bool
is_ascii_digit c = leb b'0' c && leb c b'9'

-- The loop of `from_str_radix`: `none` is `InvalidDigit` or `PosOverflow`.
unfoldable pub scan_u64 : Text → ℕ → Option ℕ
unfolding is_ascii_digit
scan_u64 [] n = some n
scan_u64 (c ∷ s) n =
    let rest = scan_u64 s (n * 10 + (c - b'0')) in
    if is_ascii_digit c && ltb (n * 10 + (c - b'0')) u64_mod then rest else none

-- The empty text and a lone sign are errors; one leading plus sign is accepted.
unfoldable pub parse_u64 : Text → Option ℕ
unfolding scan_u64
parse_u64 [] = none
parse_u64 (c ∷ []) = scan_u64 (c ∷ []) 0
parse_u64 (c ∷ d ∷ s) = if eqb c b'+' then scan_u64 (d ∷ s) 0 else scan_u64 (c ∷ d ∷ s) 0
