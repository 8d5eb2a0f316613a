-- ===== src/Page/Escape.antt =====
-- `escape` of templates.rs, on code points.
use apprtc.Prelude.{
  ℕ, Text, ◌≡◌, ◌≢◌, subst, sym, [], ◌∷◌, ◌++◌, All, All-append, eqb, if◌then◌else◌, arith,
  ℕ_discrete,
}

-- "&amp;", "&lt;", "&gt;", "&#34;" and "&#39;"
abbrev pub amp : Text
amp = b'&' ∷ b'a' ∷ b'm' ∷ b'p' ∷ b';' ∷ []

abbrev pub lt : Text
lt = b'&' ∷ b'l' ∷ b't' ∷ b';' ∷ []

abbrev pub gt : Text
gt = b'&' ∷ b'g' ∷ b't' ∷ b';' ∷ []

abbrev pub quote : Text
quote = b'&' ∷ b'#' ∷ b'3' ∷ b'4' ∷ b';' ∷ []

abbrev pub apostrophe : Text
apostrophe = b'&' ∷ b'#' ∷ b'3' ∷ b'9' ∷ b';' ∷ []

-- One round of the loop: what is pushed for a character.
unfoldable pub escape_char : ℕ → Text
escape_char c =
    if eqb c b'&'
    then amp
    else if eqb c b'<'
    then lt
    else if eqb c b'>'
    then gt
    else if eqb c 34
    then quote
    else if eqb c 39
    then apostrophe
    else c ∷ []

unfoldable pub escape : Text → Text
unfolding escape_char
escape [] = []
escape (c ∷ s) = escape_char c ++ escape s

-- No quote and no angle bracket: such a character ends no quoted attribute and opens or closes no tag.
abbrev pub IsInert : ℕ → Type 0
IsInert c = (c ≢ b'<') × (c ≢ b'>') × (c ≢ 34) × (c ≢ 39)

-- What a browser reads in a text or an attribute of HTML, outside of scripts: a reference stands for its
-- character, and any other character that is not an ampersand for itself.
pub data Reads : Text → Text → Type 0 where
  end : Reads [] []
  read_amp : {t s : Text} → Reads t s → Reads (amp ++ t) (b'&' ∷ s)
  read_lt : {t s : Text} → Reads t s → Reads (lt ++ t) (b'<' ∷ s)
  read_gt : {t s : Text} → Reads t s → Reads (gt ++ t) (b'>' ∷ s)
  read_quote : {t s : Text} → Reads t s → Reads (quote ++ t) (34 ∷ s)
  read_apostrophe : {t s : Text} → Reads t s → Reads (apostrophe ++ t) (39 ∷ s)
  read_plain : {t s : Text} (c : ℕ) → c ≢ b'&' → Reads t s → Reads (c ∷ t) (c ∷ s)

amp-All : All IsInert amp
amp-All = ground arith

lt-All : All IsInert lt
lt-All = ground arith

gt-All : All IsInert gt
gt-All = ground arith

quote-All : All IsInert quote
quote-All = ground arith

apostrophe-All : All IsInert apostrophe
apostrophe-All = ground arith

-- What `escape_char` pushes, by the character.
data Pushes (c : ℕ) : Type 0 where
  reference :
      (code : ℕ) (r : Text)
      → c ≡ code
      → escape_char c ≡ r
      → All IsInert r
      → ((t s : Text) → Reads t s → Reads (r ++ t) (code ∷ s))
      → Pushes c
  plain : c ≢ b'&' → IsInert c → escape_char c ≡ c ∷ [] → Pushes c

escape_char-cases : (c : ℕ) → Pushes c
unfolding escape_char
escape_char-cases c = elim (ℕ_discrete c b'&') [
  | yes e ↦ Pushes.reference b'&' amp e (ground (arith, e)) amp-All (λ t s r. Reads.read_amp r)
  | no a ↦ elim (ℕ_discrete c b'<') [
    | yes e ↦ Pushes.reference b'<' lt e (ground (arith, e)) lt-All (λ t s r. Reads.read_lt r)
    | no l ↦ elim (ℕ_discrete c b'>') [
      | yes e ↦ Pushes.reference b'>' gt e (ground (arith, e)) gt-All (λ t s r. Reads.read_gt r)
      | no g ↦ elim (ℕ_discrete c 34) [
        | yes e ↦
            Pushes.reference 34 quote e (ground (arith, e)) quote-All (λ t s r. Reads.read_quote r)
        | no q ↦ elim (ℕ_discrete c 39) [
          | yes e ↦
              Pushes.reference 39 apostrophe e (ground (arith, e)) apostrophe-All
                (λ t s r. Reads.read_apostrophe r)
          | no p ↦ Pushes.plain a (l, g, q, p) (ground (arith, a, l, g, q, p))
        ]
      ]
    ]
  ]
]

escape_char-IsInert : (c : ℕ) → All IsInert (escape_char c)
escape_char-IsInert c = elim (escape_char-cases c) [
  | Pushes.reference code r e f inert reads ↦ subst (All IsInert) (sym f) inert
  | Pushes.plain a inert f ↦ subst (All IsInert) (sym f) (inert, tt)
]

escape_char-Reads : (c : ℕ) {t s : Text} → Reads t s → Reads (escape_char c ++ t) (c ∷ s)
escape_char-Reads c {t} {s} r = elim (escape_char-cases c) [
  | Pushes.reference code text e f inert reads ↦
      subst (λ i. Reads (i ++ t) (c ∷ s)) (sym f)
        (subst (λ i. Reads (text ++ t) (i ∷ s)) (sym e) (reads t s r))
  | Pushes.plain a inert f ↦ subst (λ i. Reads (i ++ t) (c ∷ s)) (sym f) (Reads.read_plain c a r)
]

-- Whatever text is escaped, what comes out has no quote and no angle bracket, and HTML reads the text
-- itself in it.
pub escape-Reads : (s : Text) → All IsInert (escape s) × Reads (escape s) s
unfolding escape
escape-Reads [] = (tt, Reads.end)
escape-Reads (c ∷ s) =
    let (inert, reads) = escape-Reads s in
    (
      All-append IsInert (escape_char c) (escape s) (escape_char-IsInert c) inert,
      escape_char-Reads c reads,
    )
