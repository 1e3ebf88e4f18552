-- ===== src/Proxy/Pattern.antt =====
-- The regular expressions of proxy_trace.py as lists of pieces, and `re.fullmatch` of such a list. No
-- piece that may end at several places is followed by one that could go on there, so the longest end
-- is the only one that can match. `\d` also takes the decimal digits of other scripts: `digit_of` is
-- the value of such a character.
use ha_aiper_ble.Prelude.{
  ℕ, zero, suc, String, Bool, true, false, ◌&&◌, ◌||◌, Option, none, some, List, [], ◌∷◌, length,
  leb, ◌==◌, if◌then◌else◌,
}
use ha_aiper_ble.Prelude.Text.{Text, codes, strip_prefix}
use ha_aiper_ble.Prelude.Optional

pub data Piece : Type 0 where
  lit : String → Piece  -- the text itself
  digits : Piece  -- \d+
  number : Piece  -- (\d+)
  signed : Piece  -- (-?\d+)
  hex_code : Piece  -- ([0-9a-fA-F]{2,4})
  kind : Piece  -- (0[0-3])
  word : List String → Piece  -- (a|b|c)

abbrev pub Pattern : Type 0
Pattern = List Piece

unfoldable pub is_hex_digit : ℕ → Bool
is_hex_digit c =
    (leb b'0' c && leb c b'9') || (leb b'a' c && leb c b'f') || (leb b'A' c && leb c b'F')

-- The longest run, of at most so many characters, that pass the test, and what follows it.
unfoldable pub span : ℕ → (ℕ → Bool) → Text → Text × Text
span zero p s = ([], s)
span (suc n) p [] = ([], [])
span (suc n) p (c ∷ s) =
    let (run, rest) = span n p s in if p c then (c ∷ run, rest) else ([], c ∷ s)

-- the first of the words that the text starts with, and what follows
unfoldable pub strip_word : List String → Text → Option (Text × Text)
unfolding strip_prefix
strip_word [] s = none
strip_word (w ∷ ws) s =
    let later = strip_word ws s in
    elim (strip_prefix (codes w) s) [ some rest ↦ some (codes w, rest) | none ↦ later ]

abbrev nonempty : Text × Text → Option (Text × Text)
nonempty ([], rest) = none
nonempty (c ∷ run, rest) = some (c ∷ run, rest)

abbrev pub two_or_more : Text × Text → Option (Text × Text)
two_or_more (a ∷ b ∷ run, rest) = some (a ∷ b ∷ run, rest)
two_or_more _ = none

abbrev pub rest_of : Option (Text × Text) → Option Text
rest_of none = none
rest_of (some (run, rest)) = some rest

abbrev pub skipping : Option Text → (Text → Option (List Text)) → Option (List Text)
skipping none next = none
skipping (some rest) next = next rest

-- a group, and the groups of what follows
abbrev pub captured : Option (Text × Text) → (Text → Option (List Text)) → Option (List Text)
captured none next = none
captured (some (group, rest)) next = Optional.◌>>=◌ (next rest) (λ groups. some (group ∷ groups))

module _ (digit_of : ℕ → Option ℕ) where
  abbrev pub is_digit : ℕ → Bool
  is_digit c = elim (digit_of c) [ none ↦ false | some d ↦ true ]

  -- \d+ at the start
  unfoldable pub digits_at : Text → Option (Text × Text)
  unfolding span
  digits_at s = nonempty (span (length s) is_digit s)

  unfoldable pub signed_at : Text → Option (Text × Text)
  unfolding digits_at
  signed_at [] = none
  signed_at (c ∷ s) =
      if c == b'-'
      then Optional.◌>>=◌ (digits_at s) (λ x. some (b'-' ∷ x.0, x.1))
      else digits_at (c ∷ s)

  unfoldable pub kind_at : Text → Option (Text × Text)
  kind_at (a ∷ b ∷ rest) =
      if a == b'0' && leb b'0' b && leb b b'3' then some (a ∷ b ∷ [], rest) else none
  kind_at _ = none

  -- re.fullmatch, with the groups
  unfoldable pub full_match : Pattern → Text → Option (List Text)
  unfolding strip_prefix digits_at signed_at span is_hex_digit kind_at strip_word
  full_match [] [] = some []
  full_match [] (c ∷ s) = none
  full_match (lit t ∷ p) s = skipping (strip_prefix (codes t) s) (full_match p)
  full_match (digits ∷ p) s = skipping (rest_of (digits_at s)) (full_match p)
  full_match (number ∷ p) s = captured (digits_at s) (full_match p)
  full_match (signed ∷ p) s = captured (signed_at s) (full_match p)
  full_match (hex_code ∷ p) s = captured (two_or_more (span 4 is_hex_digit s)) (full_match p)
  full_match (kind ∷ p) s = captured (kind_at s) (full_match p)
  full_match (word ws ∷ p) s = captured (strip_word ws s) (full_match p)
