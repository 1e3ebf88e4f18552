-- ===== src/Proxy/Events/Vocabulary.antt =====
-- What is kept of a message is of a fixed vocabulary.
use ha_aiper_ble.Prelude.{
  ℕ, String, ◌≡◌, refl, ap, ◌⊎◌, inl, inr, Bool, true, false, not, ◌&&◌, Option, none, some, List,
  [], ◌∷◌, arith, All, all, any, Bool-cases, both, str_eq, eq_iff, if_elim,
}
use ha_aiper_ble.Prelude.Text.{Text, codes, text_eq, strip_prefix, text_eq_refl, text_eq_sound}
use mathlib.Core.Path.{subst}
use ha_aiper_ble.Prelude.Optional.{>>=-eq-some}
use ha_aiper_ble.Proxy.Pattern.{
  lit, digits, number, signed, hex_code, kind, word, Pattern, rest_of, skipping, captured,
  strip_word, full_match, digits_at, signed_at, two_or_more, span, is_hex_digit, kind_at,
}
use ha_aiper_ble.Proxy.Events.{
  Known, legacy_events, modern_events, Reading, stage, value, readings, reading_of, recognise,
}

-- the words that a reading may be
abbrev pub stages : List String
stages = "OPEN" ∷ "CONNECT" ∷ "SEARCH_CMPL" ∷ "CLOSE" ∷ "IDLE" ∷ "DISCONNECTING" ∷ []

abbrev pub IsWord : List String → Text → Type 0
IsWord ws g = any (λ w. text_eq (codes w) g) ws ≡ true

abbrev pub IsSafe : String × Reading → Type 0
IsSafe (field, stage g) = IsWord stages g
IsSafe (field, value n) = Unit

abbrev First : (Text → Type 0) → (List Text → Type 0) → List Text → Type 0
First P Q [] = ⊥
First P Q (g ∷ gs) = P g × Q gs

-- each group of a match, by its piece
abbrev Fits : Pattern → List Text → Type 0
Fits [] gs = Unit
Fits (lit t ∷ p) gs = Fits p gs
Fits (digits ∷ p) gs = Fits p gs
Fits (word ws ∷ p) gs = First (IsWord ws) (Fits p) gs
Fits (number ∷ p) gs = First (λ g. Unit) (Fits p) gs
Fits (signed ∷ p) gs = First (λ g. Unit) (Fits p) gs
Fits (hex_code ∷ p) gs = First (λ g. Unit) (Fits p) gs
Fits (kind ∷ p) gs = First (λ g. Unit) (Fits p) gs

strip_word-IsWord :
    (ws : List String) (s g rest : Text) → strip_word ws s ≡ some (g, rest) → IsWord ws g
unfolding strip_word
strip_word-IsWord [] s g rest h = cc
strip_word-IsWord (w ∷ ws) s g rest h =
    ground (arith, strip_word-IsWord ws s g rest, text_eq_refl (codes w))

skipping_inv :
    (Q : List Text → Type 0) (o : Option Text) (next : Text → Option (List Text)) (gs : List Text)
    → ((rest : Text) (groups : List Text) → next rest ≡ some groups → Q groups)
    → skipping o next ≡ some gs
    → Q gs
skipping_inv Q none next gs q h = cc
skipping_inv Q (some rest) next gs q h = q rest gs h

captured-First :
    (P : Text → Type 0) (Q : List Text → Type 0) (o : Option (Text × Text))
    (next : Text → Option (List Text)) (gs : List Text)
    → ((g rest : Text) → o ≡ some (g, rest) → P g)
    → ((rest : Text) (groups : List Text) → next rest ≡ some groups → Q groups)
    → captured o next ≡ some gs
    → First P Q gs
captured-First P Q none next gs p q h = cc
captured-First P Q (some (g, rest)) next gs p q h =
    let (groups, found, same) = >>=-eq-some (next rest) _ h in
    subst (λ o. elim o [ none ↦ ⊥ | some l ↦ First P Q l ]) same
      (p g rest refl, q rest groups found)

-- What a table may hold: as many names as groups, and "stage" just where the group is a word.
unfoldable pub is_typed : Pattern → List String → Bool
unfolding text_eq
is_typed [] [] = true
is_typed [] (f ∷ fs) = false
is_typed (lit t ∷ p) fs = is_typed p fs
is_typed (digits ∷ p) fs = is_typed p fs
is_typed (piece ∷ p) [] = false
is_typed (word ws ∷ p) (f ∷ fs) =
    all (λ w. any (λ v. text_eq (codes v) (codes w)) stages) ws && is_typed p fs
is_typed (number ∷ p) (f ∷ fs) = not (str_eq f "stage") && is_typed p fs
is_typed (signed ∷ p) (f ∷ fs) = not (str_eq f "stage") && is_typed p fs
is_typed (hex_code ∷ p) (f ∷ fs) = not (str_eq f "stage") && is_typed p fs
is_typed (kind ∷ p) (f ∷ fs) = not (str_eq f "stage") && is_typed p fs

pub legacy_typed : all (λ k. is_typed k.pattern k.fields) legacy_events ≡ true
unfolding is_typed
legacy_typed = refl

pub modern_typed : all (λ k. is_typed k.pattern k.fields) modern_events ≡ true
unfolding is_typed
modern_typed = refl

IsWord-stages :
    (ws : List String) (g : Text)
    → all (λ w. any (λ v. text_eq (codes v) (codes w)) stages) ws ≡ true
    → IsWord ws g
    → IsWord stages g
IsWord-stages [] g h found = cc
IsWord-stages (w ∷ ws) g h found = elim (Bool-cases (text_eq (codes w) g)) [
  | inl same ↦
      subst (λ (t : Text). any (λ v. text_eq (codes v) t) stages ≡ true)
        (text_eq_sound (codes w) g same) (ground arith)
  | inr other ↦ IsWord-stages ws g (ground arith) (ground arith)
]

option_cases {ℓ κ} :
    {A : Type ℓ} {B : Type κ} (o : Option A) (later : Option B) (f : A → B) (x : B)
    → elim o [ none ↦ later | some a ↦ some (f a) ] ≡ some x
    → ((a : A) × (o ≡ some a) × (f a ≡ x)) ⊎ (later ≡ some x)
option_cases none later f x h = inr h
option_cases (some a) later f x h = inl (a, refl, cc)

-- the event is one of the table's, and its readings are safe
abbrev pub IsKept : List Known → String → List (String × Reading) → Type 0
IsKept ks event kept = (any (λ k. str_eq k.event event) ks ≡ true) × All IsSafe kept

module _ (digit_of : ℕ → Option ℕ) where
  full_match-Fits :
      (p : Pattern) (s : Text) (gs : List Text) → full_match digit_of p s ≡ some gs → Fits p gs
  unfolding full_match
  full_match-Fits [] s gs h = tt
  full_match-Fits (lit t ∷ p) s gs h =
      skipping_inv (Fits p) (strip_prefix (codes t) s) (full_match digit_of p) gs
        (full_match-Fits p) h
  full_match-Fits (digits ∷ p) s gs h =
      skipping_inv (Fits p) (rest_of (digits_at digit_of s)) (full_match digit_of p) gs
        (full_match-Fits p) h
  full_match-Fits (word ws ∷ p) s gs h =
      captured-First (IsWord ws) (Fits p) (strip_word ws s) (full_match digit_of p) gs
        (strip_word-IsWord ws s) (full_match-Fits p) h
  full_match-Fits (number ∷ p) s gs h =
      captured-First (λ g. Unit) (Fits p) (digits_at digit_of s) (full_match digit_of p) gs
        (λ g rest same. tt) (full_match-Fits p) h
  full_match-Fits (signed ∷ p) s gs h =
      captured-First (λ g. Unit) (Fits p) (signed_at digit_of s) (full_match digit_of p) gs
        (λ g rest same. tt) (full_match-Fits p) h
  full_match-Fits (hex_code ∷ p) s gs h =
      captured-First (λ g. Unit) (Fits p) (two_or_more (span 4 is_hex_digit s))
        (full_match digit_of p) gs (λ g rest same. tt) (full_match-Fits p) h
  full_match-Fits (kind ∷ p) s gs h =
      captured-First (λ g. Unit) (Fits p) (kind_at digit_of s) (full_match digit_of p) gs
        (λ g rest same. tt) (full_match-Fits p) h

  reading_of-IsSafe :
      (field : String) (g : Text)
      → (str_eq field "stage" ≡ true → IsWord stages g)
      → IsSafe (field, reading_of digit_of field g)
  unfolding reading_of
  reading_of-IsSafe field g named =
      if_elim (λ r. IsSafe (field, r)) (str_eq field "stage") named
        λ other.
          if_elim (λ r. IsSafe (field, r)) (str_eq field "reason") (λ reason. tt) (λ code. tt)

  not_stage-IsSafe :
      (field : String) (g : Text)
      → not (str_eq field "stage") ≡ true
      → IsSafe (field, reading_of digit_of field g)
  not_stage-IsSafe field g h = reading_of-IsSafe field g (λ same. ground arith)

  is_typed-IsSafe :
      (p : Pattern) (fields : List String) (gs : List Text)
      → is_typed p fields ≡ true
      → Fits p gs
      → All IsSafe (readings digit_of fields gs)
  unfolding is_typed readings reading_of
  is_typed-IsSafe [] [] gs t f = tt
  is_typed-IsSafe [] (field ∷ fields) gs t f = cc
  is_typed-IsSafe (lit w ∷ p) fields gs t f = is_typed-IsSafe p fields gs t f
  is_typed-IsSafe (digits ∷ p) fields gs t f = is_typed-IsSafe p fields gs t f
  is_typed-IsSafe (word ws ∷ p) (field ∷ fields) (g ∷ gs) t f =
      let (known, rest) = both _ (is_typed p fields) t in
      (
        reading_of-IsSafe field g (λ same. IsWord-stages ws g known f.0),
        is_typed-IsSafe p fields gs rest f.1,
      )
  is_typed-IsSafe (number ∷ p) (field ∷ fields) (g ∷ gs) t f =
      let (plain, rest) = both _ (is_typed p fields) t in
      (not_stage-IsSafe field g plain, is_typed-IsSafe p fields gs rest f.1)
  is_typed-IsSafe (signed ∷ p) (field ∷ fields) (g ∷ gs) t f =
      let (plain, rest) = both _ (is_typed p fields) t in
      (not_stage-IsSafe field g plain, is_typed-IsSafe p fields gs rest f.1)
  is_typed-IsSafe (hex_code ∷ p) (field ∷ fields) (g ∷ gs) t f =
      let (plain, rest) = both _ (is_typed p fields) t in
      (not_stage-IsSafe field g plain, is_typed-IsSafe p fields gs rest f.1)
  is_typed-IsSafe (kind ∷ p) (field ∷ fields) (g ∷ gs) t f =
      let (plain, rest) = both _ (is_typed p fields) t in
      (not_stage-IsSafe field g plain, is_typed-IsSafe p fields gs rest f.1)
  is_typed-IsSafe (piece ∷ p) [] gs t f = cc
  is_typed-IsSafe (piece ∷ p) (field ∷ fields) [] t f = elim f [ ]

  pub recognise-IsKept :
      (ks : List Known) (body : Text) (event : String) (kept : List (String × Reading))
      → all (λ k. is_typed k.pattern k.fields) ks ≡ true
      → recognise digit_of ks body ≡ some (event, kept)
      → IsKept ks event kept
  unfolding recognise
  recognise-IsKept [] body event kept t h = cc
  recognise-IsKept (k ∷ ks) body event kept t h =
      let (typed, rest) = both _ _ t in
      elim (option_cases (full_match digit_of k.pattern body) (recognise digit_of ks body)
        (λ groups. (k.event, readings digit_of k.fields groups)) (event, kept) h) [
          | inl (groups, found, same) ↦
              let named : str_eq k.event event ≡ true =
                (eq_iff k.event event).1
                  (ap (λ (x : String × List (String × Reading)). x.0) same) in
              (
                ground arith,
                subst (All IsSafe) (ap (λ (x : String × List (String × Reading)). x.1) same) (
                    is_typed-IsSafe k.pattern k.fields groups typed
                      (full_match-Fits k.pattern body groups found)),
              )
          | inr later ↦
              let more = recognise-IsKept ks body event kept rest later in (ground arith, more.1)
        ]
