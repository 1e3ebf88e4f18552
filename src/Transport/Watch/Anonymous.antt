-- ===== src/Transport/Watch/Anonymous.antt =====
-- The names that stand for scanners: each scanner keeps its own.
use ha_aiper_ble.Prelude.{
  ℕ, zero, suc, ◌+◌, ◌≤◌, ◌<◌, ◌≡◌, refl, sym, ap, ◌∙◌, ◌≢◌, ◌⊎◌, inl, inr, Bool, true, false, not,
  ◌&&◌, ◌||◌, Option, none, some, List, [], ◌∷◌, ◌++◌, arith, length, ltb, ◌==◌, if◌then◌else◌,
  ltb→lt, if_elim,
}
use ha_aiper_ble.Prelude.Text.{Text, text_eq, text_eq_refl, text_eq_sound}
use ha_aiper_ble.Transport.Watch.{max_routes, find_source, route_name, add_source}

unfoldable pub add_sources : List Text → List (Text × Text) → List (Text × Text)
unfolding add_source
add_sources [] known = known
add_sources (s ∷ sources) known = add_sources sources (add_source s known)

-- The names are route_k, route_(k+1) and so on, up to the last that there is.
abbrev pub Numbered : ℕ → List (Text × Text) → Type 0
Numbered k [] = Unit
Numbered k ((source, id) ∷ rest) = (id ≡ route_name k) × (k ≤ max_routes) × Numbered (k + 1) rest

-- route_name tells the numbers up to 16 apart
apart : ℕ → ℕ → Bool
unfolding text_eq route_name
apart i j = i == j || not (text_eq (route_name i) (route_name j))

-- a test of all numbers below a bound
every : ℕ → (ℕ → Bool) → Bool
every zero p = true
every (suc n) p = p n && every n p

every_sound : (n : ℕ) (p : ℕ → Bool) (i : ℕ) → every n p ≡ true → i < n → p i ≡ true
unfolding every
every_sound zero p i h small = absurd (omega arith)
every_sound (suc n) p i h small = ground (arith, every_sound n p i)

all_apart : every 17 (λ i. every 17 (apart i)) ≡ true
unfolding every apart
all_apart = refl

route_name-ne : (i j : ℕ) → i < j → j ≤ max_routes → route_name i ≢ route_name j
unfolding apart
route_name-ne i j less few same =
    let tested : apart i j ≡ true =
      every_sound 17 (apart i) j (every_sound 17 _ i all_apart (omega arith)) (omega arith) in
    ground (arith, text_eq_refl (route_name j))

find-cases :
    (b : Bool) (id later found : Option Text)
    → (if b then id else later) ≡ found
    → ((b ≡ true) × (id ≡ found)) ⊎ ((b ≡ false) × (later ≡ found))
find-cases true id later found h = inl (refl, h)
find-cases false id later found h = inr (refl, h)

-- what is found has a name of a later number
find_source-name :
    (source : Text) (k : ℕ) (known : List (Text × Text)) (id : Text)
    → Numbered k known
    → find_source source known ≡ some id
    → (i : ℕ) × (k ≤ i) × (i ≤ max_routes) × (id ≡ route_name i)
unfolding find_source
find_source-name source k [] id n h = cc
find_source-name source k ((known, name) ∷ rest) id n h =
    elim (find-cases (text_eq known source) (some name) (find_source source rest) (some id) h) [
      | inl (same, found) ↦ (k, omega arith, n.1, (let named = n.0 in cc))
      | inr (other, found) ↦
          let (i, low, high, named) = find_source-name source (k + 1) rest id n.2 found in
          (i, omega arith, high, named)
    ]

-- a first name is none of the later ones
first-ne-later :
    (source : Text) (k : ℕ) (rest : List (Text × Text)) (name id : Text)
    → Numbered k ((source, name) ∷ rest)
    → (t : Text) → find_source t rest ≡ some id
    → some name ≢ some id
first-ne-later source k rest name id n t found same =
    let (i, low, high, named) = find_source-name t (k + 1) rest id n.2 found in
    let first = n.0 in route_name-ne k i (omega arith) high (cc)

find_source-injective :
    (s t : Text) (k : ℕ) (known : List (Text × Text)) (id : Text)
    → Numbered k known
    → find_source s known ≡ some id
    → find_source t known ≡ some id
    → s ≡ t
unfolding find_source
find_source-injective s t k [] id n hs ht = cc
find_source-injective s t k ((known, name) ∷ rest) id n hs ht =
    let later = find_source-injective s t (k + 1) rest id n.2 in
    elim (find-cases (text_eq known s) (some name) (find_source s rest) (some id) hs) [
      | inl a ↦ elim (find-cases (text_eq known t) (some name) (find_source t rest) (some id) ht) [
        | inl b ↦ sym (text_eq_sound known s a.0) ∙ text_eq_sound known t b.0
        | inr b ↦ absurd (first-ne-later known k rest name id n t b.1 a.1)
      ]
      | inr a ↦ elim (find-cases (text_eq known t) (some name) (find_source t rest) (some id) ht) [
        | inl b ↦ absurd (first-ne-later known k rest name id n s a.1 b.1)
        | inr b ↦ later a.1 b.1
      ]
    ]

-- the next name, where there is room for it
Numbered-append :
    (k m : ℕ) (known : List (Text × Text)) (source : Text)
    → Numbered k known
    → m ≡ k + length known
    → m ≤ max_routes
    → Numbered k (known ++ (source, route_name m) ∷ [])
Numbered-append k m [] source n at room = (ap route_name (omega arith), omega arith, tt)
Numbered-append k m ((s, id) ∷ rest) source n at room =
    (n.0, n.1, Numbered-append (k + 1) m rest source n.2 (omega arith) room)

-- what holds of the list and of the list with one more name holds of what `add_source` makes
add_source-elim {ℓ} :
    (P : List (Text × Text) → Type ℓ) (source : Text) (known : List (Text × Text))
    → P known
    → (length known < max_routes → P (known ++ (source, route_name (length known + 1)) ∷ []))
    → P (add_source source known)
unfolding add_source
add_source-elim P source known old new = added (find_source source known)
  where
    added :
        (o : Option Text)
        → P (elim o [
          | some id ↦ known
          | none ↦
              if ltb (length known) max_routes
              then known ++ (source, route_name (length known + 1)) ∷ []
              else known
        ])
    added (some id) = old
    added none =
        if_elim P (ltb (length known) max_routes) (λ room. new (ltb→lt _ _ room)) (λ full. old)

add_source-Numbered :
    (source : Text) (known : List (Text × Text))
    → Numbered 1 known
    → Numbered 1 (add_source source known)
add_source-Numbered source known n =
    add_source-elim (Numbered 1) source known n
      λ room. Numbered-append 1 (length known + 1) known source n (omega arith) (omega arith)

find_source-append :
    (s : Text) (known more : List (Text × Text)) (id : Text)
    → find_source s known ≡ some id
    → find_source s (known ++ more) ≡ some id
unfolding find_source
find_source-append s [] more id h = cc
find_source-append s ((known, name) ∷ rest) more id h =
    ground (arith, find_source-append s rest more id)

add_source-keeps :
    (source : Text) (known : List (Text × Text)) (s id : Text)
    → find_source s known ≡ some id
    → find_source s (add_source source known) ≡ some id
add_source-keeps source known s id h =
    add_source-elim (λ l. find_source s l ≡ some id) source known h
      λ room. find_source-append s known _ id h

-- However many scanners are seen, a scanner that has a name keeps it, and no two that have names
-- share one, if the names were given in order before.
pub add_sources-keeps :
    (sources : List Text) (known : List (Text × Text))
    → Numbered 1 known
    → ((s id : Text)
        → find_source s known ≡ some id
        → find_source s (add_sources sources known) ≡ some id)
      × ((s t id : Text)
          → find_source s (add_sources sources known) ≡ some id
          → find_source t (add_sources sources known) ≡ some id
          → s ≡ t)
unfolding add_sources
add_sources-keeps [] known n = (λ s id h. h, λ s t id. find_source-injective s t 1 known id n)
add_sources-keeps (source ∷ sources) known n =
    let (kept, distinct) =
      add_sources-keeps sources (add_source source known) (add_source-Numbered source known n) in
    (λ s id h. kept s id (add_source-keeps source known s id h), distinct)
