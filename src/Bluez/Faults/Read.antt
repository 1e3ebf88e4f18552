-- ===== src/Bluez/Faults/Read.antt =====
-- The sample that is shown is the one that was read.
use ha_aiper_ble.Prelude.{
  ℕ, suc, ◌+◌, ◌-◌, ◌*◌, ◌/◌, ◌%◌, ◌≤◌, ◌<◌, ◌≡◌, refl, sym, ap, ◌∙◌, true, not, ◌||◌, Option, none,
  some, List, [], ◌∷◌, map, arith, length, All, all, ltb, leb, if◌then◌else◌, both, if_elim,
}
use ha_aiper_ble.Prelude.Int.{ℤ, pos, negsuc}
use ha_aiper_ble.Prelude.Text.{Text}
use ha_aiper_ble.Bluez.Guards.{Checked, passed}
use ha_aiper_ble.Bluez.Faults.{Sample, no_array, items, is_byte, hex_digit, hex, sample_hex}

unfoldable pub digit_value : ℕ → ℕ
digit_value c = if ltb c b'a' then c - b'0' else c - b'a' + 10

-- the bytes that two digits each stand for
unfoldable pub unhex : Text → List ℕ
unfolding digit_value
unhex [] = []
unhex (a ∷ []) = []
unhex (a ∷ b ∷ rest) = (digit_value a * 16 + digit_value b) ∷ unhex rest

abbrev pub bytes_of : List ℕ → List (Option ℤ)
bytes_of ns = map (λ n. some (pos n)) ns

digit_value-hex_digit : (n : ℕ) → n < 16 → digit_value (hex_digit n) ≡ n
unfolding digit_value hex_digit
digit_value-hex_digit n h = ground arith

byte_lem :
    (n : ℕ) → n < 256 → digit_value (hex_digit (n / 16)) * 16 + digit_value (hex_digit (n % 16)) ≡ n
byte_lem n h =
    let high = digit_value-hex_digit (n / 16) (omega arith) in
    let low = digit_value-hex_digit (n % 16) (omega arith) in omega (arith, high, low)

unhex-hex : (ns : List ℕ) → All (λ n. n < 256) ns → unhex (hex (bytes_of ns)) ≡ ns
unfolding unhex hex
unhex-hex [] h = refl
unhex-hex (n ∷ ns) h =
    ap (λ x. x ∷ unhex (hex (bytes_of ns))) (byte_lem n h.0) ∙ ap (λ xs. n ∷ xs) (unhex-hex ns h.1)

all_bytes : (ns : List ℕ) → All (λ n. n < 256) ns → all is_byte (bytes_of ns) ≡ true
unfolding is_byte
all_bytes [] h = refl
all_bytes (n ∷ ns) h = let small = h.0 in let rest = all_bytes ns h.1 in ground arith

length-bytes_of : (ns : List ℕ) → length (bytes_of ns) ≡ length ns
length-bytes_of [] = refl
length-bytes_of (n ∷ ns) = ap suc (length-bytes_of ns)

passed-injective : {a b : Text} → passed a ≡ passed b → a ≡ b
passed-injective h = cc

-- The items are bytes, and not too many of them.
pub record IsShort (ns : List ℕ) (v : Sample) : Type 0 where
  pub read : v ≡ items (bytes_of ns)
  pub short : length ns ≤ 512
  pub bytes : All (λ n. n < 256) ns

bytes_back :
    (os : List (Option ℤ))
    → all is_byte os ≡ true
    → (ns : List ℕ) × (os ≡ bytes_of ns) × All (λ n. n < 256) ns
unfolding is_byte
bytes_back [] h = ([], refl, tt)
bytes_back (none ∷ os) h = cc
bytes_back (some (negsuc n) ∷ os) h = cc
bytes_back (some (pos n) ∷ os) h =
    let (small, rest) = both (leb n 255) (all is_byte os) h in
    let (ns, same, fits) = bytes_back os rest in
    (n ∷ ns, ap (λ x. some (pos n) ∷ x) same, (ground (arith, small), fits))

shown-IsShort :
    (v : Sample) (text : Text)
    → sample_hex v ≡ passed text
    → (ns : List ℕ) × IsShort ns v × (unhex text ≡ ns)
unfolding sample_hex
shown-IsShort no_array text h = cc
shown-IsShort (items os) text h =
    if_elim
      (λ (c : Checked Text).
        c ≡ passed text → (ns : List ℕ) × IsShort ns (items os) × (unhex text ≡ ns))
      (ltb 512 (length os) || not (all is_byte os)) (λ bad k. cc)
      (λ good k.
        let (ns, same, fits) = bytes_back os (ground (arith, good)) in
        let short : length os ≤ 512 = ground (arith, good) in
        (
          ns,
          record {
            read = ap items same;
            short = let count = length-bytes_of ns in let n = ap length same in omega arith;
            bytes = fits;
          },
          ap unhex (passed-injective (sym k)) ∙ ap (λ x. unhex (hex x)) same ∙ unhex-hex ns fits,
        ))
      h

short-shown :
    (v : Sample) (ns : List ℕ)
    → IsShort ns v
    → (text : Text) × (sample_hex v ≡ passed text) × (unhex text ≡ ns)
unfolding sample_hex
short-shown v ns h =
    let shown : sample_hex (items (bytes_of ns)) ≡ passed (hex (bytes_of ns)) =
      ground (arith, h.short, length-bytes_of ns, all_bytes ns h.bytes) in
    (hex (bytes_of ns), ap sample_hex h.read ∙ shown, unhex-hex ns h.bytes)

-- A sample is shown exactly if it is an array of at most 512 bytes, and then its bytes can be read back
-- from what is shown.
pub sample_hex-IsShort :
    (v : Sample)
    → ((text : Text)
        → sample_hex v ≡ passed text
        → (ns : List ℕ) × IsShort ns v × (unhex text ≡ ns))
      × ((ns : List ℕ)
          → IsShort ns v
          → (text : Text) × (sample_hex v ≡ passed text) × (unhex text ≡ ns))
sample_hex-IsShort v = (shown-IsShort v, short-shown v)
