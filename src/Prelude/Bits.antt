-- ===== src/Prelude/Bits.antt =====
-- `^` of Python on natural numbers: laws of `bit_xor` at every width, from one equation for the
-- lowest digit.
use Prim.Native.Nat.{digits, bit_xor-bitwise, differ}
use native.Mathlib.Nat.{le_refl, pow-suc}
use ha_aiper_ble.Prelude.{
  ℕ, zero, suc, ◌+◌, ◌*◌, ◌/◌, ◌%◌, ◌^◌, ◌≤◌, ◌<◌, bit_xor, ◌≡◌, refl, ap, arith, ◌∙◌,
}

-- The rounds of the digit recursion that `bit_xor` stands for.
abbrev rounds : ℕ → ℕ → ℕ → ℕ
rounds fuel a b = digits (λ y. y) differ fuel a b

-- Any two amounts of fuel that reach the first number agree.
rounds_agree : (f g a b : ℕ) → a ≤ f → a ≤ g → rounds f a b ≡ rounds g a b
rounds_agree zero zero a b below_f below_g = refl
rounds_agree (suc f) zero zero b below_f below_g = refl
rounds_agree zero (suc g) zero b below_f below_g = refl
rounds_agree (suc f) (suc g) zero b below_f below_g = refl
rounds_agree (suc f) zero (suc a) b below_f below_g = absurd (omega arith)
rounds_agree zero (suc g) (suc a) b below_f below_g = absurd (omega arith)
rounds_agree (suc f) (suc g) (suc a) b below_f below_g =
    omega (arith, rounds_agree f g (suc a / 2) (b / 2) (omega arith) (omega arith))

pub zero-bit_xor : (b : ℕ) → bit_xor 0 b ≡ b
zero-bit_xor b = bit_xor-bitwise 0 b

differ_parity : (m n : ℕ) → m < 2 → n < 2 → differ m n ≡ (m + n) % 2
differ_parity zero zero p q = refl
differ_parity zero (suc zero) p q = refl
differ_parity (suc zero) zero p q = refl
differ_parity (suc zero) (suc zero) p q = refl
differ_parity (suc (suc m)) n p q = absurd (omega arith)
differ_parity zero (suc (suc n)) p q = absurd (omega arith)
differ_parity (suc zero) (suc (suc n)) p q = absurd (omega arith)

-- The lowest digit of a sum without carries.
pub bit_xor_digit : (a b : ℕ) → bit_xor a b ≡ bit_xor (a / 2) (b / 2) * 2 + (a + b) % 2
bit_xor_digit zero b = omega (arith, zero-bit_xor b, zero-bit_xor (b / 2))
bit_xor_digit (suc a) b = omega (
  arith,
  bit_xor-bitwise (suc a) b,
  bit_xor-bitwise (suc a / 2) (b / 2),
  differ_parity (suc a % 2) (b % 2),
  rounds_agree a (suc a / 2) (suc a / 2) (b / 2) (omega arith) (le_refl _),
)

halve : (a b : ℕ) → bit_xor a b / 2 ≡ bit_xor (a / 2) (b / 2)
halve a b = omega (arith, bit_xor_digit a b)

cancel_step :
    (a b : ℕ) → bit_xor (bit_xor (a / 2) (b / 2)) (b / 2) ≡ a / 2 → bit_xor (bit_xor a b) b ≡ a
cancel_step a b ih = omega (
  arith,
  bit_xor_digit a b,
  bit_xor_digit (bit_xor a b) b,
  ap (λ (c : ℕ). bit_xor c (b / 2)) (halve a b),
)

cancel_below : (n a b : ℕ) → a + b ≤ n → bit_xor (bit_xor a b) b ≡ a
cancel_below zero a b h = let e : a ≡ 0 = omega arith in let e' : b ≡ 0 = omega arith in rw (e, e')
cancel_below (suc n) zero zero h = refl
cancel_below (suc n) zero (suc b) h =
    cancel_step 0 (suc b) (cancel_below n (0 / 2) (suc b / 2) (omega arith))
cancel_below (suc n) (suc a) b h =
    cancel_step (suc a) b (cancel_below n (suc a / 2) (b / 2) (omega arith))

-- Twice the same number cancels.
pub bit_xor_cancel : (a b : ℕ) → bit_xor (bit_xor a b) b ≡ a
bit_xor_cancel a b = cancel_below (a + b) a b (le_refl _)

comm_below : (n a b : ℕ) → a + b ≤ n → bit_xor a b ≡ bit_xor b a
comm_below zero a b h = let e : a ≡ 0 = omega arith in let e' : b ≡ 0 = omega arith in rw (e, e')
comm_below (suc n) zero zero h = refl
comm_below (suc n) zero (suc b) h = omega (
  arith,
  bit_xor_digit 0 (suc b),
  bit_xor_digit (suc b) 0,
  comm_below n (0 / 2) (suc b / 2) (omega arith),
)
comm_below (suc n) (suc a) b h = omega (
  arith,
  bit_xor_digit (suc a) b,
  bit_xor_digit b (suc a),
  comm_below n (suc a / 2) (b / 2) (omega arith),
)

pub bit_xor_comm : (a b : ℕ) → bit_xor a b ≡ bit_xor b a
bit_xor_comm a b = comm_below (a + b) a b (le_refl _)

-- Two numbers of k bits have a sum of k bits.
pub bit_xor-lt : (k a b : ℕ) → a < 2 ^ k → b < 2 ^ k → bit_xor a b < 2 ^ k
bit_xor-lt zero a b h h' =
    let e : a ≡ 0 = omega arith in let e' : b ≡ 0 = omega arith in rw (e, e') (omega arith)
bit_xor-lt (suc k) a b h h' = omega (
  arith,
  pow-suc 2 k,
  bit_xor_digit a b,
  bit_xor-lt k (a / 2) (b / 2) (omega (arith, pow-suc 2 k)) (omega (arith, pow-suc 2 k)),
)

-- a >> k
abbrev pub halves : ℕ → ℕ → ℕ
halves zero a = a
halves (suc k) a = halves k (a / 2)

-- A shift of a sum is the sum of the shifts.
pub halves-bit_xor : (k a b : ℕ) → halves k (bit_xor a b) ≡ bit_xor (halves k a) (halves k b)
halves-bit_xor zero a b = refl
halves-bit_xor (suc k) a b = ap (halves k) (halve a b) ∙ halves-bit_xor k (a / 2) (b / 2)
