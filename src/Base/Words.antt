-- ===== src/Base/Words.antt =====
-- Arithmetic of `size_t` (64 bits) and the macro ALIGN_SIZE of infra/infra_memory.c.
use Prim.Native.Nat.{
  ℕ, zero, suc, ◌+◌, ◌-◌, ◌*◌, ◌/◌, ◌%◌, ◌^◌, ◌≤◌, ◌<◌, min, bit_and, digits, bit_and-bitwise,
}
use mathlib.Core.Path.{◌≡◌, refl, ap}
use native.Mathlib.Nat.{pow-suc, one-le-pow}
use native.Mathlib.Omega.{arith}

abbrev pub word : ℕ
word = 2 ^ 64

abbrev pub add64 : ℕ → ℕ → ℕ
add64 a b = (a + b) % word

abbrev pub sub64 : ℕ → ℕ → ℕ
sub64 a b = (a + word - b) % word

abbrev pub mul64 : ℕ → ℕ → ℕ
mul64 a b = a * b % word

-- `~x`
abbrev pub not64 : ℕ → ℕ
not64 x = word - 1 - x

-- `((size) + ((align) - 1)) & ~((align) - 1)`
unfoldable pub align_size : ℕ → ℕ → ℕ
align_size size align = bit_and (add64 size (sub64 align 1)) (not64 (sub64 align 1))

-- The digits of `a & b`, computed with enough fuel, do not depend on the fuel.
abbrev conj : ℕ → ℕ → ℕ → ℕ
conj fuel a b = digits (λ d. zero) min fuel a b

conj_enough : (a b f g : ℕ) → a ≤ f → a ≤ g → conj f a b ≡ conj g a b
conj_enough zero b zero zero p q = refl
conj_enough zero b zero (suc g) p q = refl
conj_enough zero b (suc f) zero p q = refl
conj_enough zero b (suc f) (suc g) p q = refl
conj_enough (suc a) b zero g p q = absurd (omega arith)
conj_enough (suc a) b (suc f) zero p q = absurd (omega arith)
conj_enough (suc a) b (suc f) (suc g) p q =
    omega (arith, conj_enough (suc a / 2) (b / 2) f g (omega arith) (omega arith))

no_digits : (b : ℕ) → bit_and 0 b ≡ 0
no_digits b = bit_and-bitwise 0 b

low_digit : (a b : ℕ) → bit_and a b ≡ bit_and (a / 2) (b / 2) * 2 + min (a % 2) (b % 2)
low_digit zero b = omega (arith, no_digits b, no_digits (b / 2))
low_digit (suc a) b =
    let halves = conj_enough (suc a / 2) (b / 2) a (suc a / 2) (omega arith) (omega arith) in
    omega (arith, halves, bit_and-bitwise (suc a) b, bit_and-bitwise (suc a / 2) (b / 2))

-- A mask of `w` ones keeps a number of `w` digits.
ones : (w a : ℕ) → a < 2 ^ w → bit_and a (2 ^ w - 1) ≡ a
ones zero a h = let e : a ≡ 0 = omega arith in rw e (no_digits (2 ^ 0 - 1))
ones (suc w) a h =
    ground (arith, low_digit a (2 ^ suc w - 1), pow-suc 2 w, one-le-pow w 2, ones w (a / 2))

-- `w` ones above `k` zeros cut off the `k` lowest digits.
high_digits :
    (k w q r : ℕ)
    → q < 2 ^ w
    → r < 2 ^ k
    → bit_and (q * 2 ^ k + r) ((2 ^ w - 1) * 2 ^ k) ≡ q * 2 ^ k
high_digits zero w q r h l = ground (arith, ones w q)
high_digits (suc k) w q r h l = ground (
  arith,
  low_digit (q * 2 ^ suc k + r) ((2 ^ w - 1) * 2 ^ suc k),
  pow-suc 2 k,
  ap (λ (t : ℕ). (2 ^ w - 1) * t) (pow-suc 2 k),
  ap (λ (t : ℕ). q * t) (pow-suc 2 k),
  high_digits k w q (r / 2),
)

-- The alignments that divide the size of a block's header, 32 bytes.
pub data IsAlign : ℕ → Type 0 where
  eight : (n : ℕ) → n ≡ 8 → IsAlign n
  sixteen : (n : ℕ) → n ≡ 16 → IsAlign n
  thirty_two : (n : ℕ) → n ≡ 32 → IsAlign n

align_by_8 : (x : ℕ) → x + 8 ≤ word → align_size x 8 ≡ (x + 7) / 8 * 8
unfolding align_size
align_by_8 x h =
    let sum : add64 x 7 ≡ (x + 7) / 8 * 2 ^ 3 + (x + 7) % 8 = omega arith in
    rw sum (high_digits 3 61 ((x + 7) / 8) ((x + 7) % 8) (omega arith) (omega arith))

align_by_16 : (x : ℕ) → x + 16 ≤ word → align_size x 16 ≡ (x + 15) / 16 * 16
unfolding align_size
align_by_16 x h =
    let sum : add64 x 15 ≡ (x + 15) / 16 * 2 ^ 4 + (x + 15) % 16 = omega arith in
    rw sum (high_digits 4 60 ((x + 15) / 16) ((x + 15) % 16) (omega arith) (omega arith))

align_by_32 : (x : ℕ) → x + 32 ≤ word → align_size x 32 ≡ (x + 31) / 32 * 32
unfolding align_size
align_by_32 x h =
    let sum : add64 x 31 ≡ (x + 31) / 32 * 2 ^ 5 + (x + 31) % 32 = omega arith in
    rw sum (high_digits 5 59 ((x + 31) / 32) ((x + 31) % 32) (omega arith) (omega arith))

-- Rounding up does not go below, reaches the next multiple, and leaves a multiple alone.
pub record RoundsUp (x a y : ℕ) : Type 0 where
  pub above : x ≤ y
  pub below : y < x + a
  pub multiple : y % a ≡ 0
  pub fixed : x % a ≡ 0 → y ≡ x

pub align_size-RoundsUp : (x a : ℕ) → IsAlign a → x + a ≤ word → RoundsUp x a (align_size x a)
align_size-RoundsUp x a (eight _ e) h = rw (e, align_by_8 x (omega arith)) (omega arith)
align_size-RoundsUp x a (sixteen _ e) h = rw (e, align_by_16 x (omega arith)) (omega arith)
align_size-RoundsUp x a (thirty_two _ e) h = rw (e, align_by_32 x (omega arith)) (omega arith)

-- A header keeps an address aligned.
pub header-aligned : (x a : ℕ) → IsAlign a → x % a ≡ 0 → (x + 32) % a ≡ 0
header-aligned x a (eight _ e) h = ground arith
header-aligned x a (sixteen _ e) h = ground arith
header-aligned x a (thirty_two _ e) h = ground arith

pub add-aligned : (x y a : ℕ) → IsAlign a → x % a ≡ 0 → y % a ≡ 0 → (x + y) % a ≡ 0
add-aligned x y a (eight _ e) h k = ground arith
add-aligned x y a (sixteen _ e) h k = ground arith
add-aligned x y a (thirty_two _ e) h k = ground arith

pub IsAlign-bounds : (a : ℕ) → IsAlign a → (8 ≤ a) × (a ≤ 32)
IsAlign-bounds a (eight _ e) = omega arith
IsAlign-bounds a (sixteen _ e) = omega arith
IsAlign-bounds a (thirty_two _ e) = omega arith
