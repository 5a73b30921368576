-- ===== src/CpuFeatures/Flags.antt =====
-- The bits of cpu-features.h and of the kernel's HWCAP words that cpu-features.c names, and how a
-- word of them is extended.
pub mod Hwcap
pub mod Hwcap2
pub mod Feature
pub mod Hwcap64
pub mod Feature64
pub mod FeatureX86
pub mod Mips
use ndk.Base.{ℕ, ◌^◌, ◌≡◌, refl, Bool, false, ◌||◌, ◌&&◌, ◌==◌, if◌then◌else◌, bit_or, arith}
use ndk.Base.Bits.{bit, bit-bit_or, bit-le-one, bit-zero, test_bit, test_bit-pow}

-- `if (c) word |= flag;`
unfoldable pub or_if : Bool → ℕ → ℕ → ℕ
or_if c flag word = if c then bit_or word flag else word

-- Bit `k` of a word of features.
unfoldable pub has : ℕ → ℕ → Bool
has word k = bit k word == 1

pub has-or_if :
    (c : Bool) (flag word k : ℕ) → has (or_if c flag word) k ≡ (c && bit k flag == 1) || has word k
unfolding or_if has
has-or_if c flag word k =
    ground (arith, bit-bit_or k word flag, bit-le-one k word, bit-le-one k flag)

pub has-zero : (k : ℕ) → has 0 k ≡ false
unfolding has
has-zero k = rw (bit-zero k) refl

pub test_bit-has : (k word : ℕ) → test_bit word (2 ^ k) ≡ has word k
unfolding has
test_bit-has k word = test_bit-pow k word
