-- ===== src/CpuFeatures/CpuList/Mask.antt =====
-- The operations on `CpuList` of cpu-features.c, digit by digit.
use native.Mathlib.Nat.{pow-suc}
use ndk.Base.{
  ℕ, zero, suc, ◌+◌, ◌-◌, ◌/◌, ◌%◌, ◌^◌, ◌≤◌, ◌<◌, ◌≡◌, refl, ap, true, ◌&&◌, ltb, leb, ◌==◌, Bool,
  false, bit_and, if◌then◌else◌, arith,
}
use ndk.Base.Bits.{bit, bit-bit_or, bit-bit_and, bit-le-one, bit-zero}
use ndk.Base.Checked.{ok, out_of_fuel}
use ndk.CpuFeatures.CpuList.{
  CpuList, cpulist_and, cpulist_set, cpulist_count, popcount, biased, range_loop,
}

-- CPU `i` is in the list.
abbrev pub has_cpu : CpuList → ℕ → Bool
has_cpu list i = bit i list.mask == 1

bit-pow : (i k : ℕ) → bit i (2 ^ k) ≡ (if i == k then 1 else 0)
bit-pow zero zero = refl
bit-pow zero (suc k) = ground (arith, pow-suc 2 k)
bit-pow (suc i) zero = ground (arith, bit-zero i)
bit-pow (suc i) (suc k) =
    let half : 2 ^ suc k / 2 ≡ 2 ^ k = omega (arith, pow-suc 2 k) in
    ground (arith, ap (bit i) half, bit-pow i k)

pub has_cpu-cpulist_set :
    (list : CpuList) (index i : ℕ)
    → i < 32
    → has_cpu (cpulist_set list index) i ≡ (if i == index then true else has_cpu list i)
unfolding cpulist_set
has_cpu-cpulist_set list index i lt =
    ground (arith, bit-bit_or i list.mask (2 ^ index), bit-pow i index, bit-le-one i list.mask)

-- The rounds of `for (val = start; val <= end; val++)`.
abbrev pub rounds : ℕ → ℕ → ℕ
rounds start end_value = biased end_value + 1 - biased start

unfoldable pub set_loop : ℕ → ℕ → CpuList → CpuList
set_loop zero val list = list
set_loop (suc n) val list = set_loop n ((val + 1) % 2 ^ 32) (cpulist_set list val)

set_loop-suc :
    (n val : ℕ) (list : CpuList)
    → val + 1 < 2 ^ 32
    → set_loop (suc n) val list ≡ set_loop n (val + 1) (cpulist_set list val)
unfolding set_loop
set_loop-suc n val list lt =
    let next : (val + 1) % 2 ^ 32 ≡ val + 1 = omega arith in
    ap (λ (v : ℕ). set_loop n v (cpulist_set list val)) next

-- The loop sets the CPUs from `val` on, one for each round, and no other.
pub has_cpu-set_loop :
    (n val i : ℕ) (list : CpuList)
    → i < 32
    → val + n ≤ 2 ^ 32
    → has_cpu (set_loop n val list) i
      ≡ (if leb val i && ltb i (val + n) then true else has_cpu list i)
has_cpu-set_loop zero val i list lt h = unfold set_loop in ground arith
has_cpu-set_loop (suc zero) val i list lt h =
    unfold set_loop in ground (arith, has_cpu-cpulist_set list val i)
has_cpu-set_loop (suc (suc n)) val i list lt h = rw (set_loop-suc (suc n) val list (omega arith)) (
    ground (
      arith,
      has_cpu-set_loop (suc n) (val + 1) i (cpulist_set list val) lt (omega arith),
      has_cpu-cpulist_set list val i,
    ))

-- The loop over a range ends behind its last CPU, unless that is the largest `int`.
pub range_loop-set_loop :
    (f n val end_value : ℕ) (list : CpuList)
    → rounds val end_value ≡ n
    → n < f
    → biased end_value < 2 ^ 32 - 1
    → range_loop f val end_value list ≡ ok (set_loop n val list)
unfolding set_loop range_loop
range_loop-set_loop zero n val end_value list e enough last = absurd (omega arith)
range_loop-set_loop (suc f) zero val end_value list e enough last =
    let over : leb (biased val) (biased end_value) ≡ false = ground arith in
    rw (over, range_loop) refl
range_loop-set_loop (suc f) (suc n) val end_value list e enough last =
    let inside : leb (biased val) (biased end_value) ≡ true = ground arith in
    rw (inside, range_loop)
      (range_loop-set_loop f n ((val + 1) % 2 ^ 32) end_value (cpulist_set list val) (omega arith)
        (omega arith) last)

-- Every `int` is at most the largest one: no number of rounds ends the loop up to it.
pub range_loop-out_of_fuel :
    (f val end_value : ℕ) (list : CpuList)
    → biased end_value ≡ 2 ^ 32 - 1
    → range_loop f val end_value list ≡ out_of_fuel
unfolding range_loop
range_loop-out_of_fuel zero val end_value list last = refl
range_loop-out_of_fuel (suc f) val end_value list last =
    let inside : leb (biased val) (biased end_value) ≡ true = ground arith in
    rw (inside, range_loop)
      (range_loop-out_of_fuel f ((val + 1) % 2 ^ 32) end_value (cpulist_set list val) last)

-- How many of the CPUs below `k` pass a test.
abbrev pub count_below : ℕ → (ℕ → Bool) → ℕ
count_below zero p = 0
count_below (suc k) p = count_below k p + (if p k then 1 else 0)

popcount-and :
    (k a b : ℕ) → popcount k (bit_and a b) ≡ count_below k (λ i. (bit i a == 1) && (bit i b == 1))
popcount-and zero a b = refl
popcount-and (suc k) a b =
    ground (arith, popcount-and k a b, bit-bit_and k a b, bit-le-one k a, bit-le-one k b)

-- The count of an intersection is the number of CPUs that are in both lists.
pub cpulist_count-cpulist_and :
    (list1 list2 : CpuList)
    → cpulist_count (cpulist_and list1 list2)
      ≡ count_below 32 (λ i. has_cpu list1 i && has_cpu list2 i)
unfolding cpulist_count cpulist_and
cpulist_count-cpulist_and list1 list2 = popcount-and 32 list1.mask list2.mask
