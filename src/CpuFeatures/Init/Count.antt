-- ===== src/CpuFeatures/Init/Count.antt =====
-- `get_cpu_count` of cpu-features.c against the two lists that the kernel publishes.
use ndk.Base.{
  ℕ, zero, suc, ◌≤◌, ◌<◌, ◌≡◌, refl, ap, ◌∙◌, Bool, false, ◌&&◌, Option, some, List, [], ◌∷◌, Bytes,
  length, take, All, or-false, arith,
}
use native.Mathlib.Nat.{sub-zero}
use ndk.Base.Bits.{bit-zero}
use ndk.Base.Checked.{Checked, ok}
use ndk.CpuFeatures.Files.{File, read_file}
use ndk.CpuFeatures.Files.Laws.Size.{contents, fails}
use ndk.CpuFeatures.Files.Laws.{first_bytes, read_file-contents}
use ndk.CpuFeatures.CpuList.{CpuList, cpulist_init, cpulist_and, cpulist_count}
use ndk.CpuFeatures.CpuList.Mask.{has_cpu, count_below, cpulist_count-cpulist_and}
use ndk.CpuFeatures.CpuList.Parse.Notation.{Item, IsItem, EndsLine, render, covered}
use ndk.CpuFeatures.CpuList.Parse.{cpulist_parse-Reads}
use ndk.CpuFeatures.Init.{System, list_of_file, cpulist_read_from, get_cpu_count}

-- A file of at most 64 bytes, the buffer's size, that holds a list in the kernel's notation.
pub record IsCpuFile (fd : File) (xs : List Item) : Type 0 where
  pub rest : Bytes
  pub text : contents fd ≡ render xs rest
  pub items : All IsItem xs
  pub ends : EndsLine rest
  pub fits : length (contents fd) ≤ 64
  pub whole : fails fd ≡ false

take_all : (n : ℕ) (xs : Bytes) → length xs ≤ n → take n xs ≡ xs
take_all zero [] h = refl
take_all zero (x ∷ xs) h = absurd (omega arith)
take_all (suc n) [] h = refl
take_all (suc n) (x ∷ xs) h = ap (◌∷◌ x) (take_all n xs (omega arith))

first_bytes-whole_file :
    (n : ℕ) (fd : File)
    → length (contents fd) ≤ n
    → fails fd ≡ false
    → first_bytes n [] fd ≡ some (contents fd)
first_bytes-whole_file n fd h w = ground (arith, sub-zero n, take_all n (contents fd) h)

-- The CPUs that a list holds.
pub record Lists (xs : List Item) (result : Checked CpuList) : Type 0 where
  pub list : CpuList
  pub returns : result ≡ ok list
  pub holds : (i : ℕ) → i < 32 → has_cpu list i ≡ covered i xs

has_cpu-cpulist_init : (i : ℕ) → has_cpu cpulist_init i ≡ false
has_cpu-cpulist_init i = rw (bit-zero i) refl

cpulist_read_from-parse :
    (fd : Option File) (file : Option Bytes) (l : CpuList)
    → read_file fd 64 ≡ some file
    → list_of_file file ≡ ok l
    → cpulist_read_from fd ≡ ok l
unfolding cpulist_read_from
cpulist_read_from-parse fd file l e h = rw (e, cpulist_read_from) (rw h refl)

pub cpulist_read_from-Lists :
    (fd : File) (xs : List Item) → IsCpuFile fd xs → Lists xs (cpulist_read_from (some fd))
cpulist_read_from-Lists fd xs c =
    let r = cpulist_parse-Reads cpulist_init xs c.rest c.items c.ends in
    record {
      list = r.read;
      returns =
          cpulist_read_from-parse (some fd) (some (contents fd)) r.read
            (read_file-contents fd 64 ∙ ap some (first_bytes-whole_file 64 fd c.fits c.whole))
            (rw c.text r.returns);
      holds = λ i lt. r.sets i lt ∙ rw (has_cpu-cpulist_init i) (or-false (covered i xs));
    }

count_below_ext :
    (k : ℕ) (p q : ℕ → Bool) → ((i : ℕ) → i < k → p i ≡ q i) → count_below k p ≡ count_below k q
count_below_ext zero p q h = refl
count_below_ext (suc k) p q h =
    ground (arith, h k (omega arith), count_below_ext k p q (λ i lt. h i (omega arith)))

get_cpu_count-eq :
    (sys : System) (l1 l2 : CpuList)
    → cpulist_read_from sys.cpus_present ≡ ok l1
    → cpulist_read_from sys.cpus_possible ≡ ok l2
    → get_cpu_count sys ≡ ok (cpulist_count (cpulist_and l1 l2))
unfolding get_cpu_count
get_cpu_count-eq sys l1 l2 e1 e2 = rw (e1, get_cpu_count) (rw e2 refl)

-- When both files can be read without an error, have at most 64 bytes, and hold lists in the
-- kernel's notation, the count is the number of CPUs below 32 that both lists cover.
pub get_cpu_count-covered :
    (sys : System) (present possible : File) (xs ys : List Item)
    → sys.cpus_present ≡ some present
    → sys.cpus_possible ≡ some possible
    → IsCpuFile present xs
    → IsCpuFile possible ys
    → get_cpu_count sys ≡ ok (count_below 32 (λ i. covered i xs && covered i ys))
get_cpu_count-covered sys present possible xs ys e1 e2 c1 c2 =
    let r1 = cpulist_read_from-Lists present xs c1 in
    let r2 = cpulist_read_from-Lists possible ys c2 in
    get_cpu_count-eq sys r1.list r2.list (rw e1 r1.returns) (rw e2 r2.returns)
    ∙ ap ok (
        cpulist_count-cpulist_and r1.list r2.list
        ∙ count_below_ext 32 (λ i. has_cpu r1.list i && has_cpu r2.list i)
            (λ i. covered i xs && covered i ys) (λ i lt. rw (r1.holds i lt, r2.holds i lt) refl))
