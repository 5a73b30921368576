-- ===== src/Tests/Parsing.antt =====
-- Lists of CPUs, numbers, files and fields of /proc/cpuinfo as a device shows them.
use ndk.Base.{
  ◌<◌, ◌++◌, ◌^◌, ltb, ℕ, ◌≡◌, ◌&&◌, refl, Bool, true, false, some, List, [], ◌∷◌, Bytes, codes,
  ◌==◌, if◌then◌else◌, All, arith,
}
use ndk.Base.Checked.{ok, out_of_fuel}
use ndk.CpuFeatures.Files.{got, eintr, error, File, get_file_size, read_file}
use ndk.CpuFeatures.Files.Laws.Size.{get_file_size-contents}
use ndk.CpuFeatures.Number.{parse_number, digit}
use ndk.CpuFeatures.Number.Laws.{parse_number-digits}
use ndk.CpuFeatures.Files.Laws.{read_file-contents}
use ndk.CpuFeatures.CpuList.{cpulist_init, cpulist_parse, cpulist_parse_within}
use ndk.CpuFeatures.CpuList.Mask.{has_cpu, set_loop, has_cpu-set_loop}
use ndk.CpuFeatures.CpuList.Parse.Notation.{Item, single, range, IsItem, render_item, render}
use ndk.CpuFeatures.CpuList.Parse.{Reads, cpulist_parse-Reads}
use ndk.CpuFeatures.CpuList.Termination.{Ends, cpulist_parse-Ends, cpulist_parse-endless}
use ndk.CpuFeatures.CpuInfo.{extract_cpuinfo_field, has_list_item}
use ndk.CpuFeatures.CpuInfo.Words.{mentions, words, has_list_item-mentions}
use ndk.CpuFeatures.CpuInfo.Fields.Search.{Without}
use ndk.CpuFeatures.CpuInfo.Fields.{lines_then, extract_cpuinfo_field-line}

-- `0-3,7`, and the newline.
abbrev pub some_cpus : List Item
some_cpus = range (0 ∷ []) (3 ∷ []) ∷ single (7 ∷ []) ∷ []

pub some_cpus-IsItem : All IsItem some_cpus
some_cpus-IsItem = (
  ((((omega arith, tt), omega arith), ((omega arith, tt), omega arith)), omega arith),
  ((((omega arith, tt), omega arith), omega arith), tt),
)

cpulist_parse-Reads_example :
    Reads cpulist_init some_cpus (cpulist_parse cpulist_init (render some_cpus (b'\n' ∷ [])))
cpulist_parse-Reads_example =
    cpulist_parse-Reads cpulist_init some_cpus (b'\n' ∷ []) some_cpus-IsItem (refl, tt)

cpulist_parse-Ends_example :
    Ends
      (λ n. cpulist_parse_within n cpulist_init (codes "3-1,0-2147483647"))
      (codes "3-1,0-2147483647")
cpulist_parse-Ends_example = cpulist_parse-Ends cpulist_init (codes "3-1,0-2147483647")

abbrev all_below_ten : List ℕ → Bool
all_below_ten [] = true
all_below_ten (d ∷ ds) = ltb d 10 && all_below_ten ds

-- `2147483647`
abbrev last_cpu : Item
last_cpu = single (2 ∷ 1 ∷ 4 ∷ 7 ∷ 4 ∷ 8 ∷ 3 ∷ 6 ∷ 4 ∷ 7 ∷ [])

below_ten : (ds : List ℕ) → all_below_ten ds ≡ true → All (λ e. e < 10) ds
below_ten [] h = tt
below_ten (d ∷ ds) h = (ground arith, below_ten ds (ground arith))

cpulist_parse-endless_example :
    cpulist_parse_within (2 ^ 40) cpulist_init (render_item last_cpu ++ []) ≡ out_of_fuel
cpulist_parse-endless_example =
    cpulist_parse-endless (2 ^ 40) cpulist_init last_cpu
      (below_ten (2 ∷ 1 ∷ 4 ∷ 7 ∷ 4 ∷ 8 ∷ 3 ∷ 6 ∷ 4 ∷ 7 ∷ []) refl, omega arith) refl

-- From CPU 2 on for 3 rounds.
has_cpu-set_loop_example : has_cpu (set_loop 3 2 cpulist_init) 4 ≡ true
has_cpu-set_loop_example = has_cpu-set_loop 3 2 4 cpulist_init (omega arith) (omega arith)

-- Three bytes in two pieces, with an interruption, and then an error.
abbrev torn_file : File
torn_file = got (codes "ab") ∷ eintr ∷ got (codes "c") ∷ error ∷ []

get_file_size-contents_example : get_file_size (some torn_file) ≡ some (some 3)
get_file_size-contents_example = get_file_size-contents torn_file

-- `c08` and a space.
parse_number-digits_example : parse_number 16 (codes "c08 ") ≡ some (0xc08, codes " ")
unfolding digit
parse_number-digits_example =
    parse_number-digits 16 12 (0 ∷ 8 ∷ []) (codes " ") (omega arith)
      (omega arith, (omega arith, (omega arith, tt))) refl

read_file-contents_example : read_file (some torn_file) 2 ≡ some (some (codes "ab"))
read_file-contents_example = read_file-contents torn_file 2

has_list_item-mentions_example :
    has_list_item (codes "vfp neon") (codes "neon")
    ≡ some (mentions (codes "neon") (words (codes "vfp neon")))
has_list_item-mentions_example = has_list_item-mentions (codes "vfp neon") (codes "neon") (cc)

lacks : ℕ → Bytes → Bool
lacks b [] = true
lacks b (x ∷ xs) = if x == b then false else lacks b xs

lacks-Without : (b : ℕ) (xs : Bytes) → lacks b xs ≡ true → Without b xs
unfolding lacks
lacks-Without b [] h = tt
lacks-Without b (x ∷ xs) h = (ground arith, lacks-Without b xs (ground arith))

hardware-line : Without b'\n' (codes "Hardware")
unfolding lacks
hardware-line = lacks-Without b'\n' (codes "Hardware") refl

bogomips-line : Without b'\n' (codes "BogoMIPS: 1")
unfolding lacks
bogomips-line = lacks-Without b'\n' (codes "BogoMIPS: 1") refl

goldfish-line : Without b'\n' (codes "Goldfish")
unfolding lacks
goldfish-line = lacks-Without b'\n' (codes "Goldfish") refl

goldfish-text : Without 0 (codes "Goldfish")
unfolding lacks
goldfish-text = lacks-Without 0 (codes "Goldfish") refl

extract_cpuinfo_field-line_example :
    extract_cpuinfo_field
      (λ _. true)
      (lines_then (codes "BogoMIPS: 1" ∷ []) (codes "Hardware\t: Goldfish\n"))
      b'H'
      (codes "ardware")
    ≡ ok (some (codes "Goldfish"))
extract_cpuinfo_field-line_example =
    extract_cpuinfo_field-line (λ _. true) b'H' (codes "ardware") (codes "BogoMIPS: 1" ∷ [])
      (codes "\t") (codes "Goldfish") [] hardware-line ((bogomips-line, refl), tt) (refl, tt)
      goldfish-line goldfish-text
