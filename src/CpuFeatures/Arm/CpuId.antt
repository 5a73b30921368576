-- ===== src/CpuFeatures/Arm/CpuId.antt =====
-- `g_cpuIdArm` of cpu-features.c, and the corrections that depend on it.
use ndk.Base.{
  ℕ, ◌+◌, ◌*◌, ◌%◌, ◌^◌, ◌<◌, ◌≡◌, refl, ap, ◌∙◌, Bool, true, ◌&&◌, ◌||◌, not, ◌==◌, List, [], ◌∷◌,
  Bytes, codes, some, bit_or, bool_laws, arith,
}
use ndk.Base.Bits.Fields.{bit_or-disjoint, bit_and-mask}
use ndk.Base.Bits.{test_bit}
use ndk.Base.Checked.{ok}
use ndk.Base.CString.{at_least, strtol}
use ndk.CpuFeatures.CpuInfo.{extract_cpuinfo_field}
use ndk.CpuFeatures.CpuInfo.Words.{words, mentions, has_list_item-mentions}
use ndk.CpuFeatures.Flags.Feature
use ndk.CpuFeatures.Flags.{has, or_if, has-or_if}
use ndk.CpuFeatures.Arm.{
  CpuIdEntry, implementer_entry, variant_entry, part_entry, revision_entry, cpu_id_entries,
  cpu_id_number, add_cpu_id, cpu_id_loop, fix_loop, cpu_fixes, hardware_features, has_armv7,
  arch_features, is_v6l,
}

-- A field of /proc/cpuinfo is there, and its value holds the number `n`.
pub record HasNumber (alloc : ℕ → Bool) (cpuinfo : Bytes) (e : CpuIdEntry) (n : ℕ) : Type 0 where
  pub value : Bytes
  pub found : extract_cpuinfo_field alloc cpuinfo e.field.0 e.field.1 ≡ ok (some value)
  pub reads : cpu_id_number e.is_hex value ≡ some n

-- Adding a field to a word whose lower bits are free.
add_cpu_id-some :
    (e : CpuIdEntry) (value : Bytes) (n high : ℕ)
    → cpu_id_number e.is_hex value ≡ some n
    → add_cpu_id e (some value) high
      ≡ bit_or high (n % 2 ^ e.bit_length * 2 ^ e.bit_lshift % 2 ^ 32)
unfolding add_cpu_id
add_cpu_id-some e value n high h = ground (
  arith,
  ap (λ (t : ℕ). bit_or high (t * 2 ^ e.bit_lshift % 2 ^ 32)) (bit_and-mask e.bit_length n),
)

cpu_id_loop-cons :
    (alloc : ℕ → Bool) (cpuinfo : Bytes) (e : CpuIdEntry) (es : List CpuIdEntry) (n high : ℕ)
    → HasNumber alloc cpuinfo e n
    → cpu_id_loop alloc cpuinfo (e ∷ es) high
      ≡ cpu_id_loop alloc cpuinfo es
          (bit_or high (n % 2 ^ e.bit_length * 2 ^ e.bit_lshift % 2 ^ 32))
unfolding cpu_id_loop
cpu_id_loop-cons alloc cpuinfo e es n high h =
    rw (h.found, cpu_id_loop) (rw (add_cpu_id-some e h.value n high h.reads) refl)

cpu_id_loop-nil :
    (alloc : ℕ → Bool) (cpuinfo : Bytes) (id : ℕ) → cpu_id_loop alloc cpuinfo [] id ≡ ok id
unfolding cpu_id_loop
cpu_id_loop-nil alloc cpuinfo id = refl

pack :
    (a b c d : ℕ)
    → a < 2 ^ 8
    → b < 2 ^ 4
    → c < 2 ^ 12
    → d < 2 ^ 4
    → bit_or (bit_or (bit_or (bit_or 0 (a * 2 ^ 24)) (b * 2 ^ 20)) (c * 2 ^ 4)) d
      ≡ a * 2 ^ 24 + b * 2 ^ 20 + c * 2 ^ 4 + d
pack a b c d ha hb hc hd =
    let e1 = bit_or-disjoint 32 0 (a * 2 ^ 24) (omega arith) in
    let z : 0 * 2 ^ 32 + a * 2 ^ 24 ≡ a * 2 ^ 24 = omega arith in
    let e2 = bit_or-disjoint 24 a (b * 2 ^ 20) (omega arith) in
    let e3 = bit_or-disjoint 20 (a * 2 ^ 4 + b) (c * 2 ^ 4) (omega arith) in
    let e4 = bit_or-disjoint 4 (a * 2 ^ 20 + b * 2 ^ 16 + c) d (omega arith) in
    let s3 : a * 2 ^ 24 + b * 2 ^ 20 ≡ (a * 2 ^ 4 + b) * 2 ^ 20 = omega arith in
    let s4 : a * 2 ^ 24 + b * 2 ^ 20 + c * 2 ^ 4 ≡ (a * 2 ^ 20 + b * 2 ^ 16 + c) * 2 ^ 4 =
      omega arith in
    ap (λ (t : ℕ). bit_or (bit_or (bit_or t (b * 2 ^ 20)) (c * 2 ^ 4)) d) e1
    ∙ ap (λ (t : ℕ). bit_or (bit_or (bit_or t (b * 2 ^ 20)) (c * 2 ^ 4)) d) z
    ∙ ap (λ (t : ℕ). bit_or (bit_or t (c * 2 ^ 4)) d) (e2 ∙ s3)
    ∙ ap (λ (t : ℕ). bit_or t d) (e3 ∙ omega (arith, s4))
    ∙ e4
    ∙ omega arith

-- When /proc/cpuinfo has the four fields, each with a value that holds a number, the processor's
-- ID is the packing of the numbers: 8 bits of implementer, 4 of variant, 12 of part and 4 of
-- revision, with bits 16 to 19 clear.
pub cpu_id_loop-pack :
    (alloc : ℕ → Bool) (cpuinfo : Bytes) (implementer variant part revision : ℕ)
    → HasNumber alloc cpuinfo implementer_entry implementer
    → HasNumber alloc cpuinfo variant_entry variant
    → HasNumber alloc cpuinfo part_entry part
    → HasNumber alloc cpuinfo revision_entry revision
    → cpu_id_loop alloc cpuinfo cpu_id_entries 0
      ≡ ok (
          implementer % 2 ^ 8 * 2 ^ 24
          + variant % 2 ^ 4 * 2 ^ 20
          + part % 2 ^ 12 * 2 ^ 4
          + revision % 2 ^ 4)
cpu_id_loop-pack alloc cpuinfo n1 n2 n3 n4 h1 h2 h3 h4 =
    cpu_id_loop-cons alloc cpuinfo implementer_entry _ n1 0 h1
    ∙ cpu_id_loop-cons alloc cpuinfo variant_entry _ n2 _ h2
    ∙ cpu_id_loop-cons alloc cpuinfo part_entry _ n3 _ h3
    ∙ cpu_id_loop-cons alloc cpuinfo revision_entry [] n4 _ h4
    ∙ cpu_id_loop-nil alloc cpuinfo _
    ∙ ap ok (
        rw (fits1, fits2, fits3, fits4)
          (pack (n1 % 2 ^ 8) (n2 % 2 ^ 4) (n3 % 2 ^ 12) (n4 % 2 ^ 4) (omega arith) (omega arith)
            (omega arith) (omega arith)))
  where
    fits1 : n1 % 2 ^ 8 * 2 ^ 24 % 2 ^ 32 ≡ n1 % 2 ^ 8 * 2 ^ 24
    fits1 = omega arith

    fits2 : n2 % 2 ^ 4 * 2 ^ 20 % 2 ^ 32 ≡ n2 % 2 ^ 4 * 2 ^ 20
    fits2 = omega arith

    fits3 : n3 % 2 ^ 12 * 2 ^ 4 % 2 ^ 32 ≡ n3 % 2 ^ 12 * 2 ^ 4
    fits3 = omega arith

    fits4 : n4 % 2 ^ 4 * 2 ^ 0 % 2 ^ 32 ≡ n4 % 2 ^ 4
    fits4 = omega arith

-- Both division features are added for the two Krait processors whose kernel does not report
-- them, and for no other.
fix_loop-idiv :
    (id f : ℕ)
    → (has (fix_loop cpu_fixes id f) 9 ≡ (id == 0x510006f2 || id == 0x510006f3 || has f 9))
      × (has (fix_loop cpu_fixes id f) 10 ≡ (id == 0x510006f2 || id == 0x510006f3 || has f 10))
unfolding fix_loop
fix_loop-idiv id f =
    (simp (has-or_if, bool_laws) (ground arith), simp (has-or_if, bool_laws) (ground arith))

-- The emulator's processor gets ARM division whether or not the features have ARMv7, since the
-- test of that bit looks at the family, and ARM is the family 1.
hardware_features-goldfish :
    (f : ℕ) → has (hardware_features (some (codes "Goldfish")) 1 0x4100c080 f) 9 ≡ true
unfolding hardware_features test_bit
hardware_features-goldfish f = simp has-or_if refl

is_v6l-mentions : (proc : Bytes) → is_v6l (some proc) ≡ ok (mentions (codes "(v6l)") (words proc))
unfolding is_v6l
is_v6l-mentions proc = rw (has_list_item-mentions proc (codes "(v6l)") (cc)) refl

-- The test that decides on ARMv7.
abbrev pub names_armv7 : Bytes → Bytes → Bool
names_armv7 arch proc =
    (strtol arch).moved
    && at_least 7 (strtol arch).value
    && not (mentions (codes "(v6l)") (words proc))

has_armv7-eq :
    (alloc : ℕ → Bool) (cpuinfo arch proc : Bytes)
    → extract_cpuinfo_field alloc cpuinfo b'P' (codes "rocessor") ≡ ok (some proc)
    → has_armv7 alloc cpuinfo (strtol arch) ≡ ok (names_armv7 arch proc)
unfolding has_armv7
has_armv7-eq alloc cpuinfo arch proc found = ground (arith, found, is_v6l-mentions proc)

arch_features-ok :
    (alloc : ℕ → Bool) (cpuinfo arch : Bytes) (f : ℕ) (b : Bool)
    → has_armv7 alloc cpuinfo (strtol arch) ≡ ok b
    → arch_features alloc cpuinfo (some arch) f
      ≡ ok (or_if (at_least 6 (strtol arch).value) Feature.ldrex_strex (or_if b Feature.armv7 f))
unfolding arch_features
arch_features-ok alloc cpuinfo arch f b e = rw (e, arch_features) refl

-- When /proc/cpuinfo has the fields for the architecture and the processor, ARMv7 is added
-- exactly for an architecture number from 7 on and a processor that does not call itself (v6l),
-- and LDREX_STREX exactly for a number from 6 on.
arch_features-eq :
    (alloc : ℕ → Bool) (cpuinfo arch proc : Bytes) (f : ℕ)
    → extract_cpuinfo_field alloc cpuinfo b'P' (codes "rocessor") ≡ ok (some proc)
    → (g : ℕ) × (arch_features alloc cpuinfo (some arch) f ≡ ok g)
      × (has g 0 ≡ (names_armv7 arch proc || has f 0))
      × (has g 3 ≡ (at_least 6 (strtol arch).value || has f 3))
arch_features-eq alloc cpuinfo arch proc f found = (
  or_if (at_least 6 (strtol arch).value) Feature.ldrex_strex
      (or_if (names_armv7 arch proc) Feature.armv7 f),
  arch_features-ok alloc cpuinfo arch f _ (has_armv7-eq alloc cpuinfo arch proc found),
  simp (has-or_if, bool_laws),
  simp (has-or_if, bool_laws),
)
