-- ===== src/CpuFeatures/Arm/Features.antt =====
-- Which features cpu-features.c derives from a word of HWCAP bits on 32-bit ARM.
use ndk.Base.{
  ℕ, ◌≡◌, true, false, ◌&&◌, ◌||◌, ◌==◌, bool_laws, Bool-cases, inl, inr, Bool, List, Option, none,
  some, Bytes, codes, refl, arith,
}
use mathlib.Core.Path.{subst}
use ndk.Base.Bits.{bit}
use ndk.Base.CString.{strtol}
use ndk.Base.Checked.{ok, >>=-eq-ok, ok-injective}
use ndk.CpuFeatures.CpuInfo.{extract_cpuinfo_field}
use ndk.CpuFeatures.Hwcap.{Libc, AuxRead}
use ndk.CpuFeatures.Flags.Feature
use ndk.CpuFeatures.Flags.{or_if, has, has-or_if, test_bit-has}
use ndk.CpuFeatures.Arm.{
  hwcap_features, hwcap2_features, fix_loop, cpu_fixes, hardware_features, arch_features, arm_init,
  has_armv7, arm_hwcaps, cpu_id_loop, cpu_id_entries, ArmState,
}

-- The features as formulas in the bits of the word and the features known before.
pub record FeatureTable (hwcaps before after : ℕ) : Type 0 where
  pub vfpv3 : has after 1 ≡ (
      has hwcaps 12
      || has hwcaps 13
      || has hwcaps 14
      || has hwcaps 16
      || has before 1
      || (has hwcaps 6 && has before 0))
  pub armv7 : has after 0 ≡ (has after 1 || has before 0)
  pub neon : has after 2 ≡ (has hwcaps 12 || has before 2)
  pub ldrex_strex : has after 3 ≡ has before 3
  pub vfpv2 : has after 4 ≡ (has after 1 || has hwcaps 6 || has before 4)
  pub vfp_d32 : has after 5 ≡ (has hwcaps 12 || has before 5)
  pub vfp_fp16 : has after 6 ≡ (has hwcaps 16 || has before 6)
  pub vfp_fma : has after 7 ≡ (has hwcaps 16 || has before 7)
  pub neon_fma : has after 8 ≡ ((has hwcaps 12 && has hwcaps 16) || has before 8)
  pub idiv_arm : has after 9 ≡ (has hwcaps 17 || has before 9)
  pub idiv_thumb2 : has after 10 ≡ (has hwcaps 18 || has before 10)
  pub iwmmxt : has after 11 ≡ (has hwcaps 9 || has before 11)

ruleset feature_laws = (has-or_if, test_bit-has, bool_laws)

-- For a word of HWCAP that is not 0, each of the twelve features that depend on it is set
-- exactly when the table's formula in the bits of the word and the features known before holds.
pub hwcap_features-FeatureTable :
    (h f : ℕ) → (h == 0) ≡ false → FeatureTable h f (hwcap_features h f)
unfolding hwcap_features
hwcap_features-FeatureTable h f e = rw e record {
  vfpv3 = simp feature_laws (ground arith);
  armv7 = simp feature_laws (ground arith);
  neon = simp feature_laws (ground arith);
  ldrex_strex = simp feature_laws (ground arith);
  vfpv2 = simp feature_laws (ground arith);
  vfp_d32 = simp feature_laws (ground arith);
  vfp_fp16 = simp feature_laws (ground arith);
  vfp_fma = simp feature_laws (ground arith);
  neon_fma = simp feature_laws (ground arith);
  idiv_arm = simp feature_laws (ground arith);
  idiv_thumb2 = simp feature_laws (ground arith);
  iwmmxt = simp feature_laws (ground arith);
}

-- A feature comes with those that it needs: VFPv3 with VFPv2 and ARMv7, NEON with VFPv3 and
-- VFP_D32, VFP_FMA with VFPv3, NEON_FMA with NEON and VFP_FMA.
pub record IsConsistent (f : ℕ) : Type 0 where
  pub vfpv3 : has f 1 ≡ true → (has f 4 ≡ true) × (has f 0 ≡ true)
  pub neon : has f 2 ≡ true → (has f 1 ≡ true) × (has f 5 ≡ true)
  pub vfp_fma : has f 7 ≡ true → has f 1 ≡ true
  pub neon_fma : has f 8 ≡ true → (has f 2 ≡ true) × (has f 7 ≡ true)

IsConsistent-table : (h f g : ℕ) → FeatureTable h f g → IsConsistent f → IsConsistent g
IsConsistent-table h f g t c = record {
  vfpv3 = λ e. ground (arith, t.vfpv2, t.armv7);
  neon = λ e. ground (arith, t.neon, t.vfpv3, t.vfp_d32, c.neon);
  vfp_fma = λ e. ground (arith, t.vfpv3, t.vfp_fma, c.vfp_fma);
  neon_fma = λ e. ground (arith, t.neon_fma, t.neon, t.vfp_fma, c.neon_fma);
}

-- Flags other than VFPv3, NEON, VFP_FMA and NEON_FMA need nothing.
abbrev NeedsNothing : ℕ → Type 0
NeedsNothing flag =
    ((bit 1 flag == 1) ≡ false)
    × ((bit 2 flag == 1) ≡ false)
    × ((bit 7 flag == 1) ≡ false)
    × ((bit 8 flag == 1) ≡ false)

IsConsistent-or_if :
    (c : Bool) (flag f : ℕ) → NeedsNothing flag → IsConsistent f → IsConsistent (or_if c flag f)
IsConsistent-or_if c flag f n k = record {
  vfpv3 = λ e.
      ground (arith, has-or_if c flag f 0, has-or_if c flag f 1, has-or_if c flag f 4, k.vfpv3);
  neon =
      λ e. ground (arith, has-or_if c flag f 1, has-or_if c flag f 2, has-or_if c flag f 5, k.neon);
  vfp_fma = λ e. ground (arith, has-or_if c flag f 1, has-or_if c flag f 7, k.vfp_fma);
  neon_fma = λ e.
      ground (arith, has-or_if c flag f 2, has-or_if c flag f 7, has-or_if c flag f 8, k.neon_fma);
}

-- Whatever the word of HWCAP says, consistent features stay consistent.
pub hwcap_features-IsConsistent : (h f : ℕ) → IsConsistent f → IsConsistent (hwcap_features h f)
hwcap_features-IsConsistent h f c = elim (Bool-cases (h == 0)) [
  | inl e ↦ unfold hwcap_features in rw e c
  | inr e ↦ IsConsistent-table h f (hwcap_features h f) (hwcap_features-FeatureTable h f e) c
]

hwcap2_features-IsConsistent : (h f : ℕ) → IsConsistent f → IsConsistent (hwcap2_features h f)
unfolding hwcap2_features
hwcap2_features-IsConsistent h f c = elim (Bool-cases (h == 0)) [
  | inl e ↦ rw e c
  | inr e ↦ rw e (
      IsConsistent-or_if _ _ _ (refl, refl, refl, refl)
        (IsConsistent-or_if _ _ _ (refl, refl, refl, refl)
          (IsConsistent-or_if _ _ _ (refl, refl, refl, refl)
            (IsConsistent-or_if _ _ _ (refl, refl, refl, refl)
              (IsConsistent-or_if _ _ f (refl, refl, refl, refl) c)))))
]

fix_loop-IsConsistent : (id f : ℕ) → IsConsistent f → IsConsistent (fix_loop cpu_fixes id f)
unfolding fix_loop
fix_loop-IsConsistent id f c =
    IsConsistent-or_if _ _ _ (refl, refl, refl, refl)
      (IsConsistent-or_if _ _ f (refl, refl, refl, refl) c)

hardware_features-IsConsistent :
    (hw : Option Bytes) (family id f : ℕ)
    → IsConsistent f
    → IsConsistent (hardware_features hw family id f)
unfolding hardware_features
hardware_features-IsConsistent none family id f c = c
hardware_features-IsConsistent (some s) family id f c =
    IsConsistent-or_if _ Feature.idiv_arm f (refl, refl, refl, refl) c

arch_features-IsConsistent :
    (alloc : ℕ → Bool) (cpuinfo : Bytes) (arch : Option Bytes) (f : ℕ) {g : ℕ}
    → arch_features alloc cpuinfo arch f ≡ ok g
    → IsConsistent f
    → IsConsistent g
unfolding arch_features
arch_features-IsConsistent alloc cpuinfo none f h c = subst IsConsistent (ok-injective h) c
arch_features-IsConsistent alloc cpuinfo (some a) f h c =
    let (armv7, _, r) = >>=-eq-ok (has_armv7 alloc cpuinfo (strtol a)) _ h in
    subst IsConsistent (ok-injective r) (
      IsConsistent-or_if _ Feature.ldrex_strex _ (refl, refl, refl, refl)
        (IsConsistent-or_if armv7 Feature.armv7 f (refl, refl, refl, refl) c))

-- Whatever /proc/cpuinfo, the auxiliary vector and the C library say: when the initialisation
-- for ARM returns, and the features known before are consistent, so are those that it leaves,
-- that is, VFPv3 comes with VFPv2 and ARMv7, NEON with VFPv3 and VFP_D32, VFP_FMA with VFPv3,
-- and NEON_FMA with NEON and VFP_FMA.
pub arm_init-IsConsistent :
    (alloc : ℕ → Bool) (libc : Libc) (auxv : Option (List AuxRead)) (cpuinfo : Bytes) (family : ℕ)
    (s : ArmState) {t : ArmState}
    → arm_init alloc libc auxv cpuinfo family s ≡ ok t
    → IsConsistent s.features
    → IsConsistent t.features
unfolding arm_init
arm_init-IsConsistent alloc libc auxv cpuinfo family s h c =
    let (arch, _, h1) =
      >>=-eq-ok (extract_cpuinfo_field alloc cpuinfo b'C' (codes "PU architecture")) _ h in
    let (f1, e1, h2) = >>=-eq-ok (arch_features alloc cpuinfo arch s.features) _ h1 in
    let (hwcaps, _, h3) = >>=-eq-ok (arm_hwcaps alloc libc auxv cpuinfo) _ h2 in
    let (id, _, h4) = >>=-eq-ok (cpu_id_loop alloc cpuinfo cpu_id_entries s.cpu_id) _ h3 in
    let (hw, _, h5) = >>=-eq-ok (extract_cpuinfo_field alloc cpuinfo b'H' (codes "ardware")) _ h4 in
    subst (λ (r : ArmState). IsConsistent r.features) (ok-injective h5)
      (hardware_features-IsConsistent hw family id _ (
        fix_loop-IsConsistent id _ (
          hwcap2_features-IsConsistent _ _ (
            hwcap_features-IsConsistent hwcaps f1
              (arch_features-IsConsistent alloc cpuinfo arch s.features e1 c)))))
