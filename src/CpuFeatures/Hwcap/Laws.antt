-- ===== src/CpuFeatures/Hwcap/Laws.antt =====
-- The HWCAP word that cpu-features.c makes of the `Features` line of /proc/cpuinfo.
use ndk.Base.{ℕ, ◌+◌, ◌≡◌, refl, Bool, ◌||◌, some, Bytes, codes, bool_laws}
use ndk.Base.Checked.{ok}
use ndk.CpuFeatures.CpuInfo.Words.{words, mentions, has_list_item-mentions}
use ndk.CpuFeatures.Flags.Hwcap
use ndk.CpuFeatures.Flags.{or_if, has, has-or_if, has-zero}
use ndk.CpuFeatures.Hwcap.{hwcaps_of_features}

-- A bit for each word of the line; `idiv` stands for both division features.
pub record BitsOfWords (list : Bytes) (h : ℕ) : Type 0 where
  pub vfp : has h 6 ≡ mentions (codes "vfp") (words list)
  pub iwmmxt : has h 9 ≡ mentions (codes "iwmmxt") (words list)
  pub neon : has h 12 ≡ mentions (codes "neon") (words list)
  pub vfpv3 : has h 13 ≡ mentions (codes "vfpv3") (words list)
  pub vfpv3d16 : has h 14 ≡ mentions (codes "vfpv3d16") (words list)
  pub vfpv4 : has h 16 ≡ mentions (codes "vfpv4") (words list)
  pub idiva :
      has h 17 ≡ mentions (codes "idiv") (words list) || mentions (codes "idiva") (words list)
  pub idivt :
      has h 18 ≡ mentions (codes "idiv") (words list) || mentions (codes "idivt") (words list)

abbrev mentioned : Bytes → Bytes → Bool
mentioned list item = mentions item (words list)

abbrev hwcap_word : Bytes → ℕ
hwcap_word list = or_if (mentioned list (codes "iwmmxt")) Hwcap.iwmmxt (
    or_if (mentioned list (codes "idiv")) (Hwcap.idiva + Hwcap.idivt) (
      or_if (mentioned list (codes "idivt")) Hwcap.idivt (
        or_if (mentioned list (codes "idiva")) Hwcap.idiva (
          or_if (mentioned list (codes "neon")) Hwcap.neon (
            or_if (mentioned list (codes "vfpv4")) Hwcap.vfpv4 (
              or_if (mentioned list (codes "vfpv3d16")) Hwcap.vfpv3d16 (
                or_if (mentioned list (codes "vfpv3")) Hwcap.vfpv3
                  (or_if (mentioned list (codes "vfp")) Hwcap.vfp 0))))))))

hwcaps_of_features-eq : (list : Bytes) → hwcaps_of_features (some list) ≡ ok (hwcap_word list)
unfolding hwcaps_of_features
hwcaps_of_features-eq list =
    rw
      (
        has_list_item-mentions list (codes "vfp") (cc),
        has_list_item-mentions list (codes "vfpv3") (cc),
        has_list_item-mentions list (codes "vfpv3d16") (cc),
        has_list_item-mentions list (codes "vfpv4") (cc),
        has_list_item-mentions list (codes "neon") (cc),
        has_list_item-mentions list (codes "idiva") (cc),
        has_list_item-mentions list (codes "idivt") (cc),
        has_list_item-mentions list (codes "idiv") (cc),
        has_list_item-mentions list (codes "iwmmxt") (cc),
      )
      refl

hwcap_word-BitsOfWords : (list : Bytes) → BitsOfWords list (hwcap_word list)
hwcap_word-BitsOfWords list = record {
  vfp = simp (has-or_if, has-zero, bool_laws);
  iwmmxt = simp (has-or_if, has-zero, bool_laws);
  neon = simp (has-or_if, has-zero, bool_laws);
  vfpv3 = simp (has-or_if, has-zero, bool_laws);
  vfpv3d16 = simp (has-or_if, has-zero, bool_laws);
  vfpv4 = simp (has-or_if, has-zero, bool_laws);
  idiva = simp (has-or_if, has-zero, bool_laws);
  idivt = simp (has-or_if, has-zero, bool_laws);
}

-- Whatever the `Features` line holds, it is read to its end, and the word has a bit exactly
-- where the line has the bit's word, `idiv` standing for both division bits.
pub hwcaps_of_features-words :
    (list : Bytes) → (h : ℕ) × (hwcaps_of_features (some list) ≡ ok h) × BitsOfWords list h
hwcaps_of_features-words list =
    (hwcap_word list, hwcaps_of_features-eq list, hwcap_word-BitsOfWords list)
