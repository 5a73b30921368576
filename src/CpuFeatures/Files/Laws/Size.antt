-- ===== src/CpuFeatures/Files/Laws/Size.antt =====
-- What `get_file_size` of cpu-features.c returns, however the kernel cuts the file.
use ndk.Base.{
  ℕ, zero, suc, ◌+◌, ◌%◌, ◌^◌, ◌≤◌, ◌<◌, ◌≡◌, refl, ◌∙◌, Bool, true, false, some, [], ◌∷◌, ◌++◌,
  Bytes, length, take, drop, length-append, length-drop, dec_lt, arith,
}
use ndk.CpuFeatures.Files.{bytes, got, eintr, error, File, read, reads, size_loop, get_file_size}

-- The bytes up to the end of the file or the first error.
abbrev pub contents : File → Bytes
contents [] = []
contents (eintr ∷ fd) = contents fd
contents (error ∷ fd) = []
contents (got [] ∷ fd) = []
contents (got (b ∷ bs) ∷ fd) = (b ∷ bs) ++ contents fd

-- They end by an error.
abbrev pub fails : File → Bool
fails [] = false
fails (eintr ∷ fd) = fails fd
fails (error ∷ fd) = true
fails (got [] ∷ fd) = false
fails (got (b ∷ bs) ∷ fd) = fails fd

pub length-take_of_le : (n : ℕ) (xs : Bytes) → n ≤ length xs → length (take n xs) ≡ n
length-take_of_le zero xs h = refl
length-take_of_le (suc n) [] h = absurd (omega arith)
length-take_of_le (suc n) (x ∷ xs) h = omega (arith, length-take_of_le n xs (omega arith))

contents-got :
    (bs : Bytes) (fd : File)
    → 0 < length bs
    → (contents (got bs ∷ fd) ≡ bs ++ contents fd) × (fails (got bs ∷ fd) ≡ fails fd)
contents-got [] fd h = absurd (omega arith)
contents-got (b ∷ bs) fd h = (refl, refl)

pub read-whole :
    (bs : Bytes) (fd : File) (n : ℕ) → length bs ≤ n → read (got bs ∷ fd) n ≡ (bytes bs, fd)
unfolding read
read-whole bs fd n h = ground arith

pub read-cut :
    (bs : Bytes) (fd : File) (n : ℕ)
    → n < length bs
    → read (got bs ∷ fd) n ≡ (bytes (take n bs), got (drop n bs) ∷ fd)
unfolding read
read-cut bs fd n h = ground arith

size_loop-bytes :
    (f r b : ℕ) (bs : Bytes) (fd fd' : File)
    → read fd 256 ≡ (bytes (b ∷ bs), fd')
    → size_loop (suc f) r fd ≡ size_loop f ((r + suc (length bs)) % 2 ^ 32) fd'
unfolding size_loop
size_loop-bytes f r b bs fd fd' e = ground arith

size_loop-eintr : (f r : ℕ) (fd : File) → size_loop (suc f) r (eintr ∷ fd) ≡ size_loop f r fd
unfolding size_loop read
size_loop-eintr f r fd = refl

size_loop-contents :
    (f r : ℕ) (fd : File)
    → r < 2 ^ 32
    → reads fd ≤ f
    → size_loop f r fd ≡ some ((r + length (contents fd)) % 2 ^ 32)
size_loop-contents zero r [] lt h = absurd (omega arith)
size_loop-contents zero r (got bs ∷ fd) lt h = absurd (omega arith)
size_loop-contents zero r (eintr ∷ fd) lt h = absurd (omega arith)
size_loop-contents zero r (error ∷ fd) lt h = absurd (omega arith)
size_loop-contents (suc f) r [] lt h = unfold size_loop read in ground arith
size_loop-contents (suc f) r (eintr ∷ fd) lt h =
    size_loop-eintr f r fd ∙ size_loop-contents f r fd lt (omega arith)
size_loop-contents (suc f) r (error ∷ fd) lt h = unfold size_loop read in ground arith
size_loop-contents (suc f) r (got [] ∷ fd) lt h = unfold size_loop read in ground arith
size_loop-contents (suc f) r (got (b ∷ bs) ∷ fd) lt h = elim (dec_lt 256 (suc (length bs))) [
  | no short ↦ rw (size_loop-bytes f r b bs _ fd (read-whole (b ∷ bs) fd 256 (omega arith))) (
      size_loop-contents f ((r + suc (length bs)) % 2 ^ 32) fd (omega arith) (omega arith)
      ∙ ground (arith, length-append {0} bs (contents fd)))
  | yes long ↦
      let fd' = got (drop 255 bs) ∷ fd in
      rw (size_loop-bytes f r b (take 255 bs) _ fd' (read-cut (b ∷ bs) fd 256 long)) (
        size_loop-contents f ((r + suc (length (take 255 bs))) % 2 ^ 32) fd' (omega arith)
          (omega (arith, length-drop {0} 255 bs))
        ∙ ground (
          arith,
          length-take_of_le 255 bs (omega arith),
          length-drop {0} 255 bs,
          contents-got (drop 255 bs) fd (omega (arith, length-drop {0} 255 bs)),
          length-append {0} bs (contents fd),
          length-append {0} (drop 255 bs) (contents fd),
        ))
]

-- However the kernel cuts the file and interrupts the reads, the size is the number of bytes up
-- to the end or the first error, in the 32 bits of an `int`.
pub get_file_size-contents :
    (fd : File) → get_file_size (some fd) ≡ some (some (length (contents fd) % 2 ^ 32))
unfolding get_file_size
get_file_size-contents fd =
    rw (size_loop-contents (reads fd) 0 fd (omega arith) (omega arith), get_file_size)
      (ground arith)
