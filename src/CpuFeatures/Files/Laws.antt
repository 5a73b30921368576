-- ===== src/CpuFeatures/Files/Laws.antt =====
-- What `get_file_size` and `read_file` of cpu-features.c return, however the kernel cuts the file.
pub mod Size
use native.Mathlib.Nat.{sub-zero, suc-sub-suc}
use ndk.Base.{
  ℕ, zero, suc, ◌+◌, ◌-◌, ◌%◌, ◌^◌, ◌≤◌, ◌<◌, ◌≡◌, refl, ap, sym, ◌∙◌, Bool, true, false, ◌&&◌,
  Option, none, some, [], ◌∷◌, ◌++◌, Bytes, length, take, drop, ltb, ◌==◌, if◌then◌else◌,
  length-append, length-drop, append-nil, append_assoc, inl, inr, ◌⊎◌, dec_lt, arith,
}
use ndk.CpuFeatures.Files.{
  bytes, got, eintr, error, File, read, reads, size_loop, get_file_size, read_loop, read_file,
}
use ndk.CpuFeatures.Files.Laws.Size.{contents, fails, length-take_of_le, read-whole, read-cut}

-- The result -1 stands for an error before the first byte of a buffer that is not empty.
abbrev pub outcome : ℕ → Bool → Bytes → Option Bytes
outcome n bad all = if length all == 0 && bad && ltb 0 n then none else some all

-- What is read in the end, when `buffer` holds the bytes read so far.
abbrev pub first_bytes : ℕ → Bytes → File → Option Bytes
first_bytes n buffer fd = outcome n (fails fd) (buffer ++ take (n - length buffer) (contents fd))

outcome-some : (n : ℕ) (e : Bool) (all : Bytes) → 0 < length all → outcome n e all ≡ some all
outcome-some n e all h = ground arith

take-append_of_le :
    (n : ℕ) (xs ys : Bytes) → length xs ≤ n → take n (xs ++ ys) ≡ xs ++ take (n - length xs) ys
take-append_of_le n [] ys h = rw sub-zero refl
take-append_of_le zero (x ∷ xs) ys h = absurd (omega arith)
take-append_of_le (suc n) (x ∷ xs) ys h =
    ap (◌∷◌ x) (take-append_of_le n xs ys (omega arith) ∙ rw suc-sub-suc refl)

take-append_of_ge : (n : ℕ) (xs ys : Bytes) → n ≤ length xs → take n (xs ++ ys) ≡ take n xs
take-append_of_ge zero xs ys h = refl
take-append_of_ge (suc n) [] ys h = absurd (omega arith)
take-append_of_ge (suc n) (x ∷ xs) ys h = ap (◌∷◌ x) (take-append_of_ge n xs ys (omega arith))

read_loop-full :
    (f n : ℕ) (buffer : Bytes) (fd : File)
    → n ≤ length buffer
    → read_loop (suc f) n buffer fd ≡ some (some buffer)
unfolding read_loop
read_loop-full f n buffer fd h = ground arith

read_loop-bytes :
    (f n b : ℕ) (bs buffer : Bytes) (fd fd' : File)
    → length buffer < n
    → read fd (n - length buffer) ≡ (bytes (b ∷ bs), fd')
    → read_loop (suc f) n buffer fd ≡ read_loop f n (buffer ++ b ∷ bs) fd'
unfolding read_loop
read_loop-bytes f n b bs buffer fd fd' h e = ground arith

read_loop-got :
    (f n : ℕ) (q buffer : Bytes) (fd fd' : File)
    → length buffer < n
    → 0 < length q
    → read fd (n - length buffer) ≡ (bytes q, fd')
    → read_loop (suc f) n buffer fd ≡ read_loop f n (buffer ++ q) fd'
read_loop-got f n [] buffer fd fd' h k e = absurd (omega arith)
read_loop-got f n (b ∷ bs) buffer fd fd' h k e = read_loop-bytes f n b bs buffer fd fd' h e

read_loop-eintr :
    (f n : ℕ) (buffer : Bytes) (fd : File)
    → length buffer < n
    → read_loop (suc f) n buffer (eintr ∷ fd) ≡ read_loop f n buffer fd
unfolding read_loop read
read_loop-eintr f n buffer fd h = ground arith

take-nil : (n : ℕ) → take {A = ℕ} n [] ≡ []
take-nil zero = refl
take-nil (suc n) = refl

-- The loop ends at the end of the file, and at an error.
read_loop-end :
    (f n : ℕ) (buffer : Bytes) (fd : File)
    → length buffer < n
    → (fd ≡ []) ⊎ ((fd' : File) × (fd ≡ got [] ∷ fd'))
    → read_loop (suc f) n buffer fd ≡ some (first_bytes n buffer fd)
unfolding read_loop read
read_loop-end f n buffer fd h (inl e) =
    rw e (ground (arith, take-nil (n - length buffer), append-nil buffer))
read_loop-end f n buffer fd h (inr (fd', e)) =
    rw e (ground (arith, take-nil (n - length buffer), append-nil buffer))

read_loop-error :
    (f n : ℕ) (buffer : Bytes) (fd : File)
    → length buffer < n
    → read_loop (suc f) n buffer (error ∷ fd) ≡ some (first_bytes n buffer (error ∷ fd))
unfolding read_loop read
read_loop-error f n buffer fd h = ground (arith, take-nil (n - length buffer), append-nil buffer)

first_bytes-full :
    (n : ℕ) (buffer : Bytes) (fd : File) → length buffer ≡ n → first_bytes n buffer fd ≡ some buffer
first_bytes-full n buffer fd h =
    let none_left : n - length buffer ≡ 0 = omega arith in
    rw (none_left, append-nil buffer) (ground arith)

-- Putting whole pieces into the buffer leaves what the file holds as it is.
first_bytes-whole :
    (n b : ℕ) (bs buffer : Bytes) (fd : File)
    → length buffer + suc (length bs) ≤ n
    → first_bytes n (buffer ++ b ∷ bs) fd ≡ first_bytes n buffer (got (b ∷ bs) ∷ fd)
first_bytes-whole n b bs buffer fd h =
    let left : n - length (buffer ++ b ∷ bs) ≡ n - length buffer - suc (length bs) =
      omega (arith, length-append {0} buffer (b ∷ bs)) in
    ap (outcome n (fails fd)) (
      rw (left, append_assoc buffer (b ∷ bs))
        (ap (◌++◌ buffer)
          (sym (take-append_of_le (n - length buffer) (b ∷ bs) (contents fd) (omega arith)))))

first_bytes-cut :
    (n b : ℕ) (bs buffer : Bytes) (fd fd' : File)
    → length buffer < n
    → n - length buffer ≤ suc (length bs)
    → first_bytes n (buffer ++ take (n - length buffer) (b ∷ bs)) fd'
      ≡ first_bytes n buffer (got (b ∷ bs) ∷ fd)
first_bytes-cut n b bs buffer fd fd' h k =
    let k' = n - length buffer in
    let all = buffer ++ take k' (b ∷ bs) in
    let size : length all ≡ n =
      omega (arith, length-append {0} buffer (take k' (b ∷ bs)), length-take_of_le k' (b ∷ bs) k) in
    first_bytes-full n all fd' size
    ∙ sym (
        rw (take-append_of_ge k' (b ∷ bs) (contents fd) k)
          (outcome-some n (fails fd) all (omega arith)))

read_loop-piece :
    (f n b : ℕ) (bs buffer : Bytes) (fd : File)
    → length buffer < n
    → ((buffer' : Bytes) (fd' : File)
        → length buffer' ≤ n
        → reads fd' ≤ f
        → read_loop f n buffer' fd' ≡ some (first_bytes n buffer' fd'))
    → reads (got (b ∷ bs) ∷ fd) ≤ suc f
    → read_loop (suc f) n buffer (got (b ∷ bs) ∷ fd)
      ≡ some (first_bytes n buffer (got (b ∷ bs) ∷ fd))
read_loop-piece f n b bs buffer fd lt rest h = elim (dec_lt (n - length buffer) (suc (length bs))) [
  | no short ↦
      read_loop-bytes f n b bs buffer _ fd lt (read-whole (b ∷ bs) fd _ (omega arith))
      ∙ rest (buffer ++ b ∷ bs) fd (omega (arith, length-append {0} buffer (b ∷ bs))) (omega arith)
      ∙ ap some (first_bytes-whole n b bs buffer fd (omega arith))
  | yes long ↦
      let k = n - length buffer in
      let q = take k (b ∷ bs) in
      let fd' = got (drop k (b ∷ bs)) ∷ fd in
      let size : length q ≡ k = length-take_of_le k (b ∷ bs) (omega arith) in
      read_loop-got f n q buffer _ fd' lt (omega arith) (read-cut (b ∷ bs) fd k long)
      ∙ rest (buffer ++ q) fd' (omega (arith, length-append {0} buffer q))
          (omega (arith, length-drop {0} k (b ∷ bs)))
      ∙ ap some (first_bytes-cut n b bs buffer fd fd' lt (omega arith))
]

read_loop-round :
    (f n : ℕ) (buffer : Bytes) (fd : File)
    → length buffer < n
    → reads fd ≤ suc f
    → ((buffer' : Bytes) (fd' : File)
        → length buffer' ≤ n
        → reads fd' ≤ f
        → read_loop f n buffer' fd' ≡ some (first_bytes n buffer' fd'))
    → read_loop (suc f) n buffer fd ≡ some (first_bytes n buffer fd)
read_loop-round f n buffer [] lt h rest = read_loop-end f n buffer [] lt (inl refl)
read_loop-round f n buffer (eintr ∷ fd) lt h rest =
    read_loop-eintr f n buffer fd lt ∙ rest buffer fd (omega arith) (omega arith)
read_loop-round f n buffer (error ∷ fd) lt h rest = read_loop-error f n buffer fd lt
read_loop-round f n buffer (got [] ∷ fd) lt h rest =
    read_loop-end f n buffer (got [] ∷ fd) lt (inr (fd, refl))
read_loop-round f n buffer (got (b ∷ bs) ∷ fd) lt h rest =
    read_loop-piece f n b bs buffer fd lt rest h

read_loop-contents :
    (f n : ℕ) (buffer : Bytes) (fd : File)
    → length buffer ≤ n
    → reads fd ≤ f
    → read_loop f n buffer fd ≡ some (first_bytes n buffer fd)
read_loop-contents zero n buffer [] le h = absurd (omega arith)
read_loop-contents zero n buffer (got bs ∷ fd) le h = absurd (omega arith)
read_loop-contents zero n buffer (eintr ∷ fd) le h = absurd (omega arith)
read_loop-contents zero n buffer (error ∷ fd) le h = absurd (omega arith)
read_loop-contents (suc f) n buffer fd le h = elim (dec_lt (length buffer) n) [
  | no full ↦
      read_loop-full f n buffer fd (omega arith)
      ∙ ap some (sym (first_bytes-full n buffer fd (omega arith)))
  | yes room ↦ read_loop-round f n buffer fd room h (read_loop-contents f n)
]

-- However the kernel cuts the file and interrupts the reads, the bytes that are read are the
-- first ones of the file, as many as there are up to its end, its first error or the size of the
-- buffer; -1 is returned exactly when the file fails before the first byte of a buffer that is
-- not empty.
pub read_file-contents : (fd : File) (n : ℕ) → read_file (some fd) n ≡ some (first_bytes n [] fd)
unfolding read_file
read_file-contents fd n = read_loop-contents (reads fd) n [] fd (omega arith) (omega arith)
