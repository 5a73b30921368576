-- ===== src/NdkDepends/Reader.antt =====
-- The reading utilities of ndk-depends.cc: words in both byte orders, and the readers of a file.
-- Each element of a list of bytes is below 256. An `off_t` is its bit pattern of 64 bits, which
-- `fseek` refuses where it is negative.
pub mod RoundTrip
use ndk.Base.{
  ℕ, zero, suc, ◌+◌, ◌*◌, ◌^◌, ◌&&◌, bit_or, Bool, true, false, Option, none, some, [], ◌∷◌, Bytes,
  length, take, drop, ltb, leb, if◌then◌else◌,
}

-- `bytes[i]`
abbrev pub byte_at : Bytes → ℕ → ℕ
byte_at [] i = 0
byte_at (b ∷ bytes) zero = b
byte_at (b ∷ bytes) (suc i) = byte_at bytes i

unfoldable pub get_u16_le : Bytes → ℕ
get_u16_le bytes = bit_or (byte_at bytes 0) (byte_at bytes 1 * 2 ^ 8)

unfoldable pub get_u32_le : Bytes → ℕ
get_u32_le bytes =
    bit_or (bit_or (bit_or (byte_at bytes 0) (byte_at bytes 1 * 2 ^ 8)) (byte_at bytes 2 * 2 ^ 16))
      (byte_at bytes 3 * 2 ^ 24)

unfoldable pub get_u64_le : Bytes → ℕ
get_u64_le bytes =
    let lo = get_u32_le bytes in let hi = get_u32_le (drop 4 bytes) in bit_or lo (hi * 2 ^ 32)

unfoldable pub get_u16_be : Bytes → ℕ
get_u16_be bytes = bit_or (byte_at bytes 0 * 2 ^ 8) (byte_at bytes 1)

unfoldable pub get_u32_be : Bytes → ℕ
get_u32_be bytes =
    bit_or
      (bit_or (bit_or (byte_at bytes 0 * 2 ^ 24) (byte_at bytes 1 * 2 ^ 16))
        (byte_at bytes 2 * 2 ^ 8))
      (byte_at bytes 3)

unfoldable pub get_u64_be : Bytes → ℕ
get_u64_be bytes =
    let hi = get_u32_be bytes in let lo = get_u32_be (drop 4 bytes) in bit_or lo (hi * 2 ^ 32)

abbrev pub k_max_bytes : ℕ
k_max_bytes = 32

-- `GetBytesAt` on the file's content; `none` is NULL.
unfoldable pub get_bytes_at : Bytes → ℕ → ℕ → Option Bytes
get_bytes_at file pos size =
    if ltb size k_max_bytes && ltb pos (2 ^ 63) && leb (pos + size) (length file)
    then some (take size (drop pos file))
    else none

-- A `FileBigEndianReader` or a `FileLittleEndianReader`.
pub record Reader : Type 0 where
  pub file : Bytes
  pub big_endian : Bool

-- `(buf != NULL) ? get(buf) : 0`
abbrev pub or_zero : (Bytes → ℕ) → Option Bytes → ℕ
or_zero get none = 0
or_zero get (some buf) = get buf

unfoldable pub get_u16_at : Reader → ℕ → ℕ
get_u16_at reader pos =
    or_zero (if reader.big_endian then get_u16_be else get_u16_le) (get_bytes_at reader.file pos 2)

unfoldable pub get_u32_at : Reader → ℕ → ℕ
get_u32_at reader pos =
    or_zero (if reader.big_endian then get_u32_be else get_u32_le) (get_bytes_at reader.file pos 4)

unfoldable pub get_u64_at : Reader → ℕ → ℕ
get_u64_at reader pos =
    or_zero (if reader.big_endian then get_u64_be else get_u64_le) (get_bytes_at reader.file pos 8)
