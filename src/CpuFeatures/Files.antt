-- ===== src/CpuFeatures/Files.antt =====
-- `get_file_size` and `read_file` of cpu-features.c, over files that a kernel hands out in pieces.
pub mod Laws
use ndk.Base.{
  ℕ, zero, suc, ◌+◌, ◌-◌, ◌%◌, ◌^◌, Bool, true, false, Option, none, some, List, [], ◌∷◌, ◌++◌,
  Bytes, length, take, drop, leb, ltb, ◌==◌, if◌then◌else◌,
}

-- What a file descriptor will still give: bytes, an interrupted call, or an error. The end of the
-- list is the end of the file.
pub data Event : Type 0 where
  got : Bytes → Event
  eintr : Event
  error : Event

abbrev pub File : Type 0
File = List Event

pub data Ret : Type 0 where
  bytes : Bytes → Ret
  interrupted : Ret
  failed : Ret

-- `read(fd, buffer, n)`: at most `n` bytes of the next piece; what is left of it comes next.
unfoldable pub read : File → ℕ → Ret × File
read [] n = (bytes [], [])
read (eintr ∷ fd) n = (interrupted, fd)
read (error ∷ fd) n = (failed, fd)
read (got bs ∷ fd) n =
    if leb (length bs) n then (bytes bs, fd) else (bytes (take n bs), got (drop n bs) ∷ fd)

-- The calls of `read` that a file can take, with at least one byte asked for each time.
abbrev pub reads : File → ℕ
reads [] = 1
reads (got bs ∷ fd) = suc (length bs + reads fd)
reads (_ ∷ fd) = suc (reads fd)

-- The `for` loop of `get_file_size`, on fuel. `result` is the bit pattern of an `int`.
unfoldable pub size_loop : ℕ → ℕ → File → Option ℕ
size_loop zero result fd = none
size_loop (suc f) result fd =
    let (ret, fd') = read fd 256 in
    elim ret [
      | interrupted ↦ size_loop f result fd'
      | failed ↦ some result
      | bytes [] ↦ some result
      | bytes (b ∷ bs) ↦ size_loop f ((result + length (b ∷ bs)) % 2 ^ 32) fd'
    ]

-- `none` is a file that cannot be opened, and the result -1.
unfoldable pub get_file_size : Option File → Option (Option ℕ)
get_file_size none = some none
get_file_size (some fd) = elim (size_loop (reads fd) 0 fd) [
  | none ↦ none
  | some result ↦ some (some result)
]

-- The `while` loop of `read_file`, on fuel. The first `count` bytes of the buffer are a list.
unfoldable pub read_loop : ℕ → ℕ → Bytes → File → Option (Option Bytes)
read_loop zero buffsize buffer fd = none
read_loop (suc f) buffsize buffer fd = elim (ltb (length buffer) buffsize) [
  | false ↦ some (some buffer)
  | true ↦
      let (ret, fd') = read fd (buffsize - length buffer) in
      elim ret [
        | interrupted ↦ read_loop f buffsize buffer fd'
        | failed ↦ some (if length buffer == 0 then none else some buffer)
        | bytes [] ↦ some (some buffer)
        | bytes (b ∷ bs) ↦ read_loop f buffsize (buffer ++ b ∷ bs) fd'
      ]
]

unfoldable pub read_file : Option File → ℕ → Option (Option Bytes)
read_file none buffsize = some none
read_file (some fd) buffsize = read_loop (reads fd) buffsize [] fd
