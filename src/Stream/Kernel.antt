-- ===== src/Stream/Kernel.antt =====
-- What the kernel answers to `write` and `read`, and the C types that take the answer.
use unpvol.Common.{ℕ, ◌+◌, ◌-◌, ◌%◌, ◌^◌, List, length}

-- The values of `errno` that the code tells apart. EWOULDBLOCK is EAGAIN.
pub data Errno : Type 0 where
  eintr eagain other : Errno

-- A `write`: the bytes that the kernel took, or -1 with `errno`.
pub data Reply : Type 0 where
  wrote : ℕ → Reply
  failed : Errno → Reply

-- A `read`: the bytes that arrived (none at the end of the stream), or -1 with `errno`.
pub data Arrival : Type 0 where
  chunk : List ℕ → Arrival
  broken : Errno → Arrival

abbrev pub size_mod : ℕ
size_mod = 2 ^ 64

-- An answer stored in a `size_t`, where -1 is the largest value.
abbrev pub to_size : Reply → ℕ
to_size (wrote k) = k
to_size (failed e) = size_mod - 1

abbrev pub arrival_size : Arrival → ℕ
arrival_size (chunk xs) = length xs
arrival_size (broken e) = size_mod - 1

-- `+` and `-` of `size_t`, and of pointers to bytes.
abbrev pub add_size : ℕ → ℕ → ℕ
add_size a b = (a + b) % size_mod

abbrev pub sub_size : ℕ → ℕ → ℕ
sub_size a b = (a + size_mod - b) % size_mod

-- `return n`, or `return -1`.
pub data Result : Type 0 where
  returned : ℕ → Result
  minus_one : Result
