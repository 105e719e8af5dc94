-- ===== src/FileDescriptor.antt =====
-- util/file_descriptor.hh and util/file_descriptor.cc: what a file descriptor remembers, and what it
-- makes of the answers of the operating system, which are arguments here.
pub mod Buffers
use cs144_2024_winter.Base.{
  ℕ, ◌+◌, ◌-◌, List, [], ◌∷◌, Bool, true, false, not, ◌&&◌, ◌||◌, ltb, leb, ◌==◌, if◌then◌else◌,
  add32, Bytes, length, take,
}
use cs144_2024_winter.Parser.Buffer.{joined}

pub record FdWrapper : Type 0 where
  pub fd : ℕ
  pub eof : Bool
  pub closed : Bool
  pub non_blocking : Bool
  pub read_count : ℕ
  pub write_count : ℕ

-- What a system call answers: a number that is not negative, or -1 with `errno`, of which the code
-- tells EAGAIN and EINPROGRESS from the others.
pub data SysAnswer : Type 0 where
  returned : ℕ → SysAnswer
  again : SysAnswer
  failed : SysAnswer

-- A method's result and the state that it leaves, or the exception and the state that it leaves.
pub data Attempt (A : Type 0) : Type 0 where
  ok : A → FdWrapper → Attempt A
  threw : FdWrapper → Attempt A

-- `CheckSystemCall`
unfoldable pub check_system_call : SysAnswer → FdWrapper → Attempt ℕ
check_system_call (returned n) w = ok n w
check_system_call again w = if w.non_blocking then ok 0 w else threw w
check_system_call failed w = threw w

-- The constructor, for a descriptor whose flags are asked for; `flags & O_NONBLOCK` is the argument.
pub fd_wrapper : ℕ → Bool → FdWrapper
fd_wrapper fd non_blocking = record {
  fd = fd;
  eof = false;
  closed = false;
  non_blocking = non_blocking;
  read_count = 0;
  write_count = 0;
}

pub close : SysAnswer → FdWrapper → Attempt ℕ
unfolding check_system_call
close answer w = elim (check_system_call answer w) [
  | ok n v ↦ ok n (record v { eof = true; closed = true })
  | threw v ↦ threw v
]

abbrev pub read_buffer_size : ℕ
read_buffer_size = 16384

unfoldable pub register_read : FdWrapper → FdWrapper
register_read w = record w { read_count = add32 w.read_count 1 }

unfoldable pub register_write : FdWrapper → FdWrapper
register_write w = record w { write_count = add32 w.write_count 1 }

-- What `::read` did with the buffer: its bytes afterwards, and how many of them were read.
pub read_answer : ℕ → Bytes → FdWrapper → Attempt Bytes
unfolding register_read
read_answer n buffer w =
    let counted = register_read w in
    let seen : FdWrapper = record counted { eof = w.eof || (n == 0) } in
    if ltb (length buffer) n then threw seen else ok (take n buffer) seen

-- `read( string )`. The buffer that the system call was handed comes back as an argument.
unfoldable pub read : SysAnswer → Bytes → FdWrapper → Attempt Bytes
unfolding read_answer
read (SysAnswer.returned n) buffer w = read_answer n buffer w
read SysAnswer.again buffer w = if w.non_blocking then ok [] w else threw w
read SysAnswer.failed buffer w = threw w

-- The size of the buffer that `read( string )` hands to the system call.
unfoldable pub asked : Bytes → ℕ
asked buffer = if length buffer == 0 then read_buffer_size else length buffer

-- The loop after `::readv`: the buffers are cut behind the bytes that were read.
unfoldable pub cut_buffers : ℕ → List Bytes → List Bytes
cut_buffers remaining_size [] = []
cut_buffers remaining_size (buf ∷ rest) =
    (if leb (length buf) remaining_size then buf else take remaining_size buf)
    ∷ cut_buffers (if leb (length buf) remaining_size then remaining_size - length buf else 0) rest

-- What `::readv` did with the buffers. No end of file is noted here.
unfoldable pub read_buffers_answer : SysAnswer → List Bytes → FdWrapper → Attempt (List Bytes)
unfolding register_read cut_buffers joined
read_buffers_answer (SysAnswer.returned n) buffers w =
    if ltb (length (joined buffers)) n
    then threw (register_read w)
    else ok (cut_buffers n buffers) (register_read w)
read_buffers_answer SysAnswer.again buffers w = if w.non_blocking then ok [] w else threw w
read_buffers_answer SysAnswer.failed buffers w = threw w

-- `read( vector )`; without a buffer there is no system call.
unfoldable pub read_buffers : SysAnswer → List Bytes → FdWrapper → Attempt (List Bytes)
unfolding read_buffers_answer
read_buffers answer [] w = ok [] w
read_buffers answer (buf ∷ rest) w = read_buffers_answer answer (buf ∷ rest) w

-- The sizes of the buffers that `read( vector )` hands to the system call: the last one is made
-- `read_buffer_size` bytes long.
unfoldable pub asked_sizes : List Bytes → List ℕ
asked_sizes [] = []
asked_sizes (buf ∷ []) = read_buffer_size ∷ []
asked_sizes (buf ∷ next ∷ rest) = length buf ∷ asked_sizes (next ∷ rest)

-- `write`, for buffers of so many bytes in all.
unfoldable pub write_total : ℕ → SysAnswer → FdWrapper → Attempt ℕ
unfolding check_system_call register_write
write_total total_size answer w = elim (check_system_call answer w) [
  | ok bytes_written v ↦
      if ((bytes_written == 0) && not (total_size == 0)) || ltb total_size bytes_written
      then threw (register_write v)
      else ok bytes_written (register_write v)
  | threw v ↦ threw v
]

unfoldable pub write : List Bytes → SysAnswer → FdWrapper → Attempt ℕ
unfolding joined write_total
write buffers answer w = write_total (length (joined buffers)) answer w

-- `set_blocking`, after the two calls of `::fcntl`.
unfoldable pub set_blocking : Bool → SysAnswer → SysAnswer → FdWrapper → Attempt ℕ
unfolding check_system_call
set_blocking blocking got set w = elim (check_system_call got w) [
  | ok flags v ↦ elim (check_system_call set v) [
    | ok n u ↦ ok n (record u { non_blocking = not blocking })
    | threw u ↦ threw u
  ]
  | threw v ↦ threw v
]
