-- ===== src/Guestagent.antt =====
-- internal/guestagent/protocol.go: the frames of an exec stream and the exit code in the last one. A
-- frame's type is a byte, and every byte is read as one.
pub mod Frames
mod Tests
use setec.Prelude.{
  ℕ, zero, suc, ◌+◌, ◌-◌, ◌*◌, ◌%◌, ◌^◌, Bool, Option, none, some, List, [], ◌∷◌, ◌++◌, ltb, length,
  if◌then◌else◌,
}
use setec.Prelude.Int.{ℤ, pos, negsuc}
use setec.Wire.{read_full, put_u32, u32}

abbrev pub frame_stdin : ℕ
frame_stdin = 0

abbrev pub frame_stdout : ℕ
frame_stdout = 1

abbrev pub frame_stderr : ℕ
frame_stderr = 2

abbrev pub frame_exit : ℕ
frame_exit = 3

abbrev pub frame_stdin_eof : ℕ
frame_stdin_eof = 4

abbrev pub max_frame : ℕ
max_frame = 65536

frame_bytes : ℕ → List ℕ → List ℕ
frame_bytes t body = t ∷ (put_u32 (length body) ++ body)

-- The bytes of a frame, or nothing when its data is too long.
unfoldable pub write_exec_frame : ℕ → List ℕ → Option (List ℕ)
unfolding frame_bytes
write_exec_frame t body = if ltb max_frame (length body) then none else some (frame_bytes t body)

read_data : ℕ → Option (List ℕ × List ℕ) → Option (ℕ × List ℕ × List ℕ)
read_data t none = none
read_data t (some (body, rest)) = some (t, body, rest)

read_sized : List ℕ → List ℕ → Option (ℕ × List ℕ × List ℕ)
unfolding read_data
read_sized (t ∷ a ∷ b ∷ c ∷ d ∷ []) r =
    if ltb max_frame (u32 a b c d) then none else read_data t (read_full (u32 a b c d) r)
read_sized _ r = none

read_header : Option (List ℕ × List ℕ) → Option (ℕ × List ℕ × List ℕ)
unfolding read_sized
read_header none = none
read_header (some (header, r)) = read_sized header r

-- The type and the data of a frame, and the stream behind it; `none` for every error.
unfoldable pub read_exec_frame : List ℕ → Option (ℕ × List ℕ × List ℕ)
unfolding read_header
read_exec_frame r = read_header (read_full 5 r)

-- uint32(int32(code)): the code modulo 2 ^ 32.
abbrev pub word : ℤ → ℕ
word (pos n) = n % 2 ^ 32
word (negsuc n) = 2 ^ 32 - 1 - n % 2 ^ 32

-- int32(w) of a uint32.
abbrev pub signed : ℕ → ℤ
signed w = if ltb w (2 ^ 31) then pos w else negsuc (2 ^ 32 - 1 - w)

unfoldable pub exit_frame : ℤ → List ℕ
exit_frame code = put_u32 (word code)

unfoldable pub exit_code : List ℕ → ℤ
exit_code (a ∷ b ∷ c ∷ d ∷ []) = signed (u32 a b c d)
exit_code _ = pos 255
