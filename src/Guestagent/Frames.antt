-- ===== src/Guestagent/Frames.antt =====
-- What an exec stream carries is read back, the exit code included.
use setec.Prelude.{ℕ, ◌≤◌, ◌<◌, ◌^◌, ◌≡◌, some, List, ◌++◌, length, arith}
use setec.Prelude.Int.{ℤ, pos, negsuc, pos_part, neg_part}
use setec.Wire.{read_full}
use setec.Wire.Laws.{read_full-append, u32-put_u32}
use setec.Guestagent.{
  frame_bytes, write_exec_frame, read_exec_frame, max_frame, exit_frame, exit_code, word, signed,
}

sized :
    (t : ℕ) (body w : List ℕ)
    → write_exec_frame t body ≡ some w
    → (w ≡ frame_bytes t body) × (length body ≤ max_frame)
unfolding write_exec_frame
sized t body w h = ground arith

read_exec_frame-frame_bytes :
    (t : ℕ) (body rest : List ℕ)
    → length body ≤ max_frame
    → read_exec_frame (frame_bytes t body ++ rest) ≡ some (t, body, rest)
unfolding read_exec_frame read_full frame_bytes
read_exec_frame-frame_bytes t body rest q =
    rw (u32-put_u32 (length body) (omega arith)) (ground (arith, read_full-append body rest))

-- A written frame is read back with its type and data, whatever follows it on the stream.
pub read_exec_frame-write_exec_frame :
    (t : ℕ) (body w rest : List ℕ)
    → write_exec_frame t body ≡ some w
    → read_exec_frame (w ++ rest) ≡ some (t, body, rest)
read_exec_frame-write_exec_frame t body w rest h =
    let (e, q) = sized t body w h in rw e (read_exec_frame-frame_bytes t body rest q)

word_small : (code : ℤ) → word code < 2 ^ 32
word_small (pos n) = omega arith
word_small (negsuc n) = omega arith

signed-word :
    (code : ℤ) → pos_part code < 2 ^ 31 → neg_part code ≤ 2 ^ 31 → signed (word code) ≡ code
signed-word (pos n) p q = ground arith
signed-word (negsuc n) p q = ground arith

-- An exit code that fits in 32 bits comes back from its frame.
pub exit_code-exit_frame :
    (code : ℤ)
    → pos_part code < 2 ^ 31
    → neg_part code ≤ 2 ^ 31
    → exit_code (exit_frame code) ≡ code
unfolding exit_code exit_frame
exit_code-exit_frame code p q =
    rw (u32-put_u32 (word code) (word_small code)) (signed-word code p q)
