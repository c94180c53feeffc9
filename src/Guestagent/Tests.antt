-- ===== src/Guestagent/Tests.antt =====
-- An exit frame on a stream, and the theorems at it.
use setec.Prelude.{ℕ, ◌≡◌, refl, some, List, [], ◌∷◌, ◌++◌}
use setec.Prelude.Int.{negsuc}
use setec.Guestagent.{frame_exit, write_exec_frame, read_exec_frame, exit_frame}
use setec.Guestagent.Frames.{read_exec_frame-write_exec_frame}

abbrev killed : List ℕ
killed = 3 ∷ 0 ∷ 0 ∷ 0 ∷ 4 ∷ 255 ∷ 255 ∷ 255 ∷ 255 ∷ []

minus_one : exit_frame (negsuc 0) ≡ 255 ∷ 255 ∷ 255 ∷ 255 ∷ []
unfolding exit_frame
minus_one = refl

killed_written : write_exec_frame frame_exit (255 ∷ 255 ∷ 255 ∷ 255 ∷ []) ≡ some killed
unfolding write_exec_frame
killed_written = refl

read_exec_frame-write_exec_frame_example :
    read_exec_frame (killed ++ (9 ∷ [])) ≡ some (frame_exit, 255 ∷ 255 ∷ 255 ∷ 255 ∷ [], 9 ∷ [])
read_exec_frame-write_exec_frame_example =
    read_exec_frame-write_exec_frame frame_exit (255 ∷ 255 ∷ 255 ∷ 255 ∷ []) killed (9 ∷ [])
      killed_written
