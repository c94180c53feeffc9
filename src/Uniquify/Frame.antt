-- ===== src/Uniquify/Frame.antt =====
-- Frames: what is written is read back, and nothing else is read as a frame.
use setec.Prelude.{ℕ, ◌≤◌, ◌<◌, ◌/◌, ◌%◌, ◌≡◌, some, List, [], ◌∷◌, ◌++◌, length, arith}
use mathlib.Core.List.{append-nil}
use setec.Wire.{read_full, u32, Magic}
use setec.Wire.Laws.{IsBytes, read_full-append, read_full-eq_some, u32-put_u32, put_u32-u32}
use setec.Uniquify.{ok, write_frame, read_frame, frame_bytes, max_frame_bytes}

written :
    (m : Magic) (body w : List ℕ)
    → write_frame m body ≡ ok w
    → (w ≡ frame_bytes m body) × (0 < length body) × (length body ≤ max_frame_bytes)
unfolding write_frame
written m body w h = ground arith

length_back :
    (body : List ℕ)
    → length body ≤ max_frame_bytes
    → u32
        (length body / 16777216 % 256)
        (length body / 65536 % 256)
        (length body / 256 % 256)
        (length body % 256)
      ≡ length body
length_back body h = u32-put_u32 (length body) (omega arith)

read_frame-frame_bytes :
    (m : Magic) (body rest : List ℕ)
    → 0 < length body
    → length body ≤ max_frame_bytes
    → read_frame m (frame_bytes m body ++ rest) ≡ ok (body, rest)
unfolding read_frame read_full frame_bytes
read_frame-frame_bytes m body rest p q =
    rw (length_back body q) (ground (arith, read_full-append body rest))

-- A written frame is read back, whatever follows it on the stream.
pub read_frame-write_frame :
    (m : Magic) (body w rest : List ℕ)
    → write_frame m body ≡ ok w
    → read_frame m (w ++ rest) ≡ ok (body, rest)
read_frame-write_frame m body w rest h =
    let (e, p, q) = written m body w h in rw e (read_frame-frame_bytes m body rest p q)

-- What a header and the rest of the stream are when a frame is read from them.
header_ok :
    (m : Magic) (a b c d v l0 l1 l2 l3 : ℕ) (r body rest : List ℕ)
    → read_frame m (a ∷ b ∷ c ∷ d ∷ v ∷ l0 ∷ l1 ∷ l2 ∷ l3 ∷ r) ≡ ok (body, rest)
    → ((a ≡ m.m0) × (b ≡ m.m1) × (c ≡ m.m2) × (d ≡ m.m3) × (v ≡ 1))
      × ((0 < u32 l0 l1 l2 l3) × (u32 l0 l1 l2 l3 ≤ max_frame_bytes))
      × (read_full (u32 l0 l1 l2 l3) r ≡ some (body, rest))
unfolding read_frame read_full
header_ok m a b c d v l0 l1 l2 l3 r body rest h = ground arith

write_frame-ok :
    (m : Magic) (body : List ℕ)
    → 0 < length body
    → length body ≤ max_frame_bytes
    → write_frame m body ≡ ok (frame_bytes m body)
unfolding write_frame
write_frame-ok m body p q = ground arith

frame_from :
    (m : Magic) (l0 l1 l2 l3 : ℕ) (body rest : List ℕ)
    → l0 < 256
    → l1 < 256
    → l2 < 256
    → l3 < 256
    → length body ≡ u32 l0 l1 l2 l3
    → frame_bytes m body ++ rest
      ≡ m.m0 ∷ m.m1 ∷ m.m2 ∷ m.m3 ∷ 1 ∷ l0 ∷ l1 ∷ l2 ∷ l3 ∷ (body ++ rest)
unfolding frame_bytes
frame_from m l0 l1 l2 l3 body rest p q r s e = rw e (cc (put_u32-u32 l0 l1 l2 l3 p q r s))

-- Nothing but a written frame is read as one: the stream starts with what `write_frame` makes of the
-- body that was read.
pub read_frame-eq_ok :
    (m : Magic) (r body rest : List ℕ)
    → IsBytes r
    → read_frame m r ≡ ok (body, rest)
    → (w : List ℕ) × (write_frame m body ≡ ok w) × (r ≡ w ++ rest)
unfolding read_frame read_full
read_frame-eq_ok m (a ∷ b ∷ c ∷ d ∷ v ∷ l0 ∷ l1 ∷ l2 ∷ l3 ∷ r') body rest bytes h =
    let (start, size, read) = header_ok m a b c d v l0 l1 l2 l3 r' body rest h in
    let (split, len) = read_full-eq_some (u32 l0 l1 l2 l3) r' body rest read in
    (
      frame_bytes m body,
      write_frame-ok m body (rw len size.0) (rw len size.1),
      cc (
        start.0,
        start.1,
        start.2,
        start.3,
        start.4,
        split,
        frame_from m l0 l1 l2 l3 body rest (omega arith) (omega arith) (omega arith) (omega arith)
            len,
      ),
    )
read_frame-eq_ok m r body rest bytes h = absurd (ground arith)

-- A frame alone on the stream.
pub read_frame-alone :
    (m : Magic) (body w : List ℕ) → write_frame m body ≡ ok w → read_frame m w ≡ ok (body, [])
read_frame-alone m body w h = rw append-nil at (read_frame-write_frame m body w [] h)

-- A body of a size that a frame can have is written.
pub write_frame-fits :
    (m : Magic) (body : List ℕ)
    → 0 < length body
    → length body ≤ max_frame_bytes
    → (w : List ℕ) × (write_frame m body ≡ ok w)
write_frame-fits m body p q = (frame_bytes m body, write_frame-ok m body p q)
