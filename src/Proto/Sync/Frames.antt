-- ===== src/Proto/Sync/Frames.antt =====
-- A file as DATA frames.
use adb_client.Base.{
  ℕ, zero, suc, ◌≤◌, ◌<◌, ◌≡◌, refl, ap, ◌∙◌, arith, List, [], ◌∷◌, ◌++◌, All, length, take, drop,
  concat, length-take, length-drop, take-append-drop,
}
use adb_client.Base.Bytes.{Bytes, bytes}
use adb_client.Proto.Sync.Request.{frame, chunks, frames_of}

-- The chunks are the bytes again.
pub chunks-concat :
    (fuel size : ℕ) (file : Bytes)
    → 0 < size
    → length file ≤ fuel
    → concat (chunks fuel size file) ≡ file
unfolding chunks
chunks-concat fuel size [] room enough = refl
chunks-concat zero size (b ∷ bs) room enough = absurd (omega arith)
chunks-concat (suc fuel) size (b ∷ bs) room enough =
    ap (λ (rest : Bytes). take size (b ∷ bs) ++ rest)
      (chunks-concat fuel size (drop size (b ∷ bs)) room (omega (arith, length-drop size (b ∷ bs))))
    ∙ take-append-drop size (b ∷ bs)

-- No chunk is empty or longer than `size`.
pub chunks-sizes :
    (fuel size : ℕ) (file : Bytes)
    → 0 < size
    → All (λ c. (0 < length c) × (length c ≤ size)) (chunks fuel size file)
unfolding chunks
chunks-sizes fuel size [] room = tt
chunks-sizes zero size (b ∷ bs) room = tt
chunks-sizes (suc fuel) size (b ∷ bs) room = (
  (omega (arith, length-take size (b ∷ bs)), omega (arith, length-take size (b ∷ bs))),
  chunks-sizes fuel size (drop size (b ∷ bs)) room,
)

-- The frames, one behind the other.
abbrev pub framed : List Bytes → Bytes
framed [] = []
framed (c ∷ cs) = frame (bytes "DATA") (length c) c ++ framed cs

pub frames_of-framed : (cs : List Bytes) → concat (frames_of cs) ≡ framed cs
unfolding frames_of
frames_of-framed [] = refl
frames_of-framed (c ∷ cs) =
    ap (λ (rest : Bytes). frame (bytes "DATA") (length c) c ++ rest) (frames_of-framed cs)
