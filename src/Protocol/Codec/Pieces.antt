-- ===== src/Protocol/Codec/Pieces.antt =====
-- `chunks` loses nothing and fits the link.
use ha_aiper_ble.Prelude.{
  ℕ, zero, suc, ◌+◌, ◌≤◌, ◌<◌, max, ◌≡◌, refl, ap, ◌∙◌, Option, none, some, [], ◌∷◌, ◌++◌, arith,
  length, take, drop, All, take-append-drop, length-take, length-drop,
}
use ha_aiper_ble.Prelude.Int.{ℤ, pos, negsuc}
use ha_aiper_ble.Prelude.Text.{Bytes}
use mathlib.Core.List.{flatten}
use ha_aiper_ble.Protocol.Codec.{slices, chunk_size, chunks}

-- A piece that one write can carry: not empty, and at most `size` bytes.
abbrev pub FitsWrite : ℕ → Bytes → Type 0
FitsWrite size piece = (0 < length piece) × (length piece ≤ size)

-- Every payload size is one that every link carries or that the negotiated MTU allows.
pub chunk_size_bounds : (mtu : Option ℤ) → (20 ≤ chunk_size mtu) × (chunk_size mtu ≤ 200)
unfolding chunk_size
chunk_size_bounds none = omega arith
chunk_size_bounds (some (pos n)) = ground arith
chunk_size_bounds (some (negsuc n)) = omega arith

flatten-slices :
    (rounds size : ℕ) (frame : Bytes)
    → 0 < size
    → length frame ≤ rounds
    → flatten (slices rounds size frame) ≡ frame
unfolding slices flatten
flatten-slices zero size [] h enough = refl
flatten-slices zero size (b ∷ r) h enough = absurd (omega arith)
flatten-slices (suc rounds) size [] h enough = refl
flatten-slices (suc rounds) size (b ∷ r) h enough =
    ap (λ (rest : Bytes). take size (b ∷ r) ++ rest)
      (flatten-slices rounds size (drop size (b ∷ r)) h (omega (arith, length-drop size (b ∷ r))))
    ∙ take-append-drop size (b ∷ r)

slices-FitsWrite :
    (rounds size : ℕ) (frame : Bytes) → 0 < size → All (FitsWrite size) (slices rounds size frame)
unfolding slices
slices-FitsWrite zero size frame h = tt
slices-FitsWrite (suc rounds) size [] h = tt
slices-FitsWrite (suc rounds) size (b ∷ r) h =
    (omega (arith, length-take size (b ∷ r)), slices-FitsWrite rounds size (drop size (b ∷ r)) h)

-- A payload that a link carries: with the 3 bytes before it, it is within an MTU that was negotiated,
-- and within the least MTU of 23 if none is known.
abbrev pub Carries : Option ℤ → ℕ → Type 0
Carries (some (pos mtu)) size = size + 3 ≤ max mtu 23
Carries _ size = size + 3 ≤ 23

chunk_size-Carries : (mtu : Option ℤ) → Carries mtu (chunk_size mtu)
unfolding chunk_size
chunk_size-Carries none = omega arith
chunk_size-Carries (some (pos n)) = ground arith
chunk_size-Carries (some (negsuc n)) = omega arith

-- The chunks of a frame, put together in order, are the frame, and each is a write of at least one
-- byte that fits the payload size for the link's MTU. That size is at most 200, and one that the
-- link carries.
pub chunks_lem :
    (frame : Bytes) (mtu : Option ℤ)
    → (flatten (chunks frame mtu) ≡ frame)
      × All (FitsWrite (chunk_size mtu)) (chunks frame mtu)
      × (chunk_size mtu ≤ 200)
      × Carries mtu (chunk_size mtu)
unfolding chunks
chunks_lem frame mtu = (
  flatten-slices (length frame) (chunk_size mtu) frame (omega (arith, chunk_size_bounds mtu))
      (omega arith),
  slices-FitsWrite (length frame) (chunk_size mtu) frame (omega (arith, chunk_size_bounds mtu)),
  (chunk_size_bounds mtu).1,
  chunk_size-Carries mtu,
)
