-- ===== src/Protocol/Decoder/Framing.antt =====
-- How the loop of `Decoder.feed` cuts a stream into frames, wherever the stream is split.
use ha_aiper_ble.Prelude.{
  ℕ, ◌+◌, ◌≤◌, ◌≡◌, refl, ap, ◌∙◌, inl, inr, false, Option, List, [], ◌∷◌, ◌++◌, arith, length,
  length-append, All, All-append, ◌==◌, Bool-cases,
}
use ha_aiper_ble.Prelude.Text.{Bytes}
use mathlib.Core.List.{append-nil, append_assoc}
use mathlib.Core.Path.{subst}
use ha_aiper_ble.Outcome.{Result, ok, err}
use ha_aiper_ble.Value.{Value}
use ha_aiper_ble.Protocol.Decoder.{decode_frame, then_frames, then_values, drain}

-- a byte that is no line break
abbrev pub IsInner : ℕ → Type 0
IsInner b = (b == 10) ≡ false

then_values-nil : (m : Result (List Value) × Bytes) → m ≡ then_values [] m
then_values-nil (ok vs, buffer) = refl
then_values-nil (err e, buffer) = refl

module _ (loads : Bytes → Option Value) where
  -- Bytes without a line break only extend the frame.
  pub drain-inner :
      (frame inner rest : Bytes)
      → All IsInner inner
      → drain loads frame (inner ++ rest) ≡ drain loads (frame ++ inner) rest
  unfolding drain
  drain-inner frame [] rest h = rw append-nil
  drain-inner frame (b ∷ inner) rest h = rw h.0 (
      drain-inner (frame ++ b ∷ []) inner rest h.1
      ∙ ap (λ (f : Bytes). drain loads f rest) (append_assoc frame (b ∷ []) inner))

  then_frames_inversion :
      (first : Result Value) (rest : Bytes) (m : Result (List Value) × Bytes) (vs : List Value)
      (buffer : Bytes)
      → then_frames loads first rest m ≡ (ok vs, buffer)
      → (v : Value) × (ws : List Value) × (first ≡ ok v) × (m ≡ (ok ws, buffer)) × (vs ≡ v ∷ ws)
  unfolding then_frames
  then_frames_inversion (err e) rest m vs buffer h = ground arith
  then_frames_inversion (ok v) rest (err e, r) vs buffer h = ground arith
  then_frames_inversion (ok v) rest (ok ws, r) vs buffer h =
      (v, ws, refl, ground arith, ground arith)

  then_frames_ok :
      (first : Result Value) (rest : Bytes) (m : Result (List Value) × Bytes) (v : Value)
      (ws : List Value) (buffer : Bytes)
      → first ≡ ok v
      → m ≡ (ok ws, buffer)
      → then_frames loads first rest m ≡ (ok (v ∷ ws), buffer)
  unfolding then_frames
  then_frames_ok first rest m v ws buffer decoded left = rw (decoded, left)

  then_frames-then_values :
      (v : Value) (rest : Bytes) (ws : List Value) (n : Result (List Value) × Bytes)
      → then_frames loads (ok v) rest (then_values ws n) ≡ then_values (v ∷ ws) n
  unfolding then_frames
  then_frames-then_values v rest ws (ok us, r) = refl
  then_frames-then_values v rest ws (err e, r) = refl

  -- The stream may be split anywhere: the second part goes on from the frame that the first began.
  pub drain-append :
      (frame a b : Bytes) (vs : List Value) (buffer : Bytes)
      → drain loads frame a ≡ (ok vs, buffer)
      → drain loads frame (a ++ b) ≡ then_values vs (drain loads buffer b)
  unfolding drain
  drain-append frame [] b vs buffer h = then_values-nil (drain loads frame b) ∙ ground (arith)
  drain-append frame (x ∷ a) b vs buffer h = elim (Bool-cases (x == 10)) [
    | inl e ↦
        let (v, ws, decoded, left, whole) =
          then_frames_inversion (decode_frame loads frame) a (drain loads [] a) vs buffer
            (rw e at h) in
        rw (e, decoded, whole, drain-append [] a b ws buffer left)
          (then_frames-then_values v (a ++ b) ws (drain loads buffer b))
    | inr e ↦ rw e (drain-append (frame ++ x ∷ []) a b vs buffer (rw e at h))
  ]

  -- If a stream is decoded without an error, so is each beginning of it.
  pub drain_begin :
      (frame a b : Bytes) (vs : List Value) (buffer : Bytes)
      → drain loads frame (a ++ b) ≡ (ok vs, buffer)
      → (ws : List Value) × (middle : Bytes) × (drain loads frame a ≡ (ok ws, middle))
  unfolding drain
  drain_begin frame [] b vs buffer h = ([], frame, refl)
  drain_begin frame (x ∷ a) b vs buffer h = elim (Bool-cases (x == 10)) [
    | inl e ↦
        let (v, ws, decoded, left, whole) =
          then_frames_inversion (decode_frame loads frame) (a ++ b) (drain loads [] (a ++ b)) vs
            buffer (rw e at h) in
        let (us, middle, begun) = drain_begin [] a b ws buffer left in
        (
          v ∷ us,
          middle,
          rw e (
              then_frames_ok (decode_frame loads frame) a (drain loads [] a) v us middle decoded
                begun),
        )
    | inr e ↦
        let (us, middle, begun) = drain_begin (frame ++ x ∷ []) a b vs buffer (rw e at h) in
        (us, middle, rw e begun)
  ]

  -- What is left in the buffer holds no line break, and is no longer than the bytes read.
  pub drain-IsInner :
      (frame a : Bytes) (vs : List Value) (buffer : Bytes)
      → All IsInner frame
      → drain loads frame a ≡ (ok vs, buffer)
      → All IsInner buffer × (length buffer ≤ length frame + length a)
  unfolding drain
  drain-IsInner frame [] vs buffer clean h =
      let same : frame ≡ buffer = ap (λ (m : Result (List Value) × Bytes). m.1) h in
      (subst (All IsInner) same clean, omega (arith, ap (length {A = ℕ}) same))
  drain-IsInner frame (x ∷ a) vs buffer clean h = elim (Bool-cases (x == 10)) [
    | inl e ↦
        let (v, ws, decoded, left, whole) =
          then_frames_inversion (decode_frame loads frame) a (drain loads [] a) vs buffer
            (rw e at h) in
        let (inner, shorter) = drain-IsInner [] a ws buffer tt left in (inner, omega arith)
    | inr e ↦
        let (inner, shorter) =
          drain-IsInner (frame ++ x ∷ []) a vs buffer
            (All-append IsInner frame (x ∷ []) clean (e, tt)) (rw e at h) in
        (inner, omega (arith, length-append frame (x ∷ [])))
  ]
