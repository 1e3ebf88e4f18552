-- ===== src/Protocol/Decoder/Delivery.antt =====
-- What `Decoder` makes of a stream does not depend on how the link splits it into notifications, and
-- a frame that `query_frame` could send arrives as the JSON text that went into it.
use ha_aiper_ble.Prelude.{
  ℕ, suc, ◌+◌, ◌≤◌, ◌<◌, ◌≡◌, refl, sym, ap, ◌∙◌, true, Option, some, List, [], ◌∷◌, ◌++◌, map,
  arith, length, length-append, All, leb,
}
use ha_aiper_ble.Prelude.Int.{pos}
use ha_aiper_ble.Prelude.Text.{Bytes}
use mathlib.Core.List.{flatten, append_assoc}
use ha_aiper_ble.Outcome.{Result, ok, err}
use ha_aiper_ble.Value.{Value}
use ha_aiper_ble.Protocol.Crc.Detect.{IsByte}
use ha_aiper_ble.Protocol.Codec.{xor, b64encode}
use ha_aiper_ble.Protocol.Codec.Laws.{
  xor_involutive, xor-bytes, b64decode-b64encode, b64encode-IsPrintable, IsPrintable,
}
use ha_aiper_ble.Protocol.Query.{wire_frame}
use ha_aiper_ble.Protocol.Decoder.{
  Decoder, new_decoder, Received, sequence, max_frame_bytes, max_total_bytes, max_notifications,
  item_bytes, then_values, then_frames, drain, limit_buffer, feed_bytes, feed, feed_all,
  decode_frame, check_envelope, has_envelope,
}
use ha_aiper_ble.Protocol.Decoder.Bounds.{IsBounded}
use ha_aiper_ble.Protocol.Decoder.Framing.{
  IsInner, drain-inner, drain-append, drain_begin, drain-IsInner,
}

-- the notification that carries these bytes
abbrev pub received : Bytes → Received
received bytes = sequence (map (λ b. some (pos b)) bytes)

item_bytes-received :
    (bytes : Bytes) → All IsByte bytes → item_bytes (map (λ b. some (pos b)) bytes) ≡ some bytes
unfolding item_bytes
item_bytes-received [] h = refl
item_bytes-received (b ∷ r) h = rw (item_bytes-received r h.1) (ground arith)

length-received : (bytes : Bytes) → length (map (λ (b : ℕ). some (pos b)) bytes) ≡ length bytes
length-received [] = refl
length-received (b ∷ r) = ap suc (length-received r)

then_values_inversion {ℓ} :
    {S : Type ℓ} (ws : List Value) (m : Result (List Value) × S) (vs : List Value) (s : S)
    → then_values ws m ≡ (ok vs, s)
    → (us : List Value) × (m ≡ (ok us, s)) × (vs ≡ ws ++ us)
then_values_inversion ws (ok us, r) vs s h = (us, ground arith, ground arith)
then_values_inversion ws (err e, r) vs s h = ground arith

-- the counters and the buffer after some more notifications
abbrev pub later : Decoder → Bytes → ℕ → ℕ → Decoder
later d buffer bytes count = record {
  buffer = buffer;
  total_bytes = d.total_bytes + bytes;
  notifications = d.notifications + count;
}

later-later :
    (d : Decoder) (middle buffer : Bytes) (m n k total : ℕ)
    → total ≡ m + n
    → later (later d middle m 1) buffer n k ≡ later d buffer total (suc k)
later-later d middle buffer m n k total e = ground arith

later-IsBounded :
    (piece : Bytes) (d : Decoder) (middle : Bytes)
    → IsBounded d
    → All IsInner middle
    → length middle ≤ length d.buffer + length piece
    → length d.buffer + length piece ≤ max_frame_bytes
    → (d.total_bytes + length piece ≤ max_total_bytes) × (d.notifications + 1 ≤ max_notifications)
    → IsBounded (later d middle (length piece) 1)
later-IsBounded piece d middle v inner shorter fits counters = record {
  inner = inner;
  buffer_fits = omega arith;
  bytes_fit = counters.0;
  count_fits = counters.1;
  buffer_received = omega (arith, v.buffer_received);
}

leb-true : (a b : ℕ) → a ≤ b → leb a b ≡ true
leb-true a b h = ground arith

wire_length : (text : Bytes) → length (wire_frame text) ≡ length (b64encode (xor text)) + 1
unfolding wire_frame
wire_length text = length-append (b64encode (xor text)) (10 ∷ [])

b64encode-nonempty : (text : Bytes) → 0 < length text → 1 ≤ length (b64encode (xor text))
unfolding b64encode xor
b64encode-nonempty [] h = absurd (omega arith)
b64encode-nonempty (a ∷ []) h = omega arith
b64encode-nonempty (a ∷ b ∷ []) h = omega arith
b64encode-nonempty (a ∷ b ∷ c ∷ r) h = omega arith

module _ (loads : Bytes → Option Value) where
  feed_accepts :
      (piece : Bytes) (d : Decoder) (vs : List Value) (buffer : Bytes)
      → All IsByte piece
      → drain loads [] (d.buffer ++ piece) ≡ (ok vs, buffer)
      → length buffer ≤ max_frame_bytes
      → d.total_bytes + length piece ≤ max_total_bytes
      → d.notifications + 1 ≤ max_notifications
      → feed loads (received piece) d ≡ (ok vs, later d buffer (length piece) 1)
  unfolding feed feed_bytes limit_buffer
  feed_accepts piece d vs buffer bytes drained fits total number =
      rw (item_bytes-received piece bytes, length-received piece, drained) (ground arith)

  drain-nil : (frame : Bytes) → drain loads frame [] ≡ (ok [], frame)
  unfolding drain
  drain-nil frame = refl

  drain_rest :
      (begun piece rest : Bytes) (vs : List Value) (buffer : Bytes)
      → drain loads [] (begun ++ piece ++ rest) ≡ (ok vs, buffer)
      → (ws : List Value) × (middle : Bytes) × (us : List Value) × (drain loads [] (begun ++ piece)
          ≡ (ok ws, middle))
        × (drain loads [] (middle ++ rest) ≡ (ok us, buffer))
        × (vs ≡ ws ++ us)
  drain_rest begun piece rest vs buffer h =
      let (ws, middle, first) = drain_begin loads [] (begun ++ piece) rest vs buffer h in
      let (inner, shorter) = drain-IsInner loads [] (begun ++ piece) ws middle tt first in
      let (us, second, whole) =
        then_values_inversion ws (drain loads middle rest) vs buffer
          (sym (drain-append loads [] (begun ++ piece) rest ws middle first) ∙ h) in
      (ws, middle, us, first, drain-inner loads [] middle rest inner ∙ second, whole)

  feed_all-cons :
      (r : Received) (rs : List Received) (d e : Decoder) (ws us : List Value) (f : Decoder)
      → feed loads r d ≡ (ok ws, e)
      → feed_all loads rs e ≡ (ok us, f)
      → feed_all loads (r ∷ rs) d ≡ (ok (ws ++ us), f)
  unfolding feed_all
  feed_all-cons r rs d e ws us f one others =
      ap
        (λ (m : Result (List Value) × Decoder). elim m.0 as (λ _. Result (List Value) × Decoder) [
          | err e ↦ (err e, m.1)
          | ok values ↦ then_values values (feed_all loads rs m.1)
        ])
        one
      ∙ ap (then_values ws) others

  feed_all-nil : (d : Decoder) → feed_all loads [] d ≡ (ok [], d)
  unfolding feed_all
  feed_all-nil d = refl

  -- However a stream of bytes is split into notifications, the decoder delivers exactly the objects
  -- that the whole stream decodes to, in order, and is left with the same unfinished frame, if the
  -- stream is within the limits on frame, total bytes and notifications.
  pub feed_all_lem :
      (pieces : List Bytes) (d : Decoder) (vs : List Value) (buffer : Bytes)
      → IsBounded d
      → All (All IsByte) pieces
      → drain loads [] (d.buffer ++ flatten pieces) ≡ (ok vs, buffer)
      → length d.buffer + length (flatten pieces) ≤ max_frame_bytes
      → d.total_bytes + length (flatten pieces) ≤ max_total_bytes
      → d.notifications + length pieces ≤ max_notifications
      → feed_all loads (map received pieces) d
        ≡ (ok vs, later d buffer (length (flatten pieces)) (length pieces))
  unfolding flatten
  feed_all_lem [] d vs buffer v bytes h fits total number =
      let still : (ok [], d.buffer) ≡ (ok vs, buffer) =
        sym (drain-inner loads [] d.buffer [] v.inner ∙ drain-nil d.buffer) ∙ h in
      feed_all-nil d
      ∙ ap (λ (m : Result (List Value) × Bytes). (m.0, record d { buffer = m.1 })) still
      ∙ ap (λ e. (ok vs, e)) (ground arith)
  feed_all_lem (p ∷ ps) d vs buffer v bytes h fits total number =
      let (ws, middle, us, first, second, whole) =
        drain_rest d.buffer p (flatten ps) vs buffer
          (ap (drain loads []) (append_assoc d.buffer p (flatten ps)) ∙ h) in
      let (inner, shorter) = drain-IsInner loads [] (d.buffer ++ p) ws middle tt first in
      let sizes : length (p ++ flatten ps) ≡ length p + length (flatten ps) =
        length-append p (flatten ps) in
      let joined : length (d.buffer ++ p) ≡ length d.buffer + length p = length-append d.buffer p in
      let fed : feed loads (received p) d ≡ (ok ws, later d middle (length p) 1) =
        feed_accepts p d ws middle bytes.0 first (omega arith) (omega arith) (omega arith) in
      rw whole (
        feed_all-cons (received p) (map received ps) d (later d middle (length p) 1) ws us
          (later d buffer (length (p ++ flatten ps)) (length (p ∷ ps))) fed
          (feed_all_lem ps (later d middle (length p) 1) us buffer
              (later-IsBounded p d middle v inner (omega arith) (omega arith) (omega arith)) bytes.1
              second (omega arith) (omega arith) (omega arith)
            ∙ ap (λ e. (ok us, e))
                (later-later d middle buffer (length p) (length (flatten ps)) (length ps)
                  (length (p ++ flatten ps)) (omega arith))))

  module _ (text : Bytes) {value : Value} (some_text : 0 < length text) (bytes : All IsByte text)
      (parsed : loads text ≡ some value) (envelope : has_envelope value ≡ true)
      (fits : length (wire_frame text) ≤ max_frame_bytes) where
    printable-IsInner : (s : Bytes) → All IsPrintable s → All IsInner s
    printable-IsInner [] h = tt
    printable-IsInner (c ∷ s) h = (ground arith, printable-IsInner s h.1)

    decode_frame-encoded : decode_frame loads (b64encode (xor text)) ≡ ok value
    unfolding decode_frame check_envelope
    decode_frame-encoded = rw (
      leb-true 1 (length (b64encode (xor text))) (b64encode-nonempty text some_text),
      leb-true (length (b64encode (xor text))) max_frame_bytes
          (omega (arith, length-append (b64encode (xor text)) (10 ∷ []), wire_length text, fits)),
      b64decode-b64encode (xor text) (xor-bytes text bytes),
      xor_involutive text,
      parsed,
      envelope,
    )

    -- The frame of a JSON text decodes to the object that the text stands for.
    drain-wire_frame : drain loads [] (wire_frame text) ≡ (ok (value ∷ []), [])
    unfolding wire_frame drain then_frames
    drain-wire_frame =
        drain-inner loads [] (b64encode (xor text)) (10 ∷ [])
          (printable-IsInner _ (b64encode-IsPrintable (xor text) (xor-bytes text bytes)))
        ∙ rw decode_frame-encoded

    -- A frame made from the JSON text of an object with an envelope is delivered as that object and
    -- nothing else, however the link splits it into notifications (at most 64, of a frame of at most
    -- 4096 bytes), and leaves nothing in the buffer.
    pub delivery :
        (pieces : List Bytes)
        → All (All IsByte) pieces
        → flatten pieces ≡ wire_frame text
        → length pieces ≤ max_notifications
        → feed_all loads (map received pieces) new_decoder ≡ (
          ok (value ∷ []),
          record {
            buffer = [];
            total_bytes = length (wire_frame text);
            notifications = length pieces;
          },
        )
    delivery pieces octets same few =
        feed_all_lem pieces new_decoder (value ∷ []) [] (omega arith) octets
          (ap (drain loads []) same ∙ drain-wire_frame)
          (omega (arith, fits, ap (length {A = ℕ}) same))
          (omega (arith, fits, ap (length {A = ℕ}) same)) (omega (arith, few))
        ∙ ap (λ e. (ok (value ∷ []), e)) (ground (arith, ap (length {A = ℕ}) same))
