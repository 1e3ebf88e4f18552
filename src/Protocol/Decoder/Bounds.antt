-- ===== src/Protocol/Decoder/Bounds.antt =====
-- The bounds that `Decoder` keeps, and that its answer does not depend on how a stream is split into
-- notifications.
use ha_aiper_ble.Prelude.{
  ℕ, ◌+◌, ◌≤◌, ◌≡◌, refl, ap, Bool, true, false, Option, none, some, List, [], ◌∷◌, ◌++◌, arith,
  length, length-append, All, if◌then◌else◌,
}
use ha_aiper_ble.Prelude.Int.{ℤ}
use ha_aiper_ble.Prelude.Text.{Bytes}
use ha_aiper_ble.Outcome.{Exception, Result, ok, err}
use ha_aiper_ble.Prelude.Optional.{>>=-eq-some}
use ha_aiper_ble.Value.{Value}
use ha_aiper_ble.Protocol.Decoder.{
  Decoder, new_decoder, sequence, max_frame_bytes, max_total_bytes, max_notifications, item_byte,
  item_bytes, drain, limit_buffer, feed_bytes, feed,
}
use ha_aiper_ble.Protocol.Decoder.Framing.{IsInner, drain-IsInner}

-- What holds of a decoder between two notifications.
pub record IsBounded (d : Decoder) : Type 0 where
  pub inner : All IsInner d.buffer
  pub buffer_fits : length d.buffer ≤ max_frame_bytes
  pub bytes_fit : d.total_bytes ≤ max_total_bytes
  pub count_fits : d.notifications ≤ max_notifications
  pub buffer_received : length d.buffer ≤ d.total_bytes

pub new_decoder-IsBounded : IsBounded new_decoder
new_decoder-IsBounded = omega arith

abbrev size : Option Bytes → ℕ
size none = 0
size (some bytes) = length bytes

length-item_bytes :
    (items : List (Option ℤ)) {bytes : Bytes}
    → item_bytes items ≡ some bytes
    → length bytes ≡ length items
unfolding item_bytes
length-item_bytes [] h = omega (arith, ap size h)
length-item_bytes (i ∷ items) h =
    let (b, one, more) = >>=-eq-some (item_byte i) _ h in
    let (bs, rest, whole) = >>=-eq-some (item_bytes items) _ more in
    omega (arith, length-item_bytes items rest, ap size whole)

abbrev count : List (Option ℤ) → Decoder → Decoder
count items d = record d {
  notifications = d.notifications + 1;
  total_bytes = d.total_bytes + length items;
}

module _ (loads : Bytes → Option Value) where
  limit_inversion :
      (d : Decoder) (m : Result (List Value) × Bytes) (vs : List Value) (d' : Decoder)
      → limit_buffer loads d m ≡ (ok vs, d')
      → (m ≡ (ok vs, d'.buffer))
        × (d'.total_bytes ≡ d.total_bytes)
        × (d'.notifications ≡ d.notifications)
        × (length d'.buffer ≤ max_frame_bytes)
  unfolding limit_buffer
  limit_inversion d (err e, buffer) vs d' h = ground arith
  limit_inversion d (ok us, buffer) vs d' h = ground arith

  accept_inversion :
      (over : Bool) (d : Decoder) (o : Option Bytes) (e : Exception) (vs : List Value)
      (d' : Decoder)
      → (if over then (err e, d) else feed_bytes loads d o) ≡ (ok vs, d')
      → (bytes : Bytes) × (over ≡ false)
        × (o ≡ some bytes)
        × (limit_buffer loads d (drain loads [] (d.buffer ++ bytes)) ≡ (ok vs, d'))
  unfolding feed_bytes
  accept_inversion true d o e vs d' h = ground arith
  accept_inversion false d none e vs d' h = ground arith
  accept_inversion false d (some bytes) e vs d' h = (bytes, refl, refl, h)

  -- What a notification that is accepted does to the decoder.
  pub feed_inversion :
      (items : List (Option ℤ)) (d : Decoder) (vs : List Value) (d' : Decoder)
      → feed loads (sequence items) d ≡ (ok vs, d')
      → (bytes : Bytes) × (item_bytes items ≡ some bytes)
        × (drain loads [] (d.buffer ++ bytes) ≡ (ok vs, d'.buffer))
        × (d'.total_bytes ≡ d.total_bytes + length items)
        × (d'.notifications ≡ d.notifications + 1)
        × (d'.total_bytes ≤ max_total_bytes)
        × (d'.notifications ≤ max_notifications)
        × (length d'.buffer ≤ max_frame_bytes)
  unfolding feed
  feed_inversion items d vs d' h =
      let (bytes, within, accepted, limited) =
        accept_inversion _ (count items d) (item_bytes items) _ vs d' h in
      let (drained, total, number, fits) =
        limit_inversion (count items d) (drain loads [] (d.buffer ++ bytes)) vs d' limited in
      (bytes, accepted, drained, total, number, ground arith, ground arith, fits)

  -- An accepted notification keeps every bound.
  pub feed-IsBounded :
      (items : List (Option ℤ)) (d : Decoder) (vs : List Value) (d' : Decoder)
      → IsBounded d
      → feed loads (sequence items) d ≡ (ok vs, d')
      → IsBounded d'
  feed-IsBounded items d vs d' v h =
      let (bytes, accepted, drained, total, number, total_fits, number_fits, fits) =
        feed_inversion items d vs d' h in
      let (inner, shorter) = drain-IsInner loads [] (d.buffer ++ bytes) vs d'.buffer tt drained in
      record {
        inner = inner;
        buffer_fits = fits;
        bytes_fit = total_fits;
        count_fits = number_fits;
        buffer_received = omega (
          arith,
          v.buffer_received,
          length-append d.buffer bytes,
          length-item_bytes items accepted,
        );
      }
