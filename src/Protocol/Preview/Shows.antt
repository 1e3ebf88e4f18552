-- ===== src/Protocol/Preview/Shows.antt =====
-- What a preview shows is what the request would send.
use ha_aiper_ble.Prelude.{◌≡◌, refl, ap, ◌∙◌, Option, some, [], ◌∷◌, ◌++◌, arith, length, All}
use ha_aiper_ble.Prelude.Text.{Bytes}
use ha_aiper_ble.Value.{Value}
use ha_aiper_ble.Protocol.Codec.{xor, b64encode, b64decode}
use ha_aiper_ble.Protocol.Crc.Detect.{IsByte}
use ha_aiper_ble.Protocol.Codec.Laws.{
  IsPrintable, b64encode-IsPrintable, b64decode-b64encode, xor_involutive, xor-bytes,
}
use ha_aiper_ble.Protocol.Query.{Request, command_bytes, wire_frame, query_frame}
use ha_aiper_ble.Protocol.Preview.{
  Preview, skip_line_breaks, unmask, request_text, read_text, preview_of, preview,
}

skip_line_breaks-append :
    (frame : Bytes) → All IsPrintable frame → skip_line_breaks (frame ++ 10 ∷ []) ≡ frame
unfolding skip_line_breaks
skip_line_breaks-append [] h = refl
skip_line_breaks-append (b ∷ frame) h =
    let rest = skip_line_breaks-append frame h.1 in let visible = h.0 in ground arith

request_text-wire_frame :
    (encoded : Bytes) → All IsByte encoded → request_text (wire_frame encoded) ≡ some encoded
unfolding request_text wire_frame
request_text-wire_frame encoded h =
    let plain = xor-bytes encoded h in
    ap (λ s. unmask (b64decode s))
      (skip_line_breaks-append (b64encode (xor encoded))
        (b64encode-IsPrintable (xor encoded) plain))
    ∙ ap unmask (b64decode-b64encode (xor encoded) plain)
    ∙ ap some (xor_involutive encoded)

-- The JSON that the preview of a request shows is what its command's text parses to, and the number
-- of bytes is that of the frame that would be sent.
pub preview_lem :
    (loads : Bytes → Option Value) (r : Request) (encoded : Bytes)
    → command_bytes r ≡ some encoded
    → All IsByte encoded
    → (p : Preview) × (preview loads r ≡ some p)
      × (p.request_json ≡ loads encoded)
      × (p.request_bytes ≡ length (wire_frame encoded))
unfolding preview query_frame preview_of
preview_lem loads r encoded h bytes = (
  preview_of loads r (wire_frame encoded),
  rw h refl,
  ap (read_text loads) (request_text-wire_frame encoded bytes),
  refl,
)
