-- ===== src/Proxy/Capture/Bounds.antt =====
-- What a capture of proxy_trace.py holds after any lines.
use ha_aiper_ble.Prelude.{
  ℕ, ◌+◌, ◌≤◌, ◌<◌, ◌≡◌, refl, true, false, not, ◌||◌, Option, List, [], ◌∷◌, arith, length, All,
  ltb, leb, if_elim,
}
use ha_aiper_ble.Prelude.Text.{Text, Bytes}
use ha_aiper_ble.Proxy.Lines.{strip_ansi, strip_end}
use ha_aiper_ble.Proxy.Capture.{max_events, max_lines, max_bytes, max_line_bytes, Capture, receive}
use ha_aiper_ble.Proxy.Capture.Grows.{IsKnown, Grows, Grows-set}
use ha_aiper_ble.Proxy.Capture.Steps.{Grows-receive_text}

pub record IsBounded (c : Capture) : Type 0 where
  pub few : length c.events ≤ 128
  pub lines : c.lines_seen ≤ 2049
  pub within : c.accepting ≡ true → (c.lines_seen ≤ 2048) × (c.bytes_seen ≤ 262144)
  pub flagged : c.accepting ≡ false → c.limit_reached ≡ true
  pub known : All IsKnown c.events

-- the captured lines, in order
unfoldable pub receive_all : (ℕ → Option ℕ) → (Bytes → Text) → List Bytes → Capture → Capture
unfolding receive
receive_all digit_of decode [] c = c
receive_all digit_of decode (raw ∷ raws) c =
    receive_all digit_of decode raws (receive digit_of decode raw c)

-- a line that is not over the limits
taken :
    (c c' : Capture) (lines bytes : ℕ)
    → IsBounded c
    → lines ≤ max_lines
    → bytes ≤ max_bytes
    → length c.events < max_events
    → c.accepting ≡ true
    → Grows (record c { lines_seen = lines; bytes_seen = bytes }) c'
    → IsBounded c'
taken c c' lines bytes v few_lines few_bytes room on g = record {
  few = let more = g.few in omega arith;
  lines = let same = g.lines in omega arith;
  within = λ h. let a = g.lines in let b = g.bytes in (omega arith, omega arith);
  flagged = λ h. let same = g.accepts in cc;
  known = g.known v.known;
}

pub receive-IsBounded :
    (digit_of : ℕ → Option ℕ) (decode : Bytes → Text) (raw : Bytes) (c : Capture)
    → IsBounded c
    → IsBounded (receive digit_of decode raw c)
unfolding receive
receive-IsBounded digit_of decode raw c v =
    if_elim IsBounded (not c.accepting) (λ off. v)
      λ on.
        if_elim IsBounded
          (ltb max_lines (c.lines_seen + 1)
            || ltb max_bytes (c.bytes_seen + length raw)
            || leb max_events (length c.events))
          (λ over. record {
            few = v.few;
            lines = let (few_lines, few_bytes) = v.within (ground arith) in omega arith;
            within = λ h. cc;
            flagged = λ h. refl;
            known = v.known;
          })
          λ under.
            let accepts : c.accepting ≡ true = ground arith in
            let few_lines : c.lines_seen + 1 ≤ max_lines = ground arith in
            let few_bytes : c.bytes_seen + length raw ≤ max_bytes = ground arith in
            let room : length c.events < max_events = ground arith in
            if_elim IsBounded (ltb max_line_bytes (length raw))
              (λ long.
                taken c _ _ _ v few_lines few_bytes room accepts (Grows-set _ c.bound_slot _))
              (λ short. taken c _ _ _ v few_lines few_bytes room accepts (
                Grows-receive_text digit_of
                  (strip_end (strip_ansi (length (decode raw)) (decode raw))) _))

pub receive_all-IsBounded :
    (digit_of : ℕ → Option ℕ) (decode : Bytes → Text) (raws : List Bytes) (c : Capture)
    → IsBounded c
    → IsBounded (receive_all digit_of decode raws c)
unfolding receive_all
receive_all-IsBounded digit_of decode [] c v = v
receive_all-IsBounded digit_of decode (raw ∷ raws) c v =
    receive_all-IsBounded digit_of decode raws (receive digit_of decode raw c)
      (receive-IsBounded digit_of decode raw c v)
