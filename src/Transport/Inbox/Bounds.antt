-- ===== src/Transport/Inbox/Bounds.antt =====
-- The queue of notifications is bounded, and what is not queued is flagged.
use ha_aiper_ble.Prelude.{
  ◌≤◌, ◌≡◌, refl, sym, ap, ◌∙◌, false, List, [], ◌∷◌, ◌++◌, map, arith, length, length-append, leb,
  if_elim,
}
use mathlib.Core.List.{append_assoc, append-nil}
use ha_aiper_ble.Protocol.Decoder.{Received}
use ha_aiper_ble.Transport.Inbox.{item_of, Inbox, queue_limit, put, put_all}

put-fits :
    (v : Received) (i : Inbox) → length i.queue ≤ queue_limit → length (put v i).queue ≤ queue_limit
unfolding put
put-fits v i h =
    if_elim (λ (j : Inbox). length j.queue ≤ queue_limit) (leb queue_limit (length i.queue))
      (λ full. h) (λ room. ground (arith, length-append i.queue (item_of v ∷ [])))

put-keeps :
    (v : Received) (i : Inbox)
    → (put v i).overflow ≡ false
    → (i.overflow ≡ false) × ((put v i).queue ≡ i.queue ++ item_of v ∷ [])
unfolding put
put-keeps v i =
    if_elim
      (λ (j : Inbox).
        j.overflow ≡ false → (i.overflow ≡ false) × (j.queue ≡ i.queue ++ item_of v ∷ []))
      (leb queue_limit (length i.queue)) (λ full h. cc) (λ room h. (h, refl))

put_all-keeps :
    (vs : List Received) (i : Inbox)
    → (put_all vs i).overflow ≡ false
    → (i.overflow ≡ false) × ((put_all vs i).queue ≡ i.queue ++ map item_of vs)
unfolding put_all
put_all-keeps [] i h = (h, sym (append-nil i.queue))
put_all-keeps (v ∷ vs) i h =
    let (later, rest) = put_all-keeps vs (put v i) h in
    let (fresh, one) = put-keeps v i later in
    (
      fresh,
      rest
          ∙ ap (λ q. q ++ map item_of vs) one
          ∙ append_assoc i.queue (item_of v ∷ []) (map item_of vs),
    )

-- However many notifications arrive, a queue that holds at most 32 of them still does; and unless the
-- overflow is flagged it holds, after what it held before, all that arrived, in order.
pub put_all-fits :
    (vs : List Received) (i : Inbox)
    → length i.queue ≤ queue_limit
    → (length (put_all vs i).queue ≤ queue_limit)
      × ((put_all vs i).overflow ≡ false → (put_all vs i).queue ≡ i.queue ++ map item_of vs)
unfolding put_all
put_all-fits [] i h = (h, λ a. sym (append-nil i.queue))
put_all-fits (v ∷ vs) i h =
    ((put_all-fits vs (put v i) (put-fits v i h)).0, λ a. (put_all-keeps (v ∷ vs) i a).1)
