-- ===== src/Bluez/Exchange/Ends.antt =====
-- How `QueryBluez.query_once` (telemetry.py) ends: an exchange that raises nothing was answered.
use ha_aiper_ble.Prelude.{◌≡◌, refl, ap, ◌∙◌, Option, none, some, List, [], ◌∷◌, if_elim}
use ha_aiper_ble.Prelude.Text.{Text, Bytes}
use ha_aiper_ble.Value.{Value, Fields, obj}
use ha_aiper_ble.Outcome.{ok}
use ha_aiper_ble.Protocol.Query.{Request}
use ha_aiper_ble.Protocol.Reply.{Floats}
use ha_aiper_ble.Protocol.Telemetry.{query_telemetry}
use ha_aiper_ble.Transport.Inbox.{Item, Offered, refused, unmatched, matched, take_item}
use ha_aiper_ble.Transport.Exchange.Keeps.{take_item-matched}
use ha_aiper_ble.Bluez.Query.{
  Wait, arrive, stop, Session, Run, Progress, raised, answered, waiting, complete, after_item,
  take_one, consume, after_progress, consume_first, await_answer, arrivals,
}

module _ (floats : Floats) (request : Request) where
  -- The report holds an object that `query_telemetry` takes as the answer to the request, and says so.
  pub record IsAnswered (s : Session) : Type 0 where
    pub fields : Fields
    pub candidates : Fields
    pub kept : s.report.protocol_response ≡ some (obj fields)
    pub matching : query_telemetry floats fields request ≡ ok (some candidates)
    pub status : s.report.status ≡ some "query_complete"

  module _ (loads : Bytes → Option Value) where
    -- what the loop leaves alone, and what it says if it ends with an answer
    abbrev pub IsListened : Session → Progress × Session → Type 0
    IsListened s x = (x.1.notify_attempted ≡ s.notify_attempted) × (x.0 ≡ answered → IsAnswered x.1)

    abbrev pub IsHeard : Session → Run → Type 0
    IsHeard s x = (x.1.notify_attempted ≡ s.notify_attempted) × (x.0 ≡ none → IsAnswered x.1)

    after_item-IsListened :
        (o : Offered) (s : Session) (next : Session → Progress × Session)
        → ((response : Value)
            → o ≡ matched response
            → (fields : Fields) × (candidates : Fields) × (response ≡ obj fields)
              × (query_telemetry floats fields request ≡ ok (some candidates)))
        → IsListened s (next s)
        → IsListened s (after_item floats loads request o s next)
    unfolding complete
    after_item-IsListened (refused e) s next found h = (refl, λ a. cc)
    after_item-IsListened unmatched s next found h = h
    after_item-IsListened (matched response) s next found h =
        let (fields, candidates, same, good) = found response refl in
        (
          refl,
          λ a. record {
            fields = fields;
            candidates = candidates;
            kept = ap some same;
            matching = good;
            status = refl;
          },
        )

    take_one-IsListened :
        (item : Item) (s : Session) (next : Session → Progress × Session)
        → ((t : Session) → IsListened t (next t))
        → IsListened s (take_one floats loads request item s next)
    unfolding take_one
    take_one-IsListened item s next later =
        let x = take_item floats request loads item s.decoder in
        let t = record s { decoder = x.1 } in
        after_item-IsListened x.0 t next (take_item-matched floats request loads item s.decoder)
          (later t)

    pub consume-IsListened :
        (items : List Item) (s : Session) → IsListened s (consume floats loads request items s)
    unfolding consume
    consume-IsListened [] s =
        if_elim (IsListened s) s.inbox.overflow (λ over. (refl, λ a. cc)) (λ fits. (refl, λ a. cc))
    consume-IsListened (item ∷ rest) s =
        if_elim (IsListened s) s.inbox.overflow (λ over. (refl, λ a. cc))
          (λ fits.
            take_one-IsListened item (record s { inbox = record s.inbox { queue = rest } })
              (consume floats loads request rest) (consume-IsListened rest))

    pub after_progress-IsHeard :
        (s : Session) (x : Progress × Session) (next : Session → Run)
        → IsListened s x
        → ((t : Session) → IsHeard t (next t))
        → IsHeard s (after_progress floats loads request x next)
    after_progress-IsHeard s (raised e, t) next h later = (h.0, λ a. cc)
    after_progress-IsHeard s (answered, t) next h later = (h.0, λ a. h.1 refl)
    after_progress-IsHeard s (waiting, t) next h later = ((later t).0 ∙ h.0, (later t).1)

    consume_first-IsListened :
        (items : List Item) (s : Session)
        → IsListened s (consume_first floats loads request items s)
    unfolding consume_first
    consume_first-IsListened [] s = (refl, λ a. cc)
    consume_first-IsListened (item ∷ rest) s =
        take_one-IsListened item (record s { inbox = record s.inbox { queue = rest } })
          (consume floats loads request rest) (consume-IsListened rest)

    pub await_answer-IsHeard :
        (owner path : Text) (waits : List Wait) (s : Session)
        → IsHeard s (await_answer floats loads request owner path waits s)
    unfolding await_answer arrivals
    await_answer-IsHeard owner path [] s = (refl, λ a. cc)
    await_answer-IsHeard owner path (stop e ∷ rest) s = (refl, λ a. cc)
    await_answer-IsHeard owner path (arrive ms ∷ rest) s =
        let t = arrivals owner path ms s in
        after_progress-IsHeard t (consume_first floats loads request t.inbox.queue t)
          (await_answer floats loads request owner path rest)
          (consume_first-IsListened t.inbox.queue t) (await_answer-IsHeard owner path rest)
