-- ===== src/Transport/Exchange/Keeps.antt =====
-- What the loop that waits for the answer leaves of a session.
use ha_aiper_ble.Prelude.{
  ◌≡◌, refl, ap, ◌∙◌, ◌⊎◌, inl, inr, Option, none, some, List, [], ◌∷◌, if_elim,
}
use ha_aiper_ble.Prelude.Text.{Bytes}
use ha_aiper_ble.Value.{Value, Fields, obj}
use ha_aiper_ble.Outcome.{Result, ok, err}
use ha_aiper_ble.Protocol.Query.{Request}
use ha_aiper_ble.Protocol.Decoder.{Decoder}
use ha_aiper_ble.Protocol.Reply.{Floats}
use ha_aiper_ble.Protocol.Evidence.{response_evidence}
use ha_aiper_ble.Protocol.Telemetry.{query_telemetry}
use ha_aiper_ble.Transport.Inbox.{
  Item, Offered, refused, unmatched, matched, offer, take_item, offer_result,
}
use ha_aiper_ble.Transport.Session.{Wait, arrive, interrupt, Link, Session, Run, phase, arrivals}
use ha_aiper_ble.Transport.Exchange.{
  Progress, raised, answered, waiting, complete, after_item, consume, after_progress, await_answer,
  listen,
}

-- What the loop leaves alone.
pub record IsKept (s s' : Session) : Type 0 where
  pub char : s'.char ≡ s.char
  pub notify_attempted : s'.notify_attempted ≡ s.notify_attempted
  pub written : s'.written ≡ s.written
  pub write_attempts : s'.report.write_attempts ≡ s.report.write_attempts

-- An object that `query_telemetry` takes as the answer to the request is in the report.
pub record IsAnswered (floats : Floats) (request : Request) (s : Session) : Type 0 where
  pub fields : Fields
  pub candidates : Fields
  pub kept : s.report.protocol_response ≡ some (obj fields)
  pub matching : query_telemetry floats fields request ≡ ok (some candidates)
  pub status : s.report.status ≡ some "query_complete"

IsKept-refl : (s : Session) → IsKept s s
IsKept-refl s = record {
  char = refl;
  notify_attempted = refl;
  written = refl;
  write_attempts = refl;
}

IsKept-trans : {s t u : Session} → IsKept s t → IsKept t u → IsKept s u
IsKept-trans h k = record {
  char = k.char ∙ h.char;
  notify_attempted = k.notify_attempted ∙ h.notify_attempted;
  written = k.written ∙ h.written;
  write_attempts = k.write_attempts ∙ h.write_attempts;
}

-- what one decoded object is to the loop, by the two checks of it
offer_inversion {ℓ} :
    {E : Type ℓ} (e : Result E) (q : Result (Option Fields)) (others : Offered) (fields : Fields)
    (response : Value)
    → (elim e [
      | err x ↦ refused x
      | ok evidence ↦ elim q [
        | err x ↦ refused x
        | ok none ↦ others
        | ok (some candidates) ↦ matched (obj fields)
      ]
    ])
      ≡ matched response
    → (others ≡ matched response)
      ⊎ ((candidates : Fields) × (response ≡ obj fields) × (q ≡ ok (some candidates)))
offer_inversion (err x) q others fields response h = cc
offer_inversion (ok evidence) (err x) others fields response h = cc
offer_inversion (ok evidence) (ok none) others fields response h = inl h
offer_inversion (ok evidence) (ok (some c)) others fields response h = inr (c, cc, refl)

module _ (floats : Floats) (request : Request) where
  -- what `offer` calls a match is one
  pub offer-matched :
      (values : List Value) (response : Value)
      → offer floats request values ≡ matched response
      → (fields : Fields) × (candidates : Fields) × (response ≡ obj fields)
        × (query_telemetry floats fields request ≡ ok (some candidates))
  unfolding offer
  offer-matched [] response h = cc
  offer-matched (obj fields ∷ rest) response h =
      elim (offer_inversion (response_evidence fields request)
        (query_telemetry floats fields request) (offer floats request rest) fields response h) [
          | inl later ↦ offer-matched rest response later
          | inr (candidates, same, good) ↦ (fields, candidates, same, good)
        ]
  offer-matched (_ ∷ rest) response h = cc

  offer_result-matched :
      (r : Result (List Value)) (response : Value)
      → offer_result floats request r ≡ matched response
      → (fields : Fields) × (candidates : Fields) × (response ≡ obj fields)
        × (query_telemetry floats fields request ≡ ok (some candidates))
  offer_result-matched (err e) response h = cc
  offer_result-matched (ok values) response h = offer-matched values response h

  pub take_item-matched :
      (loads : Bytes → Option Value) (item : Item) (d : Decoder) (response : Value)
      → (take_item floats request loads item d).0 ≡ matched response
      → (fields : Fields) × (candidates : Fields) × (response ≡ obj fields)
        × (query_telemetry floats fields request ≡ ok (some candidates))
  unfolding take_item
  take_item-matched loads item d response h = offer_result-matched _ response h

-- What a part of the loop does: what it leaves alone, and an answer if it says so.
pub record IsListened (floats : Floats) (request : Request) (s : Session) (x : Progress × Session)
    : Type 0 where
  pub kept : IsKept s x.1
  pub answer : x.0 ≡ answered → IsAnswered floats request x.1

pub record IsHeard (floats : Floats) (request : Request) (s : Session) (x : Run) : Type 0 where
  pub kept : IsKept s x.1
  pub answer : x.0 ≡ none → IsAnswered floats request x.1

module _ (floats : Floats) (loads : Bytes → Option Value) (request : Request) where
  after_item-IsListened :
      (o : Offered) (s : Session) (next : Session → Progress × Session)
      → ((response : Value)
          → o ≡ matched response
          → (fields : Fields) × (candidates : Fields) × (response ≡ obj fields)
            × (query_telemetry floats fields request ≡ ok (some candidates)))
      → IsListened floats request s (next s)
      → IsListened floats request s (after_item floats loads request o s next)
  unfolding complete
  after_item-IsListened (refused e) s next found h = record {
    kept = IsKept-refl s;
    answer = λ a. cc;
  }
  after_item-IsListened unmatched s next found h = h
  after_item-IsListened (matched response) s next found h =
      let (fields, candidates, same, good) = found response refl in
      record {
        kept = record {
          char = refl;
          notify_attempted = refl;
          written = refl;
          write_attempts = refl;
        };
        answer = λ a. record {
          fields = fields;
          candidates = candidates;
          kept = ap some same;
          matching = good;
          status = refl;
        };
      }

  pub consume-IsListened :
      (items : List Item) (s : Session)
      → IsListened floats request s (consume floats loads request items s)
  unfolding consume phase
  consume-IsListened [] s = record {
    kept = record { char = refl; notify_attempted = refl; written = refl; write_attempts = refl };
    answer = λ a. cc;
  }
  consume-IsListened (item ∷ rest) s =
      let decoding = phase "decode" (record s { inbox = record s.inbox { queue = rest } }) in
      let taken = take_item floats request loads item s.decoder in
      let t = record decoding { decoder = taken.1 } in
      let later = consume-IsListened rest t in
      let h =
        after_item-IsListened taken.0 t (consume floats loads request rest)
          (take_item-matched floats request loads item s.decoder) later in
      if_elim (λ x. IsListened floats request s x) s.inbox.overflow
        (λ over. record {
          kept = record {
            char = refl;
            notify_attempted = refl;
            written = refl;
            write_attempts = refl;
          };
          answer = λ a. cc;
        })
        (λ fits. record {
          kept =
              IsKept-trans
                (record {
                  char = refl;
                  notify_attempted = refl;
                  written = refl;
                  write_attempts = refl;
                })
                h.kept;
          answer = h.answer;
        })

  after_progress-IsHeard :
      (s : Session) (x : Progress × Session) (next : Session → Run)
      → IsListened floats request s x
      → ((t : Session) → IsHeard floats request t (next t))
      → IsHeard floats request s (after_progress floats loads request x next)
  after_progress-IsHeard s (raised e, t) next h later = record { kept = h.kept; answer = λ a. cc }
  after_progress-IsHeard s (answered, t) next h later = record {
    kept = h.kept;
    answer = λ a. h.answer refl;
  }
  after_progress-IsHeard s (waiting, t) next h later = record {
    kept = IsKept-trans h.kept (later t).kept;
    answer = (later t).answer;
  }

  pub await_answer-IsHeard :
      (waits : List Wait) (s : Session)
      → IsHeard floats request s (await_answer floats loads request waits s)
  unfolding await_answer phase arrivals
  await_answer-IsHeard [] s = record {
    kept = record { char = refl; notify_attempted = refl; written = refl; write_attempts = refl };
    answer = λ a. cc;
  }
  await_answer-IsHeard (interrupt e ∷ rest) s = record {
    kept = record { char = refl; notify_attempted = refl; written = refl; write_attempts = refl };
    answer = λ a. cc;
  }
  await_answer-IsHeard (arrive values ∷ rest) s =
      let t = arrivals values (phase "wait_response" s) in
      let h =
        after_progress-IsHeard t (consume floats loads request t.inbox.queue t)
          (await_answer floats loads request rest) (consume-IsListened t.inbox.queue t)
          (await_answer-IsHeard rest) in
      record {
        kept =
            IsKept-trans
              (record {
                char = refl;
                notify_attempted = refl;
                written = refl;
                write_attempts = refl;
              })
              h.kept;
        answer = h.answer;
      }

  pub listen-IsHeard :
      (link : Link) (s : Session) → IsHeard floats request s (listen floats loads request link s)
  unfolding listen
  listen-IsHeard link s =
      after_progress-IsHeard s (consume floats loads request s.inbox.queue s)
        (await_answer floats loads request link.waits) (consume-IsListened s.inbox.queue s)
        (await_answer-IsHeard link.waits)
