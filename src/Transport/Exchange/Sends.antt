-- ===== src/Transport/Exchange/Sends.antt =====
-- What the try block of `query_once` (bluetooth_transport.py) sends, and after which checks.
use ha_aiper_ble.Prelude.{
  ℕ, ◌+◌, String, ◌≡◌, refl, sym, ap, ◌∙◌, ◌⊎◌, inl, inr, true, false, not, Option, none, some,
  List, [], ◌∷◌, ◌++◌, arith, length, ◌==◌, if_elim,
}
use ha_aiper_ble.Prelude.Text.{Bytes}
use mathlib.Core.List.{append-nil, append_assoc}
use ha_aiper_ble.Value.{Value}
use ha_aiper_ble.Outcome.{ok, result_elim}
use ha_aiper_ble.Target.{Target}
use ha_aiper_ble.Protocol.Codec.{chunks}
use ha_aiper_ble.Protocol.Query.{Request, query_frame}
use ha_aiper_ble.Protocol.Reply.{Floats}
use ha_aiper_ble.Transport.Routes.{Characteristic, validate_routes, endpoint}
use ha_aiper_ble.Transport.Session.{
  Failure, unexpected, failure_of, refusal_of, write_mode_of, allows_missing, Link, Session, Run,
  guard, phase, count_write, arrivals, write_all,
}
use ha_aiper_ble.Transport.Exchange.{listen, send, revalidate, exchange, attempt}
use ha_aiper_ble.Transport.Exchange.Keeps.{IsKept, IsAnswered, listen-IsHeard}

-- What the writes of `cs` come to: a first part of them was sent, and all of them if nothing was
-- raised.
pub record IsWriting (cs : List Bytes) (s : Session) (x : Run) : Type 0 where
  pub sent : List Bytes
  pub rest : List Bytes
  pub split : sent ++ rest ≡ cs
  pub written : x.1.written ≡ s.written ++ sent
  pub write_attempts :
      (n : ℕ)
      → s.report.write_attempts ≡ some n
      → x.1.report.write_attempts ≡ some (n + length sent)
  pub whole : x.0 ≡ none → rest ≡ []
  pub char : x.1.char ≡ s.char
  pub notify_attempted : x.1.notify_attempted ≡ s.notify_attempted

-- what a guarded part comes to: its refusal, or the part
pub guard_elim {ℓ} :
    (P : Run → Type ℓ) (o : Option Failure) (s : Session) (next : Session → Run)
    → ((e : Failure) → P (some e, s))
    → (o ≡ none → P (next s))
    → P (guard o s next)
guard_elim P none s next failed passed = passed refl
guard_elim P (some e) s next failed passed = failed e

pub not_refused : (o : Option String) → refusal_of o ≡ none → o ≡ none
unfolding refusal_of
not_refused none h = refl
not_refused (some code) h = cc

-- the chunks of a frame, if there is one
abbrev pieces : Option Bytes → List Bytes
pieces none = []
pieces (some frame) = chunks frame none

-- no write at all
no_write :
    (cs : List Bytes) (s : Session) (o : Option Failure)
    → (o ≡ none → cs ≡ [])
    → IsWriting cs s (o, s)
no_write cs s o h = record {
  sent = [];
  rest = cs;
  split = refl;
  written = sym (append-nil s.written);
  write_attempts = λ n same. ground arith;
  whole = h;
  char = refl;
  notify_attempted = refl;
}

-- one write, and then those of `cs`
one_more :
    (c : Bytes) (cs : List Bytes) (s t : Session) (x : Run)
    → t.written ≡ s.written ++ c ∷ []
    → ((n : ℕ) → s.report.write_attempts ≡ some n → t.report.write_attempts ≡ some (n + 1))
    → t.char ≡ s.char
    → t.notify_attempted ≡ s.notify_attempted
    → IsWriting cs t x
    → IsWriting (c ∷ cs) s x
one_more c cs s t x written attempts char notify h = record {
  sent = c ∷ h.sent;
  rest = h.rest;
  split = ap (λ r. c ∷ r) h.split;
  written = h.written ∙ ap (λ r. r ++ h.sent) written ∙ append_assoc s.written (c ∷ []) h.sent;
  write_attempts = λ n same. h.write_attempts (n + 1) (attempts n same) ∙ ap some (omega arith);
  whole = h.whole;
  char = h.char ∙ char;
  notify_attempted = h.notify_attempted ∙ notify;
}

write_all-IsWriting :
    (link : Link) (i : ℕ) (cs : List Bytes) (s : Session) → IsWriting cs s (write_all link i cs s)
unfolding write_all count_write arrivals
write_all-IsWriting link i [] s = no_write [] s none (λ a. refl)
write_all-IsWriting link i (c ∷ cs) s =
    let t = arrivals (link.writes i).arrived (count_write c s) in
    let further : (x : Run) → IsWriting cs t x → IsWriting (c ∷ cs) s x =
      λ x. one_more c cs s t x refl (λ n same. rw same refl) refl refl in
    if_elim (IsWriting (c ∷ cs) s) s.inbox.overflow (λ over. no_write (c ∷ cs) s _ (λ a. cc))
      (λ fits.
        guard_elim (IsWriting (c ∷ cs) s) (link.writes i).raised t
          (λ s'. write_all link (i + 1) cs s')
          (λ e. further (some e, t) (no_write cs t (some e) (λ a. cc)))
          (λ done. further _ (write_all-IsWriting link (i + 1) cs t)))

-- All that is checked before the first write.
pub record IsCleared (target : Target) (request : Request) (link : Link) : Type 0 where
  pub routes_before :
      validate_routes target (allows_missing request) false link.routes_before ≡ none
  pub guard_before : link.guard_before ≡ none
  pub established : link.established ≡ none
  pub routes_connected :
      validate_routes target (allows_missing request) true link.routes_connected ≡ none
  pub guard_connected : link.guard_connected ≡ none
  pub char : Characteristic
  pub endpoint_connected : endpoint (write_mode_of request) link.services_connected ≡ ok char
  pub started : link.started ≡ none
  pub routes_notifying :
      validate_routes target (allows_missing request) true link.routes_notifying ≡ none
  pub guard_notifying : link.guard_notifying ≡ none
  pub fresh : Characteristic
  pub endpoint_notifying : endpoint (write_mode_of request) link.services_notifying ≡ ok fresh
  pub same_handle : fresh.handle ≡ char.handle
  pub connected : link.is_connected ≡ true

-- What the try block comes to: what was sent, when anything may be, and how it was answered.
pub record IsTried (floats : Floats) (target : Target) (request : Request) (link : Link) (x : Run)
    : Type 0 where
  pub write_attempts : x.1.report.write_attempts ≡ some (length x.1.written)
  pub cleared : (x.1.written ≡ []) ⊎ IsCleared target request link
  pub prefix :
      (frame : Bytes)
      → query_frame request ≡ some frame
      → (rest : List Bytes) × (x.1.written ++ rest ≡ chunks frame none)
  pub answer : x.0 ≡ none → IsAnswered floats request x.1
  pub checked : x.0 ≡ none → IsCleared target request link
  pub sent :
      x.0 ≡ none
      → (frame : Bytes) × (query_frame request ≡ some frame) × (x.1.written ≡ chunks frame none)
  pub subscribed :
      x.0 ≡ none → (c : Characteristic) × (x.1.notify_attempted ≡ true) × (x.1.char ≡ some c)

-- Nothing has been written.
pub record IsUnsent (s : Session) : Type 0 where
  pub written : s.written ≡ []
  pub write_attempts : s.report.write_attempts ≡ some 0

module _ (floats : Floats) (loads : Bytes → Option Value) (request : Request) where
  stopped :
      (target : Target) (link : Link) (e : Failure) (s : Session)
      → IsUnsent s
      → IsTried floats target request link (some e, s)
  stopped target link e s h = record {
    write_attempts = h.write_attempts ∙ ap (λ w. some (length w)) (sym h.written);
    cleared = inl h.written;
    prefix = λ frame good. (chunks frame none, ap (λ w. w ++ chunks frame none) h.written);
    answer = λ a. cc;
    checked = λ a. cc;
    sent = λ a. cc;
    subscribed = λ a. cc;
  }

  -- what follows the writes, if it leaves alone what they did
  after_writes :
      (target : Target) (link : Link) (frame : Bytes) (c : Characteristic) (s : Session) (w x : Run)
      → query_frame request ≡ some frame
      → IsCleared target request link
      → IsUnsent s
      → s.notify_attempted ≡ true
      → s.char ≡ some c
      → IsWriting (chunks frame none) s w
      → IsKept w.1 x.1
      → (x.0 ≡ none → w.0 ≡ none)
      → (x.0 ≡ none → IsAnswered floats request x.1)
      → IsTried floats target request link x
  after_writes target link frame c s w x same clear h on has writing kept whole answer =
      let all_sent : x.1.written ≡ writing.sent =
        kept.written ∙ writing.written ∙ ap (λ u. u ++ writing.sent) h.written in
      let split : x.1.written ++ writing.rest ≡ chunks frame none =
        ap (λ u. u ++ writing.rest) all_sent ∙ writing.split in
      record {
        write_attempts =
            kept.write_attempts
            ∙ writing.write_attempts 0 h.write_attempts
            ∙ ap some (omega (arith, ap length all_sent));
        cleared = inr clear;
        prefix = λ f good. (writing.rest, split ∙ ap pieces (sym same ∙ good));
        answer = answer;
        checked = λ a. clear;
        sent = λ a. (
          frame,
          same,
          all_sent
              ∙ sym (append-nil writing.sent)
              ∙ ap (λ r. writing.sent ++ r) (sym (writing.whole (whole a)))
              ∙ writing.split,
        );
        subscribed = λ a. (
          c,
          kept.notify_attempted ∙ writing.notify_attempted ∙ on,
          kept.char ∙ writing.char ∙ has,
        );
      }

  send-IsTried :
      (target : Target) (link : Link) (o : Option Bytes) (c : Characteristic) (s : Session)
      → query_frame request ≡ o
      → IsCleared target request link
      → IsUnsent s
      → s.notify_attempted ≡ true
      → s.char ≡ some c
      → IsTried floats target request link (send floats loads request link o s)
  unfolding send phase
  send-IsTried target link none c s same clear h on has =
      stopped target link unexpected (phase "write" s)
        (record { written = h.written; write_attempts = h.write_attempts })
  send-IsTried target link (some frame) c s same clear h on has =
      let t = phase "write" s in
      let w = write_all link 0 (chunks frame none) t in
      let tried : (x : Run)
          → IsKept w.1 x.1
          → (x.0 ≡ none → w.0 ≡ none)
          → (x.0 ≡ none → IsAnswered floats request x.1)
          → IsTried floats target request link x =
        λ x.
          after_writes target link frame c t w x same clear
            (record { written = h.written; write_attempts = h.write_attempts }) on has
            (write_all-IsWriting link 0 (chunks frame none) t) in
      let heard = listen-IsHeard floats loads request link w.1 in
      guard_elim (IsTried floats target request link) w.0 w.1 (listen floats loads request link)
        (λ e.
          tried (some e, w.1)
            (record { char = refl; notify_attempted = refl; written = refl; write_attempts = refl })
            (λ a. cc) (λ a. cc))
        (λ done. tried _ heard.kept (λ a. done) heard.answer)

  revalidate-IsTried :
      (target : Target) (link : Link) (c : Characteristic) (s : Session)
      → ((fresh : Characteristic)
          → (refusal_of (validate_routes target (allows_missing request) true link.routes_notifying)
              ≡ none)
          → link.guard_notifying ≡ none
          → endpoint (write_mode_of request) link.services_notifying ≡ ok fresh
          → fresh.handle ≡ c.handle
          → link.is_connected ≡ true
          → IsCleared target request link)
      → IsUnsent s
      → s.notify_attempted ≡ true
      → s.char ≡ some c
      → IsTried floats target request link (revalidate floats loads request target link c s)
  unfolding revalidate phase
  revalidate-IsTried target link c s clear h on has =
      let t = phase "prewrite_validation" s in
      let unsent : IsUnsent t = record { written = h.written; write_attempts = h.write_attempts } in
      let P = IsTried floats target request link in
      let stop : (e : Failure) → P (some e, t) = λ e. stopped target link e t unsent in
      guard_elim P _ t _ stop λ routes. guard_elim P link.guard_notifying t _ stop λ guarded.
        result_elim P (endpoint (write_mode_of request) link.services_notifying) _ _
          (λ e raised. stop (failure_of e))
          λ fresh found.
            if_elim P (not (fresh.handle == c.handle)) (λ changed. stop _)
              λ same.
                if_elim P (not link.is_connected) (λ lost. stop _)
                  λ connected.
                    send-IsTried target link (query_frame request) c t refl
                      (clear fresh routes guarded found (ground arith) (ground arith)) unsent on has

  exchange-IsTried :
      (target : Target) (link : Link) (s : Session)
      → (refusal_of (validate_routes target (allows_missing request) false link.routes_before)
          ≡ none)
      → link.guard_before ≡ none
      → link.established ≡ none
      → IsUnsent s
      → IsTried floats target request link (exchange floats loads request target link s)
  unfolding exchange phase
  exchange-IsTried target link s routes_before guard_before established h =
      let t = phase "connected_route_validation" s in
      let P = IsTried floats target request link in
      let unsent : IsUnsent t = record { written = h.written; write_attempts = h.write_attempts } in
      let stop : (e : Failure) → P (some e, t) = λ e. stopped target link e t unsent in
      guard_elim P _ t _ stop λ routes_connected.
        guard_elim P link.guard_connected t _ stop λ guard_connected.
          result_elim P (endpoint (write_mode_of request) link.services_connected) _ _
            (λ e raised.
              stopped target link (failure_of e) _
                (record { written = h.written; write_attempts = h.write_attempts }))
            λ c found.
              let v = phase "start_notify" (record (phase "endpoint_validation" t) {
                char = some c;
                notify_attempted = true;
              }) in
              guard_elim P link.started v _
                (λ e.
                  stopped target link e v
                    (record { written = h.written; write_attempts = h.write_attempts }))
                λ started.
                  revalidate-IsTried target link c v
                    (λ fresh routes_notifying guard_notifying again same connected. record {
                      routes_before = not_refused _ routes_before;
                      guard_before = guard_before;
                      established = established;
                      routes_connected = not_refused _ routes_connected;
                      guard_connected = guard_connected;
                      char = c;
                      endpoint_connected = found;
                      started = started;
                      routes_notifying = not_refused _ routes_notifying;
                      guard_notifying = guard_notifying;
                      fresh = fresh;
                      endpoint_notifying = again;
                      same_handle = same;
                      connected = connected;
                    })
                    (record { written = h.written; write_attempts = h.write_attempts }) refl refl

  pub attempt-IsTried :
      (target : Target) (link : Link) (s : Session)
      → IsUnsent s
      → IsTried floats target request link (attempt floats loads request target link s)
  unfolding attempt phase
  attempt-IsTried target link s h =
      let P = IsTried floats target request link in
      let stop : (e : Failure) → P (some e, s) = λ e. stopped target link e s h in
      guard_elim P _ s _ stop λ routes_before.
        guard_elim P link.guard_before s _ stop λ guard_before.
          let t = phase "connect" s in
          guard_elim P link.established t _
            (λ e.
              stopped target link e t
                (record { written = h.written; write_attempts = h.write_attempts }))
            λ established.
              exchange-IsTried target link t routes_before guard_before established
                (record { written = h.written; write_attempts = h.write_attempts })
