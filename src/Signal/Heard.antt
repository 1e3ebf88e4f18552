-- ===== src/Signal/Heard.antt =====
-- The last reading of a signal monitor, against the events that it was told of.
use ha_aiper_ble.Prelude.{
  ℕ, ◌≡◌, refl, ap, ◌∙◌, Bool, true, false, not, ◌&&◌, Option, none, some, List, [], ◌∷◌,
  if◌then◌else◌, if_elim,
}
use ha_aiper_ble.Prelude.Int.{ℤ, pos, negsuc, leb_ℤ}
use ha_aiper_ble.Signal.{
  Info, Monitor, number, observed, observe, publish, unavailable, same_reading, is_due,
  advertisement, sample, async_start, async_stop, Event, start, stop, advertised, sampled, lost,
  handle,
}
use ha_aiper_ble.Signal.Runs.{handle_all, IsTrue, handle_all-kept}

-- an advertised signal, if it is a number from -127 to 20, or else the reading before
unfoldable pub heard_signal : Option ℤ → Option ℤ → Option ℤ
heard_signal none before = before
heard_signal (some n) before = if leb_ℤ (negsuc 126) n && leb_ℤ n (pos 20) then some n else before

-- The last reading that an event leaves, read off the event alone: a loss, or a sample that finds
-- nothing, leaves none.
unfoldable pub heard : Event → Option ℤ → Option ℤ
unfolding heard_signal
heard (start registered) before = before
heard stop before = before
heard (advertised now utcnow info) before = heard_signal info.rssi before
heard (sampled now utcnow none) before = none
heard (sampled now utcnow (some info)) before = heard_signal info.rssi before
heard (lost now) before = none

unfoldable pub heard_all : List Event → Option ℤ → Option ℤ
unfolding heard
heard_all [] before = before
heard_all (e ∷ es) before = heard_all es (heard e before)

advertisement-rssi :
    (now utcnow : ℕ) (info : Info) (m : Monitor)
    → (advertisement now utcnow info m).rssi ≡ (observe utcnow info m).1.rssi
unfolding advertisement publish
advertisement-rssi now utcnow info m =
    let x = observe utcnow info m in
    if_elim (λ (y : Monitor). y.rssi ≡ x.1.rssi)
      (x.0 && not (same_reading x.1.rssi x.1.published) && is_due now x.1) (λ go. refl)
      (λ wait. refl)

sample-rssi :
    (now utcnow : ℕ) (info : Info) (m : Monitor)
    → (sample now utcnow (some info) m).rssi ≡ (observe utcnow info m).1.rssi
unfolding sample publish
sample-rssi now utcnow info m =
    let x = observe utcnow info m in
    if_elim (λ (y : Monitor). y.rssi ≡ x.1.rssi) (x.0 && not (same_reading x.1.rssi x.1.published))
      (λ go. refl) (λ wait. refl)

observed-none :
    (utcnow : ℕ) (info : Info) (m : Monitor) → (observed utcnow info m none).1.rssi ≡ m.rssi
unfolding observed
observed-none utcnow info m = refl

observed-if :
    (utcnow : ℕ) (info : Info) (m : Monitor) (n : ℤ) (b : Bool)
    → (observed utcnow info m (if b then some n else none)).1.rssi ≡ (if b then some n else m.rssi)
unfolding observed
observed-if utcnow info m n true = refl
observed-if utcnow info m n false = refl

observed-number :
    (utcnow : ℕ) (info : Info) (m : Monitor) (o : Option ℤ)
    → (observed utcnow info m (number o (negsuc 126) (pos 20))).1.rssi ≡ heard_signal o m.rssi
unfolding number heard_signal
observed-number utcnow info m none = observed-none utcnow info m
observed-number utcnow info m (some n) =
    observed-if utcnow info m n (leb_ℤ (negsuc 126) n && leb_ℤ n (pos 20))

observe-rssi :
    (utcnow : ℕ) (info : Info) (m : Monitor)
    → (observe utcnow info m).1.rssi ≡ heard_signal info.rssi m.rssi
unfolding observe
observe-rssi utcnow info m = observed-number utcnow info m info.rssi

lost-rssi : (now : ℕ) (m : Monitor) → (unavailable now m).rssi ≡ none
unfolding unavailable publish
lost-rssi now m = refl

settled-rssi :
    (now : ℕ) (m : Monitor) (o : Option ℤ)
    → m.rssi ≡ o
    → let x : Monitor = elim o [ none ↦ m | some n ↦ unavailable now m ] in x.rssi ≡ none
settled-rssi now m none h = h
settled-rssi now m (some n) h = lost-rssi now m

handle-rssi : (e : Event) (m : Monitor) → (handle e m).rssi ≡ heard e m.rssi
unfolding handle async_start async_stop sample heard
handle-rssi (start registered) m = refl
handle-rssi stop m = refl
handle-rssi (advertised now utcnow info) m =
    advertisement-rssi now utcnow info m ∙ observe-rssi utcnow info m
handle-rssi (sampled now utcnow none) m = settled-rssi now m m.rssi refl
handle-rssi (sampled now utcnow (some info)) m =
    sample-rssi now utcnow info m ∙ observe-rssi utcnow info m
handle-rssi (lost now) m = lost-rssi now m

handle_all-rssi : (es : List Event) (m : Monitor) → (handle_all es m).rssi ≡ heard_all es m.rssi
unfolding handle_all heard_all
handle_all-rssi [] m = refl
handle_all-rssi (e ∷ es) m = handle_all-rssi es (handle e m) ∙ ap (heard_all es) (handle-rssi e m)

-- After any run of events, the last reading is the one that the events alone tell, none after a loss;
-- the entities show no signal if there is none, and show what they were last told; and every signal
-- that is kept or shown lies between -127 and 20. The last two parts hold if they held before.
pub handle_all-IsTrue :
    (es : List Event) (m : Monitor)
    → IsTrue m
    → ((handle_all es m).rssi ≡ heard_all es m.rssi) × IsTrue (handle_all es m)
handle_all-IsTrue es m v = (handle_all-rssi es m, handle_all-kept es m v)
