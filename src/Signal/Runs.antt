-- ===== src/Signal/Runs.antt =====
-- What holds of a signal monitor after any run of events.
use ha_aiper_ble.Prelude.{
  ℕ, ◌≡◌, refl, sym, ap, ◌∙◌, true, not, ◌&&◌, Option, none, some, List, [], ◌∷◌, ◌++◌, both,
  if_elim,
}
use ha_aiper_ble.Prelude.Int.{ℤ, pos, negsuc, leb_ℤ}
use ha_aiper_ble.Signal.{
  Info, Monitor, number, observed, observe, publish, unavailable, same_reading, is_due,
  advertisement, sample, async_start, async_stop, Event, start, stop, advertised, sampled, lost,
  handle,
}

unfoldable pub handle_all : List Event → Monitor → Monitor
unfolding handle
handle_all [] m = m
handle_all (e ∷ es) m = handle_all es (handle e m)

-- a reading that may be shown
abbrev pub IsPlausible : Option ℤ → Type 0
IsPlausible o = (n : ℤ) → o ≡ some n → (leb_ℤ (negsuc 126) n ≡ true) × (leb_ℤ n (pos 20) ≡ true)

-- What the listeners were last called for; nothing is shown before the first call.
unfoldable pub last_told : List (Option ℤ) → Option ℤ
last_told [] = none
last_told (o ∷ []) = o
last_told (o ∷ o' ∷ os) = last_told (o' ∷ os)

pub last_told-append : (os : List (Option ℤ)) (o : Option ℤ) → last_told (os ++ o ∷ []) ≡ o
unfolding last_told
last_told-append [] o = refl
last_told-append (a ∷ []) o = refl
last_told-append (a ∷ b ∷ os) o = last_told-append (b ∷ os) o

pub record IsTrue (m : Monitor) : Type 0 where
  pub told : last_told m.notified ≡ m.published
  pub lost_is_published : m.rssi ≡ none → m.published ≡ none
  pub plausible : IsPlausible m.rssi
  pub shown_plausible : IsPlausible m.published

within :
    (k n : ℤ)
    → some k ≡ some n
    → (leb_ℤ (negsuc 126) k ≡ true) × (leb_ℤ k (pos 20) ≡ true)
    → (leb_ℤ (negsuc 126) n ≡ true) × (leb_ℤ n (pos 20) ≡ true)
within k n h fits =
    let same : k ≡ n = ap (λ (o : Option ℤ). elim o [ none ↦ k | some x ↦ x ]) h in
    (ap (leb_ℤ (negsuc 126)) (sym same) ∙ fits.0, ap (λ x. leb_ℤ x (pos 20)) (sym same) ∙ fits.1)

number-IsPlausible : (o : Option ℤ) → IsPlausible (number o (negsuc 126) (pos 20))
unfolding number
number-IsPlausible none = λ n h. cc
number-IsPlausible (some k) =
    if_elim IsPlausible (leb_ℤ (negsuc 126) k && leb_ℤ k (pos 20))
      (λ fits n h. within k n h (both _ _ fits)) (λ out n h. cc)

publish-IsTrue : (now : ℕ) (m : Monitor) → IsPlausible m.rssi → IsTrue (publish now m)
unfolding publish
publish-IsTrue now m h = record {
  told = last_told-append m.notified m.rssi;
  lost_is_published = λ a. a;
  plausible = h;
  shown_plausible = h;
}

unavailable-IsTrue : (now : ℕ) (m : Monitor) → IsTrue (unavailable now m)
unfolding unavailable publish
unavailable-IsTrue now m = record {
  told = last_told-append m.notified none;
  lost_is_published = λ a. refl;
  plausible = λ n h. cc;
  shown_plausible = λ n h. cc;
}

observed-IsTrue :
    (utcnow : ℕ) (info : Info) (m : Monitor) (o : Option ℤ)
    → IsPlausible o
    → IsTrue m
    → IsTrue (observed utcnow info m o).1
unfolding observed
observed-IsTrue utcnow info m none p v = v
observed-IsTrue utcnow info m (some n) p v = record {
  told = v.told;
  lost_is_published = λ a. cc;
  plausible = p;
  shown_plausible = v.shown_plausible;
}

observe-IsTrue :
    (utcnow : ℕ) (info : Info) (m : Monitor) → IsTrue m → IsTrue (observe utcnow info m).1
unfolding observe
observe-IsTrue utcnow info m v =
    observed-IsTrue utcnow info m (number info.rssi (negsuc 126) (pos 20))
      (number-IsPlausible info.rssi) v

advertisement-IsTrue :
    (now utcnow : ℕ) (info : Info) (m : Monitor)
    → IsTrue m
    → IsTrue (advertisement now utcnow info m)
unfolding advertisement
advertisement-IsTrue now utcnow info m v =
    let seen = observe-IsTrue utcnow info m v in
    let x = observe utcnow info m in
    if_elim IsTrue (x.0 && not (same_reading x.1.rssi x.1.published) && is_due now x.1)
      (λ go. publish-IsTrue now x.1 seen.plausible) (λ wait. seen)

settled-IsTrue :
    (now : ℕ) (m : Monitor) (o : Option ℤ)
    → IsTrue m
    → IsTrue (elim o [ none ↦ m | some n ↦ unavailable now m ])
settled-IsTrue now m none v = v
settled-IsTrue now m (some n) v = unavailable-IsTrue now m

sample-IsTrue :
    (now utcnow : ℕ) (o : Option Info) (m : Monitor) → IsTrue m → IsTrue (sample now utcnow o m)
unfolding sample
sample-IsTrue now utcnow none m v = settled-IsTrue now m m.rssi v
sample-IsTrue now utcnow (some info) m v =
    let seen = observe-IsTrue utcnow info m v in
    let x = observe utcnow info m in
    if_elim IsTrue (x.0 && not (same_reading x.1.rssi x.1.published))
      (λ go. publish-IsTrue now x.1 seen.plausible) (λ wait. seen)

handle-IsTrue : (e : Event) (m : Monitor) → IsTrue m → IsTrue (handle e m)
unfolding handle async_start async_stop
handle-IsTrue (start registered) m v = record {
  told = v.told;
  lost_is_published = v.lost_is_published;
  plausible = v.plausible;
  shown_plausible = v.shown_plausible;
}
handle-IsTrue stop m v = record {
  told = v.told;
  lost_is_published = v.lost_is_published;
  plausible = v.plausible;
  shown_plausible = v.shown_plausible;
}
handle-IsTrue (advertised now utcnow info) m v = advertisement-IsTrue now utcnow info m v
handle-IsTrue (sampled now utcnow info) m v = sample-IsTrue now utcnow info m v
handle-IsTrue (lost now) m v = unavailable-IsTrue now m

pub handle_all-kept : (es : List Event) (m : Monitor) → IsTrue m → IsTrue (handle_all es m)
unfolding handle_all
handle_all-kept [] m v = v
handle_all-kept (e ∷ es) m v = handle_all-kept es (handle e m) (handle-IsTrue e m v)
