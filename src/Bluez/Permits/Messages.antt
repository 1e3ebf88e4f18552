-- ===== src/Bluez/Permits/Messages.antt =====
-- The messages that QueryBluez may send: what was written and called, and when two are the same.
use ha_aiper_ble.Prelude.{
  ℕ, ◌+◌, String, ◌≡◌, refl, sym, ap, ◌∙◌, Bool, true, false, ◌&&◌, Option, none, some, List, [],
  ◌∷◌, ◌++◌, arith, if◌then◌else◌, str_eq, eq_iff, if_elim,
}
use ha_aiper_ble.Prelude.Text.{Bytes, text_eq, text_eq_refl, text_eq_sound}
use ha_aiper_ble.Target.{Target}
use ha_aiper_ble.Bluez.Permits.{
  Body, nothing, options, text, chunk, Message, Permits, char_interface, properties_interface,
  device_interface, same_body, is_allowed, next_write,
}

-- the bodies that were written to a characteristic, in order
unfoldable pub writes : List Message → List Body
writes [] = []
writes (m ∷ ms) =
    let rest = writes ms in
    if str_eq m.interface char_interface && str_eq m.member "WriteValue"
    then m.body ∷ rest
    else rest

-- how often a method of a characteristic was called
unfoldable pub calls_of : String → List Message → ℕ
calls_of member [] = 0
calls_of member (m ∷ ms) =
    let rest = calls_of member ms in
    if str_eq m.interface char_interface && str_eq m.member member then 1 + rest else rest

pub writes-append :
    (ms : List Message) (m : Message) → writes (ms ++ m ∷ []) ≡ writes ms ++ writes (m ∷ [])
unfolding writes
writes-append [] m = refl
writes-append (m' ∷ ms) m =
    if_elim
      (λ (ws : List Body).
        (if (str_eq m'.interface char_interface && str_eq m'.member "WriteValue")
          then m'.body ∷ writes (ms ++ m ∷ [])
          else writes (ms ++ m ∷ []))
        ≡ ws ++ writes (m ∷ []))
      (str_eq m'.interface char_interface && str_eq m'.member "WriteValue")
      (λ h. rw (h, writes-append ms m) refl) (λ h. rw (h, writes-append ms m) refl)

pub calls_of-append :
    (member : String) (ms : List Message) (m : Message)
    → calls_of member (ms ++ m ∷ []) ≡ calls_of member ms + calls_of member (m ∷ [])
unfolding calls_of
calls_of-append member [] m = omega arith
calls_of-append member (m' ∷ ms) m = ground (arith, calls_of-append member ms m)

and_inversion : (a b : Bool) → (a && b) ≡ true → (a ≡ true) × (b ≡ true)
and_inversion a b h = (ground arith, ground arith)

same_body_sound : (b c : Body) → same_body b c ≡ true → b ≡ c
unfolding same_body
same_body_sound nothing nothing h = refl
same_body_sound options options h = refl
same_body_sound (text s) (text t) h = ap text (text_eq_sound s t h)
same_body_sound (chunk b mode) (chunk c mode') h =
    let (same, type) = and_inversion (text_eq b c) (str_eq mode mode') h in
    ap (λ (x : Bytes × String). chunk x.0 x.1)
      (ground (arith, text_eq_sound b c same, (eq_iff mode mode').0 type))
same_body_sound _ _ h = cc

pub same_body_refl : (b : Body) → same_body b b ≡ true
unfolding same_body
same_body_refl nothing = refl
same_body_refl options = refl
same_body_refl (text s) = text_eq_refl s
same_body_refl (chunk b mode) = ground (arith, text_eq_refl b, (eq_iff mode mode).1 refl)

not_char :
    (i s : String)
    → str_eq i s ≡ true
    → str_eq s char_interface ≡ false
    → str_eq i char_interface ≡ false
not_char i s h k = ap (λ x. str_eq x char_interface) ((eq_iff i s).0 h) ∙ k

-- an allowed message is none to a characteristic
pub other_interface :
    (target : Option Target) (m : Message)
    → is_allowed target m ≡ true
    → str_eq m.interface char_interface ≡ false
unfolding is_allowed
other_interface none m h =
    not_char m.interface "org.freedesktop.DBus.ObjectManager" (ground arith) refl
other_interface (some t) m h =
    let managed : str_eq m.interface "org.freedesktop.DBus.ObjectManager" ≡ true
        → str_eq m.interface char_interface ≡ false =
      λ k. not_char m.interface "org.freedesktop.DBus.ObjectManager" k refl in
    let properties : str_eq m.interface properties_interface ≡ true
        → str_eq m.interface char_interface ≡ false =
      λ k. not_char m.interface properties_interface k refl in
    let device : str_eq m.interface device_interface ≡ true
        → str_eq m.interface char_interface ≡ false =
      λ k. not_char m.interface device_interface k refl in
    ground (arith, managed, properties, device)

pub guarded_some {ℓ} :
    {A : Type ℓ} (b : Bool) (o : Option A) {a : A}
    → (if b then o else none) ≡ some a
    → (b ≡ true) × (o ≡ some a)
guarded_some true o h = (refl, h)
guarded_some false o h = cc

pub next_write_inversion :
    (plan : List Body) (body : Body) {rest : List Body}
    → next_write plan body ≡ some rest
    → plan ≡ body ∷ rest
unfolding next_write
next_write_inversion [] body h = cc
next_write_inversion (b ∷ plan) body h =
    let (same, kept) = guarded_some (same_body body b) (some plan) h in
    ap (λ x. x ∷ plan) (sym (same_body_sound body b same))
    ∙ ap (λ (o : Option (List Body)). elim o [ none ↦ [] | some r ↦ body ∷ r ]) kept

pub write_elim {ℓ} :
    (p : Permits) (P : Option Permits → Type ℓ) (w : Option (List Body))
    → P none
    → ((rest : List Body) → w ≡ some rest → P (some (record p { write_plan = rest })))
    → P (elim w [ none ↦ none | some plan ↦ some (record p { write_plan = plan }) ])
write_elim p P none refused admitted = refused
write_elim p P (some rest) refused admitted = admitted rest refl
