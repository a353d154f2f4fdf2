-- ===== src/Usb/Keys/Line.antt =====
-- The line of key operations: what is accepted, what a run of the task has begun, and what is left.
use mathlib.Core.List.{append_assoc, append-nil}
use rtw88_pub.Base.{
  ℕ, ◌≤◌, ◌≡◌, refl, sym, ap, ◌∙◌, arith, ◌⊎◌, inl, inr, Bool, Bool-cases, true, false, List, [],
  ◌∷◌, ◌++◌, Option, none, some, Result, ok, err, M, not, leb, ◌&&◌, ◌||◌, length, length-append,
  Preserves, Preserves-bind, Preserves-attempt, Preserves-ignore, Preserves-when, Preserves-pure,
  if◌then◌else◌,
}
use rtw88_pub.Usb.Softc.{UsbDevice, Softc}
use rtw88_pub.Usb.Cam.{CamKey, cam_write_entry, cam_clear_entry}
use rtw88_pub.Usb.Tx.{Net, Tx}
use rtw88_pub.Usb.Tx.Release.{ptk_installed}
use rtw88_pub.Usb.Keys.{
  on_softc, on_tx, CamOp, install, clear, Cipher, aes_ccm, other, NetKey, Keys, cam_queue_depth,
  key_slot, install_op, push_op, shut_gate, key_set, key_delete, cam_start, installed, cam_op,
  cam_next,
}

-- What happens: net80211 sets or deletes a key, a run of the task begins, or it does its next
-- operation.
pub data Event : Type 0 where
  set_key : Option (List ℕ) → NetKey → Event
  delete_key : NetKey → Event
  begin_run next_op : Event

abbrev pub for_chip : Option Cipher → Bool
for_chip (some aes_ccm) = true
for_chip (some other) = false
for_chip none = false

abbrev pub first : List CamOp → List CamOp
first [] = []
first (op ∷ ops) = op ∷ []

no_length : (ops : List CamOp) → length ops ≤ 0 → ops ≡ []
no_length [] h = refl
no_length (op ∷ ops) h = absurd (omega arith)

module _ {W Q : Type 0} where
  -- The operation of a call that finds room, if its key is for the chip.
  abbrev pub pushed : CamOp → Keys W Q → List CamOp
  pushed op s = if leb cam_queue_depth (length s.cam_q) then [] else op ∷ []

  abbrev pub accepted : Event → Keys W Q → List CamOp
  accepted (set_key bssid k) s = if for_chip k.cipher then pushed (install_op bssid k) s else []
  accepted (delete_key k) s = if for_chip k.cipher then pushed (clear (key_slot k)) s else []
  accepted begin_run s = []
  accepted next_op s = []

  abbrev pub done : Event → Keys W Q → List CamOp
  done (set_key bssid k) s = []
  done (delete_key k) s = []
  done begin_run s = []
  done next_op s = first s.in_flight

  abbrev pub left : Keys W Q → List CamOp
  left s = s.in_flight ++ s.cam_q

  -- The queue fits, and a queue that is not empty has its run to come.
  abbrev pub IsOrderly : Keys W Q → Type 0
  IsOrderly s = (length s.cam_q ≤ cam_queue_depth) × ((s.cam_q ≡ []) ⊎ (s.scheduled ≡ true))

  push_op-left : (op : CamOp) (s : Keys W Q) → left (push_op op s) ≡ left s ++ pushed op s
  unfolding push_op
  push_op-left op s = elim (Bool-cases (leb cam_queue_depth (length s.cam_q))) [
    | inl full ↦ rw full (sym (append-nil (left s)))
    | inr room ↦ rw room (sym (append_assoc s.in_flight s.cam_q (op ∷ [])))
  ]

  push_op-IsOrderly : (op : CamOp) (s : Keys W Q) → IsOrderly s → IsOrderly (push_op op s)
  unfolding push_op
  push_op-IsOrderly op s h = elim (Bool-cases (leb cam_queue_depth (length s.cam_q))) [
    | inl full ↦ rw full h
    | inr room ↦ rw room (ground (arith, room, length-append s.cam_q (op ∷ [])), inr refl)
  ]

  push_op-shut :
      (k : NetKey) (op : CamOp) (s : Keys W Q)
      → (left (push_op op (shut_gate k s)) ≡ left s ++ pushed op s)
        × (IsOrderly s → IsOrderly (push_op op (shut_gate k s)))
  unfolding shut_gate
  push_op-shut k op s = elim (Bool-cases (k.group || leb cam_queue_depth (length s.cam_q))) [
    | inl stays ↦ rw (shut_gate, stays) (push_op-left op s, push_op-IsOrderly op s)
    | inr shuts ↦ rw (shut_gate, shuts) (push_op-left op _, push_op-IsOrderly op _)
  ]

  key_set-left :
      (bssid : Option (List ℕ)) (k : NetKey) (s : Keys W Q) (c : Option Cipher)
      → k.cipher ≡ c
      → (left (key_set bssid k s).1 ≡ left s ++ accepted (set_key bssid k) s)
        × (IsOrderly s → IsOrderly (key_set bssid k s).1)
  unfolding key_set
  key_set-left bssid k s none e = rw (key_set, e) (sym (append-nil (left s)), λ h. h)
  key_set-left bssid k s (some other) e = rw (key_set, e) (sym (append-nil (left s)), λ h. h)
  key_set-left bssid k s (some aes_ccm) e = rw (key_set, e) (push_op-shut k (install_op bssid k) s)

  key_delete-left :
      (k : NetKey) (s : Keys W Q) (c : Option Cipher)
      → k.cipher ≡ c
      → (left (key_delete k s).1 ≡ left s ++ accepted (delete_key k) s)
        × (IsOrderly s → IsOrderly (key_delete k s).1)
  unfolding key_delete
  key_delete-left k s none e = rw (key_delete, e) (sym (append-nil (left s)), λ h. h)
  key_delete-left k s (some other) e = rw (key_delete, e) (sym (append-nil (left s)), λ h. h)
  key_delete-left k s (some aes_ccm) e =
      let op = clear (key_slot k) in rw (key_delete, e) (push_op-left op s, push_op-IsOrderly op s)

  cam_start-left :
      (s : Keys W Q) → (left (cam_start s) ≡ left s) × (IsOrderly s → IsOrderly (cam_start s))
  unfolding cam_start
  cam_start-left s = elim (Bool-cases (s.scheduled && leb (length s.in_flight) 0)) [
    | inl due ↦
        let over : s.in_flight ≡ [] = no_length s.in_flight (ground (arith, due)) in
        rw (cam_start, due)
          (append-nil s.cam_q ∙ ap (λ ops. ops ++ s.cam_q) (sym over), λ h. (omega arith, inl refl))
    | inr waits ↦ rw (cam_start, waits) (refl, λ h. h)
  ]

module _ {W Q : Type 0} (usb : UsbDevice W) (net : Net Q) where
  abbrev Kept : Keys W Q → Keys W Q → Type 0
  Kept s0 s = (s.cam_q ≡ s0.cam_q) × (s.in_flight ≡ s0.in_flight) × (s.scheduled ≡ s0.scheduled)

  on_softc-Kept :
      {A : Type 0} (s0 : Keys W Q) (m : M (Softc W) A) → Preserves (Kept s0) (on_softc m)
  on_softc-Kept s0 m = record { keeps = λ s p. p }

  on_tx-Kept : {A : Type 0} (s0 : Keys W Q) (m : M (Tx Q) A) → Preserves (Kept s0) (on_tx m)
  on_tx-Kept s0 m = record { keeps = λ s p. p }

  installed-Kept :
      (s0 : Keys W Q) (k : CamKey) (r : Result (Unit {0}))
      → Preserves (Kept s0) (installed usb net k r)
  unfolding installed
  installed-Kept s0 k (ok _) = Preserves-when (not k.group) (on_tx-Kept s0 (ptk_installed net))
  installed-Kept s0 k (err e) = Preserves-pure tt

  cam_op-Kept : (s0 : Keys W Q) (op : CamOp) → Preserves (Kept s0) (cam_op usb net op)
  unfolding cam_op
  cam_op-Kept s0 (install slot k) =
      Preserves-bind (Preserves-attempt (on_softc-Kept s0 (cam_write_entry usb slot k)))
        (installed-Kept s0 k)
  cam_op-Kept s0 (clear slot) = Preserves-ignore (on_softc-Kept s0 (cam_clear_entry usb slot))

  cam_next-left :
      (s : Keys W Q) (ops : List CamOp)
      → s.in_flight ≡ ops
      → (first s.in_flight ++ left (cam_next usb net s) ≡ left s)
        × (IsOrderly s → IsOrderly (cam_next usb net s))
  unfolding cam_next
  cam_next-left s [] e = rw (cam_next, e) (ap (λ ops. ops ++ s.cam_q) e, λ h. h)
  cam_next-left s (op ∷ ops) e =
      let s0 = record s { in_flight = ops } in
      let kept : Kept s0 (cam_op usb net op s0).1 =
        (cam_op-Kept s0 op).keeps s0 (refl, refl, refl) in
      rw (cam_next, e, kept.0, kept.1, kept.2) (refl, λ h. h)

  abbrev pub step : Event → Keys W Q → Keys W Q
  step (set_key bssid k) s = (key_set bssid k s).1
  step (delete_key k) s = (key_delete k s).1
  step begin_run s = cam_start s
  step next_op s = cam_next usb net s

  abbrev pub after : List Event → Keys W Q → Keys W Q
  after [] s = s
  after (e ∷ es) s = after es (step e s)

  abbrev pub all_accepted : List Event → Keys W Q → List CamOp
  all_accepted [] s = []
  all_accepted (e ∷ es) s = accepted e s ++ all_accepted es (step e s)

  abbrev pub all_done : List Event → Keys W Q → List CamOp
  all_done [] s = []
  all_done (e ∷ es) s = done e s ++ all_done es (step e s)

  step-left :
      (e : Event) (s : Keys W Q)
      → (done e s ++ left (step e s) ≡ left s ++ accepted e s)
        × (IsOrderly s → IsOrderly (step e s))
  step-left (set_key bssid k) s = key_set-left bssid k s k.cipher refl
  step-left (delete_key k) s = key_delete-left k s k.cipher refl
  step-left begin_run s = ((cam_start-left s).0 ∙ sym (append-nil (left s)), (cam_start-left s).1)
  step-left next_op s =
      let next = cam_next-left s s.in_flight refl in (next.0 ∙ sym (append-nil (left s)), next.1)

  pub done-left :
      (es : List Event) (s : Keys W Q)
      → all_done es s ++ left (after es s) ≡ left s ++ all_accepted es s
  done-left [] s = sym (append-nil (left s))
  done-left (e ∷ es) s =
      append_assoc (done e s) (all_done es (step e s)) _
      ∙ ap (λ ops. done e s ++ ops) (done-left es (step e s))
      ∙ sym (append_assoc (done e s) (left (step e s)) _)
      ∙ ap (λ ops. ops ++ all_accepted es (step e s)) (step-left e s).0
      ∙ append_assoc (left s) (accepted e s) _

  pub after-IsOrderly : (es : List Event) (s : Keys W Q) → IsOrderly s → IsOrderly (after es s)
  after-IsOrderly [] s h = h
  after-IsOrderly (e ∷ es) s h = after-IsOrderly es (step e s) ((step-left e s).1 h)
