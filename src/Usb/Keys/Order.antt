-- ===== src/Usb/Keys/Order.antt =====
-- The order of the key operations, whatever threads come between those of a run of the task, and what
-- they do to the adapter and to the transmit path.
use rtw88_pub.Base.{
  ℕ, ◌≡◌, refl, sym, ap, ◌∙◌, inl, inr, Bool-cases, true, List, [], ◌∷◌, ◌++◌, Option, none, some,
  Result, ok, err, not, leb, ◌&&◌, length, if◌then◌else◌,
}
use rtw88_pub.Usb.Softc.{UsbDevice, Softc}
use rtw88_pub.Usb.Cam.{CamKey, cam_write_entry, cam_clear_entry}
use rtw88_pub.Usb.Tx.{Net, Tx}
use rtw88_pub.Usb.Tx.Release.{ptk_installed}
use rtw88_pub.Usb.Keys.{
  CamOp, install, clear, Cipher, aes_ccm, other, NetKey, Keys, cam_queue_depth, key_slot,
  install_op, push_op, shut_gate, key_set, key_delete, cam_start, installed, cam_op, cam_next,
}
use rtw88_pub.Usb.Keys.Line.{
  Event, set_key, delete_key, begin_run, next_op, for_chip, first, done, left, IsOrderly, step,
  after, all_accepted, all_done, done-left, after-IsOrderly,
}

module _ {W Q : Type 0} (usb : UsbDevice W) (net : Net Q) where
  -- What operations do to the adapter, one after the other.
  abbrev pub carried_out : List CamOp → Softc W → Softc W
  carried_out [] sc = sc
  carried_out (install slot k ∷ ops) sc = carried_out ops (cam_write_entry usb slot k sc).1
  carried_out (clear slot ∷ ops) sc = carried_out ops (cam_clear_entry usb slot sc).1

  carried_out_append :
      (ops ops' : List CamOp) (sc : Softc W)
      → carried_out (ops ++ ops') sc ≡ carried_out ops' (carried_out ops sc)
  carried_out_append [] ops' sc = refl
  carried_out_append (install slot k ∷ ops) ops' sc = carried_out_append ops ops' _
  carried_out_append (clear slot ∷ ops) ops' sc = carried_out_append ops ops' _

  -- What an operation that was done does to the transmit path: a pairwise key that the chip took has
  -- the held frames released.
  abbrev pub released : List CamOp → Softc W → Tx Q → Tx Q
  released (install slot k ∷ ops) sc t = elim (cam_write_entry usb slot k sc).0 [
    | ok _ ↦ if k.group then t else (ptk_installed net t).1
    | err _ ↦ t
  ]
  released _ sc t = t

  -- What an event does to the transmit path: a pairwise key that is accepted shuts the gate.
  abbrev pub gate : Event → Keys W Q → Tx Q
  gate (set_key bssid k) s =
      if for_chip k.cipher && not k.group && not (leb cam_queue_depth (length s.cam_q))
      then record s.tx { ptk_install_pending = true }
      else s.tx
  gate (delete_key k) s = s.tx
  gate begin_run s = s.tx
  gate next_op s = released (first s.in_flight) s.softc s.tx

  installed_state :
      (k : CamKey) (r : Result (Unit {0})) (s : Keys W Q)
      → ((installed usb net k r s).1.softc ≡ s.softc)
        × ((installed usb net k r s).1.tx
            ≡ elim r [ ok _ ↦ if k.group then s.tx else (ptk_installed net s.tx).1 | err _ ↦ s.tx ])
  unfolding installed
  installed_state k (err e) s = (refl, refl)
  installed_state k (ok u) s = elim (Bool-cases k.group) [
    | inl group ↦ rw group (refl, refl)
    | inr pairwise ↦ rw pairwise (refl, refl)
  ]

  next_state :
      (s : Keys W Q) (ops : List CamOp)
      → s.in_flight ≡ ops
      → ((cam_next usb net s).softc ≡ carried_out (first ops) s.softc)
        × ((cam_next usb net s).tx ≡ released (first ops) s.softc s.tx)
  unfolding cam_next cam_op
  next_state s [] e = rw (cam_next, e) (refl, refl)
  next_state s (install slot k ∷ ops) e =
      let s1 = record s { in_flight = ops; softc = (cam_write_entry usb slot k s.softc).1 } in
      rw (cam_next, e) (installed_state k (cam_write_entry usb slot k s.softc).0 s1)
  next_state s (clear slot ∷ ops) e = rw (cam_next, e) (refl, refl)

  push_op-rest :
      (op : CamOp) (s : Keys W Q) → ((push_op op s).softc ≡ s.softc) × ((push_op op s).tx ≡ s.tx)
  unfolding push_op
  push_op-rest op s = elim (Bool-cases (leb cam_queue_depth (length s.cam_q))) [
    | inl full ↦ rw full (refl, refl)
    | inr room ↦ rw room (refl, refl)
  ]

  shut_gate-rest :
      (k : NetKey) (s : Keys W Q)
      → ((shut_gate k s).softc ≡ s.softc)
        × ((shut_gate k s).tx ≡ (
            if not k.group && not (leb cam_queue_depth (length s.cam_q))
            then record s.tx { ptk_install_pending = true }
            else s.tx))
  unfolding shut_gate
  shut_gate-rest k s = elim (Bool-cases k.group) [
    | inl group ↦ rw group (refl, refl)
    | inr pairwise ↦ elim (Bool-cases (leb cam_queue_depth (length s.cam_q))) [
      | inl full ↦ rw (pairwise, full) (refl, refl)
      | inr room ↦ rw (pairwise, room) (refl, refl)
    ]
  ]

  key_set-rest :
      (bssid : Option (List ℕ)) (k : NetKey) (s : Keys W Q) (c : Option Cipher)
      → k.cipher ≡ c
      → ((key_set bssid k s).1.softc ≡ s.softc)
        × ((key_set bssid k s).1.tx ≡ gate (set_key bssid k) s)
  unfolding key_set
  key_set-rest bssid k s none e = rw (key_set, e) (refl, refl)
  key_set-rest bssid k s (some other) e = rw (key_set, e) (refl, refl)
  key_set-rest bssid k s (some aes_ccm) e =
      let pushed_on = push_op-rest (install_op bssid k) (shut_gate k s) in
      let shut = shut_gate-rest k s in rw (key_set, e) (pushed_on.0 ∙ shut.0, pushed_on.1 ∙ shut.1)

  key_delete-rest :
      (k : NetKey) (s : Keys W Q) (c : Option Cipher)
      → k.cipher ≡ c
      → ((key_delete k s).1.softc ≡ s.softc) × ((key_delete k s).1.tx ≡ s.tx)
  unfolding key_delete
  key_delete-rest k s none e = rw (key_delete, e) (refl, refl)
  key_delete-rest k s (some other) e = rw (key_delete, e) (refl, refl)
  key_delete-rest k s (some aes_ccm) e = rw (key_delete, e) (push_op-rest (clear (key_slot k)) s)

  cam_start-rest : (s : Keys W Q) → ((cam_start s).softc ≡ s.softc) × ((cam_start s).tx ≡ s.tx)
  unfolding cam_start
  cam_start-rest s = elim (Bool-cases (s.scheduled && leb (length s.in_flight) 0)) [
    | inl due ↦ rw (cam_start, due) (refl, refl)
    | inr waits ↦ rw (cam_start, waits) (refl, refl)
  ]

  step-rest :
      (e : Event) (s : Keys W Q)
      → ((step usb net e s).softc ≡ carried_out (done e s) s.softc)
        × ((step usb net e s).tx ≡ gate e s)
  step-rest (set_key bssid k) s = key_set-rest bssid k s k.cipher refl
  step-rest (delete_key k) s = key_delete-rest k s k.cipher refl
  step-rest begin_run s = cam_start-rest s
  step-rest next_op s = next_state s s.in_flight refl

  -- At each event, the transmit path becomes what the gate says.
  abbrev pub AllGated : List Event → Keys W Q → Type 0
  AllGated [] s = Unit {0}
  AllGated (e ∷ es) s = ((step usb net e s).tx ≡ gate e s) × AllGated es (step usb net e s)

  after-AllGated : (es : List Event) (s : Keys W Q) → AllGated es s
  after-AllGated [] s = tt
  after-AllGated (e ∷ es) s = ((step-rest e s).1, after-AllGated es (step usb net e s))

  after-softc :
      (es : List Event) (s : Keys W Q)
      → (after usb net es s).softc ≡ carried_out (all_done usb net es s) s.softc
  after-softc [] s = refl
  after-softc (e ∷ es) s =
      after-softc es (step usb net e s)
      ∙ ap (carried_out (all_done usb net es (step usb net e s))) (step-rest e s).0
      ∙ sym (carried_out_append (done e s) (all_done usb net es (step usb net e s)) s.softc)

  -- Whatever the order in which threads set and delete keys and a run of the task goes on: the
  -- operations that were begun, followed by those that are left, are those that found room, in their
  -- order. None is lost, begun twice or overtaken. The adapter is as these operations leave it, each
  -- an entry of the key cache that is written or cleared, and the transmit path changes only where a
  -- pairwise key is accepted, which shuts the gate, and where the chip took one, which has the held
  -- frames released. The queue never has more than 16, and where it is not empty the task is
  -- scheduled. At the start nothing is left, and the link is not lost meanwhile.
  pub all_done-accepted :
      (es : List Event) (s : Keys W Q)
      → left s ≡ []
      → IsOrderly s
      → (all_done usb net es s ++ left (after usb net es s) ≡ all_accepted usb net es s)
        × IsOrderly (after usb net es s)
        × ((after usb net es s).softc ≡ carried_out (all_done usb net es s) s.softc)
        × AllGated es s
  all_done-accepted es s none_left orderly = (
    done-left usb net es s ∙ ap (λ ops. ops ++ all_accepted usb net es s) none_left,
    after-IsOrderly usb net es s orderly,
    after-softc es s,
    after-AllGated es s,
  )
