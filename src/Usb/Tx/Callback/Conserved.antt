-- ===== src/Usb/Tx/Callback/Conserved.antt =====
-- The frames of the transmit queues across the callbacks.
use rtw88_pub.Base.{
  ◌⊎◌, some, ◌≡◌, refl, sym, ap, ◌∙◌, Bool, true, false, List, [], ◌∷◌, Option-cases, none, inl,
  inr, Result, ok, Result-cases, ok_not_err, bind_ok,
}
use rtw88_pub.Usb.Firmware.Packet.{tx_completed, tx_failed}
use rtw88_pub.Usb.Tx.{Mbuf, Net, Endpoint, hi, normal, lo}
use rtw88_pub.Usb.Tx.Gate.{Fifo}
use rtw88_pub.Usb.Tx.Drain.{Peers, drain_q}
use rtw88_pub.Usb.Tx.Drain.Lined.{line, Lined, drain_q-Lined}
use rtw88_pub.Usb.Tx.Callback.{
  XferState, transferred, setup, cancelled, failed, OutPipe, out_hi, out_normal, out_lo, out_h2c,
  Slot, Bulk, same, put_slot, view, void, restore, slot_used, finished, complete, give_up,
  submit_sync, on_sync, drain, bulk_tx_data_cb, next_mgmt, set_up_mgmt, bulk_tx_mgmt_cb, bulk_cb,
  bulk_cbs,
}

put_slot_self :
    {Q : Type 0} (ep : Endpoint) (v : Slot Q) (slots : Endpoint → Slot Q)
    → put_slot ep v slots ep ≡ v
unfolding put_slot same
put_slot_self hi v slots = refl
put_slot_self normal v slots = refl
put_slot_self lo v slots = refl

pub finished-inflight : {Q : Type 0} (s : Slot Q) → (finished s).inflight ≡ none
unfolding finished
finished-inflight s = elim (Option-cases s.inflight) [
  | inl e ↦ rw (finished, e) e
  | inr (m, e) ↦ rw e refl
]

module _ {Q : Type 0} {net : Net Q} (fifo : Fifo net) where
  -- The frames of a pipe: those that were given back, the one on its way, those that wait.
  abbrev pub slot_line : Slot Q → List Mbuf
  slot_line s = line fifo s.freed s.inflight s.queue

  abbrev pub Kept : Bulk Q → Bulk Q → Type 0
  Kept b b' = (ep : Endpoint) → slot_line (b'.slots ep) ≡ slot_line (b.slots ep)

  put_slot-line :
      (ep ep' : Endpoint) (v : Slot Q) (slots : Endpoint → Slot Q)
      → slot_line v ≡ slot_line (slots ep)
      → slot_line (put_slot ep v slots ep') ≡ slot_line (slots ep')
  unfolding put_slot same
  put_slot-line hi hi v slots h = h
  put_slot-line hi normal v slots h = refl
  put_slot-line hi lo v slots h = refl
  put_slot-line normal hi v slots h = refl
  put_slot-line normal normal v slots h = h
  put_slot-line normal lo v slots h = refl
  put_slot-line lo hi v slots h = refl
  put_slot-line lo normal v slots h = refl
  put_slot-line lo lo v slots h = h

  finished-line : (s : Slot Q) → slot_line (finished s) ≡ slot_line s
  unfolding finished
  finished-line s = elim (Option-cases s.inflight) [
    | inl e ↦ rw (finished, e) (ap (λ o. line fifo s.freed o s.queue) e)
    | inr (m, e) ↦ rw (finished, e) refl
  ]

  complete-Kept : (ep : Endpoint) (b : Bulk Q) → Kept b (complete ep b).1
  unfolding complete
  complete-Kept ep b ep' = put_slot-line ep ep' _ b.slots (finished-line (b.slots ep))

  give_up-Kept : (pipe : OutPipe) (ep : Endpoint) (b : Bulk Q) → Kept b (give_up pipe ep b).1
  unfolding give_up
  give_up-Kept pipe ep b ep' = put_slot-line ep ep' _ b.slots (finished-line (b.slots ep))

  submit_sync-Kept : (pipe : OutPipe) (b : Bulk Q) → Kept b (submit_sync pipe b).1
  unfolding submit_sync
  submit_sync-Kept pipe b ep' = refl

  module _ (peers : Peers) where
    drain-Kept :
        (pipe : OutPipe) (ep : Endpoint) (b : Bulk Q)
        → (b.slots ep).inflight ≡ none
        → (drain net peers pipe ep b).0 ≡ ok tt
        → Kept b (drain net peers pipe ep b).1
    unfolding drain view restore
    drain-Kept pipe ep b empty h ep' = elim (Result-cases (drain_q net peers (view pipe ep b)).0) [
      | inl (sent, e) ↦
          let post = drain_q-Lined fifo peers (view pipe ep b) empty in
          let lined : Lined fifo (line fifo (b.slots ep).freed none (b.slots ep).queue)
              (drain_q net peers (view pipe ep b)).1 =
            rw e at post in
          put_slot-line ep ep' _ b.slots
            (lined ∙ ap (λ o. line fifo (b.slots ep).freed o (b.slots ep).queue) (sym empty))
      | inr (x, e) ↦ absurd (ok_not_err tt x (sym h ∙ ap void e))
    ]

    -- A pipe is set up only while it is idle: nothing of its queue is on its way.
    abbrev pub IsExpected : XferState → Slot Q → Type 0
    IsExpected setup s = s.inflight ≡ none
    IsExpected _ s = Unit {0}

    next_mgmt-Kept :
        (pipe : OutPipe) (waits : Bool) (b : Bulk Q)
        → (b.slots hi).inflight ≡ none
        → (next_mgmt net peers pipe waits b).0 ≡ ok tt
        → Kept b (next_mgmt net peers pipe waits b).1
    unfolding next_mgmt
    next_mgmt-Kept pipe true b empty h = submit_sync-Kept pipe b
    next_mgmt-Kept pipe false b empty h = drain-Kept pipe hi b empty h

    set_up_mgmt-Kept :
        (pipe : OutPipe) (b : Bulk Q)
        → (b.slots hi).inflight ≡ none
        → (set_up_mgmt net peers pipe b).0 ≡ ok tt
        → Kept b (set_up_mgmt net peers pipe b).1
    unfolding set_up_mgmt
    set_up_mgmt-Kept pipe b empty h = next_mgmt-Kept pipe b.sync.pending b empty h

    complete-inflight : (ep : Endpoint) (b : Bulk Q) → ((complete ep b).1.slots ep).inflight ≡ none
    unfolding complete
    complete-inflight ep b =
        ap (λ (s : Slot Q). s.inflight) (put_slot_self ep (finished (b.slots ep)) b.slots)
        ∙ finished-inflight (b.slots ep)

    bulk_tx_data_cb-Kept :
        (pipe : OutPipe) (ep : Endpoint) (state : XferState) (b : Bulk Q)
        → IsExpected state (b.slots ep)
        → (bulk_tx_data_cb net peers pipe ep state b).0 ≡ ok tt
        → Kept b (bulk_tx_data_cb net peers pipe ep state b).1
    unfolding bulk_tx_data_cb complete
    bulk_tx_data_cb-Kept pipe ep transferred b idle h = λ ep'.
        drain-Kept pipe ep (complete ep b).1 (complete-inflight ep b) h ep' ∙ complete-Kept ep b ep'
    bulk_tx_data_cb-Kept pipe ep setup b idle h = drain-Kept pipe ep b idle h
    bulk_tx_data_cb-Kept pipe ep cancelled b idle h = λ ep'. refl
    bulk_tx_data_cb-Kept pipe ep failed b idle h = give_up-Kept pipe ep b

    bulk_tx_mgmt_cb-Kept :
        (pipe : OutPipe) (state : XferState) (b : Bulk Q)
        → IsExpected state (b.slots hi)
        → (bulk_tx_mgmt_cb net peers pipe state b).0 ≡ ok tt
        → Kept b (bulk_tx_mgmt_cb net peers pipe state b).1
    unfolding bulk_tx_mgmt_cb complete on_sync give_up
    bulk_tx_mgmt_cb-Kept pipe transferred b idle h =
        let woken : Bulk Q = record b { sync = tx_completed b.sync } in
        λ ep'.
          set_up_mgmt-Kept pipe (complete hi woken).1 (complete-inflight hi woken) h ep'
          ∙ complete-Kept hi woken ep'
    bulk_tx_mgmt_cb-Kept pipe setup b idle h = set_up_mgmt-Kept pipe b idle h
    bulk_tx_mgmt_cb-Kept pipe cancelled b idle h = λ ep'. refl
    bulk_tx_mgmt_cb-Kept pipe failed b idle h =
        give_up-Kept pipe hi (record b { sync = tx_failed b.sync })

    bulk_cb-Kept :
        (pipe : OutPipe) (state : XferState) (b : Bulk Q)
        → IsExpected state (b.slots (slot_used pipe))
        → (bulk_cb net peers pipe state b).0 ≡ ok tt
        → Kept b (bulk_cb net peers pipe state b).1
    unfolding bulk_cb slot_used
    bulk_cb-Kept out_hi state b idle h = bulk_tx_mgmt_cb-Kept out_hi state b idle h
    bulk_cb-Kept out_normal state b idle h = bulk_tx_data_cb-Kept out_normal normal state b idle h
    bulk_cb-Kept out_lo state b idle h = bulk_tx_data_cb-Kept out_lo lo state b idle h
    bulk_cb-Kept out_h2c state b idle h = bulk_tx_mgmt_cb-Kept out_h2c state b idle h

    -- A set-up finds a frame on its way in the slot of its pipe.
    abbrev pub IsClash : XferState → Slot Q → Type 0
    IsClash setup s = (m : Mbuf) × (s.inflight ≡ some m)
    IsClash _ s = ⊥

    -- There is such a set-up along a run.
    unfoldable pub Clashed : List (OutPipe × XferState) → Bulk Q → Type 0
    Clashed [] b = ⊥
    Clashed ((pipe, state) ∷ events) b =
        IsClash state (b.slots (slot_used pipe)) ⊎ Clashed events (bulk_cb net peers pipe state b).1

    IsClash-cases : (state : XferState) (s : Slot Q) → IsExpected state s ⊎ IsClash state s
    IsClash-cases transferred s = inl tt
    IsClash-cases setup s = Option-cases s.inflight
    IsClash-cases cancelled s = inl tt
    IsClash-cases failed s = inl tt

    -- Over every sequence of callbacks of the four pipes, in any order, with transfers that are done,
    -- fail and are cancelled, two pipes of which share the management queue: if no frame was read past
    -- its end, then of each queue the frames that were given back, the frame on its way and the frames
    -- that wait are, in this order, those from before, so no frame is lost or given back twice, and
    -- each queue is sent and freed in its order; or a pipe was set up while a frame of its queue was
    -- on its way.
    pub bulk_cbs-Kept :
        (events : List (OutPipe × XferState)) (b : Bulk Q)
        → (bulk_cbs net peers events b).0 ≡ ok tt
        → Kept b (bulk_cbs net peers events b).1 ⊎ Clashed events b
    unfolding bulk_cbs Clashed
    bulk_cbs-Kept [] b h = inl (λ ep. refl)
    bulk_cbs-Kept ((pipe, state) ∷ events) b h =
        let (u, first, rest) =
          bind_ok (bulk_cb net peers pipe state) (λ _. bulk_cbs net peers events) b h in
        let after = (bulk_cb net peers pipe state b).1 in
        let rest_ok : (bulk_cbs net peers events after).0 ≡ ok tt = sym (ap (λ r. r.0) rest) ∙ h in
        elim (IsClash-cases state (b.slots (slot_used pipe))) [
          | inr clash ↦ inr (inl clash)
          | inl expected ↦ elim (bulk_cbs-Kept events after rest_ok) [
            | inr later ↦ inr (inr later)
            | inl kept ↦ inl (λ ep'.
                ap (λ (r : Result (Unit {0}) × Bulk Q). slot_line (r.1.slots ep')) rest
                ∙ kept ep'
                ∙ bulk_cb-Kept pipe state b expected first ep')
          ]
        ]
