-- ===== src/Usb/Tx/Callback/Waiting.antt =====
-- What the callback of the management pipe does for a thread that waits for a transfer of its own.
use rtw88_pub.Base.{ℕ, List, ◌≡◌, refl, ◌∷◌, true, false, none, ok, take}
use rtw88_pub.Usb.Firmware.Packet.{tx_completed, tx_failed}
use rtw88_pub.Usb.Tx.{Net, hi}
use rtw88_pub.Usb.Tx.Drain.{Peers}
use rtw88_pub.Usb.Tx.Callback.{
  transferred, setup, failed, OutPipe, out_hi, out_normal, out_lo, out_h2c, same_pipe, put_packets,
  Bulk, same, put_slot, view, restore, complete, give_up, submit_sync, on_sync, drain, next_mgmt,
  set_up_mgmt, bulk_tx_mgmt_cb,
}
use rtw88_pub.Usb.Tx.Callback.Conserved.{finished-inflight}

put_packets_self :
    (pipe : OutPipe) (v : List (List ℕ)) (packets : OutPipe → List (List ℕ))
    → put_packets pipe v packets pipe ≡ v
unfolding put_packets same_pipe
put_packets_self out_hi v packets = refl
put_packets_self out_normal v packets = refl
put_packets_self out_lo v packets = refl
put_packets_self out_h2c v packets = refl

-- As if no thread waited.
abbrev pub unawaited : {Q : Type 0} → Bulk Q → Bulk Q
unawaited b = record b { sync = record b.sync { pending = false } }

module _ {Q : Type 0} (net : Net Q) (peers : Peers) where
  -- On each pipe of the management callback, HI and H2C: while a thread waits, a set-up submits the bytes that are in the shared buffer and leaves the
  -- queues alone. The next transfer of the pipe that is done, whichever it is, tells the thread that
  -- its own is done and did not fail, and goes on with the queue as if no thread waited: what the
  -- thread put into the buffer is not submitted then. The next that fails tells it of the failure.
  pub bulk_tx_mgmt_cb-wakes :
      (pipe : OutPipe) (b : Bulk Q)
      → b.sync.pending ≡ true
      → (let (r, b') = bulk_tx_mgmt_cb net peers pipe setup b in
          (r ≡ ok tt)
          × (b'.submitted pipe ≡ take b.sync.len b.sync.buf ∷ b.submitted pipe)
          × (b'.slots ≡ b.slots)
          × (b'.sync ≡ b.sync))
        × (let (r, b') = bulk_tx_mgmt_cb net peers pipe transferred b in
            (b'.sync.pending ≡ false)
            × (b'.sync.done ≡ true)
            × (b'.sync.failed ≡ false)
            × (b'.slots ≡ (bulk_tx_mgmt_cb net peers pipe transferred (unawaited b)).1.slots)
            × (b'.submitted
                ≡ (bulk_tx_mgmt_cb net peers pipe transferred (unawaited b)).1.submitted))
        × (let (r, b') = bulk_tx_mgmt_cb net peers pipe failed b in
            (r ≡ ok tt)
            × (b'.sync.pending ≡ false)
            × (b'.sync.done ≡ true)
            × (b'.sync.failed ≡ true)
            × ((b'.slots hi).inflight ≡ none))
  unfolding bulk_tx_mgmt_cb on_sync complete set_up_mgmt next_mgmt submit_sync drain give_up
      tx_completed tx_failed put_slot same view restore
  bulk_tx_mgmt_cb-wakes pipe b waits = (
    rw waits (refl, put_packets_self pipe _ b.submitted, refl, refl),
    rw waits (refl, refl, refl, refl, refl),
    rw waits (refl, refl, refl, refl, finished-inflight (b.slots hi)),
  )
