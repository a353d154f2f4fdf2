-- ===== src/Examples/Sending.antt =====
-- The theorem on the drain of a transmit queue at a concrete queue.
use rtw88_pub.Base.{◌⊎◌, ◌≡◌, refl, true, false, List, [], ◌∷◌, ◌++◌, All, none, ok, replicate}
use rtw88_pub.Usb.Tx.{Mbuf, hi, eapol_key_info, is_data}
use rtw88_pub.Usb.Tx.Drain.{
  Peers, Drain, drain_q, drain_frame, drain_keyed, submit_promoted, submit_frame, is_promoted,
  promoted,
}
use rtw88_pub.Usb.Tx.Drain.Sent.{IsPacket, drain_q-Sent}
use rtw88_pub.Usb.Tx.Callback.{
  XferState, transferred, setup, failed, OutPipe, out_lo, out_h2c, put_packets, same_pipe, Slot,
  Bulk, same, put_slot, view, restore, finished, complete, give_up, submit_sync, drain,
  bulk_tx_data_cb, next_mgmt, set_up_mgmt, bulk_tx_mgmt_cb, bulk_cb, bulk_cbs,
}
use rtw88_pub.Usb.Tx.Callback.Conserved.{Kept, Clashed, bulk_cbs-Kept}
use rtw88_pub.Usb.Tx.Callback.Waiting.{unawaited, bulk_tx_mgmt_cb-wakes}
use rtw88_pub.Examples.Front.{net, fifo}

-- A plain data frame without a sequence number, which grows to QoS data.
abbrev plain : Mbuf
plain = record { tag = 1; bytes = 0x08 ∷ 0x01 ∷ replicate 22 0 ++ 0xaa ∷ 0xbb ∷ [] }

abbrev legacy : Peers
legacy = record {
  is_ht = λ m. false;
  is_aggr_running = λ m tid. false;
  ampdu_density = 4;
  ampdu_max_num = 31;
}

abbrev waiting : Drain (List Mbuf)
waiting = record {
  queue = plain ∷ [];
  inflight = none;
  ampdu = false;
  rate_id = 3;
  tx_report_sn = 0;
  tx_seq = 0;
  submitted = [];
  freed = [];
}

drain_q-Sent_example : All IsPacket (drain_q net legacy waiting).1.submitted
drain_q-Sent_example = drain_q-Sent net legacy waiting tt

abbrev idle : Slot (List Mbuf)
idle = record { queue = plain ∷ plain ∷ []; inflight = none; freed = [] }

abbrev pipes : Bulk (List Mbuf)
pipes = record {
  slots = λ ep. idle;
  submitted = λ pipe. [];
  ampdu = false;
  rate_id = 3;
  tx_report_sn = 0;
  tx_seq = 0;
  sync = record { buf = replicate 64 0; len = 4; pending = true; done = false; failed = false };
  stat_tx_packets = 0;
  stat_tx_errors = 0;
  oerrors = 0;
  stalled = [];
}

-- Best effort sends its two frames, of which the second is lost on the wire, and then is set up anew.
abbrev events : List (OutPipe × XferState)
events =
    (out_lo, setup)
    ∷ (out_lo, transferred)
    ∷ (out_h2c, setup)
    ∷ (out_lo, failed)
    ∷ (out_lo, setup)
    ∷ []

bulk_cbs-Kept_example :
    Kept fifo pipes (bulk_cbs net legacy events pipes).1 ⊎ Clashed fifo legacy events pipes
unfolding bulk_cbs bulk_cb bulk_tx_data_cb bulk_tx_mgmt_cb complete give_up drain next_mgmt
    set_up_mgmt submit_sync finished view restore put_slot same put_packets same_pipe drain_q
    drain_frame drain_keyed submit_promoted submit_frame eapol_key_info is_promoted is_data promoted
bulk_cbs-Kept_example = bulk_cbs-Kept fifo legacy events pipes refl

bulk_tx_mgmt_cb-wakes_example :
    (let (r, b') = bulk_tx_mgmt_cb net legacy out_h2c setup pipes in
      (r ≡ ok tt)
      × (b'.submitted out_h2c ≡ replicate 4 0 ∷ [])
      × (b'.slots ≡ pipes.slots)
      × (b'.sync ≡ pipes.sync))
    × (let (r, b') = bulk_tx_mgmt_cb net legacy out_h2c transferred pipes in
        (b'.sync.pending ≡ false)
        × (b'.sync.done ≡ true)
        × (b'.sync.failed ≡ false)
        × (b'.slots ≡ (bulk_tx_mgmt_cb net legacy out_h2c transferred (unawaited pipes)).1.slots)
        × (b'.submitted
            ≡ (bulk_tx_mgmt_cb net legacy out_h2c transferred (unawaited pipes)).1.submitted))
    × (let (r, b') = bulk_tx_mgmt_cb net legacy out_h2c failed pipes in
        (r ≡ ok tt)
        × (b'.sync.pending ≡ false)
        × (b'.sync.done ≡ true)
        × (b'.sync.failed ≡ true)
        × ((b'.slots hi).inflight ≡ none))
bulk_tx_mgmt_cb-wakes_example = bulk_tx_mgmt_cb-wakes net legacy out_h2c pipes refl
