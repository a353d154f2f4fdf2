-- ===== src/Usb/Tx/Callback.antt =====
-- if_rtw88_usb.c: the callbacks of the bulk OUT pipes, rtw88_bulk_tx_data_be_cb,
-- rtw88_bulk_tx_data_vo_cb and rtw88_bulk_tx_cb. Each has a queue and a place for the frame on its way,
-- and the third is the callback of two pipes, HI and H2C, which share both; the descriptor is put
-- together in `sc_tx_buf`, which a thread that waits for a transfer of its own uses as well.
pub mod Conserved
pub mod Waiting
use rtw88_pub.Base.{
  ℕ, zero, suc, ◌+◌, ◌^◌, ◌%◌, Bool, true, false, List, [], ◌∷◌, ◌++◌, Option, none, some, Result,
  ok, err, M, ◌>>=◌, ◌>>◌, pure, get, modify, length, drop, take,
}
use rtw88_pub.Usb.Firmware.{TxSync}
use rtw88_pub.Usb.Firmware.Packet.{tx_completed, tx_failed}
use rtw88_pub.Usb.Tx.{Mbuf, Net, Endpoint, hi, normal, lo}
use rtw88_pub.Usb.Tx.Drain.{Peers, Drain, drain_q}

-- What `USB_GET_STATE` and the error say.
pub data XferState : Type 0 where
  transferred setup cancelled failed : XferState

-- The OUT transfers of `rtw88_config`.
pub data OutPipe : Type 0 where
  out_hi out_normal out_lo out_h2c : OutPipe

-- `sc_tx_mgmt_q` and `sc_tx_mgmt_inflight`, and likewise for the data.
pub record Slot (Q : Type 0) : Type 0 where
  pub queue : Q
  pub inflight : Option Mbuf
  pub freed : List Mbuf

-- The slot of management is that of `hi`, of best effort `lo`, of voice `normal`. `submitted` are the
-- packets of each pipe, and `stalled` the pipes that are to be cleared of a stall.
pub record Bulk (Q : Type 0) : Type 0 where
  pub slots : Endpoint → Slot Q
  pub submitted : OutPipe → List (List ℕ)
  pub ampdu : Bool
  pub rate_id : ℕ
  pub tx_report_sn : ℕ
  pub tx_seq : ℕ
  pub sync : TxSync
  pub stat_tx_packets : ℕ
  pub stat_tx_errors : ℕ
  pub oerrors : ℕ
  pub stalled : List OutPipe

-- The slot that the callback of a pipe uses.
unfoldable pub slot_used : OutPipe → Endpoint
slot_used out_hi = hi
slot_used out_normal = normal
slot_used out_lo = lo
slot_used out_h2c = hi

unfoldable pub same_pipe : OutPipe → OutPipe → Bool
same_pipe out_hi out_hi = true
same_pipe out_normal out_normal = true
same_pipe out_lo out_lo = true
same_pipe out_h2c out_h2c = true
same_pipe _ _ = false

unfoldable pub put_packets :
    OutPipe → List (List ℕ) → (OutPipe → List (List ℕ)) → OutPipe → List (List ℕ)
put_packets pipe v packets pipe' = elim (same_pipe pipe pipe') [ true ↦ v | false ↦ packets pipe' ]

unfoldable pub same : Endpoint → Endpoint → Bool
same hi hi = true
same normal normal = true
same lo lo = true
same _ _ = false

unfoldable pub put_slot : {Q : Type 0} → Endpoint → Slot Q → (Endpoint → Slot Q) → Endpoint → Slot Q
put_slot ep v slots ep' = elim (same ep ep') [ true ↦ v | false ↦ slots ep' ]

-- `usbd_copy_in` of the packet leaves it in the buffer.
abbrev pub staged : List (List ℕ) → List ℕ → List ℕ
staged [] buf = buf
staged (packet ∷ _) buf = packet ++ drop (length packet) buf

unfoldable pub view : {Q : Type 0} → OutPipe → Endpoint → Bulk Q → Drain Q
view pipe ep b = record {
  queue = (b.slots ep).queue;
  inflight = (b.slots ep).inflight;
  ampdu = b.ampdu;
  rate_id = b.rate_id;
  tx_report_sn = b.tx_report_sn;
  tx_seq = b.tx_seq;
  submitted = b.submitted pipe;
  freed = (b.slots ep).freed;
}

abbrev pub slot_of : {Q : Type 0} → Drain Q → Slot Q
slot_of d = record { queue = d.queue; inflight = d.inflight; freed = d.freed }

abbrev pub buffer_after : {Q : Type 0} → Result Bool → Drain Q → List ℕ → List ℕ
buffer_after (ok true) d buf = staged d.submitted buf
buffer_after (ok false) d buf = buf
buffer_after (err e) d buf = buf

unfoldable pub restore : {Q : Type 0} → OutPipe → Endpoint → Result Bool → Drain Q → Bulk Q → Bulk Q
unfolding put_slot put_packets
restore pipe ep r d b = record b {
  slots = put_slot ep (slot_of d) b.slots;
  submitted = put_packets pipe d.submitted b.submitted;
  tx_report_sn = d.tx_report_sn;
  tx_seq = d.tx_seq;
  sync = record b.sync { buf = buffer_after r d b.sync.buf };
}

abbrev pub void : Result Bool → Result (Unit {0})
void (ok _) = ok tt
void (err e) = err e

-- `m_freem` of the frame on its way.
unfoldable pub finished : {Q : Type 0} → Slot Q → Slot Q
finished s = elim s.inflight [
  | none ↦ s
  | some m ↦ record s { inflight = none; freed = m ∷ s.freed }
]

abbrev pub one_more : Option Mbuf → ℕ → ℕ
one_more none n = n
one_more (some _) n = (n + 1) % 2 ^ 64

module _ {Q : Type 0} where
  -- A frame that was sent is freed and counted.
  unfoldable pub complete : Endpoint → M (Bulk Q) (Unit {0})
  unfolding put_slot finished
  complete ep = modify λ (b : Bulk Q). record b {
    slots = put_slot ep (finished (b.slots ep)) b.slots;
    stat_tx_packets = one_more (b.slots ep).inflight b.stat_tx_packets;
  }

  unfoldable pub give_up : OutPipe → Endpoint → M (Bulk Q) (Unit {0})
  unfolding put_slot finished
  give_up pipe ep = modify λ (b : Bulk Q). record b {
    slots = put_slot ep (finished (b.slots ep)) b.slots;
    stat_tx_errors = (b.stat_tx_errors + 1) % 2 ^ 64;
    oerrors = (b.oerrors + 1) % 2 ^ 64;
    stalled = pipe ∷ b.stalled;
  }

  -- The transfer of the thread that waits: `sc_tx_buf`, as it is now.
  unfoldable pub submit_sync : OutPipe → M (Bulk Q) (Unit {0})
  unfolding put_packets
  submit_sync pipe = modify λ (b : Bulk Q). record b {
    submitted = put_packets pipe (take b.sync.len b.sync.buf ∷ b.submitted pipe) b.submitted;
  }

  unfoldable pub on_sync : (TxSync → TxSync) → M (Bulk Q) (Unit {0})
  on_sync f = modify λ (b : Bulk Q). record b { sync = f b.sync }

module _ {Q : Type 0} (net : Net Q) (peers : Peers) where
  unfoldable pub drain : OutPipe → Endpoint → M (Bulk Q) (Unit {0})
  unfolding view restore
  drain pipe ep b =
      let (r, d) = drain_q net peers (view pipe ep b) in (void r, restore pipe ep r d b)

  -- `rtw88_bulk_tx_data_be_cb` and `rtw88_bulk_tx_data_vo_cb`.
  unfoldable pub bulk_tx_data_cb : OutPipe → Endpoint → XferState → M (Bulk Q) (Unit {0})
  unfolding complete drain give_up
  bulk_tx_data_cb pipe ep transferred = do complete ep; drain pipe ep
  bulk_tx_data_cb pipe ep setup = drain pipe ep
  bulk_tx_data_cb pipe ep cancelled = pure tt
  bulk_tx_data_cb pipe ep failed = give_up pipe ep

  -- A thread that waits comes before the queue.
  unfoldable pub next_mgmt : OutPipe → Bool → M (Bulk Q) (Unit {0})
  unfolding submit_sync drain
  next_mgmt pipe true = submit_sync pipe
  next_mgmt pipe false = drain pipe hi

  unfoldable pub set_up_mgmt : OutPipe → M (Bulk Q) (Unit {0})
  unfolding next_mgmt
  set_up_mgmt pipe = do b ← get; next_mgmt pipe b.sync.pending

  -- `rtw88_bulk_tx_cb`, of HI and of H2C.
  unfoldable pub bulk_tx_mgmt_cb : OutPipe → XferState → M (Bulk Q) (Unit {0})
  unfolding on_sync complete set_up_mgmt give_up
  bulk_tx_mgmt_cb pipe transferred = do on_sync tx_completed; complete hi; set_up_mgmt pipe
  bulk_tx_mgmt_cb pipe setup = set_up_mgmt pipe
  bulk_tx_mgmt_cb pipe cancelled = pure tt
  bulk_tx_mgmt_cb pipe failed = do on_sync tx_failed; give_up pipe hi

  -- The callback of each pipe.
  unfoldable pub bulk_cb : OutPipe → XferState → M (Bulk Q) (Unit {0})
  unfolding bulk_tx_data_cb bulk_tx_mgmt_cb
  bulk_cb out_hi state = bulk_tx_mgmt_cb out_hi state
  bulk_cb out_normal state = bulk_tx_data_cb out_normal normal state
  bulk_cb out_lo state = bulk_tx_data_cb out_lo lo state
  bulk_cb out_h2c state = bulk_tx_mgmt_cb out_h2c state

  -- The callbacks of all pipes, one after the other as the USB stack calls them.
  unfoldable pub bulk_cbs : List (OutPipe × XferState) → M (Bulk Q) (Unit {0})
  unfolding bulk_cb
  bulk_cbs [] = pure tt
  bulk_cbs ((pipe, state) ∷ events) = do bulk_cb pipe state; bulk_cbs events
