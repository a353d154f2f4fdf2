-- ===== src/Usb/Rx/Bulk.antt =====
-- rtw88_rx_one and rtw88_bulk_rx_cb: one bulk transfer may carry several packets, each padded to
-- eight bytes.
pub mod Total
pub mod Rssi
pub mod Aggregate
use rtw88_pub.Base.{
  ℕ, zero, suc, ◌+◌, ◌-◌, ◌*◌, ◌/◌, ◌^◌, ◌%◌, Bool, true, false, not, ◌&&◌, ◌||◌, List, [], ◌∷◌, M,
  ◌>>=◌, ◌>>◌, pure, throw, undefined, get, modify, when, ltb, leb, ◌==◌, bit_and, bit_or, has,
  if◌then◌else◌, length, drop,
}
use rtw88_pub.Usb.Rx.{
  RxStat, Rx, RxEnv, slice, word, rx_desc_sz, decode, pkt_offset, total, aligned, up,
}
use rtw88_pub.Usb.Rx.C2h.{c2h_dispatch}
use rtw88_pub.Usb.Rx.Status.{query_phy_status}
use rtw88_pub.Usb.Rx.Frame.{rx_deliver}

pub rx_error : M Rx (Unit {0})
rx_error = modify (λ (s : Rx). record s { rx_errors = up s.rx_errors; ierrors = up s.ierrors })

pub rx_drop : M Rx (Unit {0})
rx_drop = modify (λ (s : Rx). record s { rx_drops = up s.rx_drops })

abbrev pub is_noted : RxStat → Rx → Bool
is_noted st s = has s.shift_seen (2 ^ bit_and st.shift 0x1f)

abbrev pub noted : RxStat → Rx → Rx
noted st s = record s { shift_seen = bit_or s.shift_seen (2 ^ bit_and st.shift 0x1f) }

-- A shift that was not seen before is noted, and the packet's first byte is looked at for the message.
pub first_shift : List ℕ → RxStat → M Rx (Unit {0})
first_shift buf st = do modify (noted st); byte ← slice buf (pkt_offset st) 1; pure tt

pub note_shift : List ℕ → RxStat → M Rx (Unit {0})
note_shift buf st = do
  s ← get
  if st.shift == 0 || is_noted st s then pure tt else first_shift buf st

module _ (env : RxEnv) where
  -- The signal, where the descriptor says that it is there.
  pub rx_status : List ℕ → RxStat → M Rx RxStat
  rx_status buf st =
      if st.phy_status && leb 16 st.drv_info_sz
      then (do ps ← slice buf rx_desc_sz 16; pure (query_phy_status env.rfe_option ps st))
      else pure st

  pub rx_take : List ℕ → RxStat → M Rx (Unit {0})
  rx_take buf st = do body ← slice buf (pkt_offset st) st.pkt_len; rx_deliver env st body

  -- An mbuf for the frame, or a drop.
  pub rx_copy : List ℕ → RxStat → M Rx (Unit {0})
  rx_copy buf st = do s ← get; if env.m_get2 s st.pkt_len then rx_take buf st else rx_drop

  -- A frame without its FCS.
  pub rx_frame : List ℕ → RxStat → M Rx (Unit {0})
  rx_frame buf st = do
    st' ← rx_status buf st
    if ltb 2048 st'.pkt_len then rx_drop else rx_copy buf st'

  pub rx_event : List ℕ → RxStat → M Rx (Unit {0})
  rx_event buf st = do body ← slice buf (pkt_offset st) st.pkt_len; c2h_dispatch body

  -- What becomes of a packet that is whole. A frame with a bad ICV is counted and goes on.
  pub rx_body : List ℕ → RxStat → M Rx (Unit {0})
  rx_body buf st =
      if st.is_c2h
      then rx_event buf st
      else if st.pkt_len == 0
      then pure tt
      else if st.crc_err
      then rx_error
      else do
        when st.icv_err rx_error
        if leb st.pkt_len 4 then pure tt else rx_frame buf (record st { pkt_len = st.pkt_len - 4 })

  pub rx_packet : List ℕ → RxStat → M Rx ℕ
  rx_packet buf st =
      if ltb (length buf) (total st)
      then pure 0
      else (do note_shift buf st; rx_body buf st; pure (aligned st))

  -- How far the next packet is; 0 for what is no packet.
  pub rx_one : List ℕ → M Rx ℕ
  rx_one buf = if ltb (length buf) rx_desc_sz then pure 0 else (do
    w0 ← word buf 0
    w2 ← word buf 8
    w3 ← word buf 12
    w4 ← word buf 16
    w5 ← word buf 20
    rx_packet buf (decode w0 w2 w3 w4 w5))

  -- `for (off = 0; off < actlen; off += consumed)`, over the bytes from `off` on.
  pub rx_loop : (fuel : ℕ) → List ℕ → M Rx (Unit {0})
  rx_loop zero buf = throw undefined
  rx_loop (suc fuel) [] = pure tt
  rx_loop (suc fuel) (b ∷ buf) = do
    consumed ← rx_one (b ∷ buf)
    elim (consumed == 0) [ true ↦ pure tt | false ↦ rx_loop fuel (drop consumed (b ∷ buf)) ]

  -- A transfer that is done. The stage is as long as the largest transfer.
  pub bulk_rx : List ℕ → M Rx (Unit {0})
  bulk_rx buf = do
    modify (λ (s : Rx). record s { rx_packets = up s.rx_packets })
    if ltb 32768 (length buf) then pure tt else rx_loop (suc (length buf)) buf
