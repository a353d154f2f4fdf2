-- ===== src/Usb/Firmware/Packet.antt =====
-- if_rtw88_usb.c: one packet of firmware, with its transmit descriptor, over the bulk pipe, as in
-- rtw88_send_firmware_pkt and rtw88_bulk_tx_sync.
pub mod Checksum
use rtw88_pub.Base.{
  ℕ, zero, suc, ◌+◌, ◌-◌, ◌*◌, ◌/◌, ◌%◌, ◌^◌, Bool, true, false, ◌||◌, List, [], ◌∷◌, ◌++◌, M,
  ◌>>=◌, ◌>>◌, pure, throw, get, modify, eio, etimedout, einval, undefined, bit_and, bit_or,
  bit_xor, not8, u16, ◌<<◌, ltb, ◌==◌, if◌then◌else◌, length, take, set, replicate, le16dec,
  le32enc,
}
use rtw88_pub.Usb.Softc.{UsbDevice, Softc}
use rtw88_pub.Usb.Io.{read1, write1, write2, setbits1, check_hw_ready}
use rtw88_pub.Usb.Firmware.{TxSync, Loader, on_softc, on_world}

abbrev pub tx_bufsz : ℕ
tx_bufsz = 16384

abbrev pub tx_pkt_desc_sz : ℕ
tx_pkt_desc_sz = 48

abbrev pub bulk_tx_hi : ℕ
bulk_tx_hi = 1

abbrev pub bulk_tx_h2c : ℕ
bulk_tx_h2c = 4

abbrev pub reg_bcn_ctrl : ℕ
reg_bcn_ctrl = 0x0550

abbrev pub reg_fifopage_ctrl_2 : ℕ
reg_fifopage_ctrl_2 = 0x0204

abbrev pub reg_cr : ℕ
reg_cr = 0x0100

abbrev pub bit_bcn_valid : ℕ
bit_bcn_valid = 2 ^ 15

-- `(v & ~BIT_EN_BCN_FUNCTION) | BIT_DIS_TSF_UDT`.
abbrev pub beacon_off : ℕ → ℕ
beacon_off v = bit_or (bit_and v (not8 (2 ^ 3))) (2 ^ 4)

-- `for (i = 0; i < 16; i++) chksum ^= le16dec(desc + i * 2)`, from `i` for `n` rounds.
unfoldable pub xor_words : List ℕ → (n i chksum : ℕ) → ℕ
xor_words desc zero i chksum = chksum
xor_words desc (suc n) i chksum = xor_words desc n (i + 1) (bit_xor chksum (le16dec desc (i * 2)))

unfoldable pub txdesc_checksum : List ℕ → ℕ
txdesc_checksum desc = xor_words desc 16 0 0

-- `le16enc(desc + 28, chksum)`.
unfoldable pub fill_checksum : List ℕ → List ℕ
fill_checksum desc =
    let c = txdesc_checksum desc in set (set desc 28 (c % 256)) 29 (c / 2 ^ 8 % 256)

-- The descriptor of a packet of `size` bytes, for the queue of beacons.
unfoldable pub fw_txdesc : ℕ → List ℕ
fw_txdesc size =
    le32enc (bit_or (bit_or (bit_and size 0xffff) (tx_pkt_desc_sz << 16)) (2 ^ 26))
    ++ le32enc (0x10 << 8)
    ++ replicate 40 0

-- How the transfer that was started ends, before the thread gives up or is interrupted.
pub data BulkEnd : Type 0 where
  transferred transfer_error silent : BulkEnd

-- The bulk pipes of the USB stack: what becomes of the bytes that are submitted.
pub record BulkPipes (W : Type 0) : Type 0 where
  pub bulk_out : (pipe : ℕ) → List ℕ → W → BulkEnd × W

-- `rtw88_bulk_tx_cb`, what it does for the thread that waits.
unfoldable pub tx_completed : TxSync → TxSync
tx_completed t = if t.pending then record t { failed = false; pending = false; done = true } else t

unfoldable pub tx_failed : TxSync → TxSync
tx_failed t = elim t.pending [
  | true ↦ record t { failed = true; pending = false; done = true }
  | false ↦ record t { failed = true }
]

unfoldable pub bulk_tx_cb : BulkEnd → TxSync → TxSync
unfolding tx_completed tx_failed
bulk_tx_cb transferred t = tx_completed t
bulk_tx_cb transfer_error t = tx_failed t
bulk_tx_cb silent t = t

-- `bytes` are all that can be read at the pointer; the transfer is of the first `len`.
unfoldable pub tx_arm : List ℕ → ℕ → TxSync
tx_arm bytes len = record {
  buf = take len bytes;
  len = len;
  pending = true;
  done = false;
  failed = false;
}

module _ {W : Type 0} where
  unfoldable pub tx_result : TxSync → M (Loader W) (Unit {0})
  tx_result t = elim t.done [
    | true ↦ if t.failed then throw eio else pure tt
    | false ↦ do
      modify (λ (l : Loader W). record l { tx = record l.tx { pending = false } })
      throw etimedout
  ]

module _ {W : Type 0} (pipes : BulkPipes W) where
  -- `bytes` are all that can be read at the pointer.
  unfoldable pub bulk_tx_sync : (pipe : ℕ) → List ℕ → (len : ℕ) → M (Loader W) (Unit {0})
  unfolding tx_result tx_arm
  bulk_tx_sync pipe bytes len =
      if (len == 0) || ltb tx_bufsz len
      then throw einval
      else if ltb pipe bulk_tx_hi || ltb bulk_tx_h2c pipe
      then throw einval
      else if ltb (length bytes) len
      then throw undefined
      else do
        modify (λ (l : Loader W). record l { tx = tx_arm bytes len })
        l ← get
        end ← on_world (pipes.bulk_out pipe (take l.tx.len l.tx.buf))
        modify (λ (l : Loader W). record l { tx = bulk_tx_cb end l.tx })
        l' ← get
        tx_result l'.tx

  -- The descriptor and the packet are put together in `sc_tx_buf`.
  unfoldable pub submit_pkt : (size : ℕ) → List ℕ → M (Loader W) (Unit {0})
  unfolding fw_txdesc fill_checksum bulk_tx_sync
  submit_pkt size bytes =
      if ltb (length bytes) size
      then throw undefined
      else bulk_tx_sync bulk_tx_hi (fill_checksum (fw_txdesc size) ++ take size bytes)
          (tx_pkt_desc_sz + size)

module _ {W : Type 0} (usb : UsbDevice W) where
  -- The registers that make the chip take the packet at page `pg_addr`.
  unfoldable pub arm_page : (pg_addr : ℕ) → M (Softc W) (Unit {0})
  arm_page pg_addr = do
    bcn_ctrl ← read1 usb reg_bcn_ctrl
    write2 usb reg_fifopage_ctrl_2 (u16 (bit_or (bit_and pg_addr 0x0fff) bit_bcn_valid))
    setbits1 usb (reg_cr + 1) 1
    write1 usb reg_bcn_ctrl (beacon_off bcn_ctrl)

module _ {W : Type 0} (usb : UsbDevice W) (pipes : BulkPipes W) where
  unfoldable pub send_firmware_pkt : (pg_addr size : ℕ) → List ℕ → M (Loader W) (Unit {0})
  unfolding arm_page submit_pkt
  send_firmware_pkt pg_addr size bytes =
      if (size == 0) || ltb (tx_bufsz - tx_pkt_desc_sz) size then throw einval else do
        on_softc (arm_page usb pg_addr)
        submit_pkt pipes size bytes
        on_softc (check_hw_ready usb reg_fifopage_ctrl_2 bit_bcn_valid bit_bcn_valid)
