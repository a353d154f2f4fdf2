-- ===== src/Usb/Firmware/Segment.antt =====
-- if_rtw88_usb.c: a segment of firmware in chunks, as in rtw88_download_firmware_segment.
pub mod Chunks
pub mod Failing
use rtw88_pub.Base.{
  ℕ, zero, suc, ◌+◌, ◌-◌, ◌^◌, Bool, true, false, List, ok, err, Result, M, ◌>>=◌, ◌>>◌, pure,
  throw, attempt, ignore, eio, bit_and, bit_or, not8, u32, has, not, ltb, ◌==◌, if◌then◌else◌, drop,
}
use rtw88_pub.Usb.Softc.{UsbDevice, Softc}
use rtw88_pub.Usb.Io.{read1, read4, write1, write4, check_hw_ready}
use rtw88_pub.Usb.Firmware.{Loader, on_softc}
use rtw88_pub.Usb.Firmware.Packet.{BulkPipes, tx_pkt_desc_sz, send_firmware_pkt}

abbrev pub reg_ddma_ch0sa : ℕ
reg_ddma_ch0sa = 0x1200

abbrev pub reg_ddma_ch0da : ℕ
reg_ddma_ch0da = 0x1204

abbrev pub reg_ddma_ch0ctrl : ℕ
reg_ddma_ch0ctrl = 0x1208

abbrev pub reg_mcufw_ctrl : ℕ
reg_mcufw_ctrl = 0x0080

abbrev pub bit_ddmach0_own : ℕ
bit_ddmach0_own = 2 ^ 31

abbrev pub ocpbase_txbuf : ℕ
ocpbase_txbuf = 0x18780000

-- `const uint32_t max_chunk`.
abbrev pub max_chunk : ℕ
max_chunk = 0x1000

-- CHKSUM_EN, OWN, the length, and CHKSUM_CONT after the first chunk.
pub ddma_ctrl : (len : ℕ) (first : Bool) → ℕ
ddma_ctrl len first =
    let ctrl = bit_or (bit_or (2 ^ 29) bit_ddmach0_own) (bit_and len 0x3ffff) in
    if first then ctrl else bit_or ctrl (2 ^ 24)

-- The bits of a segment, DW_OK and CHKSUM_OK: bits 3 and 4 for IMEM and EMEM, 5 and 6 for DMEM.
pub acked : (dst fw_ctrl : ℕ) (good : Bool) → ℕ
acked dst fw_ctrl good =
    if ltb dst 0x00200000
    then (if good
        then bit_or (bit_or fw_ctrl (2 ^ 3)) (2 ^ 4)
        else bit_and (bit_or fw_ctrl (2 ^ 3)) (not8 (2 ^ 4)))
    else if good
    then bit_or (bit_or fw_ctrl (2 ^ 5)) (2 ^ 6)
    else bit_and (bit_or fw_ctrl (2 ^ 5)) (not8 (2 ^ 6))

module _ {W : Type 0} (usb : UsbDevice W) where
  unfoldable pub iddma_chunk : (src dst len : ℕ) (first : Bool) → M (Softc W) (Unit {0})
  unfolding ddma_ctrl
  iddma_chunk src dst len first = do
    check_hw_ready usb reg_ddma_ch0ctrl bit_ddmach0_own 0
    write4 usb reg_ddma_ch0sa src
    write4 usb reg_ddma_ch0da dst
    write4 usb reg_ddma_ch0ctrl (ddma_ctrl len first)
    check_hw_ready usb reg_ddma_ch0ctrl bit_ddmach0_own 0

  unfoldable pub ack_write : (dst fw_ctrl ddma : ℕ) → M (Softc W) Bool
  unfolding acked
  ack_write dst fw_ctrl ddma = do
    let good = not (has ddma (2 ^ 27))
    ignore (write1 usb reg_mcufw_ctrl (acked dst fw_ctrl good))
    pure good

  unfoldable pub ack_ddma : (dst fw_ctrl : ℕ) → Result ℕ → M (Softc W) Bool
  ack_ddma dst fw_ctrl (err e) = pure false
  ack_ddma dst fw_ctrl (ok ddma) = ack_write dst fw_ctrl ddma

  unfoldable pub ack_mcufw : (dst : ℕ) → Result ℕ → M (Softc W) Bool
  ack_mcufw dst (err e) = pure false
  ack_mcufw dst (ok fw_ctrl) = do
    ddma ← attempt (read4 usb reg_ddma_ch0ctrl)
    ack_ddma dst fw_ctrl ddma

  -- A read that fails is a checksum that is not right.
  unfoldable pub segment_checksum_ack : (dst : ℕ) → M (Softc W) Bool
  unfolding ack_mcufw ack_ddma ack_write
  segment_checksum_ack dst = do fw_ctrl ← attempt (read1 usb reg_mcufw_ctrl); ack_mcufw dst fw_ctrl

  unfoldable pub reset_checksum : M (Softc W) (Unit {0})
  reset_checksum = do
    val32 ← read4 usb reg_ddma_ch0ctrl
    write4 usb reg_ddma_ch0ctrl (bit_or val32 (2 ^ 25))

  unfoldable pub finish_segment : (dst : ℕ) → M (Loader W) (Unit {0})
  unfolding segment_checksum_ack
  finish_segment dst = do
    good ← on_softc (segment_checksum_ack dst)
    if good then pure tt else throw eio

module _ {W : Type 0} (usb : UsbDevice W) (pipes : BulkPipes W) where
  -- A packet into the buffer of the chip, and from there to where it belongs.
  unfoldable pub place :
      (dst off : ℕ) → (size : ℕ) → List ℕ → (first : Bool) → M (Loader W) (Unit {0})
  unfolding send_firmware_pkt iddma_chunk
  place dst off size bytes first = do
    send_firmware_pkt usb pipes 0 size bytes
    on_softc (iddma_chunk usb (ocpbase_txbuf + tx_pkt_desc_sz) (u32 (dst + off)) size first)

  -- `while (remain > 0)`. A round takes a byte at least, so `remain` rounds are enough.
  unfoldable pub chunk_loop :
      (fuel dst : ℕ) → List ℕ → (off remain : ℕ) (first : Bool) → M (Loader W) (Unit {0})
  unfolding place
  chunk_loop zero dst bytes off remain first = pure tt
  chunk_loop (suc fuel) dst bytes off remain first = elim (remain == 0) [
    | true ↦ pure tt
    | false ↦ do
      let chunk = if ltb max_chunk remain then max_chunk else remain
      place dst off chunk (drop off bytes) first
      chunk_loop fuel dst bytes (off + chunk) (remain - chunk) false
  ]

  unfoldable pub download_firmware_segment :
      (dst : ℕ) → List ℕ → (size : ℕ) → M (Loader W) (Unit {0})
  unfolding reset_checksum chunk_loop finish_segment
  download_firmware_segment dst bytes size = do
    on_softc (reset_checksum usb)
    chunk_loop size dst bytes 0 size true
    finish_segment usb dst
