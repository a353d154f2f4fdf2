-- ===== src/Usb/Firmware/Segment/Failing.antt =====
-- With which errno values the parts of the download fail, where the image has the bytes they ask
-- for.
use rtw88_pub.Base.{
  ℕ, zero, suc, ◌+◌, ◌-◌, ◌^◌, ◌≤◌, ◌≡◌, ◌≢◌, refl, arith, inl, inr, Bool, Bool-cases, true, false,
  List, Errno, err, eio, einval, enoent, etimedout, undefined, M, Result, ok, Fails, Fails-bind,
  Fails-pure, Fails-throw, Fails-if, Fails-test, Fails-either, Fails-ignore, Fails-attempt,
  Fails-modify, Fails-get, ok_not_err, ltb, ◌==◌, length, drop, take, length-drop, length-take,
  length-append, ◌++◌, if◌then◌else◌, not, has,
}
use rtw88_pub.Device.{Dev, on_bus}
use rtw88_pub.Usb.Softc.{UsbDevice, Softc}
use rtw88_pub.Usb.Io.{read1, read4, write1, check_hw_ready}
use rtw88_pub.Usb.Io.Failing.{
  Fails-read1, Fails-read4, Fails-write1, Fails-write2, Fails-write4, Fails-setbits1,
  Fails-check_hw_ready,
}
use rtw88_pub.Usb.Firmware.{Loader, TxSync, on_softc, on_handle, on_world}
use rtw88_pub.Usb.Firmware.Packet.{
  BulkPipes, bulk_tx_hi, tx_pkt_desc_sz, bulk_tx_sync, bulk_tx_cb, tx_arm, tx_result, submit_pkt,
  arm_page, send_firmware_pkt, fw_txdesc, fill_checksum,
}
use rtw88_pub.Usb.Firmware.Segment.{
  reg_mcufw_ctrl, reg_ddma_ch0ctrl, acked, iddma_chunk, ack_write, ack_ddma, ack_mcufw,
  segment_checksum_ack, place, chunk_loop, reset_checksum, finish_segment,
  download_firmware_segment, max_chunk,
}

-- An errno value of the driver.
abbrev pub IsErrno : Errno → Type 0
IsErrno e = e ≢ undefined

pub eio-IsErrno : IsErrno eio
eio-IsErrno h = cc

pub etimedout-IsErrno : IsErrno etimedout
etimedout-IsErrno h = cc

pub einval-IsErrno : IsErrno einval
einval-IsErrno h = cc

pub enoent-IsErrno : IsErrno enoent
enoent-IsErrno h = cc

module _ {W : Type 0} {A : Type 0} where
  pub Fails-on_softc : {m : M (Softc W) A} → Fails IsErrno m → Fails IsErrno (on_softc m)
  Fails-on_softc h = record { only = λ l e q. h.only l.handle.bus e q }

  pub Fails-on_world : (m : W → A × W) → Fails IsErrno (on_world m)
  Fails-on_world m = record { only = λ l e h. absurd (ok_not_err (m l.handle.bus.world).0 e h) }

  pub Fails-on_handle : {m : M (Dev (Softc W)) A} → Fails IsErrno m → Fails IsErrno (on_handle m)
  Fails-on_handle h = record { only = λ l e q. h.only l.handle e q }

  pub Fails-on_bus : {m : M (Softc W) A} → Fails IsErrno m → Fails IsErrno (on_bus m)
  Fails-on_bus h = record { only = λ d e q. h.only d.bus e q }

module _ {W : Type 0} (pipes : BulkPipes W) where
  Fails-tx_result : (t : TxSync) → Fails IsErrno (tx_result {W = W} t)
  unfolding tx_result
  Fails-tx_result t = elim (Bool-cases t.done) [
    | inl d ↦ rw d (Fails-if t.failed (Fails-throw eio eio-IsErrno) (Fails-pure tt))
    | inr d ↦ rw d (
        Fails-bind
          (Fails-modify (λ (l : Loader W). record l { tx = record l.tx { pending = false } }))
          λ _. Fails-throw etimedout etimedout-IsErrno)
  ]

  Fails-bulk_tx_sync :
      (pipe : ℕ) (bytes : List ℕ) (len : ℕ)
      → len ≤ length bytes
      → Fails IsErrno (bulk_tx_sync pipes pipe bytes len)
  unfolding bulk_tx_sync
  Fails-bulk_tx_sync pipe bytes len enough = Fails-if _ (Fails-throw einval einval-IsErrno) (
      Fails-if _ (Fails-throw einval einval-IsErrno) (
        Fails-either (ltb (length bytes) len) (λ e. absurd (ground (arith, e, enough)))
          (λ e.
            Fails-bind (Fails-modify (λ (l : Loader W). record l { tx = tx_arm bytes len })) λ _.
              Fails-bind Fails-get λ l.
                Fails-bind (Fails-on_world (pipes.bulk_out pipe (take l.tx.len l.tx.buf))) λ end.
                  Fails-bind
                    (Fails-modify (λ (l : Loader W). record l { tx = bulk_tx_cb end l.tx }))
                    λ _. Fails-bind Fails-get λ l'. Fails-tx_result l'.tx)))

module _ {W : Type 0} (pipes : BulkPipes W) where
  length-fill_checksum : (size : ℕ) → length (fill_checksum (fw_txdesc size)) ≡ 48
  unfolding fill_checksum fw_txdesc
  length-fill_checksum size = refl

  Fails-submit_pkt :
      (size : ℕ) (bytes : List ℕ)
      → size ≤ length bytes
      → Fails IsErrno (submit_pkt pipes size bytes)
  unfolding submit_pkt
  Fails-submit_pkt size bytes enough =
      Fails-either (ltb (length bytes) size) (λ e. absurd (ground (arith, e, enough)))
        (λ e.
          Fails-bulk_tx_sync pipes bulk_tx_hi (fill_checksum (fw_txdesc size) ++ take size bytes)
            (tx_pkt_desc_sz + size)
            (omega (
              arith,
              length-append (fill_checksum (fw_txdesc size)) (take size bytes),
              length-fill_checksum size,
              length-take size bytes,
              enough,
            )))

module _ {W : Type 0} (usb : UsbDevice W) where
  pub ready : (reg mask target : ℕ) → Fails IsErrno (check_hw_ready usb reg mask target)
  ready reg mask target =
      Fails-check_hw_ready IsErrno eio-IsErrno usb reg mask target etimedout-IsErrno

  Fails-arm_page : (pg_addr : ℕ) → Fails IsErrno (arm_page usb pg_addr)
  unfolding arm_page
  Fails-arm_page pg_addr = Fails-bind (Fails-read1 IsErrno eio-IsErrno usb _) λ v.
      Fails-bind (Fails-write2 IsErrno eio-IsErrno usb _ _) λ _.
        Fails-bind (Fails-setbits1 IsErrno eio-IsErrno usb _ _)
          λ _. Fails-write1 IsErrno eio-IsErrno usb _ _

  Fails-iddma_chunk :
      (src dst len : ℕ) (first : Bool) → Fails IsErrno (iddma_chunk usb src dst len first)
  unfolding iddma_chunk
  Fails-iddma_chunk src dst len first = Fails-bind (ready _ _ _) λ _.
      Fails-bind (Fails-write4 IsErrno eio-IsErrno usb _ _) λ _.
        Fails-bind (Fails-write4 IsErrno eio-IsErrno usb _ _)
          λ _. Fails-bind (Fails-write4 IsErrno eio-IsErrno usb _ _) λ _. ready _ _ _

  Fails-reset_checksum : Fails IsErrno (reset_checksum usb)
  unfolding reset_checksum
  Fails-reset_checksum =
      Fails-bind (Fails-read4 IsErrno eio-IsErrno usb _)
        λ v. Fails-write4 IsErrno eio-IsErrno usb _ _

  Fails-ack_ddma : (dst fw_ctrl : ℕ) (r : Result ℕ) → Fails IsErrno (ack_ddma usb dst fw_ctrl r)
  unfolding ack_ddma ack_write
  Fails-ack_ddma dst fw_ctrl (err e) = Fails-pure false
  Fails-ack_ddma dst fw_ctrl (ok ddma) =
      let good = not (has ddma (2 ^ 27)) in
      Fails-bind (Fails-ignore (write1 usb reg_mcufw_ctrl (acked dst fw_ctrl good)))
        λ _. Fails-pure good

  Fails-ack_mcufw : (dst : ℕ) (r : Result ℕ) → Fails IsErrno (ack_mcufw usb dst r)
  unfolding ack_mcufw
  Fails-ack_mcufw dst (err e) = Fails-pure false
  Fails-ack_mcufw dst (ok fw_ctrl) =
      Fails-bind (Fails-attempt (read4 usb reg_ddma_ch0ctrl)) (Fails-ack_ddma dst fw_ctrl)

  Fails-segment_checksum_ack : (dst : ℕ) → Fails IsErrno (segment_checksum_ack usb dst)
  unfolding segment_checksum_ack
  Fails-segment_checksum_ack dst =
      Fails-bind (Fails-attempt (read1 usb reg_mcufw_ctrl)) (Fails-ack_mcufw dst)

  Fails-finish_segment : (dst : ℕ) → Fails IsErrno (finish_segment usb dst)
  unfolding finish_segment
  Fails-finish_segment dst =
      Fails-bind (Fails-on_softc (Fails-segment_checksum_ack dst))
        λ good. Fails-if good (Fails-pure tt) (Fails-throw eio eio-IsErrno)

module _ {W : Type 0} (usb : UsbDevice W) (pipes : BulkPipes W) where
  Fails-place :
      (dst off size : ℕ) (bytes : List ℕ) (first : Bool)
      → size ≤ length bytes
      → Fails IsErrno (place usb pipes dst off size bytes first)
  unfolding place send_firmware_pkt
  Fails-place dst off size bytes first enough =
      Fails-bind
        (Fails-if _ (Fails-throw einval einval-IsErrno) (
          Fails-bind (Fails-on_softc (Fails-arm_page usb 0)) λ _.
            Fails-bind (Fails-submit_pkt pipes size bytes enough)
              λ _. Fails-on_softc (ready usb _ _ _)))
        λ _. Fails-on_softc (Fails-iddma_chunk usb _ _ size first)

  Fails-chunk_loop :
      (fuel dst : ℕ) (bytes : List ℕ) (off remain : ℕ) (first : Bool)
      → off + remain ≤ length bytes
      → Fails IsErrno (chunk_loop usb pipes fuel dst bytes off remain first)
  unfolding chunk_loop
  Fails-chunk_loop zero dst bytes off remain first enough = Fails-pure tt
  Fails-chunk_loop (suc fuel) dst bytes off remain first enough =
      let chunk = if ltb max_chunk remain then max_chunk else remain in
      let fits : chunk ≤ remain = ground arith in
      Fails-test (remain == 0) (Fails-pure tt) (
        Fails-bind
          (Fails-place dst off chunk (drop off bytes) first
            (omega (arith, length-drop off bytes, fits, enough)))
          λ _.
            Fails-chunk_loop fuel dst bytes (off + chunk) (remain - chunk) false
              (omega (arith, fits, enough)))

  pub Fails-download_firmware_segment :
      (dst : ℕ) (bytes : List ℕ) (size : ℕ)
      → size ≤ length bytes
      → Fails IsErrno (download_firmware_segment usb pipes dst bytes size)
  unfolding download_firmware_segment
  Fails-download_firmware_segment dst bytes size enough =
      Fails-bind (Fails-on_softc (Fails-reset_checksum usb)) λ _.
        Fails-bind (Fails-chunk_loop size dst bytes 0 size true (omega (arith, enough)))
          λ _. Fails-finish_segment usb dst
