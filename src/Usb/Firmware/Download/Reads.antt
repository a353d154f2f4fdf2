-- ===== src/Usb/Firmware/Download/Reads.antt =====
-- The reads of the firmware image by its download.
use rtw88_pub.Base.{
  ℕ, ◌+◌, ◌-◌, ◌^◌, ◌≤◌, ◌<◌, ◌≡◌, refl, sym, ◌∙◌, subst, arith, inl, inr, Bool-cases, true, List,
  Option, none, some, Errno, err, einval, enoent, M, ◌>>◌, ignore, Fails, Fails-bind, Fails-throw,
  Fails-either, Fails-when, ltb, ◌==◌, length, drop, length-drop, if◌then◌else◌, has,
}
use rtw88_pub.Device.{Dev}
use rtw88_pub.Usb.Softc.{UsbDevice, Softc}
use rtw88_pub.Usb.Firmware.{
  FwHdr, fw_hdr_size, fw_hdr_decode, Loader, accept_fw, fw_acquire, on_world,
}
use rtw88_pub.Usb.Firmware.Packet.{BulkPipes}
use rtw88_pub.Usb.Firmware.Segment.Failing.{
  IsErrno, einval-IsErrno, enoent-IsErrno, Fails-on_softc, Fails-download_firmware_segment,
}
use rtw88_pub.Usb.Firmware.Download.{
  dmem_len, imem_len, emem_len, has_sizes, send_segments, download_image, with_image,
  download_firmware,
}
use rtw88_pub.Usb.Firmware.Download.Opening.{Fails-open_download, Fails-close_download}

-- The sizes in the header do not wrap around when they are added up in 32 bits.
abbrev pub HasRoom : FwHdr → Type 0
HasRoom h =
    fw_hdr_size
      + (h.dmem_size + 8)
      + (h.imem_size + 8)
      + (if has h.mem_usage 0x10 then h.emem_size + 8 else 0)
    < 2 ^ 32

abbrev pub IsSane : List ℕ → Type 0
IsSane bytes = (length bytes < 2 ^ 32) × HasRoom (fw_hdr_decode bytes)

has_sizes-total :
    (h : FwHdr) (bytes : List ℕ)
    → has_sizes h bytes ≡ true
    → length bytes < 2 ^ 32
    → HasRoom h
    → fw_hdr_size + dmem_len h + imem_len h + emem_len h ≡ length bytes
unfolding has_sizes
has_sizes-total h bytes sizes short room = ground arith

none_not_some : (bytes : List ℕ) → none ≡ some bytes → ⊥
none_not_some bytes h = cc

some_inj : {a b : List ℕ} → some a ≡ some b → a ≡ b
some_inj h = cc

module _ {W : Type 0} (usb : UsbDevice W) (pipes : BulkPipes W) where
  Fails-send_segments :
      (h : FwHdr) (bytes : List ℕ)
      → fw_hdr_size + dmem_len h + imem_len h + emem_len h ≡ length bytes
      → Fails IsErrno (send_segments usb pipes h bytes)
  unfolding send_segments
  Fails-send_segments h bytes total =
      let dmem = drop fw_hdr_size bytes in
      let imem = drop (dmem_len h) dmem in
      let emem = drop (imem_len h) imem in
      let d : length dmem ≡ length bytes - fw_hdr_size = length-drop fw_hdr_size bytes in
      let i : length imem ≡ length dmem - dmem_len h = length-drop (dmem_len h) dmem in
      let e : length emem ≡ length imem - imem_len h = length-drop (imem_len h) imem in
      Fails-bind
        (Fails-download_firmware_segment usb pipes _ dmem (dmem_len h) (omega (arith, total, d)))
        λ _.
          Fails-bind
            (Fails-download_firmware_segment usb pipes _ imem (imem_len h)
              (omega (arith, total, d, i)))
            λ _. Fails-when _ (
              Fails-download_firmware_segment usb pipes _ emem (emem_len h)
                (omega (arith, total, d, i, e)))

  Fails-with_image :
      (cfg_init : Option (M (Dev (Softc W)) (Unit {0}))) (image : Option (List ℕ))
      → ((bytes : List ℕ) → image ≡ some bytes → (fw_hdr_size ≤ length bytes) × IsSane bytes)
      → Fails IsErrno (with_image usb pipes cfg_init image)
  unfolding with_image download_image
  Fails-with_image cfg_init none sane = Fails-throw enoent enoent-IsErrno
  Fails-with_image cfg_init (some bytes) sane =
      let (headed, sized) = sane bytes refl in
      let (short, room) = sized in
      let h = fw_hdr_decode bytes in
      Fails-either (ltb (length bytes) fw_hdr_size) (λ e. absurd (ground (arith, e, headed)))
        (λ _.
          Fails-either (has_sizes h bytes)
            (λ sizes. Fails-bind (Fails-open_download usb cfg_init) λ _.
              Fails-bind (Fails-send_segments h bytes (has_sizes-total h bytes sizes short room))
                λ _. Fails-on_softc (Fails-close_download usb))
            (λ _. Fails-throw einval einval-IsErrno))

  accepted :
      (chip_id : ℕ) (image : Option (List ℕ)) (l : Loader W) (bytes : List ℕ)
      → l.fw ≡ none
      → ((b : List ℕ) → image ≡ some b → IsSane b)
      → (accept_fw chip_id image l).1.fw ≡ some bytes
      → (fw_hdr_size ≤ length bytes) × IsSane bytes
  unfolding accept_fw
  accepted chip_id none l bytes start sane now = absurd (none_not_some bytes (sym start ∙ now))
  accepted chip_id (some b) l bytes start sane now =
      elim (Bool-cases (ltb (length b) fw_hdr_size)) [
        | inl short ↦
            let kept : l.fw ≡ some bytes = rw (accept_fw, short) at now in
            absurd (none_not_some bytes (sym start ∙ kept))
        | inr headed ↦ elim (Bool-cases ((fw_hdr_decode b).signature == chip_id)) [
          | inl signed ↦
              let same : some b ≡ some bytes = rw (accept_fw, headed, signed) at now in
              subst (λ bs. (fw_hdr_size ≤ length bs) × IsSane bs) (some_inj same)
                (ground (arith, headed), sane b refl)
          | inr other ↦
              let kept : l.fw ≡ some bytes = rw (accept_fw, headed, other) at now in
              absurd (none_not_some bytes (sym start ∙ kept))
        ]
      ]

  -- As the driver attaches, it takes the image that the kernel has and downloads it. Whatever the
  -- adapter and the bulk pipe do, and whatever the image holds, a download that fails does so with an
  -- errno value: nothing is read outside the image. It is assumed that no image was there before,
  -- that the image is under 4 GiB, and that the sizes in its header, added up, are under 2^32.
  pub download_firmware-IsErrno :
      (firmware_get : W → Option (List ℕ) × W) (chip_id : ℕ)
      (cfg_init : Option (M (Dev (Softc W)) (Unit {0}))) (l : Loader W) (e : Errno)
      → l.fw ≡ none
      → ((bytes : List ℕ) → (firmware_get l.handle.bus.world).0 ≡ some bytes → IsSane bytes)
      → ((do ignore (fw_acquire firmware_get chip_id); download_firmware usb pipes cfg_init) l).0
        ≡ err e
      → IsErrno e
  unfolding download_firmware fw_acquire
  download_firmware-IsErrno firmware_get chip_id cfg_init l e start sane fails =
      let image = (firmware_get l.handle.bus.world).0 in
      let (_, start_l) = on_world firmware_get l in
      let taken = (accept_fw chip_id image start_l).1 in
      (Fails-with_image cfg_init taken.fw
          (λ bytes now. accepted chip_id image start_l bytes start sane now)).only
        taken e fails
