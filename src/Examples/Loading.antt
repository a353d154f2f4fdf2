-- ===== src/Examples/Loading.antt =====
-- The theorems on the download of the firmware at concrete images and adapters.
use rtw88_pub.Base.{
  ℕ, ◌≡◌, refl, arith, inl, inr, true, false, List, [], ◌∷◌, ◌++◌, Option, none, some, err, eio,
  ignore, M, ◌>>◌, subst, has, length, replicate, get_or,
}
use rtw88_pub.Usb.Softc.{UsbDevice, Softc}
use rtw88_pub.Usb.Io.{
  io_enter, io_exit, reg_sec, finish_read, finish_write, read_region, write_region, read1, write1,
}
use rtw88_pub.Usb.Power.Mac.{
  mac_currently_on, on_by_cr, mac_power_up_once, mac_pre_system_cfg, mac_power_on,
}
use rtw88_pub.Usb.Firmware.{Loader, fw_hdr_decode, fw_acquire, accept_fw, on_softc}
use rtw88_pub.Usb.Firmware.Packet.{
  BulkPipes, transferred, txdesc_checksum, fill_checksum, xor_words,
}
use rtw88_pub.Usb.Firmware.Segment.{reset_checksum, finish_segment, download_firmware_segment}
use rtw88_pub.Usb.Firmware.Segment.Chunks.{
  concat, IsSplit, send_chunks, download_firmware_segment-chunks,
}
use rtw88_pub.Usb.Firmware.Segment.Failing.{IsErrno}
use rtw88_pub.Usb.Firmware.Download.{
  has_sizes, with_image, download_image, open_download, download_firmware,
}
use rtw88_pub.Usb.Firmware.Download.Reads.{IsSane, download_firmware-IsErrno}
use rtw88_pub.Examples.{handle, wire, softc}

-- The descriptor of a packet of five bytes.
abbrev five_bytes : List ℕ
five_bytes = 0x05 ∷ 0x00 ∷ 0x30 ∷ 0x04 ∷ 0x00 ∷ 0x10 ∷ replicate 42 0

five_bytes-checksum : get_or (fill_checksum five_bytes) 28 0 ≡ 0x35
unfolding fill_checksum txdesc_checksum xor_words
five_bytes-checksum = refl

-- Every transfer arrives, and what is sent is kept with the requests.
abbrev pub arrives : BulkPipes (List (ℕ × List ℕ))
arrives = record { bulk_out = λ pipe bytes w. (transferred, (pipe, bytes) ∷ w) }

abbrev pub loader : {W : Type 0} → Softc W → Loader W
loader sc = record {
  handle = record {
    bus = sc;
    chip = handle.chip;
    efuse = handle.efuse;
    coex = handle.coex;
    lps = handle.lps;
    bf = handle.bf;
    led = handle.led;
    regd = handle.regd;
    counters = handle.counters;
  };
  fw = none;
  tx = record { buf = []; len = 0; pending = false; done = false; failed = false };
}

-- A segment of 4098 bytes.
abbrev chunks : List (List ℕ)
chunks = replicate 4096 1 ∷ (7 ∷ 8 ∷ []) ∷ []

chunks-IsSplit : IsSplit chunks
chunks-IsSplit = (omega arith, omega arith, inl refl, (omega arith, omega arith, inr refl, tt))

download_firmware_segment-chunks_example :
    download_firmware_segment wire arrives 0x00200000
      (concat chunks ++ (9 ∷ []))
      (length (concat chunks))
      (loader softc)
    ≡ (do
      on_softc (reset_checksum wire)
      send_chunks wire arrives 0x00200000 0 true chunks
      finish_segment wire 0x00200000)
        (loader softc)
download_firmware_segment-chunks_example =
    download_firmware_segment-chunks wire arrives chunks (9 ∷ []) 0x00200000 (loader softc)
      chunks-IsSplit

-- An adapter that is not there any more, and an image of a header and two empty segments.
abbrev unplugged : UsbDevice (List (ℕ × List ℕ))
unplugged = record { vendor_read = λ a n w. (err eio, w); vendor_write = λ a buf w. (err eio, w) }

abbrev image : List ℕ
image = 0x21 ∷ 0x88 ∷ replicate 78 0

abbrev has_image : List (ℕ × List ℕ) → Option (List ℕ) × List (ℕ × List ℕ)
has_image w = (some image, w)

attached : M (Loader (List (ℕ × List ℕ))) (Unit {0})
attached = do ignore (fw_acquire has_image 0x8821); download_firmware unplugged arrives none

fails_with : (attached (loader softc)).0 ≡ err eio
unfolding attached fw_acquire accept_fw fw_hdr_decode download_firmware with_image has_sizes
    download_image open_download mac_power_on mac_currently_on on_by_cr mac_power_up_once
    mac_pre_system_cfg read1 write1 read_region write_region finish_read finish_write io_enter
    io_exit reg_sec has
fails_with = refl

image-IsSane : IsSane image
unfolding fw_hdr_decode has
image-IsSane = (omega arith, omega arith)

image_of : (bytes : List ℕ) → some image ≡ some bytes → image ≡ bytes
image_of bytes h = cc

download_firmware-IsErrno_example : IsErrno eio
unfolding attached
download_firmware-IsErrno_example =
    download_firmware-IsErrno unplugged arrives has_image 0x8821 none (loader softc) eio refl
      (λ bytes h. subst IsSane (image_of bytes h) image-IsSane) fails_with

-- A header alone, whose sizes with their checksums are 2 ^ 32 - 8 and 8: the sum wraps around to the
-- length of the image, and it is accepted.
abbrev wrapped : List ℕ
wrapped = replicate 36 0 ++ (0xf0 ∷ 0xff ∷ 0xff ∷ 0xff ∷ []) ++ replicate 24 0

wrapped-accepted : has_sizes (fw_hdr_decode wrapped) wrapped ≡ true
unfolding has_sizes fw_hdr_decode has
wrapped-accepted = refl
