-- ===== src/Usb/Firmware.antt =====
-- if_rtw88_usb.c: the firmware, its header and the state of its download.
pub mod Packet
pub mod Segment
pub mod Download
use rtw88_pub.Base.{
  ℕ, ◌%◌, ◌^◌, Bool, List, Option, none, some, M, ◌>>=◌, ◌>>◌, pure, throw, modify, ok, einval,
  enoent, not, ltb, ◌==◌, if◌then◌else◌, length, get_or, le16dec, le32dec,
}
use rtw88_pub.Device.{Dev}
use rtw88_pub.Usb.Softc.{Softc}

abbrev pub fw_hdr_size : ℕ
fw_hdr_size = 64

-- `struct rtw88_fw_hdr_summary`.
pub record FwHdr : Type 0 where
  pub signature : ℕ
  pub version : ℕ
  pub subversion : ℕ
  pub subindex : ℕ
  pub year : ℕ
  pub month : ℕ
  pub day : ℕ
  pub hour : ℕ
  pub min : ℕ
  pub mem_usage : ℕ
  pub h2c_fmt_ver : ℕ
  pub dmem_addr : ℕ
  pub dmem_size : ℕ
  pub imem_addr : ℕ
  pub imem_size : ℕ
  pub emem_addr : ℕ
  pub emem_size : ℕ

unfoldable pub fw_hdr_decode : List ℕ → FwHdr
fw_hdr_decode p = record {
  signature = le16dec p 0x00;
  version = le16dec p 0x04;
  subversion = get_or p 0x06 0;
  subindex = get_or p 0x07 0;
  month = get_or p 0x10 0;
  day = get_or p 0x11 0;
  hour = get_or p 0x12 0;
  min = get_or p 0x13 0;
  year = le16dec p 0x14;
  mem_usage = get_or p 0x18 0;
  h2c_fmt_ver = le16dec p 0x1c;
  dmem_addr = le32dec p 0x20;
  dmem_size = le32dec p 0x24;
  imem_size = le32dec p 0x30;
  emem_size = le32dec p 0x34;
  emem_addr = le32dec p 0x38;
  imem_addr = le32dec p 0x3c;
}

-- The bulk transfer that a thread waits for: the first `tx_len` bytes of `sc_tx_buf`, and
-- `sc_tx_len`, `sc_tx_pending`, `sc_tx_done`. `failed` is whether `sc_tx_err` is an error.
pub record TxSync : Type 0 where
  pub buf : List ℕ
  pub len : ℕ
  pub pending : Bool
  pub done : Bool
  pub failed : Bool

-- What a download uses: the handle with the softc behind its bus, `sc_fw`, and the transfer.
pub record Loader (W : Type 0) : Type 0 where
  pub handle : Dev (Softc W)
  pub fw : Option (List ℕ)
  pub tx : TxSync

module _ {W : Type 0} where
  abbrev pub on_handle : {A : Type 0} → M (Dev (Softc W)) A → M (Loader W) A
  on_handle m l = let (r, d) = m l.handle in (r, record l { handle = d })

  abbrev pub on_softc : {A : Type 0} → M (Softc W) A → M (Loader W) A
  on_softc m l =
      let (r, sc) = m l.handle.bus in (r, record l { handle = record l.handle { bus = sc } })

  -- What the kernel does and cannot fail.
  abbrev pub on_world : {A : Type 0} → (W → A × W) → M (Loader W) A
  on_world m = on_softc (λ sc. let (a, w) = m sc.world in (ok a, record sc { world = w }))

  unfoldable pub accept_fw : (chip_id : ℕ) → Option (List ℕ) → M (Loader W) (Unit {0})
  unfolding fw_hdr_decode
  accept_fw chip_id none = throw enoent
  accept_fw chip_id (some blob) =
      if ltb (length blob) fw_hdr_size
      then throw einval
      else if not ((fw_hdr_decode blob).signature == chip_id)
      then throw einval
      else modify (λ (l : Loader W). record l { fw = some blob })

  -- `firmware_get` is the kernel's. The references that are given back are its business.
  unfoldable pub fw_acquire : (W → Option (List ℕ) × W) → (chip_id : ℕ) → M (Loader W) (Unit {0})
  fw_acquire firmware_get chip_id = do blob ← on_world firmware_get; accept_fw chip_id blob

  unfoldable pub fw_release : M (Loader W) (Unit {0})
  fw_release = modify (λ (l : Loader W). record l { fw = none })
