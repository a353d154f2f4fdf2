-- ===== src/Usb/Cam.antt =====
-- if_rtw88_usb.c: the key cache of the chip, rtw88_cam_write_entry, rtw88_cam_read_dword and
-- rtw88_cam_clear_entry. An entry is eight words.
pub mod Entry
use rtw88_pub.Base.{
  ℕ, zero, suc, ◌+◌, ◌-◌, ◌*◌, ◌^◌, Bool, true, false, ◌||◌, List, [], ◌∷◌, Option, none, some, M,
  ◌>>=◌, ◌>>◌, pure, bit_and, bit_or, has, ltb, ◌==◌, if◌then◌else◌, ◌<<◌, get_or, replicate,
}
use rtw88_pub.Usb.Softc.{UsbDevice, Softc}
use rtw88_pub.Usb.Io.{read4, write4}
use rtw88_pub.Usb.Mailbox.{bit_of}

abbrev pub reg_camcmd : ℕ
reg_camcmd = 0x0670

abbrev pub reg_camwrite : ℕ
reg_camwrite = 0x0674

abbrev pub reg_camread : ℕ
reg_camread = 0x0678

abbrev pub bit_cam_write_enable : ℕ
bit_cam_write_enable = 2 ^ 16

abbrev pub bit_cam_polling : ℕ
bit_cam_polling = 2 ^ 31

-- The arguments of `rtw88_cam_write_entry`, less the slot.
pub record CamKey : Type 0 where
  pub kind : ℕ
  pub keyidx : ℕ
  pub group : Bool
  pub peer_mac : Option (List ℕ)
  pub key : List ℕ
  pub keylen : ℕ

unfoldable pub cam_mac : CamKey → List ℕ
cam_mac k = elim k.peer_mac [ none ↦ replicate 6 0 | some mac ↦ mac ]

abbrev pub clipped : ℕ → ℕ
clipped keylen = if ltb 16 keylen then 16 else keylen

-- `if (j < keylen) content |= key[j] << shift`.
abbrev pub or_byte : CamKey → (j shift content : ℕ) → ℕ
or_byte k j shift content =
    if ltb j (clipped k.keylen) then bit_or content (get_or k.key j 0 << shift) else content

-- Four bytes of the key from `j` on.
pub key_word : CamKey → ℕ → ℕ
key_word k j =
    or_byte k (j + 3) 24 (or_byte k (j + 2) 16 (or_byte k (j + 1) 8 (or_byte k (j + 0) 0 0)))

pub head_word : CamKey → ℕ
head_word k =
    bit_or
      (bit_or
        (bit_or
          (bit_or (bit_or (bit_and k.keyidx 0x3) (bit_and k.kind 0x7 << 2)) (bit_of k.group << 6))
          (1 << 15))
        (get_or (cam_mac k) 0 0 << 16))
      (get_or (cam_mac k) 1 0 << 24)

pub mac_word : CamKey → ℕ
mac_word k =
    bit_or
      (bit_or (bit_or (get_or (cam_mac k) 2 0) (get_or (cam_mac k) 3 0 << 8))
        (get_or (cam_mac k) 4 0 << 16))
      (get_or (cam_mac k) 5 0 << 24)

-- The word at index `i` of an entry.
pub cam_content : CamKey → ℕ → ℕ
cam_content k i =
    if i == 0
    then head_word k
    else if i == 1
    then mac_word k
    else if i == 6 || i == 7
    then 0
    else key_word k ((i - 2) << 2)

module _ {W : Type 0} (usb : UsbDevice W) where
  -- At most `n` looks at whether the chip is done; none of the callers learns that it was not.
  pub cam_wait : ℕ → M (Softc W) (Unit {0})
  cam_wait zero = pure tt
  cam_wait (suc n) = do
    v ← read4 usb reg_camcmd
    elim (has v bit_cam_polling) [ true ↦ cam_wait n | false ↦ pure tt ]

  pub cam_write_dword : (addr i content : ℕ) → M (Softc W) (Unit {0})
  cam_write_dword addr i content = do
    write4 usb reg_camwrite content
    write4 usb reg_camcmd (bit_or (bit_or bit_cam_write_enable bit_cam_polling) (addr + i))
    cam_wait 16

  -- The words below index `n`, from the last one down.
  pub cam_write_below : ℕ → (addr : ℕ) → CamKey → M (Softc W) (Unit {0})
  cam_write_below zero addr k = pure tt
  cam_write_below (suc i) addr k = do
    cam_write_dword addr i (cam_content k i)
    cam_write_below i addr k

  pub cam_write_entry : (slot : ℕ) → CamKey → M (Softc W) (Unit {0})
  cam_write_entry slot k = cam_write_below 8 (slot << 3) k

  pub cam_read_dword : (slot dword_idx : ℕ) → M (Softc W) ℕ
  cam_read_dword slot dword_idx = do
    write4 usb reg_camcmd (bit_or bit_cam_polling ((slot << 3) + dword_idx))
    cam_wait 16
    read4 usb reg_camread

  pub cam_clear_entry : (slot : ℕ) → M (Softc W) (Unit {0})
  cam_clear_entry slot = do
    write4 usb reg_camwrite 0
    write4 usb reg_camcmd (bit_or (bit_or bit_cam_write_enable bit_cam_polling) (slot << 3))
