-- ===== src/Usb/Power.antt =====
-- if_rtw88_usb.c: the interpreter of the power sequences, rtw88_pwr_seq_parser. Delays only wait.
pub mod Tables
pub mod Meaning
pub mod Mac
use rtw88_pub.Base.{
  ℕ, ◌^◌, Bool, true, false, not, ◌&&◌, ◌||◌, List, [], ◌∷◌, ebusy, einval, undefined, M, ◌>>=◌,
  ◌>>◌, pure, throw, poll, bit_and, bit_or, not8, has, ◌==◌, if◌then◌else◌,
}
use rtw88_pub.Usb.Softc.{UsbDevice, Softc}
use rtw88_pub.Usb.Io.{read1, write1}

pub record PwrRow : Type 0 where
  pub offset : ℕ
  pub cut_mask : ℕ
  pub intf_mask : ℕ
  pub base : ℕ
  pub cmd : ℕ
  pub mask : ℕ
  pub value : ℕ

abbrev pub row : (offset cut_mask intf_mask base cmd mask value : ℕ) → PwrRow
row offset cut_mask intf_mask base cmd mask value = record {
  offset = offset;
  cut_mask = cut_mask;
  intf_mask = intf_mask;
  base = base;
  cmd = cmd;
  mask = mask;
  value = value;
}

-- The commands: WRITE is 1, POLLING 2, DELAY 3 and END 4.
abbrev pub is_terminator : PwrRow → Bool
is_terminator r = r.cmd == 4

-- The rows that the parser passes over: for other buses, or not on the MAC.
pub is_foreign : PwrRow → Bool
is_foreign r = not (has r.intf_mask (2 ^ 1)) || not (r.base == 0)

module _ {W : Type 0} (usb : UsbDevice W) where
  pub pwr_write : PwrRow → M (Softc W) (Unit {0})
  pwr_write r = do
    value ← read1 usb r.offset
    write1 usb r.offset (bit_or (bit_and value (not8 r.mask)) (bit_and r.value r.mask))

  pub pwr_polling : PwrRow → M (Softc W) (Unit {0})
  pwr_polling r = do
    value ←
        poll 20000 (read1 usb r.offset) (λ value. bit_and value r.mask == bit_and r.value r.mask)
          ebusy
    pure tt

  pub pwr_command : PwrRow → M (Softc W) (Unit {0})
  pwr_command r =
      if r.cmd == 1
      then pwr_write r
      else if r.cmd == 2
      then pwr_polling r
      else if r.cmd == 3
      then pure tt
      else throw einval

  -- The rows up to END. A sequence without one would be read past its end.
  pub pwr_rows : List PwrRow → M (Softc W) (Unit {0})
  pwr_rows [] = throw undefined
  pwr_rows (r ∷ rows) = elim (is_terminator r) [
    | true ↦ pure tt
    | false ↦ elim (is_foreign r) [ true ↦ pwr_rows rows | false ↦ do pwr_command r; pwr_rows rows ]
  ]

  pub pwr_seq_parser : List (List PwrRow) → M (Softc W) (Unit {0})
  pwr_seq_parser [] = pure tt
  pwr_seq_parser (seq ∷ seqs) = do pwr_rows seq; pwr_seq_parser seqs
