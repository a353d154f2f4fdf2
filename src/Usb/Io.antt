-- ===== src/Usb/Io.antt =====
-- if_rtw88_usb.c: register access by vendor requests on endpoint 0. Tracing (`sc_trace_mmio`,
-- `sc_write_trace`) prints only and is left out; `sc_stat_usb_errors` is a `uint64_t`.
pub mod Access
pub mod Failing
pub mod Conduct
use rtw88_pub.Base.{
  ℕ, suc, ◌+◌, ◌%◌, ◌^◌, Bool, true, false, ◌&&◌, ◌||◌, List, [], ◌∷◌, Result, ok, err, eio,
  etimedout, M, ◌>>=◌, ◌>>◌, pure, throw, modify, attempt, ignore, when, bit_and, bit_or, not8, leb,
  ◌==◌, if◌then◌else◌, get_or, length, le16dec, le32dec, le16enc, le32enc, poll,
}
use rtw88_pub.Usb.Softc.{UsbDevice, Softc}

abbrev pub reg_sec_ping_addr : ℕ
reg_sec_ping_addr = 0x04e0

unfoldable pub addr_in_on_section : ℕ → Bool
addr_in_on_section addr = leb addr 0x00ff || (leb 0x1000 addr && leb addr 0x10ff)

abbrev pub on_world : {W A : Type 0} → M W A → M (Softc W) A
on_world m sc = let (r, w) = m sc.world in (r, record sc { world = w })

module _ {W : Type 0} (usb : UsbDevice W) where
  -- The caller has the claim that `rtw88_usb_io_enter` waits for; see `Usb.Claim`.
  unfoldable pub io_enter : M (Softc W) (Unit {0})
  io_enter = modify (λ (sc : Softc W). record sc { io_busy = true })

  unfoldable pub io_exit : M (Softc W) (Unit {0})
  io_exit = modify (λ (sc : Softc W). record sc { io_busy = false })

  -- The seal: after an access to the always-on section, one byte to 0x4e0. Its errors are dropped.
  unfoldable pub reg_sec : ℕ → ℕ → M (Softc W) (Unit {0})
  unfolding addr_in_on_section
  reg_sec addr byte =
      if addr_in_on_section addr
      then ignore (on_world (usb.vendor_write reg_sec_ping_addr (byte ∷ [])))
      else pure tt

  -- What follows the request: an error is counted and becomes EIO, a success is sealed. Both give
  -- the claim back.
  unfoldable pub finish_read : ℕ → Result (List ℕ) → M (Softc W) (List ℕ)
  unfolding io_exit
  finish_read addr (ok buf) = do reg_sec addr (get_or buf 0 0); io_exit; pure buf
  finish_read addr (err e) = do
    modify (λ (sc : Softc W). record sc { stat_usb_errors = (sc.stat_usb_errors + 1) % 2 ^ 64 })
    io_exit
    throw eio

  unfoldable pub read_region : ℕ → ℕ → M (Softc W) (List ℕ)
  unfolding io_enter finish_read
  read_region addr len = do
    io_enter
    r ← attempt (on_world (usb.vendor_read addr len))
    finish_read addr r

  unfoldable pub finish_write : ℕ → List ℕ → Result (Unit {0}) → M (Softc W) (Unit {0})
  unfolding io_exit
  finish_write addr buf (ok _) = do reg_sec addr (get_or buf 0 0); io_exit; pure tt
  finish_write addr buf (err e) = do
    modify (λ (sc : Softc W). record sc { stat_usb_errors = (sc.stat_usb_errors + 1) % 2 ^ 64 })
    io_exit
    throw eio

  unfoldable pub write_region : ℕ → List ℕ → M (Softc W) (Unit {0})
  unfolding io_enter finish_write
  write_region addr buf = do
    io_enter
    r ← attempt (on_world (usb.vendor_write addr buf))
    finish_write addr buf r

  unfoldable pub read1 : ℕ → M (Softc W) ℕ
  read1 addr = do buf ← read_region addr 1; pure (get_or buf 0 0)

  unfoldable pub read2 : ℕ → M (Softc W) ℕ
  read2 addr = do buf ← read_region addr 2; pure (le16dec buf 0)

  unfoldable pub read4 : ℕ → M (Softc W) ℕ
  read4 addr = do buf ← read_region addr 4; pure (le32dec buf 0)

  unfoldable pub write1 : ℕ → ℕ → M (Softc W) (Unit {0})
  write1 addr val = write_region addr (val ∷ [])

  unfoldable pub write2 : ℕ → ℕ → M (Softc W) (Unit {0})
  write2 addr val = write_region addr (le16enc val)

  unfoldable pub write4 : ℕ → ℕ → M (Softc W) (Unit {0})
  write4 addr val = write_region addr (le32enc val)

  -- Read, change, write back.
  abbrev pub update1 : ℕ → (ℕ → ℕ) → M (Softc W) (Unit {0})
  update1 addr change = do v ← read1 addr; write1 addr (change v)

  abbrev pub update4 : ℕ → (ℕ → ℕ) → M (Softc W) (Unit {0})
  update4 addr change = do v ← read4 addr; write4 addr (change v)

  unfoldable pub setbits1 : ℕ → ℕ → M (Softc W) (Unit {0})
  setbits1 addr bits = do v ← read1 addr; write1 addr (bit_or v bits)

  unfoldable pub clrbits1 : ℕ → ℕ → M (Softc W) (Unit {0})
  clrbits1 addr bits = do v ← read1 addr; write1 addr (bit_and v (not8 bits))

  -- Fifty tries. A read that fails is a try that does not match.
  matches : ℕ → ℕ → Result ℕ → Bool
  matches mask target (ok val) = bit_and val mask == target
  matches mask target (err e) = false

  unfoldable pub check_hw_ready : ℕ → ℕ → ℕ → M (Softc W) (Unit {0})
  unfolding matches
  check_hw_ready reg mask target = do
    ok_val ← poll 50 (attempt (read4 reg)) (matches mask target) etimedout
    pure tt
