-- ===== src/Usb/Io/Access.antt =====
-- Region access and the claim on endpoint 0, for every device.
use rtw88_pub.Base.{
  ℕ, ◌+◌, ◌%◌, ◌^◌, ◌≡◌, refl, inl, inr, Bool, false, List, [], ◌∷◌, ok, err, Errno, eio,
  Bool-cases, Result-cases, if◌then◌else◌, get_or, ap, Preserves, Preserves-bind, Preserves-pure,
}
use rtw88_pub.Usb.Softc.{UsbDevice, Softc}
use rtw88_pub.Usb.Io.{
  addr_in_on_section, read_region, write_region, reg_sec_ping_addr, reg_sec, read1, read2, read4,
  write1, write2, write4,
}

-- A property that does not look at what register access changes: the device, the claim, the errors.
pub record OffIo {κ} {W : Type 0} (P : Softc W → Type κ) : Type κ where
  pub blind :
      (sc : Softc W) (w : W) (busy : Bool) (errors : ℕ)
      → P sc
      → P (record sc { world = w; io_busy = busy; stat_usb_errors = errors })

module _ {W : Type 0} (usb : UsbDevice W) where
  -- The device after the seal of an access at `addr` whose first byte is `byte`.
  abbrev pub sealed : ℕ → ℕ → W → W
  sealed addr byte w =
      if addr_in_on_section addr then (usb.vendor_write reg_sec_ping_addr (byte ∷ []) w).1 else w

  reg_sec-sealed :
      (addr byte : ℕ) (sc : Softc W)
      → reg_sec usb addr byte sc ≡ (ok tt, record sc { world = sealed addr byte sc.world })
  unfolding reg_sec
  reg_sec-sealed addr byte sc = elim (Bool-cases (addr_in_on_section addr)) [
    | inl h ↦ rw h refl
    | inr h ↦ rw h refl
  ]

  -- The softc after a failed request.
  abbrev pub counted : Softc W → W → Softc W
  counted sc w = record sc {
    world = w;
    io_busy = false;
    stat_usb_errors = (sc.stat_usb_errors + 1) % 2 ^ 64;
  }

  pub read_region_ok :
      (addr len : ℕ) (sc : Softc W) (buf : List ℕ) (w : W)
      → usb.vendor_read addr len sc.world ≡ (ok buf, w)
      → read_region usb addr len sc
        ≡ (ok buf, record sc { world = sealed addr (get_or buf 0 0) w; io_busy = false })
  unfolding read_region
  read_region_ok addr len sc buf w h = rw h (rw (reg_sec-sealed addr (get_or buf 0 0)) refl)

  pub read_region_err :
      (addr len : ℕ) (sc : Softc W) (e : Errno) (w : W)
      → usb.vendor_read addr len sc.world ≡ (err e, w)
      → read_region usb addr len sc ≡ (err eio, counted sc w)
  unfolding read_region
  read_region_err addr len sc e w h = rw h refl

  pub write_region_ok :
      (addr : ℕ) (buf : List ℕ) (sc : Softc W) (w : W)
      → usb.vendor_write addr buf sc.world ≡ (ok tt, w)
      → write_region usb addr buf sc
        ≡ (ok tt, record sc { world = sealed addr (get_or buf 0 0) w; io_busy = false })
  unfolding write_region
  write_region_ok addr buf sc w h = rw h (rw (reg_sec-sealed addr (get_or buf 0 0)) refl)

  pub write_region_err :
      (addr : ℕ) (buf : List ℕ) (sc : Softc W) (e : Errno) (w : W)
      → usb.vendor_write addr buf sc.world ≡ (err e, w)
      → write_region usb addr buf sc ≡ (err eio, counted sc w)
  unfolding write_region
  write_region_err addr buf sc e w h = rw h refl

module _ {κ} {W : Type 0} {P : Softc W → Type κ} (off : OffIo P) (usb : UsbDevice W) where
  pub Preserves-read_region : (addr len : ℕ) → Preserves P (read_region usb addr len)
  Preserves-read_region addr len = record { keeps = kept }
    where
      kept : (sc : Softc W) → P sc → P (read_region usb addr len sc).1
      kept sc p = elim (Result-cases (usb.vendor_read addr len sc.world).0) [
        | inl (buf, e) ↦
            rw
              (read_region_ok usb addr len sc buf _
                (ap (λ r. (r, (usb.vendor_read addr len sc.world).1)) e))
              (off.blind sc _ _ _ p)
        | inr (x, e) ↦
            rw
              (read_region_err usb addr len sc x _
                (ap (λ r. (r, (usb.vendor_read addr len sc.world).1)) e))
              (off.blind sc _ _ _ p)
      ]

  pub Preserves-write_region : (addr : ℕ) (buf : List ℕ) → Preserves P (write_region usb addr buf)
  Preserves-write_region addr buf = record { keeps = kept }
    where
      kept : (sc : Softc W) → P sc → P (write_region usb addr buf sc).1
      kept sc p = elim (Result-cases (usb.vendor_write addr buf sc.world).0) [
        | inl (_, e) ↦
            rw
              (write_region_ok usb addr buf sc _
                (ap (λ r. (r, (usb.vendor_write addr buf sc.world).1)) e))
              (off.blind sc _ _ _ p)
        | inr (x, e) ↦
            rw
              (write_region_err usb addr buf sc x _
                (ap (λ r. (r, (usb.vendor_write addr buf sc.world).1)) e))
              (off.blind sc _ _ _ p)
      ]

  pub Preserves-read1 : (addr : ℕ) → Preserves P (read1 usb addr)
  unfolding read1
  Preserves-read1 addr = Preserves-bind (Preserves-read_region addr 1) λ buf. Preserves-pure _

  pub Preserves-read2 : (addr : ℕ) → Preserves P (read2 usb addr)
  unfolding read2
  Preserves-read2 addr = Preserves-bind (Preserves-read_region addr 2) λ buf. Preserves-pure _

  pub Preserves-read4 : (addr : ℕ) → Preserves P (read4 usb addr)
  unfolding read4
  Preserves-read4 addr = Preserves-bind (Preserves-read_region addr 4) λ buf. Preserves-pure _

  pub Preserves-write1 : (addr val : ℕ) → Preserves P (write1 usb addr val)
  unfolding write1
  Preserves-write1 addr val = Preserves-write_region addr _

  pub Preserves-write2 : (addr val : ℕ) → Preserves P (write2 usb addr val)
  unfolding write2
  Preserves-write2 addr val = Preserves-write_region addr _

  pub Preserves-write4 : (addr val : ℕ) → Preserves P (write4 usb addr val)
  unfolding write4
  Preserves-write4 addr val = Preserves-write_region addr _
