-- ===== src/Usb/Io/Failing.antt =====
-- The errno values of a failed access.
use rtw88_pub.Base.{
  ℕ, ◌≡◌, sym, ap, ◌∙◌, inl, inr, List, err, Errno, eio, Result-cases, subst, ok_not_err, err_inj,
  Fails, Fails-bind, Fails-pure, Fails-poll, Fails-attempt, get_or, le32dec, etimedout,
}
use rtw88_pub.Usb.Softc.{UsbDevice, Softc}
use rtw88_pub.Usb.Io.{
  read_region, write_region, read1, read4, write1, write2, write4, setbits1, clrbits1,
  check_hw_ready,
}
use rtw88_pub.Usb.Io.Access.{read_region_ok, read_region_err, write_region_ok, write_region_err}

module _ {κ} {W : Type 0} (E : Errno → Type κ) (allowed : E eio) (usb : UsbDevice W) where
  pub Fails-read_region : (addr len : ℕ) → Fails E (read_region usb addr len)
  Fails-read_region addr len = record { only = only_read }
    where
      only_read : (sc : Softc W) (e : Errno) → (read_region usb addr len sc).0 ≡ err e → E e
      only_read sc e h = elim (Result-cases (usb.vendor_read addr len sc.world).0) [
        | inl (buf, r) ↦
            let run =
              read_region_ok usb addr len sc buf _
                (ap (λ x. (x, (usb.vendor_read addr len sc.world).1)) r) in
            absurd (ok_not_err buf e (sym (ap (λ x. x.0) run) ∙ h))
        | inr (x, r) ↦
            let run =
              read_region_err usb addr len sc x _
                (ap (λ y. (y, (usb.vendor_read addr len sc.world).1)) r) in
            subst E (err_inj (sym (ap (λ y. y.0) run) ∙ h)) allowed
      ]

  pub Fails-write_region : (addr : ℕ) (buf : List ℕ) → Fails E (write_region usb addr buf)
  Fails-write_region addr buf = record { only = only_write }
    where
      only_write : (sc : Softc W) (e : Errno) → (write_region usb addr buf sc).0 ≡ err e → E e
      only_write sc e h = elim (Result-cases (usb.vendor_write addr buf sc.world).0) [
        | inl (_, r) ↦
            let run =
              write_region_ok usb addr buf sc _
                (ap (λ x. (x, (usb.vendor_write addr buf sc.world).1)) r) in
            absurd (ok_not_err tt e (sym (ap (λ x. x.0) run) ∙ h))
        | inr (x, r) ↦
            let run =
              write_region_err usb addr buf sc x _
                (ap (λ y. (y, (usb.vendor_write addr buf sc.world).1)) r) in
            subst E (err_inj (sym (ap (λ y. y.0) run) ∙ h)) allowed
      ]

  pub Fails-read1 : (addr : ℕ) → Fails E (read1 usb addr)
  unfolding read1
  Fails-read1 addr = Fails-bind (Fails-read_region addr 1) (λ buf. Fails-pure (get_or buf 0 0))

  pub Fails-write1 : (addr val : ℕ) → Fails E (write1 usb addr val)
  unfolding write1
  Fails-write1 addr val = Fails-write_region addr _

  pub Fails-write4 : (addr val : ℕ) → Fails E (write4 usb addr val)
  unfolding write4
  Fails-write4 addr val = Fails-write_region addr _

  pub Fails-read4 : (addr : ℕ) → Fails E (read4 usb addr)
  unfolding read4
  Fails-read4 addr = Fails-bind (Fails-read_region addr 4) (λ buf. Fails-pure (le32dec buf 0))

  pub Fails-write2 : (addr val : ℕ) → Fails E (write2 usb addr val)
  unfolding write2
  Fails-write2 addr val = Fails-write_region addr _

  pub Fails-setbits1 : (addr bits : ℕ) → Fails E (setbits1 usb addr bits)
  unfolding setbits1
  Fails-setbits1 addr bits = Fails-bind (Fails-read1 addr) λ v. Fails-write1 addr _

  pub Fails-clrbits1 : (addr bits : ℕ) → Fails E (clrbits1 usb addr bits)
  unfolding clrbits1
  Fails-clrbits1 addr bits = Fails-bind (Fails-read1 addr) λ v. Fails-write1 addr _

  pub Fails-check_hw_ready :
      (reg mask target : ℕ) → E etimedout → Fails E (check_hw_ready usb reg mask target)
  unfolding check_hw_ready
  Fails-check_hw_ready reg mask target late =
      Fails-bind (Fails-poll 50 _ etimedout (Fails-attempt (read4 usb reg)) late) λ v. Fails-pure tt
