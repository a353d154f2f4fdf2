-- ===== src/Usb/Mac/Stuck.antt =====
-- The set-up of the MAC on a chip that never loads the list of its pages.
use rtw88_pub.Base.{
  ℕ, ◌≡◌, ◌≢◌, ◌^◌, ◌∙◌, sym, refl, ap, inl, inr, ◌⊎◌, Bool, true, not, List, ok, err, Errno, eio,
  ebusy, Result, Result-cases, has, le32dec, Careful, conduct, Ends, Ends-bind, Ends-stop,
  Ends-never, Fails-poll, Preserves-poll, poll_misses,
}
use rtw88_pub.Usb.Softc.{UsbDevice, Softc}
use rtw88_pub.Usb.Io.{read4, write1, write2, write4, update4, setbits1}
use rtw88_pub.Usb.Io.Access.{OffIo, read_region_ok, read_region_err}
use rtw88_pub.Usb.Io.Conduct.{
  Careful-read4, Careful-write1, Careful-write2, Careful-write4, Careful-update4, Careful-setbits1,
}
use rtw88_pub.Usb.Firmware.{Loader}
use rtw88_pub.Usb.Firmware.Packet.{BulkPipes}
use rtw88_pub.Usb.Mac.{
  reg_auto_llt_v1, txdma_queue_mapping, queue_pages, queue_bounds, tx_aggregation, llt_loaded,
  priority_queue_cfg, set_up_mac,
}
use rtw88_pub.Usb.Mac.Start.{mac_init}

-- Every read of REG_AUTO_LLT_V1 that succeeds has the bit that the driver waits for to go.
abbrev pub IsStuck : {W : Type 0} → UsbDevice W → Type 0
IsStuck {W} usb =
    (w : W) (buf : List ℕ)
    → (usb.vendor_read reg_auto_llt_v1 4 w).0 ≡ ok buf
    → has (le32dec buf 0) (2 ^ 0) ≡ true

-- The softc but for what register access changes is that of `s`.
abbrev pub IsAsBefore : {W : Type 0} → (s s' : Softc W) → Type 0
IsAsBefore s s' =
    record s' { world = s.world; io_busy = s.io_busy; stat_usb_errors = s.stat_usb_errors } ≡ s

abbrev pub IsBusError : Errno → Type 0
IsBusError e = (e ≡ eio) ⊎ (e ≡ ebusy)

module _ {W : Type 0} (s0 : Softc W) (usb : UsbDevice W) where
  off : OffIo (IsAsBefore s0)
  off = record { blind = λ sc w busy errors p. p }

  abbrev Safe : {A : Type 0} → (Softc W → Result A × Softc W) → Type 0
  Safe m = Careful IsBusError (IsAsBefore s0) m

  read4-Safe : (addr : ℕ) → Safe (read4 usb addr)
  read4-Safe = Careful-read4 (inl refl) off usb

  write1-Safe : (addr val : ℕ) → Safe (write1 usb addr val)
  write1-Safe = Careful-write1 (inl refl) off usb

  write2-Safe : (addr val : ℕ) → Safe (write2 usb addr val)
  write2-Safe = Careful-write2 (inl refl) off usb

  write4-Safe : (addr val : ℕ) → Safe (write4 usb addr val)
  write4-Safe = Careful-write4 (inl refl) off usb

  update4-Safe : (addr : ℕ) (change : ℕ → ℕ) → Safe (update4 usb addr change)
  update4-Safe = Careful-update4 (inl refl) off usb

  setbits1-Safe : (addr bits : ℕ) → Safe (setbits1 usb addr bits)
  setbits1-Safe = Careful-setbits1 (inl refl) off usb

  txdma_queue_mapping-Safe : Safe (txdma_queue_mapping usb)
  unfolding txdma_queue_mapping
  txdma_queue_mapping-Safe =
      search (conduct, write1-Safe, write2-Safe, write4-Safe, setbits1-Safe) depth 16

  queue_pages-Safe : Safe (queue_pages usb)
  unfolding queue_pages
  queue_pages-Safe = search (conduct, write2-Safe, update4-Safe) depth 16

  queue_bounds-Safe : Safe (queue_bounds usb)
  unfolding queue_bounds
  queue_bounds-Safe = search (conduct, write2-Safe, write4-Safe, setbits1-Safe) depth 16

  tx_aggregation-Safe : Safe (tx_aggregation usb)
  unfolding tx_aggregation
  tx_aggregation-Safe = search (conduct, write1-Safe, update4-Safe, setbits1-Safe) depth 16

  llt_loaded-Safe : Safe (llt_loaded usb)
  unfolding llt_loaded
  llt_loaded-Safe = record {
    fails = Fails-poll 50 _ _ (read4-Safe _).fails (inr refl);
    preserves = Preserves-poll 50 _ _ (read4-Safe _).preserves;
  }

  read4_value :
      (addr : ℕ) (s : Softc W) (v : ℕ)
      → (read4 usb addr s).0 ≡ ok v
      → (buf : List ℕ) × ((usb.vendor_read addr 4 s.world).0 ≡ ok buf) × (le32dec buf 0 ≡ v)
  read4_value addr s v got =
      let after = (usb.vendor_read addr 4 s.world).1 in
      elim (Result-cases (usb.vendor_read addr 4 s.world).0) [
        | inl (buf, e) ↦
            let value : (read4 usb addr s).0 ≡ ok (le32dec buf 0) =
              unfold read4 in
              rw (read_region_ok usb addr 4 s buf after (ap (λ r. (r, after)) e)) refl in
            (buf, e, cc)
        | inr (x, e) ↦
            let failed : (read4 usb addr s).0 ≡ err eio =
              unfold read4 in
              rw (read_region_err usb addr 4 s x after (ap (λ r. (r, after)) e)) refl in
            cc
      ]

  never_loaded : IsStuck usb → (s : Softc W) (v : ℕ) → IsAsBefore s0 s → (llt_loaded usb s).0 ≢ ok v
  unfolding llt_loaded
  never_loaded stuck s v p =
      poll_misses (read4 usb reg_auto_llt_v1) _ ebusy
        (λ s' v' got.
          let (buf, e, value) = read4_value _ s' v' got in
          ap not (ap (λ o. has o (2 ^ 0)) (sym value) ∙ stuck s'.world buf e))
        50 s v

  set_up_mac-Ends : IsStuck usb → Ends IsBusError (IsAsBefore s0) (λ _. ⊥) (set_up_mac usb)
  unfolding set_up_mac priority_queue_cfg
  set_up_mac-Ends stuck = Ends-bind txdma_queue_mapping-Safe λ _. Ends-stop _ (
      Ends-bind queue_pages-Safe λ _.
        Ends-bind queue_bounds-Safe
          λ _. Ends-bind tx_aggregation-Safe λ _. Ends-never _ llt_loaded-Safe (never_loaded stuck))

-- On a chip that never loads the list of its pages, the set-up of the MAC fails on every device and
-- from every state, with EIO or EBUSY; no command was sent to the firmware, and of what the driver
-- keeps only the claim of endpoint 0 and the count of errors can have changed.
pub mac_init-stuck :
    {W : Type 0} (usb : UsbDevice W) (pipes : BulkPipes W) (hw_ccmp : Bool) (l : Loader W)
    → IsStuck usb
    → (e : Errno) × (s : Softc W) × (mac_init usb pipes hw_ccmp l
        ≡ (err e, record l { handle = record l.handle { bus = s } }))
      × IsBusError e
      × IsAsBefore l.handle.bus s
unfolding mac_init
mac_init-stuck usb pipes hw_ccmp l stuck =
    elim ((set_up_mac-Ends l.handle.bus usb stuck).ends l.handle.bus refl) [
      | inl (e, failed, allowed, kept) ↦
          (e, (set_up_mac usb l.handle.bus).1, rw failed refl, allowed, kept)
      | inr (done, never) ↦ absurd never
    ]
