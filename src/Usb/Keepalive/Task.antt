-- ===== src/Usb/Keepalive/Task.antt =====
-- One run of the keepalive task.
use rtw88_pub.Base.{
  ℕ, ◌+◌, ◌%◌, ◌^◌, ◌≤◌, not, ◌&&◌, ltb, leb, ◌==◌, if◌then◌else◌, ◌≡◌, refl, sym, ap, ◌∙◌, arith,
  Bool, true, false, ◌||◌, ok, M, when, ◌>>=◌, ◌>>◌, when-true, when-false, bind_same, ap₂, modify,
  get,
}
use rtw88_pub.Usb.Softc.{UsbDevice, Keepalive, Softc}
use rtw88_pub.Usb.Mailbox.{h2c_pwr_mode_active, h2c_ra_info}
use rtw88_pub.Usb.Mailbox.Frame.{OffMailbox, Preserves-h2c_ra_info, Preserves-h2c_pwr_mode_active}
use rtw88_pub.Usb.Keepalive.{
  watch, is_tighten_due, tighten_info, tighten, fwka_arm, fwka_body, fwka_task, send_tighten,
}

module _ {W : Type 0} (usb : UsbDevice W) where
  abbrev Is : Keepalive → ℕ → Softc W → Type 0
  Is k n sc = (sc.keepalive ≡ k) × (sc.rx_packets ≡ n)

  off : (k : Keepalive) (n : ℕ) → OffMailbox (Is k n)
  off k n = record { blind = λ sc w busy errors next p. p }

  -- What a run makes of the state.
  abbrev tightened : ℕ → Keepalive → Keepalive
  tightened elapsed k = record k {
    ra_tighten_fired = k.ra_tighten_fired || is_tighten_due elapsed k;
  }

  or_due :
      (k : Keepalive) (elapsed : ℕ) (b : Bool)
      → is_tighten_due elapsed k ≡ b
      → tightened elapsed k ≡ record k { ra_tighten_fired = k.ra_tighten_fired || b }
  or_due k elapsed b e = ap (λ c. record k { ra_tighten_fired = k.ra_tighten_fired || c }) e

  or_false : (b : Bool) → (b || false) ≡ b
  or_false b = ground arith

  or_true : (b : Bool) → (b || true) ≡ true
  or_true b = ground arith

  -- The choice of `tighten`, on its test.
  tighten_when :
      (b : Bool) (elapsed n : ℕ) (k : Keepalive) (sc : Softc W)
      → is_tighten_due elapsed k ≡ b
      → Is k n sc
      → ((when b (send_tighten usb sc.keepalive) sc).0 ≡ ok tt)
        × Is (tightened elapsed k) n (when b (send_tighten usb sc.keepalive) sc).1
  unfolding send_tighten
  tighten_when true elapsed n k sc due p =
      let sent =
        (Preserves-h2c_ra_info (off k n) usb (tighten_info sc.keepalive.rate_id)
            sc.keepalive.ra_tighten_mask).keeps
          sc p in
      (
        refl,
        (
          ap (λ (x : Keepalive). record x { ra_tighten_fired = true }) sent.0
              ∙ ap (λ b. record k { ra_tighten_fired = b }) (sym (or_true k.ra_tighten_fired))
              ∙ sym (or_due k elapsed true due),
          sent.1,
        ),
      )
  tighten_when false elapsed n k sc due p = (
    refl,
    (
      p.0
          ∙ ap (λ b. record k { ra_tighten_fired = b }) (sym (or_false k.ra_tighten_fired))
          ∙ sym (or_due k elapsed false due),
      p.1,
    ),
  )

  tighten-run :
      (elapsed n : ℕ) (k : Keepalive) (sc : Softc W)
      → Is k n sc
      → ((tighten usb elapsed sc).0 ≡ ok tt) × Is (tightened elapsed k) n (tighten usb elapsed sc).1
  unfolding tighten
  tighten-run elapsed n k sc p =
      tighten_when (is_tighten_due elapsed sc.keepalive) elapsed n k sc
        (ap (is_tighten_due elapsed) (sym p.0)) p

  watch-active : (rxn : ℕ) (k : Keepalive) → (watch rxn k).active ≡ k.active
  unfolding watch
  watch-active rxn k = ground arith

  -- The end of a run: one look at the packets, then the callout.
  abbrev finish : M (Softc W) (Unit {0})
  finish =
      modify (λ (s : Softc W). record s { keepalive = watch s.rx_packets s.keepalive })
      >> (get >>= λ (s : Softc W). when s.keepalive.active (fwka_arm usb))

  finish-run :
      (k : Keepalive) (n : ℕ) (sc : Softc W)
      → Is k n sc
      → k.active ≡ true
      → ((finish sc).0 ≡ ok tt)
        × ((finish sc).1.keepalive ≡ record (watch n k) { callout_armed = true })
  unfolding fwka_arm
  finish-run k n sc p h =
      let watched = ap₂ watch p.1 p.0 in
      let on = ap (λ (x : Keepalive). x.active) watched ∙ watch-active n k ∙ h in
      let end =
        when-true (fwka_arm usb) (watch sc.rx_packets sc.keepalive).active
          (record sc { keepalive = watch sc.rx_packets sc.keepalive }) on in
      (
        ap (λ r. r.0) end,
        ap (λ r. r.1.keepalive) end
            ∙ ap (λ (x : Keepalive). record x { callout_armed = true }) watched,
      )

  fwka_body-run :
      (elapsed : ℕ) (sc : Softc W)
      → sc.keepalive.active ≡ true
      → ((fwka_body usb elapsed sc).0 ≡ ok tt)
        × ((fwka_body usb elapsed sc).1.keepalive
            ≡ record (watch sc.rx_packets (tightened elapsed sc.keepalive)) {
              callout_armed = true;
            })
  unfolding fwka_body
  fwka_body-run elapsed sc h =
      let k = sc.keepalive in
      let n = sc.rx_packets in
      let sent = (Preserves-h2c_pwr_mode_active (off k n) usb).keeps sc (refl, refl) in
      let sc1 = (h2c_pwr_mode_active usb sc).1 in
      let tight = tighten-run elapsed n k sc1 sent in
      let step =
        bind_same (tighten usb elapsed) (λ s. (ok tt, (tighten usb elapsed s).1)) (λ _. finish) sc1
          (ap (λ r. (r, (tighten usb elapsed sc1).1)) tight.0) in
      let end = finish-run (tightened elapsed k) n (tighten usb elapsed sc1).1 tight.1 h in
      (ap (λ r. r.0) step ∙ end.0, ap (λ r. r.1.keepalive) step ∙ end.1)

  -- The adapter and the rest of the driver after the commands of a run: the one that keeps the
  -- firmware awake, and the tightened rates where they are due.
  abbrev pub commanded : ℕ → Softc W → Softc W
  commanded elapsed sc =
      let awake = (h2c_pwr_mode_active usb sc).1 in
      let k = sc.keepalive in
      if not k.ra_tighten_fired && not (k.ra_tighten_mask == 0) && leb 2000 elapsed
      then (h2c_ra_info usb (tighten_info k.rate_id) k.ra_tighten_mask awake).1
      else awake

  -- What a run makes of the state of the keepalive: `n` packets are counted, and a count that stays
  -- for three ticks is reported once.
  abbrev pub observed : (elapsed n : ℕ) → Keepalive → Keepalive
  observed elapsed n k =
      let ticks =
        if n == k.last_rx_packets
        then (if ltb k.fw_stall_ticks 255 then k.fw_stall_ticks + 1 else 255)
        else 0 in
      let stalled = n == k.last_rx_packets && leb 3 ticks in
      record k {
        callout_armed = true;
        ra_tighten_fired = k.ra_tighten_fired || (not (k.ra_tighten_mask == 0) && leb 2000 elapsed);
        last_rx_packets = n;
        fw_stall_ticks = ticks;
        fw_stall_logged = n == k.last_rx_packets && (k.fw_stall_logged || stalled);
        stat_fw_stalls =
            if stalled && not k.fw_stall_logged
            then (k.stat_fw_stalls + 1) % 2 ^ 64
            else k.stat_fw_stalls;
      }

  observed-watch :
      (elapsed n : ℕ) (k : Keepalive)
      → k.fw_stall_ticks ≤ 255
      → record (watch n (tightened elapsed k)) { callout_armed = true } ≡ observed elapsed n k
  unfolding watch is_tighten_due
  observed-watch elapsed n k h = ground arith

  abbrev with_keepalive : Keepalive → Softc W → Softc W
  with_keepalive k sc = record sc { keepalive = k }

  armed_only :
      (b : Bool) (k : Keepalive) (sc : Softc W)
      → with_keepalive k (when b (fwka_arm usb) sc).1 ≡ with_keepalive k sc
  unfolding fwka_arm
  armed_only true k sc = refl
  armed_only false k sc = refl

  tighten_only :
      (b : Bool) (k k' : Keepalive) (sc : Softc W)
      → with_keepalive k (when b (send_tighten usb k') sc).1
        ≡ with_keepalive k
            (if b then (h2c_ra_info usb (tighten_info k'.rate_id) k'.ra_tighten_mask sc).1 else sc)
  unfolding send_tighten
  tighten_only true k k' sc = refl
  tighten_only false k k' sc = refl

  commanded_only :
      (elapsed : ℕ) (k : Keepalive) (sc : Softc W)
      → with_keepalive k (fwka_body usb elapsed sc).1 ≡ with_keepalive k (commanded elapsed sc)
  unfolding fwka_body tighten is_tighten_due
  commanded_only elapsed k sc =
      let sc1 = (h2c_pwr_mode_active usb sc).1 in
      let same =
        (Preserves-h2c_pwr_mode_active (off sc.keepalive sc.rx_packets) usb).keeps sc
          (refl, refl) in
      let tight = tighten-run elapsed sc.rx_packets sc.keepalive sc1 same in
      let step =
        bind_same (tighten usb elapsed) (λ s. (ok tt, (tighten usb elapsed s).1)) (λ _. finish) sc1
          (ap (λ r. (r, (tighten usb elapsed sc1).1)) tight.0) in
      ap (λ r. with_keepalive k r.1) step
      ∙ armed_only _ k _
      ∙ tighten_only (is_tighten_due elapsed sc1.keepalive) k sc1.keepalive sc1
      ∙ ap
          (λ (k' : Keepalive). with_keepalive k (
            if is_tighten_due elapsed k'
            then (h2c_ra_info usb (tighten_info k'.rate_id) k'.ra_tighten_mask sc1).1
            else sc1))
          same.0

  fwka_body-state :
      (elapsed : ℕ) (sc : Softc W)
      → sc.keepalive.active ≡ true
      → sc.keepalive.fw_stall_ticks ≤ 255
      → fwka_body usb elapsed sc ≡ (
        ok tt,
        with_keepalive (observed elapsed sc.rx_packets sc.keepalive) (commanded elapsed sc),
      )
  fwka_body-state elapsed sc h small =
      let run = fwka_body-run elapsed sc h in
      let end = run.1 ∙ observed-watch elapsed sc.rx_packets sc.keepalive small in
      ap₂ (λ r s. (r, s)) run.0
        (ap (λ k. with_keepalive k (fwka_body usb elapsed sc).1) end ∙ commanded_only elapsed _ sc)

  -- A run of the task while it is inactive changes nothing at all. A run while it is active succeeds,
  -- whatever commands fail: it sends the command that keeps the firmware awake and then, only where
  -- they are due, the tightened rates, and beyond what these two commands change, only the state of
  -- the keepalive changes: the rates count as sent, the count of packets is looked at once, with a
  -- stall of three ticks reported once, and the callout is armed again. The ticks of a stall are a
  -- byte.
  pub fwka_task-outcome :
      (elapsed : ℕ) (sc : Softc W)
      → sc.keepalive.fw_stall_ticks ≤ 255
      → (sc.keepalive.active ≡ false → fwka_task usb elapsed sc ≡ (ok tt, sc))
        × (sc.keepalive.active ≡ true
            → fwka_task usb elapsed sc ≡ (
              ok tt,
              record (commanded elapsed sc) {
                keepalive = observed elapsed sc.rx_packets sc.keepalive;
              },
            ))
  unfolding fwka_task
  fwka_task-outcome elapsed sc small = (
    λ h. when-false (fwka_body usb elapsed) sc.keepalive.active sc h,
    λ h.
        when-true (fwka_body usb elapsed) sc.keepalive.active sc h
        ∙ fwka_body-state elapsed sc h small,
  )
