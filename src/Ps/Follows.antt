-- ===== src/Ps/Follows.antt =====
-- The power-save state over any notifications, with commands that may fail.
use rtw88_pub.Base.{
  ◌≡◌, refl, ◌⊎◌, inl, inr, Bool, true, false, ok, err, Errno, M, ◌>>◌, pure, ignore, ◌∙◌, ap, List,
  [], ◌∷◌, if◌then◌else◌, ◌&&◌, ◌<<◌, Bool-cases, Result-cases, Result,
}
use rtw88_pub.Device.{HciOps, active, legacy, LpsState, Dev, debug_inc, rtw_h2c}
use rtw88_pub.Ps.{
  active_msg, lps_msg, lps_ext, h2c_pwr_mode_active, h2c_pwr_mode_lps, lps_enter, lps_leave,
  ps_notify,
}

-- The recorded mode says the same as the flag.
abbrev pub IsLps : LpsState → Type 0
IsLps lps = lps.mode ≡ (if lps.in_lps then legacy else active)

module _ {B : Type 0} (hci : HciOps B) where
  -- The command of a notification, as the bus answers it.
  abbrev pub answer : Bool → Dev B → Result (Unit {0}) × B
  answer wants d =
      if wants
      then hci.h2c 0x20 (lps_msg d.lps.awake_interval d.lps.smart_ps) (lps_ext d.lps.macid) d.bus
      else hci.h2c 0x20 (active_msg d.lps.macid) (0x0c << 8) d.bus

  -- Nothing was to be done, the command went through, or it failed.
  abbrev pub Notified : Bool → Dev B → Type 0
  Notified wants d =
      ((wants && d.lps.in_lps ≡ true) × (ps_notify hci wants d ≡ (ok tt, d)))
      ⊎ (((wants && d.lps.in_lps ≡ false)
            × ((answer wants d).0 ≡ ok tt)
            × ((ps_notify hci wants d).0 ≡ ok tt)
            × ((ps_notify hci wants d).1.bus ≡ (answer wants d).1)
            × ((ps_notify hci wants d).1.lps
                ≡ record d.lps { mode = if wants then legacy else active; in_lps = wants }))
          ⊎ ((e : Errno) × (wants && d.lps.in_lps ≡ false)
              × ((answer wants d).0 ≡ err e)
              × (ps_notify hci wants d ≡ (err e, record d { bus = (answer wants d).1 }))))

  -- One notification. Asked to sleep while it sleeps, the handle stays as it is and nothing is sent.
  -- Otherwise one command is sent, and the bus is as that leaves it: where it fails, its error is
  -- returned and the rest of the handle is as it was; where it succeeds, so does the call, and the
  -- power-save state is the one asked for, with everything that the attach set kept.
  pub ps_notify-outcome : (wants : Bool) (d : Dev B) → IsLps d.lps → Notified wants d
  unfolding ps_notify lps_enter lps_leave h2c_pwr_mode_lps h2c_pwr_mode_active rtw_h2c debug_inc
  ps_notify-outcome true d w = elim (Bool-cases d.lps.in_lps) [
    | inl asleep ↦ rw asleep (inl (refl, refl))
    | inr awake ↦ elim (Result-cases (answer true d).0) [
      | inl (u, e) ↦ rw (awake, e) (inr (inl (refl, refl, refl, refl, refl)))
      | inr (x, e) ↦ rw (awake, e) (inr (inr (x, refl, refl, refl)))
    ]
  ]
  ps_notify-outcome false d w = elim (Result-cases (answer false d).0) [
    | inl (u, e) ↦ elim (Bool-cases d.lps.in_lps) [
      | inl asleep ↦ rw (asleep, e) (inr (inl (refl, refl, refl, refl, refl)))
      | inr awake ↦
          let woken : d.lps.mode ≡ active = w ∙ ap (λ b. if b then legacy else active) awake in
          rw (awake, e)
            (inr (
              inl (
                refl,
                refl,
                refl,
                refl,
                ap (λ o. record d.lps { mode = o; in_lps = false }) woken,
              )))
    ]
    | inr (x, e) ↦ elim (Bool-cases d.lps.in_lps) [
      | inl asleep ↦ rw (asleep, e) (inr (inr (x, refl, refl, refl)))
      | inr awake ↦ rw (awake, e) (inr (inr (x, refl, refl, refl)))
    ]
  ]

  -- Notifications one after the other, as net80211 makes them: the errors are its own business.
  unfoldable pub notify_all : List Bool → M (Dev B) (Unit {0})
  notify_all [] = pure tt
  notify_all (wants ∷ events) = do ignore (ps_notify hci wants); notify_all events

  abbrev Static : LpsState → LpsState → Type 0
  Static lps lps' =
      (lps'.macid ≡ lps.macid)
      × (lps'.awake_interval ≡ lps.awake_interval)
      × (lps'.smart_ps ≡ lps.smart_ps)

  notify_keeps :
      (wants : Bool) (d : Dev B)
      → IsLps d.lps
      → IsLps (ps_notify hci wants d).1.lps × Static d.lps (ps_notify hci wants d).1.lps
  notify_keeps wants d w = elim (ps_notify-outcome wants d w) [
    | inl (_, e) ↦ rw e (w, (refl, refl, refl))
    | inr (inl (_, _, _, _, e)) ↦ rw e (refl, (refl, refl, refl))
    | inr (inr (x, _, _, e)) ↦ rw e (w, (refl, refl, refl))
  ]

  -- From a state whose mode and flag agree, no sequence of notifications makes them disagree,
  -- whatever commands fail, nor changes the MAC id and the two settings of power save.
  pub notify_all-IsLps :
      (events : List Bool) (d : Dev B)
      → IsLps d.lps
      → IsLps (notify_all events d).1.lps
        × ((notify_all events d).1.lps.macid ≡ d.lps.macid)
        × ((notify_all events d).1.lps.awake_interval ≡ d.lps.awake_interval)
        × ((notify_all events d).1.lps.smart_ps ≡ d.lps.smart_ps)
  unfolding notify_all
  notify_all-IsLps [] d w = (w, refl, refl, refl)
  notify_all-IsLps (wants ∷ events) d w =
      let (w', (m, a, s)) = notify_keeps wants d w in
      let (w'', m', a', s') = notify_all-IsLps events (ps_notify hci wants d).1 w' in
      (w'', m' ∙ m, a' ∙ a, s' ∙ s)
