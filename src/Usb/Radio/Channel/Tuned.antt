-- ===== src/Usb/Radio/Channel/Tuned.antt =====
-- What the driver notes of the channel it tuned to.
use rtw88_pub.Base.{
  ℕ, ◌≡◌, refl, true, false, Errno, eio, einval, eopnotsupp, ◌⊎◌, inl, inr, ◌∙◌, Bool-cases,
  if◌then◌else◌, ok, err, Result, Careful-ignore, Careful-when, Ends, Ends-bind, Ends-modify,
  ignore, when, modify, ltb, not, ◌>>◌, ap,
}
use rtw88_pub.Usb.Softc.{UsbDevice, Radio, Softc}
use rtw88_pub.Usb.Io.{write1}
use rtw88_pub.Usb.Mailbox.{h2c_wl_ch_info}
use rtw88_pub.Usb.Radio.Rf.{channel_width_20}
use rtw88_pub.Usb.Radio.Channel.{
  is_channel, has_band, is_too_wide, txagc, tuned, tune, tune_within, phy_set_channel,
}
use rtw88_pub.Usb.Radio.Channel.Safe.{
  IsEio, Notes, h2c_wl_ch_info-Notes, write1-Notes, txagc-Careful, tune_bb-Safe,
  set_channel_mac-Safe, tune_rf-Safe, set_channel_rxdfir-Safe,
}

-- What is noted of a channel.
abbrev pub noted : (channel bw primary_ch_idx : ℕ) → Radio → Radio
noted channel bw primary_ch_idx radio = record radio {
  cur_channel = channel;
  cur_bw = bw;
  cur_primary_ch_idx = primary_ch_idx;
}

module _ {W : Type 0} (radio : Radio) (usb : UsbDevice W) (channel bw primary : ℕ) where
  abbrev widened : Radio
  widened = record radio { cur_bw = bw; cur_primary_ch_idx = primary }

  noted-Ends :
      Ends
        (λ _. ⊥)
        (Notes widened usb)
        (Notes (noted channel bw primary radio) usb)
        (modify (λ (s : Softc W). record s { radio = record s.radio { cur_channel = channel } }))
  noted-Ends =
      Ends-modify (λ (s : Softc W). record s { radio = record s.radio { cur_channel = channel } })
        (λ s p. ap (λ (r : Radio). record r { cur_channel = channel }) p)

  told-Ends :
      Ends
        (λ _. ⊥)
        (Notes widened usb)
        (Notes (noted channel bw primary radio) usb)
        (do
          ignore (h2c_wl_ch_info usb 0 channel 0)
          ignore (write1 usb 0x0420 0x80)
          ignore (write1 usb 0x0421 0x1f)
          when (not (ltb 14 channel)) (txagc usb)
          modify (λ (s : Softc W). record s { radio = record s.radio { cur_channel = channel } }))
  told-Ends = Ends-bind (Careful-ignore (h2c_wl_ch_info-Notes widened usb 0 channel 0)) λ _.
      Ends-bind (Careful-ignore (write1-Notes widened usb 0x0420 0x80)) λ _.
        Ends-bind (Careful-ignore (write1-Notes widened usb 0x0421 0x1f)) λ _.
          Ends-bind (Careful-when (not (ltb 14 channel)) (txagc-Careful widened usb))
            λ _. noted-Ends

  tuned-Ends :
      Ends IsEio
        (Notes radio usb)
        (Notes (noted channel bw primary radio) usb)
        (tuned usb channel bw primary)
  unfolding tuned
  tuned-Ends = record { ends = ended }
    where
      ended :
          (s : Softc W)
          → s.radio ≡ radio
          → ((e : Errno) × ((tuned usb channel bw primary s).0 ≡ err e)
              × IsEio e
              × ((tuned usb channel bw primary s).1.radio ≡ radio))
            ⊎ (((tuned usb channel bw primary s).0 ≡ ok tt)
                × ((tuned usb channel bw primary s).1.radio ≡ noted channel bw primary radio))
      ended s p =
          let noting : Softc W = record s {
            radio = record s.radio { cur_bw = bw; cur_primary_ch_idx = primary };
          } in
          elim (told-Ends.ends noting
            (ap (λ (r : Radio). record r { cur_bw = bw; cur_primary_ch_idx = primary }) p)) [
              | inl (e, _, never, _) ↦ absurd never
              | inr done ↦ inr done
            ]

  tune-Ends :
      Ends IsEio
        (Notes radio usb)
        (Notes (noted channel bw primary radio) usb)
        (tune usb channel bw primary)
  unfolding tune
  tune-Ends =
      search
        (
          Ends-bind,
          tuned-Ends,
          tune_bb-Safe radio usb,
          set_channel_mac-Safe radio usb,
          tune_rf-Safe radio usb,
          set_channel_rxdfir-Safe radio usb,
        )
        depth 16

-- The width that a channel is tuned with, and its primary channel.
abbrev pub granted : (caps bw primary_ch_idx : ℕ) → ℕ × ℕ
granted caps bw primary_ch_idx =
    if is_too_wide caps bw then (channel_width_20, 0) else (bw, primary_ch_idx)

-- How a switch to a channel ends, the note of the tuning included.
abbrev pub IsTuning :
    {W : Type 0} → Softc W → (channel bw primary_ch_idx : ℕ) → Result (Unit {0}) × Softc W → Type 0
IsTuning s channel bw primary_ch_idx (r, s') =
    let (bw', primary') = granted s.radio.caps bw primary_ch_idx in
    ((r ≡ err eio) × (s'.radio ≡ s.radio))
    ⊎ ((r ≡ ok tt) × (s'.radio ≡ noted channel bw' primary' s.radio))

tune-IsTuning :
    {W : Type 0} (usb : UsbDevice W) (s : Softc W) (channel bw primary_ch_idx : ℕ)
    → ((tune usb channel bw primary_ch_idx s).0 ≡ err eio)
        × ((tune usb channel bw primary_ch_idx s).1.radio ≡ s.radio)
      ⊎ (((tune usb channel bw primary_ch_idx s).0 ≡ ok tt)
          × ((tune usb channel bw primary_ch_idx s).1.radio
              ≡ noted channel bw primary_ch_idx s.radio))
tune-IsTuning usb s channel bw primary_ch_idx =
    elim ((tune-Ends s.radio usb channel bw primary_ch_idx).ends s refl) [
      | inl (e, failed, is_eio, kept) ↦ inl (failed ∙ ap err is_eio, kept)
      | inr done ↦ inr done
    ]

-- A switch to a channel, for every device, state, width and primary channel: a number that is no
-- channel is refused with EINVAL and a band that the chip lacks with EOPNOTSUPP, and both change
-- nothing at all. Otherwise either it fails with EIO and what the driver notes of its tuning is as
-- before, or it succeeds, and notes the channel with the width asked for, which is 20 MHz where the
-- chip lacks that width.
pub phy_set_channel-IsTuning :
    {W : Type 0} (usb : UsbDevice W) (s : Softc W) (channel bw primary_ch_idx : ℕ)
    → (is_channel channel ≡ false
        → phy_set_channel usb channel bw primary_ch_idx s ≡ (err einval, s))
      × (is_channel channel ≡ true
          → has_band s.radio.caps channel ≡ false
          → phy_set_channel usb channel bw primary_ch_idx s ≡ (err eopnotsupp, s))
      × (is_channel channel ≡ true
          → has_band s.radio.caps channel ≡ true
          → IsTuning s channel bw primary_ch_idx (phy_set_channel usb channel bw primary_ch_idx s))
unfolding phy_set_channel tune_within
phy_set_channel-IsTuning usb s channel bw primary_ch_idx = (
  λ wrong. rw wrong refl,
  λ right lacks. rw (right, lacks) refl,
  λ right has. elim (Bool-cases (is_too_wide s.radio.caps bw)) [
    | inl wide ↦ rw (right, has, wide) (tune-IsTuning usb s channel channel_width_20 0)
    | inr fits ↦ rw (right, has, fits) (tune-IsTuning usb s channel bw primary_ch_idx)
  ],
)
