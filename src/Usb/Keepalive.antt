-- ===== src/Usb/Keepalive.antt =====
-- if_rtw88_usb.c: the task that keeps the firmware awake once a second, tightens the rates once per
-- association and watches for a receiver that stopped. `elapsed` is what rtw88_assoc_ms answers,
-- from the kernel's clock, 0 standing for a negative time; the callout is a flag.
pub mod Watchdog
pub mod Task
use rtw88_pub.Base.{
  ℕ, ◌+◌, ◌%◌, ◌^◌, Bool, true, false, not, ◌&&◌, M, ◌>>=◌, ◌>>◌, pure, get, modify, ignore, when,
  ltb, leb, ◌==◌, if◌then◌else◌,
}
use rtw88_pub.Usb.Softc.{UsbDevice, Keepalive, Softc}
use rtw88_pub.Usb.Mailbox.{h2c_pwr_mode_active, h2c_ra_info, RaInfo}

abbrev pub ra_tighten_ms : ℕ
ra_tighten_ms = 2000

-- One look at the count of received packets.
pub watch : ℕ → Keepalive → Keepalive
watch rxn k =
    if rxn == k.last_rx_packets
    then stalled
    else record k { fw_stall_ticks = 0; fw_stall_logged = false; last_rx_packets = rxn }
  where
    ticks : ℕ
    ticks = if ltb k.fw_stall_ticks 255 then k.fw_stall_ticks + 1 else k.fw_stall_ticks

    stalled : Keepalive
    stalled =
        if leb 3 ticks && not k.fw_stall_logged
        then record k {
          fw_stall_ticks = ticks;
          fw_stall_logged = true;
          stat_fw_stalls = (k.stat_fw_stalls + 1) % 2 ^ 64;
        }
        else record k { fw_stall_ticks = ticks }

-- The second RA_INFO: 20 MHz, no update of the current rate.
pub tighten_info : ℕ → RaInfo
tighten_info rate_id = record {
  mac_id = 0;
  rate_id = rate_id;
  bw_mode = 0;
  init_ra_lvl = 0;
  sgi_en = false;
  ldpc_en = false;
  vht_en = 0;
  no_update = true;
}

pub is_tighten_due : ℕ → Keepalive → Bool
is_tighten_due elapsed k =
    not k.ra_tighten_fired && not (k.ra_tighten_mask == 0) && leb ra_tighten_ms elapsed

module _ {W : Type 0} (usb : UsbDevice W) where
  -- A command that fails is not sent again.
  pub send_tighten : Keepalive → M (Softc W) (Unit {0})
  send_tighten k = do
    ignore (h2c_ra_info usb (tighten_info k.rate_id) k.ra_tighten_mask)
    modify
        (λ (s : Softc W). record s { keepalive = record s.keepalive { ra_tighten_fired = true } })

  pub tighten : ℕ → M (Softc W) (Unit {0})
  tighten elapsed = do
    sc ← get
    when (is_tighten_due elapsed sc.keepalive) (send_tighten sc.keepalive)

  pub fwka_arm : M (Softc W) (Unit {0})
  fwka_arm =
      modify (λ (s : Softc W). record s { keepalive = record s.keepalive { callout_armed = true } })

  pub fwka_body : ℕ → M (Softc W) (Unit {0})
  fwka_body elapsed = do
    ignore (h2c_pwr_mode_active usb)
    tighten elapsed
    modify (λ (s : Softc W). record s { keepalive = watch s.rx_packets s.keepalive })
    sc ← get
    when sc.keepalive.active fwka_arm

  pub fwka_task : ℕ → M (Softc W) (Unit {0})
  fwka_task elapsed = do sc ← get; when sc.keepalive.active (fwka_body elapsed)

  pub fwka_start : M (Softc W) (Unit {0})
  fwka_start = do
    sc ← get
    elim sc.keepalive.active [
      | true ↦ pure tt
      | false ↦ do
        modify (λ (s : Softc W). record s {
          keepalive = record s.keepalive {
            active = true;
            last_rx_packets = s.rx_packets;
            fw_stall_ticks = 0;
            fw_stall_logged = false;
            ra_tighten_fired = false;
          };
        })
        fwka_arm
    ]

  pub fwka_stop : M (Softc W) (Unit {0})
  fwka_stop = modify (λ (s : Softc W). record s {
    keepalive = record s.keepalive { active = false; callout_armed = false };
  })
