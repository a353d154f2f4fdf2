-- ===== src/Usb/Keepalive/Watchdog.antt =====
-- When the watchdog reports.
use rtw88_pub.Base.{
  replicate, ℕ, zero, suc, ◌+◌, ◌%◌, ◌^◌, ◌<◌, ◌≡◌, refl, arith, ◌&&◌, List, [], ◌∷◌, ltb, leb,
  ◌==◌, if◌then◌else◌,
}
use rtw88_pub.Usb.Softc.{Keepalive}
use rtw88_pub.Usb.Keepalive.{watch}

pub watch_all : List ℕ → Keepalive → Keepalive
watch_all [] k = k
watch_all (rxn ∷ counts) k = watch_all counts (watch rxn k)

-- A stall is reported exactly while the ticks without a packet are three or more.
abbrev pub IsWatched : Keepalive → Type 0
IsWatched k = (k.fw_stall_logged ≡ leb 3 k.fw_stall_ticks) × (k.fw_stall_ticks < 256)

watch-IsWatched : (rxn : ℕ) (k : Keepalive) → IsWatched k → IsWatched (watch rxn k)
unfolding watch
watch-IsWatched rxn k w = (ground (arith, w.0, w.1), ground (arith, w.1))

-- One tick adds a stall exactly when it is the third in a row without a packet.
watch-stat :
    (rxn : ℕ) (k : Keepalive)
    → IsWatched k
    → (watch rxn k).stat_fw_stalls ≡ (
        if rxn == k.last_rx_packets && k.fw_stall_ticks == 2
        then (k.stat_fw_stalls + 1) % 2 ^ 64
        else k.stat_fw_stalls)
unfolding watch
watch-stat rxn k w = ground (arith, w.0, w.1)

-- A tick without a packet: the count stays, and the ticks grow to 255 at most.
watch-same :
    (rxn : ℕ) (k : Keepalive)
    → k.last_rx_packets ≡ rxn
    → ((watch rxn k).last_rx_packets ≡ rxn)
      × ((watch rxn k).fw_stall_ticks
          ≡ (if ltb k.fw_stall_ticks 255 then k.fw_stall_ticks + 1 else k.fw_stall_ticks))
unfolding watch
watch-same rxn k e = (ground (arith, e), ground (arith, e))

stall_run :
    (n rxn : ℕ) (k : Keepalive)
    → IsWatched k
    → k.last_rx_packets ≡ rxn
    → (watch_all (replicate n rxn) k).stat_fw_stalls ≡ (
        if ltb k.fw_stall_ticks 3 && leb 3 (k.fw_stall_ticks + n)
        then (k.stat_fw_stalls + 1) % 2 ^ 64
        else k.stat_fw_stalls)
unfolding watch_all
stall_run zero rxn k w e = ground arith
stall_run (suc n) rxn k w e =
    let same = watch-same rxn k e in
    let later = stall_run n rxn (watch rxn k) (watch-IsWatched rxn k w) same.0 in
    ground (arith, same.1, later, watch-stat rxn k w, e)

watch_all-IsWatched :
    (counts : List ℕ) (k : Keepalive) → IsWatched k → IsWatched (watch_all counts k)
unfolding watch_all
watch_all-IsWatched [] k w = w
watch_all-IsWatched (rxn ∷ counts) k w =
    watch_all-IsWatched counts (watch rxn k) (watch-IsWatched rxn k w)

-- Over any counts of packets the watchdog's flag says whether three ticks or more have passed
-- without a packet, and its ticks stay a byte. A stall is counted once: from a state with no such
-- ticks yet, `n` ticks in which no packet arrives add one stall if `n` is three or more, and none
-- otherwise. Both hold from a state whose flag agrees with its ticks.
pub watch_all-stalls :
    (k : Keepalive) (counts : List ℕ) (n : ℕ)
    → IsWatched k
    → k.fw_stall_ticks ≡ 0
    → IsWatched (watch_all counts k)
      × ((watch_all (replicate n k.last_rx_packets) k).stat_fw_stalls
          ≡ (if leb 3 n then (k.stat_fw_stalls + 1) % 2 ^ 64 else k.stat_fw_stalls))
watch_all-stalls k counts n w e =
    (watch_all-IsWatched counts k w, ground (arith, stall_run n k.last_rx_packets k w refl, e))
