-- ===== src/Usb/Claim.antt =====
-- rtw88_usb_io_enter and rtw88_usb_io_exit between threads. Both run under the driver's mutex, which
-- `msleep` and a USB request drop, so the steps of threads interleave: a thread asks for endpoint 0,
-- takes it when the flag is clear, and gives it back. A thread that sleeps and is woken is one that
-- still asks. The kernel's mutex and its wake-ups are not modelled.
pub mod Exclusion
use rtw88_pub.Base.{ℕ, ◌≡◌, Bool, true, false, List, []}
use rtw88_pub.Base.{get_or, set, length, ◌<◌}

pub data Phase : Type 0 where
  idle asking holding : Phase

-- `sc_io_busy` and where each thread is.
pub record Threads : Type 0 where
  pub busy : Bool
  pub phases : List Phase

abbrev pub phase : Threads → ℕ → Phase
phase t i = get_or t.phases i idle

pub data Step : Threads → Threads → Type 0 where
  ask :
      {t : Threads} (i : ℕ)
      → i < length t.phases
      → phase t i ≡ idle
      → Step t (record t { phases = set t.phases i asking })
  take :
      {t : Threads} (i : ℕ)
      → phase t i ≡ asking
      → t.busy ≡ false
      → Step t (record { busy = true; phases = set t.phases i holding })
  give :
      {t : Threads} (i : ℕ)
      → phase t i ≡ holding
      → Step t (record { busy = false; phases = set t.phases i idle })

pub data Reaches : Threads → Threads → Type 0 where
  here : {t : Threads} → Reaches t t
  later : {t u v : Threads} → Reaches t u → Step u v → Reaches t v
