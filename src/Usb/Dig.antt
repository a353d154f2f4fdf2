-- ===== src/Usb/Dig.antt =====
-- if_rtw88_usb.c: the dynamic initial gain, a task that runs every two seconds: it reads how many
-- false alarms the receiver counted and moves the gain. The callout is a flag; the taskqueue that it
-- kicks is not modelled, `dig_task` is one run of the task.
pub mod Gain
pub mod Tick
use rtw88_pub.Base.{
  ℕ, ◌+◌, ◌-◌, ◌*◌, ◌^◌, Bool, true, false, List, [], ◌∷◌, Result, ok, err, M, ◌>>=◌, ◌>>◌, pure,
  get, put, modify, attempt, ignore, when, bit_and, bit_or, not32, has, ltb, ◌==◌, not,
  if◌then◌else◌, get_or, u8,
}
use rtw88_pub.Usb.Softc.{UsbDevice, Dig, Softc}
use rtw88_pub.Usb.Io.{read4, write4}

abbrev reg_rxpsel : ℕ
reg_rxpsel = 0x0808

abbrev reg_dig_path_a : ℕ
reg_dig_path_a = 0x0c50

abbrev reg_fas : ℕ
reg_fas = 0x09a4

abbrev reg_fa_cck : ℕ
reg_fa_cck = 0x0a5c

abbrev reg_rxdesc : ℕ
reg_rxdesc = 0x0a2c

abbrev reg_cntrst : ℕ
reg_cntrst = 0x0b58

abbrev reg_fa_ofdm : ℕ
reg_fa_ofdm = 0x0f48

abbrev dig_path_a_mask : ℕ
dig_path_a_mask = 0x7f

abbrev pub dig_cvrg_min : ℕ
dig_cvrg_min = 0x1c

abbrev pub dig_cvrg_max : ℕ
dig_cvrg_max = 0x2a

-- The alarms of both modulations, at most what `uint16_t` holds.
pub clamp16 : ℕ → ℕ
clamp16 total = if ltb 0xffff total then 0xffff else total

-- The step before the constant 2 that is taken off it.
pub step_up : ℕ → ℕ
step_up fa_cnt =
    if ltb 5000 fa_cnt then 4 else if ltb 4000 fa_cnt then 3 else if ltb 2000 fa_cnt then 2 else 0

-- `cur_igi` after the step `delta - 2`, which is signed.
pub stepped : ℕ → ℕ → ℕ
stepped pre_igi delta =
    if ltb 2 delta
    then (if ltb 0xff (pre_igi + (delta - 2)) then 0xff else pre_igi + (delta - 2))
    else if ltb pre_igi (2 - delta)
    then 0
    else pre_igi - (2 - delta)

pub next_igi : ℕ → ℕ → ℕ
unfolding step_up stepped
next_igi pre_igi fa_cnt =
    let cur_igi = stepped pre_igi (step_up fa_cnt) in
    if ltb cur_igi dig_cvrg_min
    then dig_cvrg_min
    else if ltb dig_cvrg_max cur_igi
    then dig_cvrg_max
    else cur_igi

-- Shift a sample into both four-deep rings and one bit into the trend.
pub dig_record : ℕ → ℕ → Dig → Dig
dig_record igi fa dig = record dig {
  igi_log = igi ∷ get_or dig.igi_log 0 0 ∷ get_or dig.igi_log 1 0 ∷ get_or dig.igi_log 2 0 ∷ [];
  fa_log = fa ∷ get_or dig.fa_log 0 0 ∷ get_or dig.fa_log 1 0 ∷ get_or dig.fa_log 2 0 ∷ [];
  trend_bits =
      let bits = bit_and (dig.trend_bits * 2) 0xfe in
      if ltb (get_or dig.igi_log 0 0) igi then bit_or bits 1 else bits;
}

module _ {W : Type 0} (usb : UsbDevice W) where
  pub dig_write : ℕ → M (Softc W) (Unit {0})
  dig_write igi = do
    val ← read4 usb reg_dig_path_a
    write4 usb reg_dig_path_a
        (bit_or (bit_and val (not32 dig_path_a_mask)) (bit_and igi dig_path_a_mask))

  -- Two writes that follow a read only when it succeeds; their errors are dropped.
  pub pulse : ℕ → (ℕ → ℕ) → (ℕ → ℕ) → Result ℕ → M (Softc W) (Unit {0})
  pulse reg first second (err e) = pure tt
  pulse reg first second (ok v) = do
    ignore (write4 usb reg (first v))
    ignore (write4 usb reg (second v))

  try_pulse : ℕ → (ℕ → ℕ) → (ℕ → ℕ) → M (Softc W) (Unit {0})
  try_pulse reg first second = do r ← attempt (read4 usb reg); pulse reg first second r

  fa_cck : ℕ → M (Softc W) ℕ
  fa_cck rxpsel = elim (has rxpsel (2 ^ 28)) [
    | false ↦ pure 0
    | true ↦ do v ← read4 usb reg_fa_cck; pure (bit_and v 0xffff)
  ]

  -- Bits 17, 15 and 0 of the three registers reset the counters.
  pub dig_sample_fa : M (Softc W) ℕ
  dig_sample_fa = do
    rxpsel ← read4 usb reg_rxpsel
    fa_ofdm ← read4 usb reg_fa_ofdm
    cck ← fa_cck rxpsel
    let fa_out = clamp16 (bit_and fa_ofdm 0xffff + cck)
    fas ← read4 usb reg_fas
    pulse reg_fas (λ v. bit_or v (2 ^ 17)) (λ v. bit_and v (not32 (2 ^ 17))) (ok fas)
    try_pulse reg_rxdesc (λ v. bit_and v (not32 (2 ^ 15))) (λ v. bit_or v (2 ^ 15))
    try_pulse reg_cntrst (λ v. bit_or v 1) (λ v. bit_and v (not32 1))
    pure fa_out

  decide_igi : Result ℕ → M (Softc W) (Unit {0})
  decide_igi (err e) = pure tt
  decide_igi (ok fa_cnt) = do
    sc ← get
    let pre_igi = get_or sc.dig.igi_log 0 0
    let cur_igi = next_igi pre_igi fa_cnt
    modify (λ (s : Softc W). record s { dig = dig_record cur_igi fa_cnt s.dig })
    when (not (cur_igi == pre_igi)) (ignore (dig_write cur_igi))

  pub dig_tick : M (Softc W) (Unit {0})
  dig_tick = do r ← attempt dig_sample_fa; decide_igi r

  arm : M (Softc W) (Unit {0})
  arm = modify (λ (s : Softc W). record s { dig = record s.dig { callout_armed = true } })

  -- `sc_dig_active` is looked at on entry and again before the callout is armed.
  pub dig_task : M (Softc W) (Unit {0})
  unfolding arm
  dig_task = do sc ← get; when sc.dig.active (do dig_tick; sc' ← get; when sc'.dig.active arm)

  -- The four samples of both rings are reset from the register.
  pub dig_start : M (Softc W) (Unit {0})
  unfolding arm
  dig_start = do
    sc ← get
    when (not sc.dig.active) (do r ← attempt (read4 usb reg_dig_path_a); seed r)
    where
      seed : Result ℕ → M (Softc W) (Unit {0})
      seed (err e) = pure tt
      seed (ok val) = do
        let igi = u8 (bit_and val dig_path_a_mask)
        modify (λ (s : Softc W). record s {
          dig = record {
            active = true;
            igi_log = igi ∷ igi ∷ igi ∷ igi ∷ [];
            fa_log = 0 ∷ 0 ∷ 0 ∷ 0 ∷ [];
            trend_bits = 0;
            callout_armed = s.dig.callout_armed;
          };
        })
        arm
