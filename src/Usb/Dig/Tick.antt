-- ===== src/Usb/Dig/Tick.antt =====
-- One run of rtw88_dig_tick: the reads of a sample, and what the gain's state becomes.
use rtw88_pub.Base.{
  bit_or, not32, ℕ, ◌+◌, ◌≤◌, ◌^◌, ◌≡◌, refl, arith, Bool, true, false, get_or, ◌⊎◌, inl, inr,
  Result, ok, err, M, Preserves, Preserves-bind, Preserves-pure, Preserves-attempt,
  Preserves-ignore, Preserves-test, when, pure, has, Triple, Triple-bind, Triple-seq,
  Triple-Preserves, Errno, bit_and, ltb, if◌then◌else◌, Bool-cases, ◌>>◌, ignore, ap, ◌∙◌,
  Result-cases,
}
use rtw88_pub.Usb.Softc.{UsbDevice, Dig, Softc}
use rtw88_pub.Usb.Io.{read4}
use rtw88_pub.Usb.Io.Access.{OffIo, Preserves-read4, Preserves-write4}
use rtw88_pub.Usb.Dig.{
  try_pulse, next_igi, dig_record, dig_write, pulse, fa_cck, dig_sample_fa, clamp16, decide_igi,
  dig_tick,
}

-- How a read ends.
run-cases :
    {S A : Type 0} (m : M S A) (s : S)
    → ((a : A) × (s' : S) × (m s ≡ (ok a, s'))) ⊎ ((e : Errno) × (s' : S) × (m s ≡ (err e, s')))
run-cases m s = elim (Result-cases (m s).0) [
  | inl (a, e) ↦ inl (a, (m s).1, ap (λ r. (r, (m s).1)) e)
  | inr (x, e) ↦ inr (x, (m s).1, ap (λ r. (r, (m s).1)) e)
]

clamp16-le : (n : ℕ) → clamp16 n ≤ 0xffff
unfolding clamp16
clamp16-le n = ground arith

module _ {W : Type 0} (usb : UsbDevice W) where
  abbrev DigIs : Dig → Softc W → Type 0
  DigIs dig sc = sc.dig ≡ dig

  off : (dig : Dig) → OffIo (DigIs dig)
  off dig = record { blind = λ sc w busy errors p. p }

  abbrev Sampled : Dig → ℕ → Softc W → Type 0
  Sampled dig fa sc = (sc.dig ≡ dig) × (fa ≤ 0xffff)

  same :
      {A : Type 0} {m : M (Softc W) A} (dig : Dig)
      → Preserves (DigIs dig) m
      → Triple (DigIs dig) (λ _. DigIs dig) (λ _. DigIs dig) m
  same dig p = Triple-Preserves p

  fa_cck-keeps : (dig : Dig) (r : ℕ) → Preserves (DigIs dig) (fa_cck usb r)
  unfolding fa_cck
  fa_cck-keeps dig r =
      Preserves-test (has r (2 ^ 28))
        (Preserves-bind (Preserves-read4 (off dig) usb _) λ v. Preserves-pure _) (Preserves-pure 0)

  pulse-keeps :
      (dig : Dig) (reg : ℕ) (f g : ℕ → ℕ) (r : Result ℕ)
      → Preserves (DigIs dig) (pulse usb reg f g r)
  unfolding pulse
  pulse-keeps dig reg f g (ok v) =
      Preserves-bind (Preserves-ignore (Preserves-write4 (off dig) usb reg (f v)))
        λ _. Preserves-ignore (Preserves-write4 (off dig) usb reg (g v))
  pulse-keeps dig reg f g (err e) = Preserves-pure tt

  try_pulse-keeps :
      (dig : Dig) (reg : ℕ) (f g : ℕ → ℕ) → Preserves (DigIs dig) (try_pulse usb reg f g)
  unfolding try_pulse
  try_pulse-keeps dig reg f g =
      Preserves-bind (Preserves-attempt (Preserves-read4 (off dig) usb reg))
        (pulse-keeps dig reg f g)

  dig_sample_fa-Sampled :
      (dig : Dig) → Triple (DigIs dig) (Sampled dig) (λ _. DigIs dig) (dig_sample_fa usb)
  unfolding dig_sample_fa
  dig_sample_fa-Sampled dig =
      let done : (n : ℕ) → Triple (DigIs dig) (Sampled dig) (λ _. DigIs dig) (pure (clamp16 n)) =
        λ n. record { runs = λ s p. (p, clamp16-le n) } in
      let read = λ (a : ℕ). same dig (Preserves-read4 (off dig) usb a) in
      let again = λ (a : ℕ) (f g : ℕ → ℕ). same dig (try_pulse-keeps dig a f g) in
      let reset = λ (a : ℕ) (f g : ℕ → ℕ) (r : Result ℕ). same dig (pulse-keeps dig a f g r) in
      Triple-bind (λ _. DigIs dig) (read _)
        λ rxpsel.
          Triple-bind (λ _. DigIs dig) (read _)
            λ ofdm.
              Triple-bind (λ _. DigIs dig) (same dig (fa_cck-keeps dig rxpsel))
                λ cck.
                  Triple-bind (λ _. DigIs dig) (read _)
                    λ fas. Triple-seq (DigIs dig) (reset _ _ _ _) (
                      Triple-seq (DigIs dig) (again _ _ _)
                        (Triple-seq (DigIs dig) (again _ _ _) (done _)))

  dig_write-keeps : (dig : Dig) (igi : ℕ) → Preserves (DigIs dig) (dig_write usb igi)
  unfolding dig_write
  dig_write-keeps dig igi =
      Preserves-bind (Preserves-read4 (off dig) usb _) λ v. Preserves-write4 (off dig) usb _ _

  -- What one decision makes of the state, `fa` being the alarms.
  abbrev decided : Dig → ℕ → Dig
  decided dig fa = dig_record (next_igi (get_or dig.igi_log 0 0) fa) fa dig

  quietly :
      {A : Type 0} (b : Bool) {m : M (Softc W) A} (dig : Dig) (sc : Softc W)
      → Preserves (DigIs dig) m
      → sc.dig ≡ dig
      → ((when b (ignore m) sc).0 ≡ ok tt) × ((when b (ignore m) sc).1.dig ≡ dig)
  quietly true dig sc h p = (refl, h.keeps sc p)
  quietly false dig sc h p = (refl, p)

  decide_igi-decided :
      (fa : ℕ) (sc : Softc W)
      → ((decide_igi usb (ok fa) sc).0 ≡ ok tt)
        × ((decide_igi usb (ok fa) sc).1.dig ≡ decided sc.dig fa)
  unfolding decide_igi
  decide_igi-decided fa sc =
      quietly _ (decided sc.dig fa) (record sc { dig = decided sc.dig fa })
        (dig_write-keeps (decided sc.dig fa) (next_igi (get_or sc.dig.igi_log 0 0) fa)) refl

  -- The read at `a` of a register, from one state to the next.
  abbrev pub Reads : ℕ → Softc W → ℕ → Softc W → Type 0
  Reads a sc v sc' = read4 usb a sc ≡ (ok v, sc')

  abbrev pub Refuses : ℕ → Softc W → Errno → Softc W → Type 0
  Refuses a sc e sc' = read4 usb a sc ≡ (err e, sc')

  -- The alarms of CCK, which are read only while its receiver is on.
  abbrev pub CckReads : ℕ → Softc W → ℕ → Softc W → Type 0
  CckReads rxpsel sc c sc' =
      ((has rxpsel (2 ^ 28) ≡ false) × (c ≡ 0) × (sc' ≡ sc))
      ⊎ ((v : ℕ) × (has rxpsel (2 ^ 28) ≡ true) × (c ≡ bit_and v 0xffff) × Reads 0x0a5c sc v sc')

  -- The four reads of a sample went through, and what they count.
  abbrev pub Counted : Softc W → ℕ → Type 0
  Counted sc fa =
      (rxpsel : ℕ) × (sc1 : Softc W) × (ofdm : ℕ) × (sc2 : Softc W) × (cck : ℕ) × (sc3 : Softc W)
      × (fas : ℕ) × (sc4 : Softc W) × Reads 0x0808 sc rxpsel sc1
      × Reads 0x0f48 sc1 ofdm sc2
      × CckReads rxpsel sc2 cck sc3
      × Reads 0x09a4 sc3 fas sc4
      × (fa
          ≡ (if ltb 0xffff (bit_and ofdm 0xffff + cck) then 0xffff else bit_and ofdm 0xffff + cck))

  -- One of them failed, and no register was read after it.
  abbrev pub Uncounted : Softc W → Softc W → Type 0
  Uncounted sc sc' =
      (e : Errno) × (Refuses 0x0808 sc e sc'
        ⊎ ((rxpsel : ℕ) × (sc1 : Softc W) × Reads 0x0808 sc rxpsel sc1
            × (Refuses 0x0f48 sc1 e sc'
                ⊎ ((ofdm : ℕ) × (sc2 : Softc W) × Reads 0x0f48 sc1 ofdm sc2
                    × (((has rxpsel (2 ^ 28) ≡ true) × Refuses 0x0a5c sc2 e sc')
                        ⊎ ((cck : ℕ) × (sc3 : Softc W) × CckReads rxpsel sc2 cck sc3
                            × Refuses 0x09a4 sc3 e sc'))))))

  -- A sample counts, or one of its reads fails.
  abbrev Sample : Softc W → Result ℕ × Softc W → Type 0
  Sample sc out =
      ((fa : ℕ) × (out.0 ≡ ok fa) × Counted sc fa)
      ⊎ ((e : Errno) × (out.0 ≡ err e) × Uncounted sc out.1)

  fa_cck_reads :
      (rxpsel : ℕ) (sc : Softc W)
      → ((c : ℕ) × (sc' : Softc W) × (fa_cck usb rxpsel sc ≡ (ok c, sc'))
          × CckReads rxpsel sc c sc')
        ⊎ ((e : Errno) × (sc' : Softc W) × (fa_cck usb rxpsel sc ≡ (err e, sc'))
            × (has rxpsel (2 ^ 28) ≡ true)
            × Refuses 0x0a5c sc e sc')
  unfolding fa_cck
  fa_cck_reads rxpsel sc = elim (Bool-cases (has rxpsel (2 ^ 28))) [
    | inr shut ↦ rw (fa_cck, shut) (inl (0, sc, refl, inl (refl, refl, refl)))
    | inl on ↦ elim (run-cases (read4 usb 0x0a5c) sc) [
      | inl (v, sc', e) ↦ inl (bit_and v 0xffff, sc', rw (fa_cck, on, e) refl, inr (v, on, refl, e))
      | inr (x, sc', e) ↦ inr (x, sc', rw (fa_cck, on, e) refl, on, e)
    ]
  ]

  pulse_ok :
      (reg : ℕ) (f g : ℕ → ℕ) (r : Result ℕ) (sc : Softc W) → (pulse usb reg f g r sc).0 ≡ ok tt
  unfolding pulse
  pulse_ok reg f g (ok v) sc = refl
  pulse_ok reg f g (err e) sc = refl

  try_pulse_ok : (reg : ℕ) (f g : ℕ → ℕ) (sc : Softc W) → (try_pulse usb reg f g sc).0 ≡ ok tt
  unfolding try_pulse
  try_pulse_ok reg f g sc = pulse_ok reg f g (read4 usb reg sc).0 (read4 usb reg sc).1

  then_ok :
      {A : Type 0} {a : A} (m : M (Softc W) (Unit {0})) (k : M (Softc W) A)
      → ((sc : Softc W) → (m sc).0 ≡ ok tt)
      → ((sc : Softc W) → (k sc).0 ≡ ok a)
      → (sc : Softc W) → ((m >> k) sc).0 ≡ ok a
  then_ok m k h h' sc = rw (h sc) (h' (m sc).1)

  abbrev reset_fas : ℕ → M (Softc W) (Unit {0})
  reset_fas fas =
      pulse usb 0x09a4 (λ v. bit_or v (2 ^ 17)) (λ v. bit_and v (not32 (2 ^ 17))) (ok fas)

  abbrev reset_rxdesc : M (Softc W) (Unit {0})
  reset_rxdesc = try_pulse usb 0x0a2c (λ v. bit_and v (not32 (2 ^ 15))) (λ v. bit_or v (2 ^ 15))

  abbrev reset_cntrst : M (Softc W) (Unit {0})
  reset_cntrst = try_pulse usb 0x0b58 (λ v. bit_or v 1) (λ v. bit_and v (not32 1))

  -- The resets never fail.
  sample_ends :
      (fas n : ℕ) (sc : Softc W)
      → ((reset_fas fas >> (reset_rxdesc >> (reset_cntrst >> pure n))) sc).0 ≡ ok n
  sample_ends fas n sc =
      then_ok (reset_fas fas) (reset_rxdesc >> (reset_cntrst >> pure n)) (λ s. pulse_ok _ _ _ _ s)
        (λ s.
          then_ok reset_rxdesc (reset_cntrst >> pure n) (λ t. try_pulse_ok _ _ _ t)
            (λ t. then_ok reset_cntrst (pure n) (λ u. try_pulse_ok _ _ _ u) (λ u. refl) t) s)
        sc

  dig_sample_fa-Sample : (sc : Softc W) → Sample sc (dig_sample_fa usb sc)
  unfolding dig_sample_fa clamp16
  dig_sample_fa-Sample sc = elim (run-cases (read4 usb 0x0808) sc) [
    | inr (x, sc1, e1) ↦ rw e1 (inr (x, refl, (x, inl refl)))
    | inl (rxpsel, sc1, e1) ↦ elim (run-cases (read4 usb 0x0f48) sc1) [
      | inr (x, sc2, e2) ↦ rw (e1, e2) (inr (x, refl, (x, inr (rxpsel, sc1, refl, inl e2))))
      | inl (ofdm, sc2, e2) ↦ elim (fa_cck_reads rxpsel sc2) [
        | inr (x, sc3, e3, on, e3') ↦
            rw (e1, e2, e3)
              (inr (x, refl, (x, inr (rxpsel, sc1, refl, inr (ofdm, sc2, e2, inl (on, e3'))))))
        | inl (cck, sc3, e3, counted) ↦ elim (run-cases (read4 usb 0x09a4) sc3) [
          | inr (x, sc4, e4) ↦
              rw (e1, e2, e3, e4)
                (inr (
                  x,
                  refl,
                  (x, inr (rxpsel, sc1, refl, inr (ofdm, sc2, e2, inr (cck, sc3, counted, e4)))),
                ))
          | inl (fas, sc4, e4) ↦
              rw (e1, e2, e3, e4)
                (inl (
                  _,
                  sample_ends fas _ sc4,
                  (rxpsel, sc1, ofdm, sc2, cck, sc3, fas, sc4, refl, e2, counted, e4, refl),
                ))
        ]
      ]
    ]
  ]

  -- A tick never fails, whatever the adapter does. Where one of the reads of the alarms fails, the
  -- adapter is as that read leaves it and the gain's state stays as it was. Where all of them go
  -- through, the state shifts in one decision over what they count, at most 65535 alarms.
  pub dig_tick-decided :
      (sc : Softc W)
      → ((dig_tick usb sc).0 ≡ ok tt)
        × ((Uncounted sc (dig_tick usb sc).1 × ((dig_tick usb sc).1.dig ≡ sc.dig))
            ⊎ ((fa : ℕ) × Counted sc fa
                × (fa ≤ 0xffff)
                × ((dig_tick usb sc).1.dig
                    ≡ dig_record (next_igi (get_or sc.dig.igi_log 0 0) fa) fa sc.dig)))
  unfolding dig_tick decide_igi
  dig_tick-decided sc =
      let run = (dig_sample_fa-Sampled sc.dig).runs sc refl in
      elim (dig_sample_fa-Sample sc) [
        | inl (fa, e, counted) ↦
            let kept = rw e at run in
            let after = decide_igi-decided fa (dig_sample_fa usb sc).1 in
            rw e (after.0, inr (fa, counted, kept.1, after.1 ∙ ap (λ dig. decided dig fa) kept.0))
        | inr (x, e, uncounted) ↦ rw e (refl, inl (uncounted, rw e at run))
      ]
