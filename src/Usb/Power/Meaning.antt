-- ===== src/Usb/Power/Meaning.antt =====
-- What the interpreter does with any sequences, and with those of the 8821C.
use rtw88_pub.Base.{
  leb, ◌&&◌, ◌||◌, ◌≤◌, ◌≡◌, refl, sym, ap, ◌∙◌, arith, ◌⊎◌, inl, inr, Bool, true, false, List, [],
  ◌∷◌, ◌++◌, All, M, ◌>>◌, pure, Bool-cases, bind_ext, bind_same, bind_assoc, Errno, eio, ebusy,
  Fails, Fails-bind, Fails-pure, Fails-poll, err, has, ◌==◌,
}
use rtw88_pub.Usb.Softc.{UsbDevice, Softc}
use rtw88_pub.Usb.Io.Failing.{Fails-read1, Fails-write1}
use rtw88_pub.Usb.Power.{
  PwrRow, is_terminator, is_foreign, pwr_write, pwr_polling, pwr_command, pwr_rows, pwr_seq_parser,
}
use rtw88_pub.Usb.Power.Tables.{card_enable_flow, card_disable_flow}

-- The rows of a sequence that are for this bus and the MAC, up to END.
pub own_rows : List PwrRow → List PwrRow
own_rows [] = []
own_rows (r ∷ rows) = elim (is_terminator r) [
  | true ↦ []
  | false ↦ elim (is_foreign r) [ true ↦ own_rows rows | false ↦ r ∷ own_rows rows ]
]

pub own_steps : List (List PwrRow) → List PwrRow
own_steps [] = []
own_steps (seq ∷ seqs) = own_rows seq ++ own_steps seqs

-- A sequence has its END.
abbrev pub ended : List PwrRow → Bool
ended [] = false
ended (r ∷ rows) = is_terminator r || ended rows

abbrev pub Terminated : List PwrRow → Type 0
Terminated seq = ended seq ≡ true

module _ {W : Type 0} (usb : UsbDevice W) where
  -- Commands one after the other, up to the first that fails.
  pub run_commands : List PwrRow → M (Softc W) (Unit {0})
  run_commands [] = pure tt
  run_commands (r ∷ rows) = do pwr_command usb r; run_commands rows

  run_commands-append :
      (xs ys : List PwrRow) (s : Softc W)
      → run_commands (xs ++ ys) s ≡ (run_commands xs >> run_commands ys) s
  unfolding run_commands
  run_commands-append [] ys s = refl
  run_commands-append (r ∷ xs) ys s =
      bind_ext (pwr_command usb r) (λ _. run_commands (xs ++ ys))
        (λ _. run_commands xs >> run_commands ys) (λ _ s'. run_commands-append xs ys s') s
      ∙ sym (bind_assoc (pwr_command usb r) (λ _. run_commands xs) (λ _. run_commands ys) s)

  pwr_rows-own :
      (seq : List PwrRow) (s : Softc W)
      → Terminated seq
      → pwr_rows usb seq s ≡ run_commands (own_rows seq) s
  unfolding pwr_rows own_rows run_commands
  pwr_rows-own [] s h = absurd cc
  pwr_rows-own (r ∷ rows) s h = elim (Bool-cases (is_terminator r)) [
    | inl e ↦ rw (pwr_rows, own_rows, e) refl
    | inr e ↦
        let h' : Terminated rows = rw e at h in
        elim (Bool-cases (is_foreign r)) [
          | inl f ↦ rw (pwr_rows, own_rows, e, f) (pwr_rows-own rows s h')
          | inr f ↦
              rw (pwr_rows, own_rows, e, f)
                (bind_ext (pwr_command usb r) (λ _. pwr_rows usb rows)
                  (λ _. run_commands (own_rows rows)) (λ _ s'. pwr_rows-own rows s' h') s)
        ]
  ]

  pub pwr_seq_parser-own :
      (seqs : List (List PwrRow)) (s : Softc W)
      → All Terminated seqs
      → pwr_seq_parser usb seqs s ≡ run_commands (own_steps seqs) s
  unfolding pwr_seq_parser own_steps run_commands
  pwr_seq_parser-own [] s h = refl
  pwr_seq_parser-own (seq ∷ seqs) s h =
      bind_same (pwr_rows usb seq) (run_commands (own_rows seq)) (λ _. pwr_seq_parser usb seqs) s
        (pwr_rows-own seq s h.0)
      ∙ bind_ext (run_commands (own_rows seq)) (λ _. pwr_seq_parser usb seqs)
          (λ _. run_commands (own_steps seqs)) (λ _ s'. pwr_seq_parser-own seqs s' h.1) s
      ∙ sym (run_commands-append (own_rows seq) (own_steps seqs) s)

-- A command that the interpreter knows.
abbrev pub IsKnown : PwrRow → Type 0
IsKnown r = (1 ≤ r.cmd) × (r.cmd ≤ 3)

abbrev known : List PwrRow → Bool
known [] = true
known (r ∷ rows) = leb 1 r.cmd && leb r.cmd 3 && known rows

known-IsKnown : (rows : List PwrRow) → known rows ≡ true → All IsKnown rows
known-IsKnown [] h = tt
known-IsKnown (r ∷ rows) h =
    ((ground (arith, h), ground (arith, h)), known-IsKnown rows (ground (arith, h)))

abbrev BusError : Errno → Type 0
BusError e = (e ≡ eio) ⊎ (e ≡ ebusy)

module _ {W : Type 0} (usb : UsbDevice W) where
  pwr_command-BusError : (r : PwrRow) → IsKnown r → Fails BusError (pwr_command usb r)
  unfolding pwr_command pwr_write pwr_polling
  pwr_command-BusError r h = elim (Bool-cases (r.cmd == 1)) [
    | inl e ↦ rw e (
        Fails-bind (Fails-read1 BusError (inl refl) usb _)
          λ v. Fails-write1 BusError (inl refl) usb _ _)
    | inr e ↦ elim (Bool-cases (r.cmd == 2)) [
      | inl e' ↦
          rw (e, e')
            (Fails-bind (Fails-poll 20000 _ _ (Fails-read1 BusError (inl refl) usb _) (inr refl))
              λ v. Fails-pure tt)
      | inr e' ↦ elim (Bool-cases (r.cmd == 3)) [
        | inl e'' ↦ rw (e, e', e'') (Fails-pure tt)
        | inr e'' ↦ absurd (ground arith)
      ]
    ]
  ]

  run_commands-BusError :
      (rows : List PwrRow) → All IsKnown rows → Fails BusError (run_commands usb rows)
  unfolding run_commands
  run_commands-BusError [] h = Fails-pure tt
  run_commands-BusError (r ∷ rows) h =
      Fails-bind (pwr_command-BusError r h.0) λ _. run_commands-BusError rows h.1

  flow-BusError :
      (flow : List (List PwrRow))
      → All Terminated flow
      → All IsKnown (own_steps flow)
      → Fails BusError (pwr_seq_parser usb flow)
  flow-BusError flow ended known = record {
    only = λ s e h.
        (run_commands-BusError (own_steps flow) known).only s e
          (ap (λ r. r.0) (sym (pwr_seq_parser-own usb flow s ended)) ∙ h);
  }

  -- The power-on and the power-off sequences of the 8821C are complete: whatever the adapter does,
  -- running one succeeds or fails with EIO or EBUSY; it never meets an unknown command nor the end of
  -- a sequence that lacks its terminator.
  pub card_flows-BusError :
      (s : Softc W) (e : Errno)
      → ((pwr_seq_parser usb card_enable_flow s).0 ≡ err e → (e ≡ eio) ⊎ (e ≡ ebusy))
        × ((pwr_seq_parser usb card_disable_flow s).0 ≡ err e → (e ≡ eio) ⊎ (e ≡ ebusy))
  unfolding own_steps own_rows is_foreign has
  card_flows-BusError s e = (
    (flow-BusError card_enable_flow (refl, (refl, tt))
          (known-IsKnown (own_steps card_enable_flow) refl)).only
        s e,
    (flow-BusError card_disable_flow (refl, (refl, tt))
          (known-IsKnown (own_steps card_disable_flow) refl)).only
        s e,
  )
