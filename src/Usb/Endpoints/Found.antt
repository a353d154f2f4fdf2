-- ===== src/Usb/Endpoints/Found.antt =====
-- What the walk over the endpoints finds.
use mathlib.Core.List.{append-nil, append_assoc}
use rtw88_pub.Base.{
  ℕ, zero, suc, ◌+◌, ◌-◌, ◌≤◌, ◌<◌, ◌≡◌, refl, ap, sym, ◌∙◌, arith, inl, inr, false, List, [], ◌∷◌,
  ◌++◌, Result, ok, err, enxio, throw, pure, bit_and, ltb, ◌==◌, if◌then◌else◌, length, take,
  get_elem?, length-append, Bool-cases,
}
use rtw88_pub.Usb.Endpoints.{
  EndpointDescriptor, Endpoints, is_bulk, is_in, note, note_all, discover_endpoints, tx_hi, tx_h2c,
  endpoint_of,
}

-- The addresses of the bulk OUT endpoints, in order.
abbrev pub outs : List EndpointDescriptor → List ℕ
outs [] = []
outs (ed ∷ eds) =
    if is_bulk ed then (if is_in ed then outs eds else ed.address ∷ outs eds) else outs eds

-- The number of the first bulk IN endpoint whose number is not zero; zero if there is none.
abbrev pub first_in : List EndpointDescriptor → ℕ
first_in [] = 0
first_in (ed ∷ eds) =
    if is_bulk ed
    then (if is_in ed
        then (if bit_and ed.address 0x0f == 0 then first_in eds else bit_and ed.address 0x0f)
        else first_in eds)
    else first_in eds

take_empty : (n : ℕ) → take {A = ℕ} n [] ≡ []
take_empty zero = refl
take_empty (suc n) = refl

take_none : (l : List ℕ) → take 0 l ≡ []
take_none [] = refl
take_none (x ∷ l) = refl

one_longer : (b : List ℕ) (a : ℕ) → length (b ++ a ∷ []) ≡ length b + 1
one_longer b a = length-append b (a ∷ [])

next_out :
    (b : List ℕ) (a : ℕ) (l : List ℕ)
    → length b < 4
    → (b ++ a ∷ []) ++ take (4 - length (b ++ a ∷ [])) l ≡ b ++ take (4 - length b) (a ∷ l)
next_out b a l below =
    let step : 4 - length b ≡ suc (4 - length (b ++ a ∷ [])) =
      omega (arith, one_longer b a, below) in
    append_assoc b (a ∷ []) (take (4 - length (b ++ a ∷ [])) l)
    ∙ ap (λ n. b ++ take n (a ∷ l)) (sym step)

note_all-outs :
    (eds : List EndpointDescriptor) (s : Endpoints)
    → length s.bulk_out ≤ 4
    → (note_all eds s).bulk_out ≡ s.bulk_out ++ take (4 - length s.bulk_out) (outs eds)
unfolding note_all note
note_all-outs [] s room = sym (ap (λ l. s.bulk_out ++ l) (take_empty _) ∙ append-nil s.bulk_out)
note_all-outs (ed ∷ eds) s room = elim (Bool-cases (is_bulk ed)) [
  | inr other ↦
      let step : note ed s ≡ s = rw other refl in
      ap (λ t. (note_all eds t).bulk_out) step ∙ rw other (note_all-outs eds s room)
  | inl bulk ↦ elim (Bool-cases (is_in ed)) [
    | inl inward ↦ elim (Bool-cases (s.bulk_in == 0)) [
      | inl unset ↦
          let found = record s { bulk_in = bit_and ed.address 0x0f } in
          let step : note ed s ≡ found = rw (bulk, inward, unset) refl in
          ap (λ t. (note_all eds t).bulk_out) step
          ∙ rw (bulk, inward) (note_all-outs eds found room)
      | inr has_one ↦
          let step : note ed s ≡ s = rw (bulk, inward, has_one) refl in
          ap (λ t. (note_all eds t).bulk_out) step ∙ rw (bulk, inward) (note_all-outs eds s room)
    ]
    | inr outward ↦ elim (Bool-cases (ltb (length s.bulk_out) 4)) [
      | inl free ↦
          let found = record s { bulk_out = s.bulk_out ++ ed.address ∷ [] } in
          let step : note ed s ≡ found = rw (bulk, outward, free) refl in
          let below : length s.bulk_out < 4 = ground (arith, free) in
          ap (λ t. (note_all eds t).bulk_out) step
          ∙ rw (bulk, outward)
              (note_all-outs eds found (omega (arith, one_longer s.bulk_out ed.address, below))
                ∙ next_out s.bulk_out ed.address (outs eds) below)
      | inr full ↦
          let step : note ed s ≡ s = rw (bulk, outward, full) refl in
          let none_left : 4 - length s.bulk_out ≡ 0 = ground (arith, full, room) in
          ap (λ t. (note_all eds t).bulk_out) step
          ∙ rw (bulk, outward)
              (note_all-outs eds s room
                ∙ ap (λ l. s.bulk_out ++ l)
                    (ap (λ n. take n (outs eds)) none_left
                      ∙ take_none (outs eds)
                      ∙ sym (ap (λ n. take n (ed.address ∷ outs eds)) none_left)))
    ]
  ]
]

note_all-in :
    (eds : List EndpointDescriptor) (s : Endpoints)
    → (note_all eds s).bulk_in ≡ (if s.bulk_in == 0 then first_in eds else s.bulk_in)
unfolding note_all note
note_all-in [] s = ground arith
note_all-in (ed ∷ eds) s = ground (arith, note_all-in eds (note ed s))

abbrev refuse_none : Endpoints → Result (Unit {0}) × Endpoints
refuse_none f = (if ltb (length f.bulk_out) 1 then throw enxio else pure tt) f

refuse_none_outcome :
    (l : List ℕ) (f : Endpoints)
    → f.bulk_out ≡ take 4 l
    → (refuse_none f ≡ (if length l == 0 then err enxio else ok tt, f))
      × (get_elem? f.bulk_out 0 ≡ get_elem? l 0)
refuse_none_outcome [] f e = rw e (refl, refl)
refuse_none_outcome (a ∷ l) f e =
    let enough : ltb (length f.bulk_out) 1 ≡ false = rw e (ground arith) in
    let some_out : (length (a ∷ l) == 0) ≡ false = ground arith in
    (rw (enough, some_out) refl, rw e refl)

-- The walk over the endpoints finds the first four bulk OUT endpoints, in the order of their
-- descriptors, and the first bulk IN endpoint whose number is not zero, whatever was found before;
-- it fails with ENXIO exactly where there is no bulk OUT endpoint, and where it does not, the pipe of
-- the management frames and that of the commands share the first one.
pub discover_endpoints-order :
    (eds : List EndpointDescriptor) (s : Endpoints)
    → let (r, s') = discover_endpoints eds s in
      (s'.bulk_out ≡ take 4 (outs eds))
      × (s'.bulk_in ≡ first_in eds)
      × (r ≡ (if length (outs eds) == 0 then err enxio else ok tt))
      × (endpoint_of s' tx_h2c ≡ endpoint_of s' tx_hi)
      × (endpoint_of s' tx_hi ≡ get_elem? (outs eds) 0)
unfolding discover_endpoints endpoint_of
discover_endpoints-order eds s =
    let found = note_all eds (record { bulk_in = 0; bulk_out = [] }) in
    let order : found.bulk_out ≡ take 4 (outs eds) =
      note_all-outs eds (record { bulk_in = 0; bulk_out = [] }) (omega arith) in
    let (ends, lowest) = refuse_none_outcome (outs eds) found order in
    rw ends (order, note_all-in eds (record { bulk_in = 0; bulk_out = [] }), refl, refl, lowest)
