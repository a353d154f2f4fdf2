-- ===== src/Usb/Rx/C2h.antt =====
-- rtw88_rx_c2h_dispatch: events of the firmware. Those that it only drops share one case; the note of
-- an unknown one prints only.
pub mod Events
use rtw88_pub.Base.{
  ℕ, ◌+◌, ◌-◌, ◌≤◌, ◌≡◌, refl, arith, Bool, true, false, ◌||◌, List, [], ◌∷◌, ok, M, ◌>>=◌, ◌>>◌,
  pure, modify, bit_and, ltb, leb, ◌==◌, if◌then◌else◌, length, get_or,
}
use rtw88_pub.Usb.Rx.{Rx, up}

-- Bits 6 and 7 of a transmit report: clear for a frame that was acknowledged.
pub tx_report : ℕ → M Rx (Unit {0})
tx_report status =
    if bit_and status 0xc0 == 0
    then modify (λ (s : Rx). record s { tx_acked = up s.tx_acked })
    else modify (λ (s : Rx). record s { tx_xretries = up s.tx_xretries })

pub c2h_unknown : M Rx (Unit {0})
c2h_unknown = modify (λ (s : Rx). record s { stat_c2h_unknown = up s.stat_c2h_unknown })

pub is_dropped : ℕ → Bool
is_dropped id =
    id == 0x09
    || id == 0x0b
    || id == 0x0c
    || id == 0x19
    || id == 0x27
    || id == 0x32
    || id == 0x36
    || id == 0x37
    || id == 0x38
    || id == 0x15

-- What is behind the id 0xff: the payload's first byte names the event.
pub halmac : List ℕ → M Rx (Unit {0})
halmac [] = c2h_unknown
halmac (sub ∷ payload) =
    if sub == 0x03 || sub == 0x22
    then pure tt
    else if sub == 0x0f
    then if leb 9 (length payload) then tx_report (get_or payload 8 0) else pure tt
    else c2h_unknown

pub c2h_body : List ℕ → M Rx (Unit {0})
c2h_body [] = pure tt
c2h_body (id ∷ []) = pure tt
c2h_body (id ∷ seq ∷ payload) =
    if id == 0x03
    then if leb 1 (length payload) then tx_report (get_or payload 0 0) else pure tt
    else if is_dropped id
    then pure tt
    else if id == 0xff
    then halmac payload
    else c2h_unknown

pub c2h_dispatch : List ℕ → M Rx (Unit {0})
c2h_dispatch body = do modify (λ (s : Rx). record s { stat_c2h = up s.stat_c2h }); c2h_body body
