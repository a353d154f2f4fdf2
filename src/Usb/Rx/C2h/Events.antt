-- ===== src/Usb/Rx/C2h/Events.antt =====
-- What one event changes.
use rtw88_pub.Base.{
  ℕ, ◌≡◌, refl, ◌⊎◌, inl, inr, Bool, true, false, List, [], ◌∷◌, ok, M, pure, if◌then◌else◌,
  Returns,
}
use rtw88_pub.Usb.Rx.{Rx, up}
use rtw88_pub.Usb.Rx.C2h.{tx_report, c2h_unknown, halmac, c2h_body, c2h_dispatch}

-- At most one of the three counters moves, and nothing else.
abbrev pub Counts : Rx → Rx → Type 0
Counts s s' =
    (s' ≡ s)
    ⊎ (s' ≡ record s { tx_acked = up s.tx_acked })
    ⊎ (s' ≡ record s { tx_xretries = up s.tx_xretries })
    ⊎ (s' ≡ record s { stat_c2h_unknown = up s.stat_c2h_unknown })

record Event (m : M Rx (Unit {0})) : Type 0 where
  runs : (s : Rx) → ((m s).0 ≡ ok tt) × Counts s (m s).1

Event-if : (b : Bool) {m n : M Rx (Unit {0})} → Event m → Event n → Event (if b then m else n)
Event-if true h k = h
Event-if false h k = k

Event-pure : Event (pure tt)
Event-pure = record { runs = λ s. (refl, inl refl) }

tx_report-Event : (status : ℕ) → Event (tx_report status)
unfolding tx_report
tx_report-Event status =
    Event-if _ (record { runs = λ s. (refl, inr (inl refl)) })
      (record { runs = λ s. (refl, inr (inr (inl refl))) })

c2h_unknown-Event : Event c2h_unknown
unfolding c2h_unknown
c2h_unknown-Event = record { runs = λ s. (refl, inr (inr (inr refl))) }

halmac-Event : (payload : List ℕ) → Event (halmac payload)
unfolding halmac
halmac-Event [] = c2h_unknown-Event
halmac-Event (sub ∷ payload) = search (Event-if, tx_report-Event, Event-pure, c2h_unknown-Event)

c2h_body-Event : (body : List ℕ) → Event (c2h_body body)
unfolding c2h_body
c2h_body-Event [] = Event-pure
c2h_body-Event (id ∷ []) = Event-pure
c2h_body-Event (id ∷ seq ∷ payload) =
    search (Event-if, tx_report-Event, Event-pure, halmac-Event, c2h_unknown-Event)

-- Every event is counted, whatever is in it, and then at most one more counter moves by one: that of
-- the frames acknowledged, of those given up, or of the events that the driver does not know. Nothing
-- else of the receive state changes, and the dispatch never fails.
pub c2h_dispatch-Counts :
    (body : List ℕ) (s : Rx)
    → ((c2h_dispatch body s).0 ≡ ok tt)
      × Counts (record s { stat_c2h = up s.stat_c2h }) (c2h_dispatch body s).1
unfolding c2h_dispatch
c2h_dispatch-Counts body s = (c2h_body-Event body).runs (record s { stat_c2h = up s.stat_c2h })

pub c2h_dispatch-Returns : (body : List ℕ) → Returns (λ _. Unit {0}) (c2h_dispatch body)
c2h_dispatch-Returns body = record { returns = λ s. (tt, (c2h_dispatch-Counts body s).0, tt) }
