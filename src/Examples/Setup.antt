-- ===== src/Examples/Setup.antt =====
-- The set-up of the MAC on an adapter whose registers all read as ones, and a frame that is handed
-- over for transmission.
use rtw88_pub.Base.{
  enxio, length, take, get_elem?, ◌==◌, if◌then◌else◌, ℕ, ◌≡◌, refl, subst, true, List, [], ◌∷◌,
  ◌++◌, some, Result, ok, err, Errno, replicate, has, le32dec,
}
use rtw88_pub.Usb.Softc.{UsbDevice, Softc}
use rtw88_pub.Usb.Mac.Start.{general_info_body, phydm_info_body, mac_init}
use rtw88_pub.Usb.Mac.Stuck.{IsStuck, IsAsBefore, IsBusError, mac_init-stuck}
use rtw88_pub.Usb.Tx.{Mbuf}
use rtw88_pub.Usb.Tx.Transmit.{Mbufs, Xmit, transmit, raw_xmit}
use rtw88_pub.Usb.Tx.Transmit.Settled.{IsSettled, transmit-IsSettled}
use rtw88_pub.Usb.Endpoints.{
  EndpointDescriptor, Endpoints, discover_endpoints, endpoint_of, tx_hi, tx_h2c,
}
use rtw88_pub.Usb.Endpoints.Found.{outs, first_in, discover_endpoints-order}
use rtw88_pub.Examples.{softc}
use rtw88_pub.Examples.Loading.{arrives, loader}
use rtw88_pub.Examples.Front.{net, fifo, queues}

-- The bodies of the two packets, as the comments of the source give them.
general_info_bytes : general_info_body ≡ 0x00 ∷ 0x00 ∷ 0x30 ∷ 0x00 ∷ []
unfolding general_info_body
general_info_bytes = refl

phydm_info_bytes : phydm_info_body 2 4 ≡ 0x02 ∷ 0x04 ∷ 0x04 ∷ 0x11 ∷ 0x00 ∷ 0x00 ∷ 0x00 ∷ 0x00 ∷ []
unfolding phydm_info_body
phydm_info_bytes = refl

abbrev ones : UsbDevice (List (ℕ × List ℕ))
ones = record {
  vendor_read = λ a n w. (ok (replicate n 0xff), w);
  vendor_write = λ a buf w. (ok tt, (a, buf) ∷ w);
}

abbrev bytes_of : Result (List ℕ) → List ℕ
bytes_of (ok buf) = buf
bytes_of (err e) = []

ones-IsStuck : IsStuck ones
unfolding has
ones-IsStuck w buf e = subst (λ r. has (le32dec (bytes_of r) 0) 1 ≡ true) e refl

mac_init-stuck_example :
    (e : Errno) × (s : Softc (List (ℕ × List ℕ))) × (mac_init ones arrives true (loader softc)
      ≡ (err e, record (loader softc) { handle = record (loader softc).handle { bus = s } }))
    × IsBusError e
    × IsAsBefore softc s
mac_init-stuck_example = mac_init-stuck ones arrives true (loader softc) ones-IsStuck

-- Packets of one buffer, without room behind them.
abbrev tight : Mbufs
tight = record {
  pullup = λ m. some m;
  trailing_space = λ m. 0;
  get2 = λ n. some 9;
  first_len = λ m. 24;
}

-- A second message of the handshake.
abbrev message2 : Mbuf
message2 = record {
  tag = 1;
  bytes =
      0x08 ∷ 0x01 ∷ replicate 22 0
      ++ 0xaa ∷ 0xaa ∷ 0x03 ∷ 0 ∷ 0 ∷ 0 ∷ 0x88 ∷ 0x8e ∷ 0x01 ∷ 0x03 ∷ 0 ∷ 0x75 ∷ 0x02 ∷ 0x01 ∷ 0x0a
        ∷ 0 ∷ [];
}

abbrev sender : Xmit (List Mbuf)
sender = record { tx = queues; eapol_qos_upgrade = true; stat_eapol_qos_upgrade = 0; freed = [] }

transmit-IsSettled_example :
    IsSettled tight fifo true message2 sender (transmit tight net true message2 sender)
    × IsSettled tight fifo true message2 sender (raw_xmit tight net message2 sender)
transmit-IsSettled_example = transmit-IsSettled tight fifo true message2 sender

-- One IN and three OUT endpoints, and one that interrupts.
abbrev dongle : List EndpointDescriptor
dongle =
    record { attributes = 2; address = 0x84 }
    ∷ record { attributes = 2; address = 0x05 }
    ∷ record { attributes = 3; address = 0x87 }
    ∷ record { attributes = 2; address = 0x06 }
    ∷ record { attributes = 2; address = 0x08 }
    ∷ []

abbrev before : Endpoints
before = record { bulk_in = 9; bulk_out = [] }

discover_endpoints-order_example :
    let (r, s') = discover_endpoints dongle before in
    (s'.bulk_out ≡ take 4 (outs dongle))
    × (s'.bulk_in ≡ first_in dongle)
    × (r ≡ (if length (outs dongle) == 0 then err enxio else ok tt))
    × (endpoint_of s' tx_h2c ≡ endpoint_of s' tx_hi)
    × (endpoint_of s' tx_hi ≡ get_elem? (outs dongle) 0)
discover_endpoints-order_example = discover_endpoints-order dongle before
