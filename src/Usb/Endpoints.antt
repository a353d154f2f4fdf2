-- ===== src/Usb/Endpoints.antt =====
-- if_rtw88_usb.c: the endpoints of the adapter are found and given to the pipes:
-- rtw88_discover_endpoints, and the endpoints in rtw88_xfers_setup. The descriptors of the
-- configuration, which the USB stack finds, are a list.
pub mod Found
use rtw88_pub.Base.{
  ℕ, zero, suc, ◌+◌, ◌*◌, Bool, true, false, List, [], ◌∷◌, ◌++◌, Option, none, some, M, ◌>>=◌,
  ◌>>◌, pure, throw, get, put, modify, enxio, bit_and, ltb, ◌==◌, if◌then◌else◌, length, get_elem?,
}

-- `bmAttributes` and `bEndpointAddress`.
pub record EndpointDescriptor : Type 0 where
  pub attributes : ℕ
  pub address : ℕ

-- `sc_ep_bulk_in`, and the first `sc_n_bulk_out` entries of `sc_ep_bulk_out`.
pub record Endpoints : Type 0 where
  pub bulk_in : ℕ
  pub bulk_out : List ℕ

unfoldable pub is_bulk : EndpointDescriptor → Bool
is_bulk ed = bit_and ed.attributes 0x03 == 0x02

unfoldable pub is_in : EndpointDescriptor → Bool
is_in ed = bit_and ed.address 0x80 == 0x80

unfoldable pub note : EndpointDescriptor → Endpoints → Endpoints
unfolding is_bulk is_in
note ed s =
    if is_bulk ed
    then (if is_in ed
        then (if s.bulk_in == 0 then record s { bulk_in = bit_and ed.address 0x0f } else s)
        else (if ltb (length s.bulk_out) 4
            then record s { bulk_out = s.bulk_out ++ ed.address ∷ [] }
            else s))
    else s

unfoldable pub note_all : List EndpointDescriptor → Endpoints → Endpoints
unfolding note
note_all [] s = s
note_all (ed ∷ eds) s = note_all eds (note ed s)

unfoldable pub discover_endpoints : List EndpointDescriptor → M Endpoints (Unit {0})
unfolding note_all
discover_endpoints eds = do
  put (record { bulk_in = 0; bulk_out = [] })
  modify (note_all eds)
  s ← get
  if ltb (length s.bulk_out) 1 then throw enxio else pure tt

-- The pipes in the order of their slots. Without an endpoint of its own a pipe keeps UE_ADDR_ANY.
pub data Pipe : Type 0 where
  rx tx_hi tx_normal tx_lo tx_h2c : Pipe

unfoldable pub endpoint_of : Endpoints → Pipe → Option ℕ
endpoint_of s rx = none
endpoint_of s tx_hi = get_elem? s.bulk_out 0
endpoint_of s tx_normal = get_elem? s.bulk_out 1
endpoint_of s tx_lo = get_elem? s.bulk_out 2
endpoint_of s tx_h2c = get_elem? s.bulk_out 0
