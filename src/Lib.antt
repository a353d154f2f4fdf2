-- ===== src/Lib.antt =====
-- rtw88: a FreeBSD driver for the RTL8821C wireless chips, as a model with proofs.
--
-- The program. A front-end attaches to the chip (sys/dev/rtw88/if_rtw88_usb.c for USB,
-- sys/dev/rtw88/if_rtw88_pci.c for PCI), moves register accesses over its bus, loads the firmware
-- and the tables of the radio, and joins the chip to net80211. It fills a handle, `struct
-- rtw88_dev` of sys/dev/rtw88/rtw88.h, with a table of bus operations, and the subsystems beside it
-- (EFUSE, power save, beamforming, LED, regulatory domain, coexistence) use nothing of the bus but
-- that table. The subsystems keep their state in the handle. What only the USB front-end owns is in
-- its softc: the claim of endpoint 0, the four-box mailbox to the firmware, the dynamic initial
-- gain, the keepalive, the transmit queues, the receive path.
--
-- The model. Code that can fail over a state is a function of the monad `M` (Base/State.antt): from
-- a state to a result or an errno value, and the new state, so a failure keeps what was changed
-- before it. The bus below the handle (type `B`) and the USB stack with the adapter behind it (type
-- `W`) are types of their own, and the operations on them parameters: theorems hold for whatever
-- they answer, or name what they ask of them (`Register32`, a plain 32-bit register). Words of w
-- bits are natural numbers with the wrap-around written out. A read past the end of a C array is
-- the result `undefined`, which no errno value of the driver is.
--
-- Which file is which part:
--  * Base: helpers. Base/State (the monad), Base/Hoare, Base/Frame, Base/Failure, Base/Success and
--    Base/Conduct (triples, what a block preserves, with which errno values it fails, that it does
--    not, how it ends),
--    Base/Poll (polling loops), Base/Words and Base/Bits (words and `&`, `|`, `~`), Base/Lists,
--    Base/Tests.
--  * Device: sys/dev/rtw88/rtw88.h, the handle and its wrappers `rtw_read8` ... `rtw_h2c`,
--    `rtw_rmw32`; the counters of sys/dev/rtw88/rtw88_debug.c.
--  * Efuse: sys/dev/rtw88/rtw88_efuse.c, `rtw88_efuse_logical_walk` (Efuse.antt) and the register
--    protocol with `rtw88_efuse_read` (Efuse/Read). Efuse/RoundTrip writes the block encoding down.
--  * Ps, Bf, Led, Regd: sys/dev/rtw88/rtw88_ps.c, rtw88_bf.c, rtw88_led.c, rtw88_regd.c, one
--    definition per function, under its name without the prefix rtw88_.
--  * Coex: sys/dev/rtw88/rtw88_coex.c, `rtw88_coex_*` and the indirect registers of the LTE
--    arbiter.
--  * Usb: sys/dev/rtw88/if_rtw88_usb.c. Usb/Softc (the fields), Usb/Io (`rtw88_usb_read_region` to
--    `rtw88_usb_clrbits1`, `rtw88_check_hw_ready`), Usb/Claim (the threads at `rtw88_usb_io_enter`
--    as a step relation), Usb/Mailbox (`rtw88_h2c_mailbox` and the commands), Usb/Dig
--    (`rtw88_dig_*`), Usb/Phy (the conditional tables and their blob, `rtw88_phy_*`; Usb/Phy/Agc and
--    Usb/Phy/MacTable are sys/dev/rtw88/rtw88_8821c_agc_btg_type2.h and rtw88_8821c_mac_tbl.h),
--    Usb/Radio (`rtw88_phy_set_param` in Usb/Radio/Param, `rtw88_phy_set_channel` in
--    Usb/Radio/Channel with its steps in Usb/Radio/Rf and Usb/Radio/Baseband), Usb/Cam
--    (`rtw88_cam_write_entry`, `rtw88_cam_read_dword`, `rtw88_cam_clear_entry`), Usb/Keys
--    (`rtw88_vap_key_set`, `rtw88_vap_key_delete`, `rtw88_cam_task`), Usb/Power
--    (`rtw88_pwr_seq_parser`) with Usb/Power/Tables (sys/dev/rtw88/rtw88_8821c_power.h) and
--    Usb/Power/Mac (`rtw88_mac_*`), Usb/Hci (`rtw88_usb_hci_ops`), Usb/Keepalive (`rtw88_fwka_*`),
--    Usb/Tx (`rtw88_tx_enqueue_locked`, `rtw88_eapol_key_info`, and in Usb/Tx/Release what
--    `rtw88_cam_task` does once the pairwise key is installed; `rtw88_bulk_tx_drain_q` in
--    Usb/Tx/Drain, the callbacks of the four bulk OUT pipes in Usb/Tx/Callback), Usb/Rx (`rtw88_bulk_rx_cb` in Usb/Rx/Bulk, `rtw88_rx_c2h_dispatch` in
--    Usb/Rx/C2h, `rtw88_query_phy_status_8821c` in Usb/Rx/Status, `rtw88_rx_one` and
--    `rtw88_rx_strip_hw_ccmp` in Usb/Rx/Frame), Usb/Firmware (`rtw88_fw_*`; packets and
--    `rtw88_bulk_tx_sync` in Usb/Firmware/Packet, `rtw88_download_firmware_segment` in
--    Usb/Firmware/Segment, `rtw88_download_firmware` in Usb/Firmware/Download).
--  * Usb/Mac: sys/dev/rtw88/if_rtw88_usb.c, the steps of `rtw88_mac_init` that can fail; in
--    Usb/Mac/Start `rtw88_h2c_packet`, `rtw88_phy_calibration` and `rtw88_mac_init` as a whole.
--    Usb/Tx/Transmit: `rtw88_transmit` and `rtw88_raw_xmit`. Usb/Endpoints:
--    `rtw88_discover_endpoints` and the endpoints in `rtw88_xfers_setup`.
--  * Pci: sys/dev/rtw88/if_rtw88_pci.c, `rtw88_pci_probe`, `rtw88_pci_attach` and
--    `rtw88_pci_detach`, with what the kernel has handed out as a record, and `rtw88_pci_hci_ops` in
--    Pci/Hci.
--  * Examples: concrete buses, adapters and packet queues, and the theorems applied to them.
--
-- Bounds. The EFUSE walk has as many rounds as there are readable bytes, and one more: each round
-- reads a byte at least. The loop over the entries of a blob recurses on the count that stands in
-- it, the replay of the radio table on the length of the blob: each of its rounds drops bytes or is
-- the last. The release of the held frames has a round for each and one more. The receive loop has
-- a round per byte of the transfer and one more: each packet takes its descriptor at least; the
-- chunks of a segment a round per byte. Polling loops have the counts of the source. The loops over
-- tables, rows and words are structural.
--
-- Not modelled: the upload of the reserved pages, the hooks of net80211 besides the transmit ones,
-- with what a loss of the link resets, and the attach of the USB front-end, which later work can
-- add beside these parts; the character device, the
-- sysctls, the tracing and the log, which only print; the register numbers, which stand where they
-- are used; the generated data of the firmware. Kernel services (USB
-- requests and transfers, firmware(9), mbufq(9), led(9), callouts, clocks, net80211's header sizes
-- and encryption) are parameters. A task is taken as one step of the driver: the mutex that a
-- sleeping request gives up is modelled only for the claim of endpoint 0, for the key
-- operations and for the callbacks of the bulk pipes.
pub mod Base
pub mod Device
pub mod Bf
pub mod Coex
pub mod Efuse
pub mod Examples
pub mod Led
pub mod Pci
pub mod Ps
pub mod Regd
pub mod Usb
