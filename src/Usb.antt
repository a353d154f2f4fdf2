-- ===== src/Usb.antt =====
-- sys/dev/rtw88/if_rtw88_usb.c: the USB front-end, by its parts.
pub mod Softc
pub mod Rx
pub mod Radio
pub mod Cam
pub mod Io
pub mod Mailbox
pub mod Dig
pub mod Phy
pub mod Power
pub mod Claim
pub mod Keepalive
pub mod Tx
pub mod Keys
pub mod Hci
pub mod Firmware
pub mod Mac
pub mod Endpoints
