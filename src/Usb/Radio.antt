-- ===== src/Usb/Radio.antt =====
-- if_rtw88_usb.c: the radio, how it is set up and tuned to a channel. Delays only wait.
pub mod Rf
pub mod Baseband
pub mod Channel
pub mod Param
