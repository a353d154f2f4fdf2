-- ===== src/Usb/Mac.antt =====
-- if_rtw88_usb.c: the MAC is set up once the firmware runs: the queues and their pages, the queue of
-- the commands, the numbers of the protocol and the receive path.
pub mod Start
pub mod Stuck
use rtw88_pub.Base.{
  ℕ, zero, suc, ◌+◌, ◌-◌, ◌*◌, ◌/◌, ◌%◌, ◌^◌, Bool, true, false, not, M, ◌>>=◌, ◌>>◌, pure, poll,
  ebusy, bit_and, bit_or, not8, not32, has, ◌<<◌, if◌then◌else◌,
}
use rtw88_pub.Usb.Softc.{UsbDevice, Softc}
use rtw88_pub.Usb.Io.{read1, read4, write1, write2, write4, update1, update4, setbits1, clrbits1}
use rtw88_pub.Usb.Radio.Baseband.{replace}

-- The pages of the chip's buffer, of 128 bytes each: those at its end are reserved.
abbrev txff_pg_num : ℕ
txff_pg_num = 65536 / 2 ^ 7

abbrev rsvd_boundary : ℕ
rsvd_boundary = txff_pg_num - (8 + 24 + 8 + 8 + 0 + 4 + 0)

abbrev rsvd_h2cq_addr : ℕ
rsvd_h2cq_addr = txff_pg_num - 0 - 4 - 0 - 8

abbrev pg_pubq_num : ℕ
pg_pubq_num = rsvd_boundary - 16 - 16 - 16 - 0 - 1

abbrev pub reg_auto_llt_v1 : ℕ
reg_auto_llt_v1 = 0x0208

abbrev pub reg_cr : ℕ
reg_cr = 0x0100

-- `BIT_HCI_TXDMA_EN` to `BIT_MACRXEN`.
abbrev mac_trx_enable : ℕ
mac_trx_enable = 0xff

-- The FIFO of each access category: voice and video normal, the others low, management and high
-- priority high.
abbrev txdma_pq_map : ℕ
txdma_pq_map =
    bit_or (bit_or (bit_or (bit_or (bit_or (2 << 4) (2 << 6)) (1 << 8)) (1 << 10)) (3 << 12))
      (3 << 14)

module _ {W : Type 0} (usb : UsbDevice W) where
  unfoldable pub txdma_queue_mapping : M (Softc W) (Unit {0})
  txdma_queue_mapping = do
    write2 usb 0x010c txdma_pq_map
    write1 usb reg_cr 0
    write1 usb reg_cr (bit_and mac_trx_enable 0xff)
    write4 usb 0x1330 1
    setbits1 usb 0x010c 1

  unfoldable pub queue_pages : M (Softc W) (Unit {0})
  queue_pages = do
    write2 usb 0x0230 16
    write2 usb 0x0234 16
    write2 usb 0x0238 16
    write2 usb 0x023c 0
    write2 usb 0x0240 pg_pubq_num
    update4 usb 0x022c (λ val. bit_or val (2 ^ 31))

  unfoldable pub queue_bounds : M (Softc W) (Unit {0})
  queue_bounds = do
    write2 usb 0x0204 rsvd_boundary
    setbits1 usb (0x0420 + 2) (2 ^ 20 / 2 ^ 16)
    write2 usb 0x0424 rsvd_boundary
    write2 usb (0x0204 + 2) rsvd_boundary
    write2 usb 0x0456 rsvd_boundary
    write4 usb 0x011c (16384 - 256 - 1)

  unfoldable pub tx_aggregation : M (Softc W) (Unit {0})
  tx_aggregation = do
    update4 usb reg_auto_llt_v1 (replace 0xf0 (bit_and (3 << 4) 0xf0))
    write1 usb (reg_auto_llt_v1 + 3) 3
    setbits1 usb (0x020c + 1) (2 ^ 1)
    setbits1 usb reg_auto_llt_v1 1

  -- The chip clears the bit once its list of pages is loaded: fifty tries.
  unfoldable pub llt_loaded : M (Softc W) ℕ
  llt_loaded = poll 50 (read4 usb reg_auto_llt_v1) (λ val. not (has val (2 ^ 0))) ebusy

  unfoldable pub priority_queue_cfg : M (Softc W) (Unit {0})
  unfolding queue_pages queue_bounds tx_aggregation llt_loaded
  priority_queue_cfg = do
    queue_pages
    queue_bounds
    tx_aggregation
    val ← llt_loaded
    write1 usb (reg_cr + 3) 0

  abbrev h2cq_addr : ℕ
  h2cq_addr = rsvd_h2cq_addr << 7

  abbrev h2cq_size : ℕ
  h2cq_size = 8 << 7

  unfoldable pub init_h2c : M (Softc W) (Unit {0})
  init_h2c = do
    update4 usb 0x0244 (λ val. bit_or (bit_and val 0xfffc0000) h2cq_addr)
    update4 usb 0x024c (λ val. bit_or (bit_and val 0xfffc0000) h2cq_addr)
    update4 usb 0x0248 (λ val. bit_or (bit_and val 0xfffc0000) (h2cq_addr + h2cq_size))
    update1 usb 0x0254 (λ val. bit_or (bit_and val 0xfc) 0x01)
    update1 usb 0x0254 (λ val. bit_or (bit_and val 0xfb) 0x04)
    update1 usb (0x020c + 1) (λ val. bit_or (bit_and val 0x7f) 0x80)

  abbrev pre_txcnt : ℕ
  pre_txcnt = bit_or 0x1e4 (2 ^ 11)

  abbrev prot_mode : ℕ
  prot_mode = bit_or (bit_or (bit_or 0xff (0x08 << 8)) (0x20 << 16)) (0x20 << 24)

  unfoldable pub init_protocol : M (Softc W) (Unit {0})
  init_protocol = do
    write1 usb 0x0455 0x70
    setbits1 usb 0x045e (2 ^ 2)
    write1 usb 0x04e5 (bit_and pre_txcnt 0xff)
    write1 usb (0x04e5 + 1) (pre_txcnt / 2 ^ 8)
    write4 usb 0x04c8 prot_mode
    write2 usb (0x04cc + 2) (bit_or 0x01 (0x08 << 8))
    write1 usb 0x1448 0x06
    write1 usb (0x1448 + 2) 0x06
    write1 usb 0x144c 0x06
    write1 usb (0x144c + 2) 0x06
    setbits1 usb 0x0480 (2 ^ 5)

  unfoldable pub init_timers : M (Softc W) (Unit {0})
  init_timers = do
    clrbits1 usb 0x05b4 (bit_or (bit_or (2 ^ 4) (2 ^ 5)) (2 ^ 6))
    write2 usb 0x0522 0
    write1 usb 0x051b 0x09
    write1 usb 0x0512 0x19
    write4 usb 0x0514 (bit_or (bit_or (bit_or 0x0a (0x0e << 8)) (0x10 << 16)) (0x10 << 24))
    write2 usb (0x0500 + 2) 0x186
    write2 usb (0x0504 + 2) 0x3bc
    write4 usb 0x0544 (bit_or 0x05 (0x1b << 16))
    write2 usb 0x055e (bit_or 0x30 (0x30 << 8))

  unfoldable pub init_beacon : M (Softc W) (Unit {0})
  init_beacon = do
    setbits1 usb 0x0550 (2 ^ 3)
    write4 usb 0x0540 (bit_or 0x04 (0x064 << 8))
    write1 usb 0x0558 0x04
    write1 usb 0x0559 0x02
    clrbits1 usb (0x0520 + 1) (2 ^ 12 / 2 ^ 8)

  unfoldable pub init_wmac : M (Softc W) (Unit {0})
  init_wmac = do
    write4 usb 0x06a0 0x0fffffff
    write2 usb 0x06a4 0xffff
    write4 usb 0x0608 0xe400220e
    write1 usb 0x060c 0x18
    write1 usb (0x0604 + 2) 0x30
    write1 usb (0x0604 + 1) 0x30
    write1 usb 0x0639 0x40
    write1 usb 0x0640 0x40
    write2 usb 0x0440 0x15f
    setbits1 usb 0x066c (2 ^ 1)
    setbits1 usb 0x0718 (2 ^ 6)
    write4 usb (0x07d0 + 8) 0xb0810041
    write1 usb (0x07d0 + 4) 0x98

  unfoldable pub mac_init_8821c : M (Softc W) (Unit {0})
  unfolding init_protocol init_timers init_beacon init_wmac
  mac_init_8821c = do init_protocol; init_timers; init_beacon; init_wmac

  unfoldable pub drv_info_cfg : M (Softc W) (Unit {0})
  drv_info_cfg = do
    write1 usb 0x060f 4
    update1 usb (0x0114 + 1) (λ val. bit_or (bit_and val 0xf0) 0xf)
    update4 usb 0x0608 (λ val. bit_or val (2 ^ 28))
    update4 usb (0x07d0 + 4) (λ val. bit_and val (not32 (bit_or (2 ^ 8) (2 ^ 9))))

  unfoldable pub init_burst : M (Softc W) (Unit {0})
  init_burst = do
    write1 usb 0x0290 (bit_or (bit_or 0x0c (2 ^ 1)) (1 << 4))
    setbits1 usb (0x020c + 1) (2 ^ 9 / 2 ^ 8)

  -- The steps of `rtw88_mac_init` whose errors end it.
  unfoldable pub set_up_mac : M (Softc W) (Unit {0})
  unfolding txdma_queue_mapping priority_queue_cfg init_h2c mac_init_8821c drv_info_cfg init_burst
  set_up_mac = do
    txdma_queue_mapping
    priority_queue_cfg
    init_h2c
    mac_init_8821c
    drv_info_cfg
    init_burst
