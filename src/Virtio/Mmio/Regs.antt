-- ===== src/Virtio/Mmio/Regs.antt =====
-- The register map of include/linux/virtio_mmio.h and the header of include/kvm/virtio-mmio.h.
use virtio_disk.Prelude.{ℕ, ◌/◌, Option, List, [], ◌∷◌, get_elem?, ◌==◌, if◌then◌else◌}

-- The fields of struct virtio_mmio_hdr that the program writes. The others keep the zeros that
-- calloc and virtio_mmio_init leave in them.
pub record MmioHdr : Type 0 where
  pub magic : ℕ
  pub version : ℕ
  pub device_id : ℕ
  pub vendor_id : ℕ
  pub host_features_sel : ℕ
  pub guest_features_sel : ℕ
  pub guest_page_size : ℕ
  pub queue_sel : ℕ
  pub queue_num_max : ℕ
  pub queue_num : ℕ
  pub interrupt_state : ℕ
  pub status : ℕ

-- The packed structure as words, in the order of its declaration.
abbrev pub hdr_words : MmioHdr → List ℕ
hdr_words h =
    h.magic ∷ h.version ∷ h.device_id ∷ h.vendor_id ∷ 0 ∷ h.host_features_sel ∷ 0 ∷ 0 ∷ 0
    ∷ h.guest_features_sel ∷ h.guest_page_size ∷ 0 ∷ h.queue_sel ∷ h.queue_num_max ∷ h.queue_num ∷ 0
    ∷ 0 ∷ 0 ∷ 0 ∷ 0 ∷ 0 ∷ 0 ∷ 0 ∷ 0 ∷ h.interrupt_state ∷ 0 ∷ 0 ∷ 0 ∷ h.status ∷ 0 ∷ 0 ∷ 0 ∷ 0 ∷ 0
    ∷ 0 ∷ 0 ∷ 0 ∷ 0 ∷ 0 ∷ 0 ∷ 0 ∷ 0 ∷ []

-- `*(u32 *)((void *)&hdr + addr)`
abbrev pub raw_word : MmioHdr → ℕ → Option ℕ
raw_word h addr = get_elem? (hdr_words h) (addr / 4)

pub data Reg : Type 0 where
  magic_value version device_id vendor_id device_features device_features_sel : Reg
  driver_features driver_features_sel guest_page_size queue_sel queue_num_max : Reg
  queue_num queue_align queue_pfn queue_ready queue_notify interrupt_status : Reg
  interrupt_ack status queue_desc_low queue_desc_high queue_avail_low queue_avail_high : Reg
  queue_used_low queue_used_high config_generation other : Reg

-- The case labels of the four `switch (addr)`.
unfoldable pub decode : ℕ → Reg
decode addr =
    if addr == 0x000
    then magic_value
    else if addr == 0x004
    then version
    else if addr == 0x008
    then device_id
    else if addr == 0x00c
    then vendor_id
    else if addr == 0x010
    then device_features
    else if addr == 0x014
    then device_features_sel
    else if addr == 0x020
    then driver_features
    else if addr == 0x024
    then driver_features_sel
    else if addr == 0x028
    then guest_page_size
    else if addr == 0x030
    then queue_sel
    else if addr == 0x034
    then queue_num_max
    else if addr == 0x038
    then queue_num
    else if addr == 0x03c
    then queue_align
    else if addr == 0x040
    then queue_pfn
    else if addr == 0x044
    then queue_ready
    else if addr == 0x050
    then queue_notify
    else if addr == 0x060
    then interrupt_status
    else if addr == 0x064
    then interrupt_ack
    else if addr == 0x070
    then status
    else if addr == 0x080
    then queue_desc_low
    else if addr == 0x084
    then queue_desc_high
    else if addr == 0x090
    then queue_avail_low
    else if addr == 0x094
    then queue_avail_high
    else if addr == 0x0a0
    then queue_used_low
    else if addr == 0x0a4
    then queue_used_high
    else if addr == 0x0fc
    then config_generation
    else other
