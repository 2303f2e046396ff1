-- ===== src/Virtio/Ops/Status.antt =====
-- The device status as a state machine: virtio_notify_status.
use virtio_disk.Prelude.{
  ℕ, ◌<◌, ◌≡◌, refl, ap, ◌∙◌, Bool, true, false, not, ◌&&◌, Option, some, List, [], bit_and, bit_or,
  arith, ◌==◌, if◌then◌else◌, ◌>>=◌,
}
use virtio_disk.Prelude.Bits.{bit, bit-lt, bit-bit_and, bit-bit_or, test, test-flag}
use virtio_disk.Virtio.Guest.{Event}
use virtio_disk.Virtio.Device.{VirtioDevice}
use virtio_disk.Virtio.Ops.{
  VirtioOps, merged, stops, started_status, started_ext, swabs, next_status, ext_status,
  notify_status, not32, status_start, status_stop, status_swab, config_s_mask,
}

-- What the status says besides the driver's own bits.
pub record Phase : Type 0 where
  pub started : Bool
  pub swabbed : Bool

abbrev pub has : ℕ → ℕ → Bool
has k a = bit k a == 1

abbrev pub phase : ℕ → Phase
phase status = record { started = has 8 status; swabbed = has 10 status }

-- A device starts when the driver says that it is ready, and stops when the driver writes zero.
-- The first zero also swaps the configuration.
abbrev pub advance : Phase → ℕ → Phase
advance p status =
    if status == 0
    then record { started = false; swabbed = true }
    else if has 2 status
    then record p { started = true }
    else p

merged-start : (old s : ℕ) → s < 256 → bit 8 (merged old s) ≡ bit 8 old
unfolding bit
merged-start old s h = omega (
  arith,
  bit-bit_or 8 (bit_and old (not32 config_s_mask)) s,
  bit-bit_and 8 old (not32 config_s_mask),
  bit-lt 8 old,
)

merged-swab : (old s : ℕ) → s < 256 → bit 10 (merged old s) ≡ bit 10 old
unfolding bit
merged-swab old s h = omega (
  arith,
  bit-bit_or 10 (bit_and old (not32 config_s_mask)) s,
  bit-bit_and 10 old (not32 config_s_mask),
  bit-lt 10 old,
)

set_stop : (m : ℕ) → bit 9 (bit_or m status_stop) ≡ 1
unfolding bit
set_stop m = omega (arith, bit-bit_or 9 m status_stop, bit-lt 9 m)

module _ (m : ℕ) where
  set_start : bit 8 (bit_or m status_start) ≡ 1
  unfolding bit
  set_start = omega (arith, bit-bit_or 8 m status_start, bit-lt 8 m)

  clear_start : bit 8 (bit_and m (not32 status_start)) ≡ 0
  unfolding bit
  clear_start = omega (arith, bit-bit_and 8 m (not32 status_start))

  keep_start : bit 8 (bit_or m status_swab) ≡ bit 8 m
  unfolding bit
  keep_start = omega (arith, bit-bit_or 8 m status_swab, bit-lt 8 m)

  set_start_swab : bit 10 (bit_or m status_start) ≡ bit 10 m
  unfolding bit
  set_start_swab = omega (arith, bit-bit_or 10 m status_start, bit-lt 10 m)

  clear_start_swab : bit 10 (bit_and m (not32 status_start)) ≡ bit 10 m
  unfolding bit
  clear_start_swab = omega (arith, bit-bit_and 10 m (not32 status_start), bit-lt 10 m)

  set_swab : bit 10 (bit_or m status_swab) ≡ 1
  unfolding bit
  set_swab = omega (arith, bit-bit_or 10 m status_swab, bit-lt 10 m)

ready_of_zero : (s : ℕ) → s ≡ 0 → bit 2 s ≡ 0
unfolding bit
ready_of_zero s e = omega arith

swab-keeps : (b : Bool) (x : ℕ) → bit 8 (if b then bit_or x status_swab else x) ≡ bit 8 x
swab-keeps true x = keep_start x
swab-keeps false x = refl

swab-once :
    (z : Bool) (x : ℕ)
    → has 10 (if z && not (test x status_swab) then bit_or x status_swab else x)
      ≡ (if z then true else has 10 x)
swab-once z x = ground (arith, test-flag 10 x, set_swab x)

module _ (old s : ℕ) (h : s < 256) where
  started_status-start :
      has 8 (started_status old s) ≡ (if s == 0 then false else if has 2 s then true else has 8 old)
  started_status-start = ground (
    arith,
    ready_of_zero s,
    test-flag 2 s,
    test-flag 8 (merged old s),
    merged-start old s h,
    set_start (merged old s),
    clear_start (merged old s),
  )

  started_status-swab : bit 10 (started_status old s) ≡ bit 10 old
  started_status-swab =
      ground
        (arith, merged-swab old s h, set_start_swab (merged old s), clear_start_swab (merged old s))

  next_status-start :
      has 8 (next_status old s) ≡ (if s == 0 then false else if has 2 s then true else has 8 old)
  unfolding next_status
  next_status-start =
      ap (λ k. k == 1) (swab-keeps (swabs old s) (started_status old s)) ∙ started_status-start

  next_status-swab : has 10 (next_status old s) ≡ (if s == 0 then true else has 10 old)
  unfolding next_status
  next_status-swab =
      swab-once (s == 0) (started_status old s)
      ∙ ap (λ k. if s == 0 then true else (k == 1)) started_status-swab

  -- Whether the device stops, by the bits.
  stops_lem : stops old s ≡ ((s == 0) && has 8 old)
  stops_lem =
      ground
        (arith, ready_of_zero s, test-flag 2 s, test-flag 8 (merged old s), merged-start old s h)

  stop_hint : stops old s ≡ true → test (started_ext old s) status_stop ≡ true
  stop_hint e = ground (arith, test-flag 9 (bit_or s status_stop), set_stop s)

  resets_lem : (stops old s && test (started_ext old s) status_stop) ≡ ((s == 0) && has 8 old)
  resets_lem = ground (arith, stops_lem, stop_hint)

-- virtio_notify_status of a status of 8 bits: a device starts when the driver is ready, stops when
-- the driver writes zero, and is swapped from the first zero on (`advance`). The virtqueues are
-- reset exactly when the driver writes zero to a started device, before the device hears of the
-- new status.
pub notify_status-advance :
    {D : Type 0} (ops : VirtioOps D) (reset : D → Option (D × List Event)) (vdev : VirtioDevice)
    (dev : D) (status : ℕ)
    → status < 256
    → let vdev' = record vdev { status = next_status vdev.status status } in
      (phase vdev'.status ≡ advance (phase vdev.status) status)
      × (notify_status ops reset vdev dev status ≡ (
          (if (status == 0) && (phase vdev.status).started then reset dev else some (dev, []))
          >>= λ r. some (vdev', ops.notify_status vdev' r.0 (ext_status vdev.status status), r.1)))
unfolding notify_status
notify_status-advance ops reset vdev dev status h = (
  ground (arith, next_status-start vdev.status status h, next_status-swab vdev.status status h),
  rw (resets_lem vdev.status status h),
)
