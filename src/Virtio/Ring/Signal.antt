-- ===== src/Virtio/Ring/Signal.antt =====
-- When the device interrupts the guest: virtio_queue__should_signal.
use virtio_disk.Prelude.{
  ℕ, ◌+◌, ◌-◌, ◌%◌, ◌^◌, ◌≤◌, ◌<◌, ◌≡◌, ◌⊎◌, inl, inr, Bool, true, false, some, arith, ltb, ◌==◌,
  Bool-cases, dec_lt, lt→ltb, le→ltb,
}
use virtio_disk.Prelude.Bits.{bit, bit-lt, test-flag}
use virtio_disk.Virtio.Ring.{VirtQueue, Vring, should_signal}

-- Counting from the index that was signalled last, the index at which the guest wants to be
-- interrupted lies before the current one.
abbrev pub Crossed : ℕ → ℕ → ℕ → Type 0
Crossed event new old = (event + 2 ^ 16 - old) % 2 ^ 16 < (new + 2 ^ 16 - old) % 2 ^ 16

-- What the virtio specification demands of vring_need_event, on words of 16 bits.
abbrev pub Documented : (ℕ → ℕ → ℕ → Bool) → Type 0
Documented need_event =
    (event new old : ℕ)
    → event < 2 ^ 16
    → new < 2 ^ 16
    → old < 2 ^ 16
    → need_event event new old
      ≡ ltb ((new + 2 ^ 16 + 2 ^ 16 - event - 1) % 2 ^ 16) ((new + 2 ^ 16 - old) % 2 ^ 16)

module _ (event new old : ℕ) (he : event < 2 ^ 16) (hn : new < 2 ^ 16) (ho : old < 2 ^ 16) where
  need→Crossed :
      (new + 2 ^ 16 + 2 ^ 16 - event - 1) % 2 ^ 16 < (new + 2 ^ 16 - old) % 2 ^ 16
      → Crossed event new old
  need→Crossed h = omega arith

  Crossed→need :
      Crossed event new old
      → (new + 2 ^ 16 + 2 ^ 16 - event - 1) % 2 ^ 16 < (new + 2 ^ 16 - old) % 2 ^ 16
  Crossed→need h = omega arith

  not-Crossed→le :
      ¬ Crossed event new old
      → (new + 2 ^ 16 - old) % 2 ^ 16 ≤ (new + 2 ^ 16 + 2 ^ 16 - event - 1) % 2 ^ 16
  not-Crossed→le h = omega arith

  Crossed-dec : Dec (Crossed event new old)
  Crossed-dec = dec_lt _ _

-- the queue once the device has signalled its used index
abbrev pub signalled : VirtQueue → Vring → VirtQueue
signalled q v = record q { last_used_signalled = v.used_idx }

-- If event indices are in use, the guest is interrupted exactly when the used index has crossed
-- the guest's event index since the last interrupt, and only then is the used index recorded as
-- signalled; if they are not, it is interrupted exactly unless it asked for no interrupts, and
-- nothing is recorded. vring_need_event is assumed to be what the specification says.
pub should_signal-Crossed :
    (need_event : ℕ → ℕ → ℕ → Bool) (q : VirtQueue) (v : Vring)
    → Documented need_event
    → q.vring ≡ some v
    → v.used_event < 2 ^ 16
    → v.used_idx < 2 ^ 16
    → q.last_used_signalled < 2 ^ 16
    → ((q.use_event_idx ≡ false)
        × (should_signal need_event q ≡ some (bit 0 v.avail_flags == 0, q)))
      ⊎ ((q.use_event_idx ≡ true)
          × Crossed v.used_event v.used_idx q.last_used_signalled
          × (should_signal need_event q ≡ some (true, signalled q v)))
      ⊎ ((q.use_event_idx ≡ true)
          × (¬ Crossed v.used_event v.used_idx q.last_used_signalled)
          × (should_signal need_event q ≡ some (false, q)))
unfolding should_signal
should_signal-Crossed need_event q v doc e he hn ho =
    let same = doc v.used_event v.used_idx q.last_used_signalled he hn ho in
    elim (Bool-cases q.use_event_idx) [
      | inl on ↦ elim (Crossed-dec v.used_event v.used_idx q.last_used_signalled he hn ho) [
        | yes h ↦
            inr (inl (on, h, ground (arith, same, lt→ltb _ _ (Crossed→need _ _ _ he hn ho h))))
        | no h ↦
            inr (inr (on, h, ground (arith, same, le→ltb _ _ (not-Crossed→le _ _ _ he hn ho h))))
      ]
      | inr off ↦ inl (off, ground (arith, test-flag 0 v.avail_flags, bit-lt 0 v.avail_flags))
    ]
