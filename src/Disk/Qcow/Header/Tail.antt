-- ===== src/Disk/Qcow/Header/Tail.antt =====
-- The end of a disk of the format 1: qcow1_read_header, qcow1_probe and qcow1_read_cluster.
use native.Mathlib.Nat.{one-le-pow, le-div_iff_mul-le, pow-suc, mul_assoc, mul_comm}
use mathlib.Core.Path.{subst}
use virtio_disk.Prelude.{
  ℕ, zero, suc, true, lt→ltb, le→leb, ◌+◌, ◌*◌, ◌/◌, ◌%◌, ◌^◌, ◌-◌, ◌≤◌, ◌<◌, ◌≡◌, refl, sym, ap,
  ◌∙◌, Option, none, some, List, leb, arith, Option-cases, inl, inr,
}
use virtio_disk.Disk.Qcow.{
  Qcow, QcowHeader, File, qcow1_version, shift_int, shift_down, get_l1_index,
}
use virtio_disk.Disk.Qcow.Cache.{RbTree}
use virtio_disk.Disk.Qcow.Header.{
  read_header, qcow1_read_header, qcow_read_l1_table, qcow1_probe, qcow1_header_size, qcow1_header,
  field, blank,
}
use virtio_disk.Disk.Qcow.Read.{read_cluster, qcow1_read_cluster}

-- What a level-2 table covers.
abbrev pub span : QcowHeader → ℕ
span h = 2 ^ h.l2_bits * 2 ^ h.cluster_bits

record IsSized (h : QcowHeader) : Type 0 where
  l2 : h.l2_bits < 31
  cluster : h.cluster_bits < 31
  l1 : h.l1_size ≡ h.size / span h % 2 ^ 32

pow-add : (a b : ℕ) → 2 ^ (b + a) ≡ 2 ^ a * 2 ^ b
pow-add a zero = omega (arith, ap (λ (k : ℕ). 2 ^ k) (let e : zero + a ≡ a = omega arith in e))
pow-add a (suc b) =
    let e : suc b + a ≡ suc (b + a) = omega arith in
    rw e (
      pow-suc 2 (b + a)
      ∙ ap (λ (t : ℕ). t * 2) (pow-add a b)
      ∙ mul_assoc (2 ^ a) (2 ^ b) 2
      ∙ ap (λ (t : ℕ). 2 ^ a * t) (sym (pow-suc 2 b)))

-- The index of an offset in the level-1 table, where the numbers of bits are small.
l1_index-IsSized :
    (q : Qcow) (offset : ℕ)
    → IsSized q.header
    → get_l1_index q offset ≡ some (offset / span q.header)
unfolding get_l1_index shift_down
l1_index-IsSized q offset sized =
    let l2 = sized.l2 in
    let cluster = sized.cluster in
    let small : q.header.l2_bits + q.header.cluster_bits < 64 = omega arith in
    let e : 2 ^ (q.header.l2_bits + q.header.cluster_bits) ≡ span q.header =
      pow-add q.header.cluster_bits q.header.l2_bits
      ∙ mul_comm (2 ^ q.header.cluster_bits) (2 ^ q.header.l2_bits) in
    rw (lt→ltb (q.header.l2_bits + q.header.cluster_bits) 64 small)
      (ap (λ (t : ℕ). some (offset / t)) e)

span-pos : (h : QcowHeader) → 0 < span h
span-pos h =
    let a = one-le-pow h.l2_bits 2 (omega arith) in
    let b = one-le-pow h.cluster_bits 2 (omega arith) in grind arith

qcow1_header-IsSized :
    (size l1_table_offset cluster_bits l2_bits : ℕ) {h : QcowHeader}
    → qcow1_header size l1_table_offset cluster_bits l2_bits ≡ some h
    → IsSized h
unfolding qcow1_header shift_int
qcow1_header-IsSized size l1_table_offset cluster_bits l2_bits made = ground arith

module _ {S : Type 0} (file : File S) where
  read_header-IsSized :
      (s : S) (junk : List ℕ) {s' : S} {h : QcowHeader}
      → qcow1_read_header file s junk ≡ some (s', some h)
      → IsSized h
  unfolding qcow1_read_header
  read_header-IsSized s junk {s'} {h} ran =
      elim (Option-cases (read_header file s junk qcow1_header_size)) [
        | inl e ↦ cc (rw (e, qcow1_read_header) at ran)
        | inr ((s1, none), e) ↦ absurd (ground arith)
        | inr ((s1, some b), e) ↦
            elim (Option-cases
              (qcow1_header (field b 24 8) (field b 40 8) (field b 32 1) (field b 33 1))) [
                | inl m ↦ cc (rw (e, m, qcow1_read_header) at ran)
                | inr (h', m) ↦
                    let same : h' ≡ h = cc (rw (e, m, qcow1_read_header) at ran) in
                    subst IsSized same (
                      qcow1_header-IsSized (field b 24 8) (field b 40 8) (field b 32 1)
                        (field b 33 1) m)
              ]
      ]

  l1_table-size :
      (s : S) (q0 : Qcow) {s' : S} {q : Qcow}
      → qcow_read_l1_table file s q0 ≡ some (s', some q)
      → (q.table_size ≡ q0.header.l1_size) × (q.header ≡ q0.header)
  unfolding qcow_read_l1_table
  l1_table-size s q0 ran = ground arith

  probe-IsSized :
      (s : S) (junk : List ℕ) {s' : S} {q : Qcow}
      → qcow1_probe file s junk ≡ some (s', some q)
      → (q.table_size ≡ q.header.l1_size) × IsSized q.header
  unfolding qcow1_probe
  probe-IsSized s junk {s'} {q} ran = elim (Option-cases (qcow1_read_header file s junk)) [
    | inl e ↦ cc (rw (e, qcow1_probe) at ran)
    | inr ((s1, none), e) ↦ absurd (ground arith)
    | inr ((s1, some h), e) ↦ elim (Option-cases (shift_int h.cluster_bits)) [
      | inl m ↦ cc (rw (e, qcow1_probe, m) at ran)
      | inr (size, m) ↦
          let q0 : Qcow = record (blank file h) {
            version = qcow1_version;
            cluster_size = size;
            cluster_offset_mask = 2 ^ (63 - h.cluster_bits) - 1;
          } in
          let (n, same) = l1_table-size s1 q0 (rw (e, qcow1_probe, m) at ran) in
          (
            n ∙ ap (λ h. h.l1_size) (sym same),
            subst IsSized (sym same) (read_header-IsSized s junk e),
          )
    ]
  ]

  -- An image of the format 1 that qcow1_probe took, whose whole level-2 tables are fewer than 2 ^ 32:
  -- qcow1_read_cluster fails at every offset behind what they cover, with nothing read and nothing
  -- changed. So the end of a disk whose size is no multiple of what a table covers cannot be read.
  pub qcow1_read_cluster-qcow1_probe :
      (rb : RbTree) (inflate : List ℕ → ℕ → Option (List ℕ)) (s t : S) (junk : List ℕ) {s' : S}
      {q : Qcow} (offset n : ℕ)
      → qcow1_probe file s junk ≡ some (s', some q)
      → q.header.size / span q.header < 2 ^ 32
      → q.header.size / span q.header * span q.header ≤ offset
      → qcow1_read_cluster rb file inflate t q offset n ≡ some (t, q, none)
  unfolding qcow1_read_cluster read_cluster
  qcow1_read_cluster-qcow1_probe rb inflate s t junk {s'} {q} offset n ran word behind =
      let (entries, sized) = probe-IsSized s junk ran in
      let l1 = sized.l1 in
      let reach : q.header.size / span q.header ≤ offset / span q.header =
        (le-div_iff_mul-le (span-pos q.header)).1 behind in
      let past : leb q.table_size (offset / span q.header) ≡ true =
        le→leb q.table_size (offset / span q.header) (omega arith) in
      rw (qcow1_read_cluster, read_cluster, l1_index-IsSized q offset sized, past) refl
