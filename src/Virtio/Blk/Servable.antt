-- ===== src/Virtio/Blk/Servable.antt =====
-- The requests that the block device can serve.
use virtio_disk.Prelude.{ℕ, length, ◌+◌, ◌≤◌, ◌<◌, ◌≡◌, ◌⊎◌, List, [], ◌∷◌, ◌++◌, map}
use virtio_disk.Virtio.Guest.{Guest}
use virtio_disk.Virtio.Ring.{Desc, Vring}
use virtio_disk.Virtio.Chain.{buffer}
use virtio_disk.Virtio.Chain.Request.{Request, direct, indirect, buffers}
use virtio_disk.Virtio.Blk.{Env, blk_s_ok, blk_t_in, blk_t_out, blk_t_flush, blk_t_get_id}
use virtio_disk.Virtio.Blk.Serve.{AllMapped}

-- A request that the device can serve: at most 256 descriptors, a header first and a status byte
-- last, each with a buffer that can be mapped, of a type that the device knows. The status byte is at
-- `place`.
pub record IsServable (env : Env) (v : Vring) (h place : ℕ) : Type 0 where
  pub in_reqs : h < 256
  pub own : Desc
  pub first : Desc
  pub inner : List Desc
  pub final : Desc
  pub request : Request env.guest v h own (first ∷ (inner ++ (final ∷ [])))
  pub short : length inner + 2 ≤ 256
  pub mapped : AllMapped (buffers env.guest (first ∷ (inner ++ (final ∷ []))))
  pub placed : (buffer env.guest final).base ≡ place
  pub known :
      let k = (env.header (buffer env.guest first).base).kind in
      (k ≡ blk_t_in) ⊎ (k ≡ blk_t_out) ⊎ (k ≡ blk_t_flush) ⊎ (k ≡ blk_t_get_id)

-- Each of the heads is servable, with its status byte at the place that is listed for it.
abbrev pub AllServable : Env → Vring → List ℕ → List ℕ → Type 0
AllServable env v [] [] = Unit
AllServable env v [] (p ∷ ps) = ⊥
AllServable env v (h ∷ hs) [] = ⊥
AllServable env v (h ∷ hs) (p ∷ ps) = IsServable env v h p × AllServable env v hs ps

-- status bytes of requests that succeeded
abbrev pub ok_at : List ℕ → List (ℕ × ℕ)
ok_at = map λ p. (p, blk_s_ok)

pub Request-same :
    {g : Guest} {v w : Vring} {h : ℕ} {d : Desc} {ds : List Desc}
    → w.desc ≡ v.desc
    → w.num ≡ v.num
    → Request g v h d ds
    → Request g w h d ds
Request-same same_desc same_num (direct e plain c) =
    direct (rw same_desc e) plain (rw (same_desc, same_num) c)
Request-same same_desc same_num (indirect e ind there c) = indirect (rw same_desc e) ind there c

pub AllServable-same :
    (env : Env) (v w : Vring) (hs ps : List ℕ)
    → w.desc ≡ v.desc
    → w.num ≡ v.num
    → AllServable env v hs ps
    → AllServable env w hs ps
AllServable-same env v w [] [] same_desc same_num s = tt
AllServable-same env v w [] (p ∷ ps) same_desc same_num s = s
AllServable-same env v w (h ∷ hs) [] same_desc same_num s = s
AllServable-same env v w (h ∷ hs) (p ∷ ps) same_desc same_num (s, rest) = (
  record {
    in_reqs = s.in_reqs;
    own = s.own;
    first = s.first;
    inner = s.inner;
    final = s.final;
    request = Request-same same_desc same_num s.request;
    short = s.short;
    mapped = s.mapped;
    placed = s.placed;
    known = s.known;
  },
  AllServable-same env v w hs ps same_desc same_num rest,
)
