-- ===== src/Xfer/Desc/Chunk.antt =====
-- One chunk of a blob: what `desc_xfer_pack_chunk` writes, and what `desc_xfer_accept` does with it.
use hurra_v.Base.{ℕ, ◌+◌, ◌-◌, ◌*◌, ◌/◌, ◌%◌, ◌≤◌, ◌<◌, min, bit_and, bit_or}
use hurra_v.Base.{◌≡◌, refl, ap, arith, Option, none, some}
use hurra_v.Base.{List, [], ◌∷◌, length, slice, copy, ltb, leb}
use hurra_v.Base.{if◌then◌else◌, bit_and_mask, bit_or_low_high, length-slice, take_all}
use hurra_v.Xfer.Outcome.{Outcome, in_progress, complete}
use hurra_v.Xfer.Desc.{
  Ctx, buf_max, hdr, data_per_chunk, chunk_count, pack_chunk, sent, store, field16,
}

-- Two bytes, low first, give the number that was split into them.
pub field_lem :
    (v lo hi : ℕ)
    → v < 0x10000
    → lo ≡ bit_and v 0xff
    → hi ≡ v / 256 % 256
    → bit_or lo (hi * 256) % 0x10000 ≡ v
field_lem v lo hi h p q =
    rw (p, q, bit_and_mask 8 v, bit_or_low_high 8 (v / 256 % 256) (v % 256) (omega arith))
      (omega (arith, h))

module _ (blob : List ℕ) (small : length blob ≤ buf_max) where
  abbrev pub total : ℕ
  total = length blob

  -- Where chunk `k` starts, and how many bytes it has.
  abbrev pub start : ℕ → ℕ
  start k = k * data_per_chunk

  abbrev pub bytes_in : ℕ → ℕ
  bytes_in k = min data_per_chunk (total - start k)

  abbrev pub chunk : ℕ → List ℕ
  chunk k =
      bit_and k 0xff
      ∷ k / 256 % 256
      ∷ bit_and total 0xff
      ∷ total / 256 % 256
      ∷ slice blob (start k) (bytes_in k)

  chunk_count-le : chunk_count total ≤ 325
  unfolding chunk_count
  chunk_count-le = ground arith

  -- Every chunk number below the count is inside the blob, and the next one is the end.
  pub start-lt : (k : ℕ) → k < chunk_count total → start k < total
  unfolding chunk_count
  start-lt k h = ground arith

  pub pack_chunk-eq-chunk :
      (k : ℕ) → k < chunk_count total → pack_chunk blob total k ≡ some (chunk k)
  unfolding pack_chunk
  pack_chunk-eq-chunk k h =
      let inside = start-lt k h in
      let off : k * data_per_chunk % 0x10000 ≡ start k = omega (arith, inside, small) in
      let rest : (total + 0x10000 - start k) % 0x10000 ≡ total - start k =
        omega (arith, inside, small) in
      let n : (if ltb data_per_chunk (total - start k) then data_per_chunk else (total - start k))
          ≡ bytes_in k =
        ground arith in
      rw (off, rest, n) (ground arith)

  pub sent-eq-chunk : (k : ℕ) → k < chunk_count total → sent blob k ≡ chunk k
  unfolding sent
  sent-eq-chunk k h =
      ap (λ (o : Option (List ℕ)). let l : List ℕ = elim o [ none ↦ [] | some p ↦ p ] in l)
        (pack_chunk-eq-chunk k h)

  module _ (k : ℕ) (inside : k < chunk_count total) where
    pub length-chunk : length (chunk k) ≡ hdr + bytes_in k
    length-chunk = omega (
      arith,
      start-lt k inside,
      length-slice blob (start k) (bytes_in k) (omega (arith, start-lt k inside)),
    )

    pub index_field : field16 (chunk k) 0 ≡ k
    unfolding field16
    index_field = field_lem k _ _ (omega (arith, chunk_count-le, inside)) refl refl

    pub total_field : field16 (chunk k) 2 ≡ total
    unfolding field16
    total_field = field_lem total _ _ (omega (arith, small)) refl refl

    pub data_bytes : slice (chunk k) hdr (bytes_in k) ≡ slice blob (start k) (bytes_in k)
    data_bytes = take_all (bytes_in k) (slice blob (start k) (bytes_in k)) (
        omega (
          arith,
          start-lt k inside,
          length-slice blob (start k) (bytes_in k) (omega (arith, start-lt k inside)),
        ))

    -- The context after the chunk has been stored.
    abbrev pub after : Ctx → Ctx
    after ctx = record {
      buf = copy ctx.buf (start k) (slice blob (start k) (bytes_in k));
      total = total;
      next_idx = k + 1;
      have = start k + bytes_in k;
      active = if leb total (start k + bytes_in k) then 0 else ctx.active;
    }

    abbrev pub outcome : Outcome
    outcome = if leb total (start k + bytes_in k) then complete else in_progress

    pub store-chunk :
        (ctx : Ctx) → ctx.total ≡ total → store ctx (chunk k) k (bytes_in k) ≡ (after ctx, outcome)
    unfolding store
    store-chunk ctx e =
        let s = start-lt k inside in
        let off : k * data_per_chunk % 0x10000 ≡ start k = omega (arith, s, small) in
        let got : (start k + bytes_in k) % 0x10000 ≡ start k + bytes_in k =
          omega (arith, s, small) in
        let next : (k + 1) % 0x10000 ≡ k + 1 = omega (arith, chunk_count-le, inside) in
        rw (off, got, next, data_bytes) (ground (arith, e, s))
