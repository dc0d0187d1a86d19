-- ===== src/Xfer/Report/Fragment.antt =====
-- One fragment of a report: what `report_xfer_pack_fragment` writes, and what `report_xfer_accept`
-- does with it.
use hurra_v.Base.{ℕ, ◌+◌, ◌-◌, ◌*◌, ◌%◌, ◌≤◌, ◌<◌, min, ◌≡◌, ◌⊎◌, ap, arith}
use hurra_v.Base.{Option, none, some, List, [], ◌∷◌, length, slice, copy, ltb, leb, if◌then◌else◌}
use hurra_v.Base.{length-slice, take_all}
use hurra_v.Xfer.Outcome.{Outcome, in_progress, complete}
use hurra_v.Xfer.Report.{
  Ctx, max_report, header_size, data_per_fragment, fragment_count, pack_fragment, sent, store,
  begin, accept,
}
use hurra_v.Xfer.Report.Bounds.{entered, Continues}

module _ (report : List ℕ) (ep proto : ℕ) where
  abbrev pub total : ℕ
  total = length report

  abbrev pub start : ℕ → ℕ
  start k = k * data_per_fragment

  abbrev pub bytes_in : ℕ → ℕ
  bytes_in k = min data_per_fragment (total - start k)

  abbrev pub fragment : ℕ → List ℕ
  fragment k = k ∷ total ∷ ep ∷ proto ∷ slice report (start k) (bytes_in k)

  -- A report that the sender takes, for an endpoint that it takes.
  pub record Sendable : Type 0 where
    pub small : total ≤ max_report
    pub ep_pos : 0 < ep
    pub ep_max : ep ≤ 15

  module _ (v : Sendable) (k : ℕ) (inside : k < fragment_count total) where
    pub start-lt : (start k < total) × (k < 3)
    unfolding fragment_count
    start-lt = ground (arith, inside, v.small)

    pack_fragment-eq-fragment : pack_fragment report total ep proto k ≡ some (fragment k)
    unfolding pack_fragment
    pack_fragment-eq-fragment =
        let s = start-lt in
        let off : k * data_per_fragment % 0x10000 ≡ start k = omega (arith, s.1) in
        let rest : (total + 0x10000 - start k) % 0x10000 ≡ total - start k =
          omega (arith, s.0, v.small) in
        let n : (if ltb data_per_fragment (total - start k)
              then data_per_fragment
              else (total - start k))
            ≡ bytes_in k =
          ground arith in
        let byte : total % 256 ≡ total = omega (arith, v.small) in
        rw (off, rest, n, byte) (ground (arith, v.ep_pos, v.ep_max, inside))

    pub sent-eq-fragment : sent report ep proto k ≡ fragment k
    unfolding sent
    sent-eq-fragment =
        ap (λ (o : Option (List ℕ)). let l : List ℕ = elim o [ none ↦ [] | some p ↦ p ] in l)
          pack_fragment-eq-fragment

    pub length-fragment : length (fragment k) ≡ header_size + bytes_in k
    length-fragment =
        omega (
          arith,
          start-lt.0,
          length-slice report (start k) (bytes_in k) (omega (arith, start-lt.0)),
        )

    pub data_bytes :
        slice (fragment k) header_size (bytes_in k) ≡ slice report (start k) (bytes_in k)
    data_bytes = take_all (bytes_in k) (slice report (start k) (bytes_in k)) (
        omega (
          arith,
          start-lt.0,
          length-slice report (start k) (bytes_in k) (omega (arith, start-lt.0)),
        ))

    -- The context after the fragment has been stored in `ctx`.
    abbrev pub after : Ctx → Ctx
    after ctx = record ctx {
      report = copy ctx.report (start k) (slice report (start k) (bytes_in k));
      bytes_received = start k + bytes_in k;
      expected_index = k + 1;
      active = if leb total (start k + bytes_in k) then 0 else ctx.active;
    }

    abbrev pub outcome : Outcome
    outcome = if leb total (start k + bytes_in k) then complete else in_progress

    store-fragment :
        (ctx : Ctx)
        → ctx.total_len ≡ total
        → store ctx (fragment k) k (start k) (bytes_in k) ≡ (after ctx, outcome)
    unfolding store
    store-fragment ctx e =
        let s = start-lt in
        let got : (start k + bytes_in k) % 256 ≡ start k + bytes_in k =
          omega (arith, s.0, v.small) in
        let next : (k + 1) % 256 ≡ k + 1 = omega (arith, s.1) in
        rw (got, next, data_bytes, e) (ground (arith, s.0, e))

    -- A fragment that starts a report, or continues the one in progress, is stored.
    pub accept-fragment :
        (ctx : Ctx)
        → (k ≡ 0) ⊎ Continues ctx (fragment k)
        → accept ctx (fragment k) (length (fragment k))
          ≡ (after (entered ctx (fragment k)), outcome)
    unfolding accept begin
    accept-fragment ctx fits =
        let s = start-lt in
        let off : k * data_per_fragment % 0x10000 ≡ start k = omega (arith, s.1) in
        let n : (header_size + bytes_in k - header_size) % 256 ≡ bytes_in k = omega arith in
        let rest : (total - start k) % 256 ≡ total - start k = omega (arith, v.small) in
        let exact : (if ltb data_per_fragment (total - start k)
              then data_per_fragment
              else (total - start k))
            ≡ bytes_in k =
          ground arith in
        let same : (entered ctx (fragment k)).total_len ≡ total = ground arith in
        rw (length-fragment, off, n, rest, exact)
          (ground (
            arith,
            s.0,
            v.small,
            v.ep_pos,
            v.ep_max,
            store-fragment (entered ctx (fragment k)) same,
          ))
