-- ===== src/Xfer/Desc/Tests.antt =====
-- The theorems of the descriptor transfer at concrete inputs.
use hurra_v.Base.{
  ℕ, ◌≡◌, refl, ◌≤◌, arith, List, [], ◌∷◌, ◌++◌, map, take, replicate, length, length-replicate,
  ◌-◌,
}
use hurra_v.Xfer.Outcome.{in_progress, complete}
use hurra_v.Xfer.Desc.{
  Ctx, buf_max, chunk_count, pack_chunk, sent, accept, accept_all, reset, store, field16,
}
use hurra_v.Xfer.Desc.Bounds.{IsValid, accept-IsValid}
use hurra_v.Xfer.Desc.Order.{InRange, complete_whole}
use hurra_v.Xfer.Desc.Pass.{sent_from, pass_completes}

-- A receiver in the middle of another transfer.
midway : Ctx
midway = record { buf = replicate buf_max 7; total = 100; next_idx = 2; have = 44; active = 1 }

midway-whole : length midway.buf ≡ buf_max
unfolding midway
midway-whole = length-replicate {A = ℕ} buf_max 7

midway-IsValid : IsValid midway
unfolding midway
midway-IsValid = record {
  whole = length-replicate {A = ℕ} buf_max 7;
  total_fits = omega arith;
  have_fits = omega arith;
  flag = omega arith;
}

-- 30 bytes: two chunks.
abbrev blob : List ℕ
blob = replicate 29 5 ++ (6 ∷ [])

blob_small : length blob ≤ buf_max
blob_small = omega arith

two_chunks : chunk_count (length blob) ≡ 2
unfolding chunk_count
two_chunks = refl

accept-IsValid_example : IsValid (accept midway (2 ∷ 0 ∷ 100 ∷ 0 ∷ 9 ∷ []) 5).0
accept-IsValid_example = accept-IsValid midway (2 ∷ 0 ∷ 100 ∷ 0 ∷ 9 ∷ []) 5 midway-IsValid

-- Chunk 1 comes too early, chunk 0 comes twice, then chunk 1 ends the transfer.
abbrev order : List ℕ
order = 1 ∷ 0 ∷ 0 ∷ []

order-InRange : InRange blob blob_small (1 ∷ order)
unfolding chunk_count
order-InRange = (omega arith, (omega arith, (omega arith, (omega arith, tt))))

order-complete :
    (accept
      (accept_all (reset midway) (map (sent blob) order)).0
      (sent blob 1)
      (length (sent blob 1))).1
    ≡ complete
unfolding accept_all accept store reset field16 sent pack_chunk chunk_count midway
order-complete = refl

complete_whole_example :
    let r =
      accept
        (accept_all (reset midway) (map (sent blob) order)).0
        (sent blob 1)
        (length (sent blob 1)) in
    (take (length blob) r.0.buf ≡ blob) × (r.0.total ≡ length blob)
complete_whole_example =
    complete_whole blob blob_small order 1 midway order-InRange midway-whole order-complete

pass_completes_example :
    ((accept_all midway (sent_from blob blob_small 0 2)).1
      ≡ replicate (2 - 1) in_progress ++ (complete ∷ []))
    × (take (length blob) (accept_all midway (sent_from blob blob_small 0 2)).0.buf ≡ blob)
unfolding chunk_count
pass_completes_example = pass_completes blob blob_small 2 midway (omega arith) midway-whole refl
