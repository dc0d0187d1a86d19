-- ===== src/Xfer/Report/Padding.antt =====
-- `report_xfer_accept` reads no byte of the payload past the length it is given.
use hurra_v.Base.{ℕ, zero, suc, ◌*◌, ◌+◌, ◌-◌, ◌%◌, ◌≤◌, ◌≡◌, refl, ap, arith}
use hurra_v.Base.{List, [], ◌∷◌, take, slice, get_or, get_or-take, dec_lt}
use hurra_v.Xfer.Report.{Ctx, header_size, data_per_fragment, accept, store, begin}

take-take : (xs : List ℕ) (n k : ℕ) → n ≤ k → take n (take k xs) ≡ take n xs
take-take xs zero k h = refl
take-take xs (suc n) zero h = absurd (omega arith)
take-take [] (suc n) (suc k) h = refl
take-take (x ∷ xs) (suc n) (suc k) h = ap (◌∷◌ x) (take-take xs n k (omega arith))

slice-take : (xs : List ℕ) (i n k : ℕ) → i + n ≤ k → slice (take k xs) i n ≡ slice xs i n
slice-take xs zero n k h = take-take xs n k (omega arith)
slice-take xs (suc i) n zero h = absurd (omega arith)
slice-take [] (suc i) n (suc k) h = refl
slice-take (x ∷ xs) (suc i) n (suc k) h = slice-take xs i n k (omega arith)

store-take :
    (ctx : Ctx) (payload : List ℕ) (index offset n len : ℕ)
    → header_size + n ≤ len
    → store ctx (take len payload) index offset n ≡ store ctx payload index offset n
unfolding store
store-take ctx payload index offset n len h = rw (slice-take payload header_size n len h)

-- So what stands after the payload in its slot makes no difference.
pub accept-take :
    (ctx : Ctx) (payload : List ℕ) (len : ℕ)
    → accept ctx (take len payload) len ≡ accept ctx payload len
unfolding accept
accept-take ctx payload len = elim (dec_lt len (header_size + 1)) [
  | yes short ↦ ground (arith, short)
  | no long ↦
      let index = get_or payload 0 0 in
      let offset = index * data_per_fragment % 0x10000 in
      let n = (len - header_size) % 256 in
      let fresh = begin ctx (get_or payload 1 0) (get_or payload 2 0) (get_or payload 3 0) in
      rw
        (
          get_or-take len 0 0 payload (omega (arith, long)),
          get_or-take len 1 0 payload (omega (arith, long)),
          get_or-take len 2 0 payload (omega (arith, long)),
          get_or-take len 3 0 payload (omega (arith, long)),
        )
        (ground (
          arith,
          store-take ctx payload index offset n len (omega (arith, long)),
          store-take fresh payload index offset n len (omega (arith, long)),
        ))
]
