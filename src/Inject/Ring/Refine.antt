-- ===== src/Inject/Ring/Refine.antt =====
-- The queue keeps the seven newest records, and a drain sends them all, oldest first.
use hurra_v.Base.{ℕ, zero, suc, ◌+◌, ◌-◌, ◌%◌, ◌^◌, ◌<◌, ◌≡◌, refl, sym, ap, ap₂, ◌∙◌, ◌≢◌, arith}
use hurra_v.Base.{
  not, List, [], ◌∷◌, ◌++◌, length, get_or, set, take, drop, ◌==◌, if◌then◌else◌, dec_lt,
}
use hurra_v.Base.{length-set, get_or-set_self, get_or-set_ne}
use hurra_v.Spi.Frame.RoundTrip.{packed, pack-eq-ok}
use hurra_v.Inject.Ring.{
  Rec, Link, blank, depth, type_inject, next, make_room, push, drain_loop, drain,
}

pub record IsValid (l : Link) : Type 0 where
  pub whole : length l.slot ≡ depth
  pub head_in : l.head < depth
  pub tail_in : l.tail < depth

abbrev pub size : Link → ℕ
size l = (l.tail + depth - l.head) % depth

-- `n` records from index `i` on, going round at the end.
abbrev pub window : List Rec → ℕ → ℕ → List Rec
window xs i zero = []
window xs i (suc n) = get_or xs i blank ∷ window xs ((i + 1) % depth) n

-- Oldest first.
abbrev pub contents : Link → List Rec
contents l = window l.slot l.head (size l)

length-window : (xs : List Rec) (i n : ℕ) → length (window xs i n) ≡ n
length-window xs i zero = refl
length-window xs i (suc n) = ap suc (length-window xs ((i + 1) % depth) n)

window-set :
    (xs : List Rec) (rec : Rec) (n i j : ℕ)
    → length xs ≡ depth
    → i < depth
    → n < depth
    → j ≡ (i + n) % depth
    → window (set xs j rec) i (suc n) ≡ window xs i n ++ (rec ∷ [])
window-set xs rec zero i j w h hn e =
    let same : j ≡ i = omega arith in
    rw same (ap (λ r. r ∷ []) (get_or-set_self xs i rec blank (omega arith)))
window-set xs rec (suc n) i j w h hn e =
    ap₂ ◌∷◌ (get_or-set_ne xs j i rec blank (omega arith))
      (window-set xs rec n ((i + 1) % depth) j w (omega arith) (omega arith) (omega arith))

window-suc :
    (xs : List Rec) (i n k : ℕ)
    → k + 1 ≡ n
    → window xs i n ≡ get_or xs i blank ∷ window xs ((i + 1) % depth) k
window-suc xs i zero k e = absurd (omega arith)
window-suc xs i (suc n) k e =
    ap (λ m. get_or xs i blank ∷ window xs ((i + 1) % depth) m) (omega arith)

window-zero : (xs : List Rec) (i n : ℕ) → n ≡ 0 → window xs i n ≡ []
window-zero xs i zero e = refl
window-zero xs i (suc n) e = absurd (omega arith)

-- The full queue gives up its oldest record, and only it does.
make_room_lem :
    (l : Link)
    → IsValid l
    → IsValid (make_room l).0
      × ((make_room l).1 ≡ (length (contents l) == depth - 1))
      × (contents (make_room l).0
          ≡ (if length (contents l) == depth - 1 then drop 1 (contents l) else contents l))
      × (size (make_room l).0 < depth - 1)
      × ((make_room l).0.drops
          ≡ (if length (contents l) == depth - 1 then (l.drops + 1) % 2 ^ 32 else l.drops))
unfolding make_room next
make_room_lem l v =
    let len = length-window l.slot l.head (size l) in
    rw len (elim (dec_lt (size l) (depth - 1)) [
      | yes h ↦ ground (arith, v)
      | no h ↦
          let one = window-suc l.slot l.head (size l) (size l - 1) (omega arith) in
          let rest : (l.tail + depth - (l.head + 1) % depth % 256) % depth ≡ size l - 1 =
            omega (arith, v.head_in, v.tail_in) in
          let start : (l.head + 1) % depth % 256 ≡ (l.head + 1) % depth = omega arith in
          rw one (ground (arith, v, rest, start))
    ])

-- A record put into a free slot.
abbrev put : Link → Rec → Link
put r rec = record r { slot = set r.slot r.tail rec; tail = next r.tail }

put_lem :
    (r : Link) (rec : Rec)
    → IsValid r
    → size r < depth - 1
    → IsValid (put r rec) × (contents (put r rec) ≡ contents r ++ (rec ∷ []))
unfolding next
put_lem r rec v h =
    let one : (next r.tail + depth - r.head) % depth ≡ suc (size r) =
      omega (arith, v.head_in, v.tail_in, h) in
    let same : r.tail ≡ (r.head + size r) % depth = omega (arith, v.head_in, v.tail_in) in
    (
      record {
        whole = length-set r.slot r.tail rec ∙ v.whole;
        head_in = v.head_in;
        tail_in = omega arith;
      },
      rw one
          (window-set r.slot rec (size r) r.head r.tail v.whole v.head_in (omega (arith, h)) same),
    )

-- A pushed record goes to the end. Where seven records are queued, the oldest one is dropped for it,
-- which is counted and reported; else nothing is lost.
pub inject_push_refines :
    (l : Link) (tag : ℕ) (b : List ℕ)
    → IsValid l
    → let full = length (contents l) == depth - 1 in
      IsValid (push l tag b).0
      × (contents (push l tag b).0
          ≡ (if full then drop 1 (contents l) else contents l)
            ++ (record { tag = tag; b = take 7 b } ∷ []))
      × ((push l tag b).1 ≡ not full)
      × ((push l tag b).0.drops ≡ (if full then (l.drops + 1) % 2 ^ 32 else l.drops))
unfolding push next
inject_push_refines l tag b v =
    let m = make_room_lem l v in
    let p = put_lem (make_room l).0 (record { tag = tag; b = take 7 b }) m.0 m.3 in
    (p.0, p.1 ∙ ap (λ xs. xs ++ (record { tag = tag; b = take 7 b } ∷ [])) m.2, ap not m.1, m.4)

-- The slots that carry the records, with consecutive sequence numbers from `seq` on.
abbrev pub frames : List Rec → ℕ → List (List ℕ)
frames [] seq = []
frames (r ∷ rs) seq = packed type_inject seq (r.tag ∷ take 7 r.b) 8 ∷ frames rs ((seq + 1) % 256)

drain_loop_step :
    (fuel : ℕ) (l : Link) (seq : ℕ)
    → l.head ≢ l.tail
    → let r = get_or l.slot l.head blank in
      let rest = drain_loop fuel (record l { head = next l.head }) ((seq + 1) % 256) in
      drain_loop (suc fuel) l seq
      ≡ (rest.0, rest.1, packed type_inject seq (r.tag ∷ take 7 r.b) 8 ∷ rest.2)
unfolding drain_loop
drain_loop_step fuel l seq ne =
    let r = get_or l.slot l.head blank in
    rw (pack-eq-ok type_inject seq (r.tag ∷ take 7 r.b) 8 (omega arith)) (ground (arith, ne))

drain_loop_end :
    (fuel : ℕ) (l : Link) (seq : ℕ) → l.head ≡ l.tail → drain_loop fuel l seq ≡ (l, seq, [])
unfolding drain_loop
drain_loop_end zero l seq e = refl
drain_loop_end (suc fuel) l seq e = ground (arith, e)

drain_loop_lem :
    (fuel : ℕ) (l : Link) (seq : ℕ)
    → IsValid l
    → size l < fuel
    → seq < 256
    → IsValid (drain_loop fuel l seq).0
      × (contents (drain_loop fuel l seq).0 ≡ [])
      × ((drain_loop fuel l seq).1 ≡ (seq + size l) % 256)
      × ((drain_loop fuel l seq).2 ≡ frames (contents l) seq)
unfolding next
drain_loop_lem zero l seq v h b = absurd (omega arith)
drain_loop_lem (suc fuel) l seq v h b = elim (dec_lt 0 (size l)) [
  | yes pos ↦
      let rest : (l.tail + depth - next l.head) % depth ≡ size l - 1 =
        omega (arith, v.head_in, v.tail_in) in
      let one = window-suc l.slot l.head (size l) (size l - 1) (omega arith) in
      let start : next l.head ≡ (l.head + 1) % depth = omega arith in
      let ih =
        drain_loop_lem fuel (record l { head = next l.head }) ((seq + 1) % 256)
          (record { whole = v.whole; head_in = omega arith; tail_in = v.tail_in })
          (omega (arith, rest, h)) (omega arith) in
      let ne : l.head ≢ l.tail = λ e. absurd (omega (arith, e, pos, v.head_in)) in
      rw (drain_loop_step fuel l seq ne) (
        ih.0,
        ih.1,
        ih.2 ∙ omega (arith, rest, pos),
        ap
              (λ xs.
                packed type_inject seq
                  ((get_or l.slot l.head blank).tag ∷ take 7 (get_or l.slot l.head blank).b) 8
                ∷ xs)
              ih.3
            ∙ (ap (λ xs. frames xs seq)
                (ap (λ xs. get_or l.slot l.head blank ∷ xs) (ap₂ (window l.slot) start rest)
                  ∙ sym one)),
      )
  | no none ↦
      let e : l.head ≡ l.tail = omega (arith, none, v.head_in, v.tail_in) in
      rw (drain_loop_end (suc fuel) l seq e) (
        v,
        window-zero l.slot l.head (size l) (omega (arith, none)),
        omega (arith, none, b),
        sym (ap (λ xs. frames xs seq) (window-zero l.slot l.head (size l) (omega (arith, none)))),
      )
]

-- A drain empties the queue: every queued record goes out in one slot of the link, oldest first, the
-- sequence numbers count up by one for each, and the queue is empty after it.
pub drain_sends_all :
    (l : Link) (seq : ℕ)
    → IsValid l
    → seq < 256
    → IsValid (drain l seq).0
      × (contents (drain l seq).0 ≡ [])
      × ((drain l seq).1 ≡ (seq + length (contents l)) % 256)
      × ((drain l seq).2 ≡ frames (contents l) seq)
unfolding drain
drain_sends_all l seq v b =
    rw (length-window l.slot l.head (size l)) (drain_loop_lem depth l seq v (omega arith) b)
