-- ===== src/Icc/Mailbox/Codec.antt =====
-- A record through the two payload registers.
use hurra_v.Base.{ℕ, ◌+◌, ◌*◌, ◌^◌, ◌≤◌, ◌<◌, ◌≡◌, refl, arith}
use hurra_v.Base.{List, [], ◌∷◌, ◌++◌, get_or, take, replicate, length}
use hurra_v.Icc.Ring.{Rec}
use hurra_v.Icc.Mailbox.{word, bytes, decode}

-- Four bytes are got back from their word.
bytes-word4 :
    (a b c d : ℕ)
    → a < 256
    → b < 256
    → c < 256
    → d < 256
    → bytes (a + b * 2 ^ 8 + c * 2 ^ 16 + d * 2 ^ 24) ≡ a ∷ b ∷ c ∷ d ∷ []
unfolding bytes
bytes-word4 a b c d ha hb hc hd = ground arith

-- What of a record crosses: the tag and seven payload bytes.
abbrev pub clip : Rec → Rec
clip rec = record { tag = rec.tag; b = take 7 rec.b ++ replicate 8 0 }

-- A record of bytes, as the C type makes it.
pub record IsRec (rec : Rec) : Type 0 where
  pub tag_byte : rec.tag < 256
  pub size : length rec.b ≡ 15
  pub byte : (i : ℕ) → get_or rec.b i 0 < 256

seven :
    (b : List ℕ)
    → 7 ≤ length b
    → take 7 b
      ≡ get_or b 0 0
        ∷ get_or b 1 0
        ∷ get_or b 2 0
        ∷ get_or b 3 0
        ∷ get_or b 4 0
        ∷ get_or b 5 0
        ∷ get_or b 6 0
        ∷ []
seven (a ∷ b ∷ c ∷ d ∷ e ∷ f ∷ g ∷ r) h = refl
seven [] h = absurd (omega arith)
seven (a ∷ []) h = absurd (omega arith)
seven (a ∷ b ∷ []) h = absurd (omega arith)
seven (a ∷ b ∷ c ∷ []) h = absurd (omega arith)
seven (a ∷ b ∷ c ∷ d ∷ []) h = absurd (omega arith)
seven (a ∷ b ∷ c ∷ d ∷ e ∷ []) h = absurd (omega arith)
seven (a ∷ b ∷ c ∷ d ∷ e ∷ f ∷ []) h = absurd (omega arith)

pub decode-word :
    (rec : Rec)
    → IsRec rec
    → decode (word (rec.tag ∷ take 7 rec.b) 0) (word (rec.tag ∷ take 7 rec.b) 4) ≡ clip rec
unfolding decode word
decode-word rec v =
    let b = v.byte in
    let s = seven rec.b (omega (arith, v.size)) in
    let low =
      bytes-word4 rec.tag (get_or rec.b 0 0) (get_or rec.b 1 0) (get_or rec.b 2 0) v.tag_byte (b 0)
        (b 1) (b 2) in
    let high =
      bytes-word4 (get_or rec.b 3 0) (get_or rec.b 4 0) (get_or rec.b 5 0) (get_or rec.b 6 0) (b 3)
        (b 4) (b 5) (b 6) in
    rw (s, low, high)
