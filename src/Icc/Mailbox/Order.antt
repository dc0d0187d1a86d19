-- ===== src/Icc/Mailbox/Order.antt =====
-- The two cores run in any interleaving: no record is lost, repeated or reordered.
use hurra_v.Base.{ℕ, ◌+◌, ◌%◌, ◌^◌, ◌<◌, ◌≡◌, refl, ap, ap₂, sym, ◌∙◌, ◌≢◌, arith}
use hurra_v.Base.{Bool, true, false, Option, none, some, List, [], ◌∷◌, ◌++◌, map, append_assoc}
use hurra_v.Base.{
  length, take, drop, if◌then◌else◌, ◌==◌, map-append, length-map, subst, Bool-cases, inl, inr,
}
use hurra_v.Icc.Ring.{Rec, Ring, slots}
use hurra_v.Icc.Ring
use hurra_v.Icc.Ring.Refine.{IsValid, contents, push-contents, pop-contents, first}
use hurra_v.Icc.Mailbox.{Channel, init, send, load, publish, decode, read, ack, word}
use hurra_v.Icc.Mailbox.Codec.{clip, IsRec, decode-word}

-- The channel, whether the command core stands between its two stores, what the relay core has read
-- and not acknowledged, and the records that went in and came out.
pub record System : Type 0 where
  pub chan : Channel
  pub loaded : Bool
  pub held : Option (Rec × ℕ)
  pub sent : List Rec
  pub got : List Rec

-- One step of either core. A record that the queue refuses is not sent.
pub data Step (s : System) : System → Type 0 where
  sends :
      (rec : Rec) {t : System}
      → IsRec rec
      → s.loaded ≡ false
      → (send s.chan rec).1 ≡ true
      → t ≡ record s { chan = (send s.chan rec).0; sent = s.sent ++ (rec ∷ []) }
      → Step s t
  loads :
      (c : Channel) {t : System}
      → s.loaded ≡ false
      → load s.chan ≡ some c
      → t ≡ record s { chan = c; loaded = true }
      → Step s t
  publishes :
      {t : System}
      → s.loaded ≡ true
      → t ≡ record s { chan = publish s.chan; loaded = false }
      → Step s t
  reads :
      (rec : Rec) (seq : ℕ) {t : System}
      → s.held ≡ none
      → read s.chan ≡ some (rec, seq)
      → t ≡ record s { held = some (rec, seq) }
      → Step s t
  acks :
      (rec : Rec) (seq : ℕ) {t : System}
      → s.held ≡ some (rec, seq)
      → t ≡ record s { chan = ack s.chan seq; held = none; got = s.got ++ (rec ∷ []) }
      → Step s t

pub data Reach (s : System) : System → Type 0 where
  here : Reach s s
  next : {t u : System} → Reach s t → Step t u → Reach s u

-- The record that is in the registers, on its way.
abbrev pub flight : System → List Rec
flight s =
    if s.chan.msg2 == s.chan.seen_seq
    then (if s.loaded then decode s.chan.msg0 s.chan.msg1 ∷ [] else [])
    else decode s.chan.msg0 s.chan.msg1 ∷ []

abbrev AllRecs : List Rec → Type 0
AllRecs [] = Unit
AllRecs (x ∷ xs) = IsRec x × AllRecs xs

-- `MSG[3]` is what the relay core has seen, and the registers hold a record whenever the sequence
-- numbers differ.
pub record IsSafe (s : System) : Type 0 where
  pub ring : IsValid s.chan.fifo
  pub queued : AllRecs (contents s.chan.fifo)
  pub word_seq : s.chan.pub_seq < 2 ^ 32
  pub published : s.chan.msg2 ≡ s.chan.pub_seq
  pub acknowledged : s.chan.msg3 ≡ s.chan.seen_seq
  pub quiet : s.loaded ≡ true → s.chan.msg2 ≡ s.chan.seen_seq
  pub holds :
      (rec : Rec) (seq : ℕ)
      → s.held ≡ some (rec, seq)
      → (s.chan.msg2 ≢ s.chan.seen_seq)
        × (seq ≡ s.chan.msg2)
        × (rec ≡ decode s.chan.msg0 s.chan.msg1)
  pub ledger : map clip s.sent ≡ s.got ++ (flight s ++ map clip (contents s.chan.fifo))

flight_full :
    (s : System) → s.chan.msg2 ≢ s.chan.seen_seq → flight s ≡ decode s.chan.msg0 s.chan.msg1 ∷ []
flight_full s h = ground (arith, h)

flight_loaded :
    (s : System)
    → s.chan.msg2 ≡ s.chan.seen_seq
    → s.loaded ≡ true
    → flight s ≡ decode s.chan.msg0 s.chan.msg1 ∷ []
flight_loaded s h l = ground (arith, h, l)

flight_none : (s : System) → s.chan.msg2 ≡ s.chan.seen_seq → s.loaded ≡ false → flight s ≡ []
flight_none s h l = ground (arith, h, l)

AllRecs-append : (xs : List Rec) (rec : Rec) → AllRecs xs → IsRec rec → AllRecs (xs ++ (rec ∷ []))
AllRecs-append [] rec a h = (h, tt)
AllRecs-append (x ∷ xs) rec a h = (a.0, AllRecs-append xs rec a.1 h)

publishes-IsSafe :
    (s : System)
    → s.loaded ≡ true
    → IsSafe s
    → IsSafe (record s { chan = publish s.chan; loaded = false })
unfolding publish
publishes-IsSafe s l v =
    let q = v.quiet l in
    let moved : (s.chan.pub_seq + 1) % 2 ^ 32 ≢ s.chan.seen_seq =
      λ e. absurd (omega (arith, v.published, q, v.word_seq)) in
    record {
      ring = v.ring;
      queued = v.queued;
      word_seq = omega arith;
      published = refl;
      acknowledged = v.acknowledged;
      quiet = λ e. absurd (ground (arith, e));
      holds = λ rec seq e. absurd ((v.holds rec seq e).0 q);
      ledger =
          v.ledger
          ∙ ap (λ xs. s.got ++ (xs ++ map clip (contents s.chan.fifo)))
              (flight_loaded s q l
                ∙ sym (flight_full (record s { chan = publish s.chan; loaded = false }) moved));
    }

acks-IsSafe :
    (s : System) (rec : Rec) (seq : ℕ)
    → s.held ≡ some (rec, seq)
    → IsSafe s
    → IsSafe (record s { chan = ack s.chan seq; held = none; got = s.got ++ (rec ∷ []) })
unfolding ack
acks-IsSafe s rec seq h v =
    let k = v.holds rec seq h in
    let lf : s.loaded ≡ false = elim (Bool-cases s.loaded) [
      | inl e ↦ absurd (k.0 (v.quiet e))
      | inr e ↦ e
    ] in
    record {
      ring = v.ring;
      queued = v.queued;
      word_seq = v.word_seq;
      published = v.published;
      acknowledged = refl;
      quiet = λ e. sym k.1;
      holds = λ rec seq e. absurd (ground (arith, e));
      ledger =
          v.ledger
          ∙ (ap (λ xs. s.got ++ (xs ++ map clip (contents s.chan.fifo)))
                (flight_full s k.0 ∙ ap (λ r. r ∷ []) (sym k.2))
              ∙ (sym (append_assoc s.got (rec ∷ []) (map clip (contents s.chan.fifo)))
                  ∙ ap (λ xs. (s.got ++ (rec ∷ [])) ++ (xs ++ map clip (contents s.chan.fifo)))
                      (sym (
                        flight_none
                          (record s {
                            chan = ack s.chan seq;
                            held = none;
                            got = s.got ++ (rec ∷ []);
                          })
                          (sym k.1) lf))));
    }

reads-IsSafe :
    (s : System) (rec : Rec) (seq : ℕ)
    → read s.chan ≡ some (rec, seq)
    → IsSafe s
    → IsSafe (record s { held = some (rec, seq) })
unfolding read
reads-IsSafe s rec seq h v = record {
  ring = v.ring;
  queued = v.queued;
  word_seq = v.word_seq;
  published = v.published;
  acknowledged = v.acknowledged;
  quiet = v.quiet;
  holds = λ rec' seq' e. ground (arith, h, e);
  ledger = v.ledger;
}

sends-IsSafe :
    (s : System) (rec : Rec)
    → IsRec rec
    → (send s.chan rec).1 ≡ true
    → IsSafe s
    → IsSafe (record s { chan = (send s.chan rec).0; sent = s.sent ++ (rec ∷ []) })
unfolding send
sends-IsSafe s rec hr h v =
    let p = push-contents s.chan.fifo rec v.ring in
    let grown : contents (send s.chan rec).0.fifo ≡ contents s.chan.fifo ++ (rec ∷ []) =
      ground (arith, h, p.1, p.2) in
    record {
      ring = p.0;
      queued = subst AllRecs (sym grown) (AllRecs-append (contents s.chan.fifo) rec v.queued hr);
      word_seq = v.word_seq;
      published = v.published;
      acknowledged = v.acknowledged;
      quiet = v.quiet;
      holds = v.holds;
      ledger =
          rw
            (
              grown,
              map-append clip s.sent (rec ∷ []),
              v.ledger,
              map-append clip (contents s.chan.fifo) (rec ∷ []),
            )
            (append_assoc s.got (flight s ++ map clip (contents s.chan.fifo)) (clip rec ∷ [])
              ∙ ap (λ xs. s.got ++ xs)
                  (append_assoc (flight s) (map clip (contents s.chan.fifo)) (clip rec ∷ [])));
    }

-- What a load does when the queue gives `o`.
load_pops :
    (c d : Channel) (o : Option Rec)
    → (Ring.pop c.fifo).1 ≡ o
    → load c ≡ some d
    → (c.msg3 ≡ c.pub_seq)
      × (some d ≡ elim o [
        | none ↦ none
        | some rec ↦ some (record c {
          fifo = (Ring.pop c.fifo).0;
          msg0 = word (rec.tag ∷ take 7 rec.b) 0;
          msg1 = word (rec.tag ∷ take 7 rec.b) 4;
        })
      ])
unfolding load
load_pops c d none e h = ground (arith, e, h)
load_pops c d (some rec) e h = ground (arith, e, h)

loads_case :
    (s : System) (c : Channel) (xs : List Rec)
    → contents s.chan.fifo ≡ xs
    → s.loaded ≡ false
    → load s.chan ≡ some c
    → IsSafe s
    → IsSafe (record s { chan = c; loaded = true })
loads_case s c [] e l h v =
    let p = pop-contents s.chan.fifo v.ring in
    let k = load_pops s.chan c none (p.0 ∙ ap first e) h in absurd (ground (arith, k.1))
loads_case s c (rec ∷ xs) e l h v =
    let p = pop-contents s.chan.fifo v.ring in
    let k = load_pops s.chan c (some rec) (p.0 ∙ ap first e) h in
    let all = subst AllRecs e v.queued in
    let idle : s.chan.msg2 ≡ s.chan.seen_seq = v.published ∙ (sym k.0 ∙ v.acknowledged) in
    let c' : Channel = record s.chan {
      fifo = (Ring.pop s.chan.fifo).0;
      msg0 = word (rec.tag ∷ take 7 rec.b) 0;
      msg1 = word (rec.tag ∷ take 7 rec.b) 4;
    } in
    let made : c ≡ c' = ground (arith, k.1) in
    let rest : contents (Ring.pop s.chan.fifo).0 ≡ xs = p.1 ∙ ap (drop 1) e in
    let now =
      flight_loaded (record s { chan = c'; loaded = true }) idle refl
      ∙ ap (λ r. r ∷ []) (decode-word rec all.0) in
    let safe : IsSafe (record s { chan = c'; loaded = true }) = record {
      ring = p.2;
      queued = subst AllRecs (sym rest) all.1;
      word_seq = v.word_seq;
      published = v.published;
      acknowledged = v.acknowledged;
      quiet = λ e. idle;
      holds = λ rec' seq e. absurd ((v.holds rec' seq e).0 idle);
      ledger =
          v.ledger
          ∙ ap (λ xs. s.got ++ xs)
              (ap₂ (λ x y. x ++ map clip y) (flight_none s idle l) e
                ∙ sym (ap₂ (λ x y. x ++ map clip y) now rest));
    } in
    subst (λ d. IsSafe (record s { chan = d; loaded = true })) (sym made) safe

Step-IsSafe : {s t : System} → Step s t → IsSafe s → IsSafe t
Step-IsSafe {s} (sends rec r l d e) v = subst IsSafe (sym e) (sends-IsSafe s rec r d v)
Step-IsSafe {s} (loads c l d e) v =
    subst IsSafe (sym e) (loads_case s c (contents s.chan.fifo) refl l d v)
Step-IsSafe {s} (publishes l e) v = subst IsSafe (sym e) (publishes-IsSafe s l v)
Step-IsSafe {s} (reads rec seq h d e) v = subst IsSafe (sym e) (reads-IsSafe s rec seq d v)
Step-IsSafe {s} (acks rec seq h e) v = subst IsSafe (sym e) (acks-IsSafe s rec seq h v)

Reach-IsSafe : {s t : System} → Reach s t → IsSafe s → IsSafe t
Reach-IsSafe here v = v
Reach-IsSafe (next r x) v = Step-IsSafe x (Reach-IsSafe r v)

-- After `icc_init_v3f` and `icc_init_v5f`.
abbrev pub start : List Rec → System
start slot = record { chan = init slot; loaded = false; held = none; sent = []; got = [] }

start-IsSafe : (slot : List Rec) → length slot ≡ slots → IsSafe (start slot)
unfolding init
start-IsSafe slot h = record {
  ring = record {
    whole = length-map {A = Rec} (λ r. record r { tag = 0 }) slot ∙ h;
    head_in = omega arith;
    tail_in = omega arith;
  };
  queued = tt;
  word_seq = omega arith;
  published = refl;
  acknowledged = refl;
  quiet = λ e. refl;
  holds = λ rec seq e. absurd (ground (arith, e));
  ledger = refl;
}

-- From `icc_init_v3f` and `icc_init_v5f` on, in every interleaving of the two cores' stores, what the
-- command core sent (of each record the tag and seven payload bytes) is what the relay core got, then
-- the record in the registers if there is one, then what is queued, in this order.
pub in_order :
    (slot : List Rec) (s : System)
    → length slot ≡ slots
    → Reach (start slot) s
    → map clip s.sent ≡ s.got ++ (flight s ++ map clip (contents s.chan.fifo))
in_order slot s h r = (Reach-IsSafe r (start-IsSafe slot h)).ledger
