-- ===== src/Actions/Keys.antt =====
-- src/actions.c, the keyboard: the six key slots and the modifier byte, and the scheduled releases.
pub mod Bits
pub mod Slots
pub mod Releases
pub mod Held
pub mod Ops
pub mod Room
pub mod Tick
pub mod Run
mod Tests
use hurra_v.Base.{
  ℕ, zero, suc, ◌+◌, ◌-◌, ◌%◌, ◌^◌, min, Bool, true, false, ◌&&◌, not, bit_and, bit_or,
}
use hurra_v.Base.{
  Option, none, some, List, [], ◌∷◌, ◌++◌, ltb, leb, ◌==◌, if◌then◌else◌, set, get_elem?, length,
  replicate,
}
use hurra_v.Timing.{time_deadline_reached}

-- An entry of `g_kb_release`.
pub record Release : Type 0 where
  pub key : ℕ
  pub at : ℕ

-- `g_kb_modifier`, `g_kb_keys`, and the entries of `g_kb_release` below `g_kb_release_count`.
pub record Keyboard : Type 0 where
  pub modifier : ℕ
  pub keys : List ℕ
  pub releases : List Release

-- A snapshot that `kmbox_inject_keyboard` is given.
pub record Snapshot : Type 0 where
  pub modifier : ℕ
  pub keys : List ℕ

abbrev pub snapshot : Keyboard → Snapshot
snapshot kb = record { modifier = kb.modifier; keys = kb.keys }

-- A modifier key has a bit of the modifier byte, and no slot.
pub is_modifier : ℕ → Bool
is_modifier key = leb 0xe0 key && leb key 0xe7

abbrev pub modifier_bit : ℕ → ℕ
modifier_bit key = 2 ^ (key - 0xe0)

-- What the search through the slots found: the key, or the first free slot if there is one.
pub data Found : Type 0 where
  present : Found
  absent : Option ℕ → Found

-- The loop of `kb_insert` from slot `i` on.
pub search_slots : ℕ → List ℕ → ℕ → Option ℕ → Found
search_slots key [] i free = absent free
search_slots key (k ∷ ks) i free =
    let rest =
      search_slots key ks (i + 1)
        (elim free [ some j ↦ some j | none ↦ if k == 0 then some i else none ]) in
    if k == key then present else rest

pub kb_insert : ℕ → List ℕ → List ℕ × Bool
kb_insert key keys = elim (search_slots key keys 0 none) [
  | present ↦ (keys, true)
  | absent none ↦ (keys, false)
  | absent (some i) ↦ (set keys i key, true)
]

-- The last entry moves to the front of those that were behind the removed one.
pub last_first : Release → List Release → List Release
last_first r [] = r ∷ []
last_first r (s ∷ rs) = elim (last_first s rs) [ [] ↦ [] | l ∷ others ↦ l ∷ r ∷ others ]

-- The entries behind a removed one, with the last one in its place.
pub close_gap : List Release → List Release
close_gap [] = []
close_gap (r ∷ rs) = last_first r rs

-- The first entry of the key goes, and the last entry takes its place.
pub kb_cancel_release : ℕ → List Release → List Release
kb_cancel_release key [] = []
kb_cancel_release key (r ∷ rs) =
    let rest = kb_cancel_release key rs in if r.key == key then close_gap rs else r ∷ rest

-- The loop of `act_kb_up`: the first slot with the key is emptied.
pub clear_slot : ℕ → List ℕ → List ℕ
clear_slot key [] = []
clear_slot key (k ∷ ks) = let rest = clear_slot key ks in if k == key then 0 ∷ ks else k ∷ rest

-- The key goes into the state; `none` where there is no room for it.
pub hold : Keyboard → ℕ → Option Keyboard
hold kb key =
    if is_modifier key
    then some (record kb { modifier = bit_or kb.modifier (modifier_bit key) % 256 })
    else (let (keys, done) = kb_insert key kb.keys in
        if done then some (record kb { keys = keys }) else none)

-- True for the return of 0, false for that of -1.
pub act_kb_down : Keyboard → ℕ → Keyboard × List Snapshot × Bool
act_kb_down kb key =
    if key == 0
    then (kb, [], false)
    else (let cancelled : Keyboard = record kb { releases = kb_cancel_release key kb.releases } in
        elim (hold cancelled key) [
          | none ↦ (cancelled, [], false)
          | some held ↦ (held, snapshot held ∷ [], true)
        ])

pub let_go : Keyboard → ℕ → Keyboard
let_go kb key =
    if is_modifier key
    then record kb { modifier = bit_and kb.modifier (255 - modifier_bit key) }
    else record kb { keys = clear_slot key kb.keys }

pub act_kb_up : Keyboard → ℕ → Keyboard × List Snapshot
act_kb_up kb key =
    let up = let_go (record kb { releases = kb_cancel_release key kb.releases }) key in
    (up, snapshot up ∷ [])

-- `now` is what `millis` returns.
pub act_kb_press : Keyboard → ℕ → ℕ → ℕ → Keyboard × List Snapshot
act_kb_press kb key delay_ms now = if key == 0 then (kb, []) else elim (hold kb key) [
  | none ↦ (kb, [])
  | some held ↦
      let releases = kb_cancel_release key held.releases in
      let entry : Release = record {
        key = key;
        at = (now + (if ltb 0x7fffffff delay_ms then 0x7fffffff else delay_ms)) % 2 ^ 32;
      } in
      (
        record held {
          releases = if ltb (length releases) 14 then releases ++ (entry ∷ []) else releases;
        },
        snapshot held ∷ [],
      )
]

-- The loop of `act_kb_release_tick` on fuel: the loop ends at the end of the entries.
unfoldable pub release_loop : ℕ → Keyboard → ℕ → ℕ → Keyboard × List Snapshot
release_loop zero kb i now = (kb, [])
release_loop (suc fuel) kb i now = elim (get_elem? kb.releases i) [
  | none ↦ (kb, [])
  | some r ↦ elim (time_deadline_reached now r.at) [
    | true ↦
        let (up, s) = act_kb_up kb r.key in
        let (end, rest) = release_loop fuel up i now in (end, s ++ rest)
    | false ↦ release_loop fuel kb (i + 1) now
  ]
]

unfoldable pub act_kb_release_tick : Keyboard → ℕ → Keyboard × List Snapshot
act_kb_release_tick kb now = release_loop (length kb.releases) kb 0 now

-- The loop of `act_kb_isdown` over the slots.
pub in_slot : ℕ → List ℕ → Bool
in_slot key [] = false
in_slot key (k ∷ ks) = let rest = in_slot key ks in if k == key then true else rest

pub act_kb_isdown : Keyboard → ℕ → Bool
act_kb_isdown kb key =
    if is_modifier key
    then not (bit_and kb.modifier (modifier_bit key) == 0)
    else in_slot key kb.keys

pub act_kb_init : Keyboard → Keyboard × List Snapshot
act_kb_init kb =
    let clear : Keyboard = record { modifier = 0; keys = replicate 6 0; releases = [] } in
    (clear, snapshot clear ∷ [])
