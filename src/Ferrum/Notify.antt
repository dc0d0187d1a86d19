-- ===== src/Ferrum/Notify.antt =====
-- src/ferrum.c: the hooks that the merge calls.
use hurra_v.Base.{ℕ, Bool, true, false, not, ◌||◌}
use hurra_v.Base.{List, [], ◌∷◌, ◌++◌, leb, ◌==◌, if◌then◌else◌}
use hurra_v.Base.Int.{ℤ, pos, ◌+ℤ◌}
use hurra_v.Base.Text.{ascii}
use hurra_v.Ferrum.Decimal.{format_int}
use hurra_v.Ferrum.Commands.{Ferrum, reply, Outcome, crlf}
use hurra_v.Ferrum.Dispatch.{name_is}

unfoldable pub ferrum_notify_buttons : Ferrum → ℕ → Outcome
ferrum_notify_buttons f bitmap =
    if not f.cb_buttons || bitmap == f.last_buttons
    then (f, [])
    else (record f { last_buttons = bitmap }, reply (ascii "km." ++ (bitmap ∷ crlf)) ∷ [])

-- The catch of motion sums up whether or not the reports are on.
unfoldable pub ferrum_notify_axes : Ferrum → ℤ → ℤ → ℤ → Outcome
ferrum_notify_axes f dx dy scroll =
    let caught =
      if f.catch.active
      then record f {
        catch = record f.catch { accum_x = f.catch.accum_x +ℤ dx; accum_y = f.catch.accum_y +ℤ dy };
      }
      else f in
    (
      caught,
      if f.cb_axes
          then reply (
              ascii "Axes("
              ++ format_int dx
              ++ ascii ", "
              ++ format_int dy
              ++ ascii ", "
              ++ format_int scroll
              ++ ascii ")"
              ++ crlf)
            ∷ []
          else [],
    )

-- The inner loop of the insertion sort: `v` goes behind the entries that are not above it.
unfoldable pub insert : ℕ → List ℕ → List ℕ
insert v [] = v ∷ []
insert v (k ∷ ks) = let rest = insert v ks in if leb k v then k ∷ rest else v ∷ k ∷ ks

unfoldable pub sort_from : List ℕ → List ℕ → List ℕ
sort_from sorted [] = sorted
sort_from sorted (v ∷ ks) = sort_from (insert v sorted) ks

abbrev pub sorted_keys : List ℕ → List ℕ
sorted_keys keys = sort_from [] keys

-- The keys that are down, with a comma between two of them.
unfoldable pub list_keys : Bool → List ℕ → List ℕ
list_keys first [] = []
list_keys first (k ∷ ks) =
    let shown = (if first then [] else ascii ", ") ++ format_int (pos k) in
    let more = list_keys (if k == 0 then first else false) ks in
    if k == 0 then more else shown ++ more

unfoldable pub ferrum_notify_keys : Ferrum → List ℕ → Outcome
ferrum_notify_keys f keys =
    let sorted = sorted_keys keys in
    if not f.cb_keys || name_is sorted f.last_keys then (f, []) else (
      record f { last_keys = sorted },
      reply (ascii "Keys(" ++ list_keys true sorted ++ ascii ")" ++ crlf) ∷ [],
    )
