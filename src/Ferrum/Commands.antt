-- ===== src/Ferrum/Commands.antt =====
-- src/ferrum.c: the handlers of the commands, and the dispatch by name.
use hurra_v.Base.{
  ℕ, ◌+◌, ◌-◌, ◌%◌, ◌^◌, Bool, true, false, ◌||◌, not, bit_and, bit_or, Option, none, some,
}
use hurra_v.Base.{List, [], ◌∷◌, ◌++◌, map, length, replicate, ltb, ◌==◌, if◌then◌else◌}
use hurra_v.Base.Int.{ℤ, pos, is_zero, clamp, to_word, int_eq, lt_int}
use hurra_v.Actions.Keys.{
  Snapshot, act_kb_down, act_kb_up, act_kb_press, act_kb_isdown, act_kb_init,
}
use hurra_v.Actions.Keys.{Keyboard}
use hurra_v.Actions.Masks.{act_kb_mask, act_kb_mask_get}
use hurra_v.Actions.Mouse.{Mouse, Move, act_move, act_button_set, act_click}
use hurra_v.Actions.Pump.{Actions, act_init}
use hurra_v.Ferrum.Decimal.{parse_int, parse_bool, format_int}

-- `s_catch`
pub record Catch : Type 0 where
  pub active : Bool
  pub deadline : ℕ
  pub accum_x : ℤ
  pub accum_y : ℤ

-- The variables of the file, and those of src/actions.c; `line` is `s_line` below `s_line_pos`.
pub record Ferrum : Type 0 where
  pub line : List ℕ
  pub overflow : Bool
  pub last_byte_ms : ℕ
  pub cb_buttons : Bool
  pub cb_axes : Bool
  pub cb_keys : Bool
  pub catch : Catch
  pub last_keys : List ℕ
  pub last_buttons : ℕ
  pub actions : Actions

-- What a command does outside: a reply, an injected move or keyboard state, a new baud rate.
pub data Effect : Type 0 where
  reply : List ℕ → Effect
  moved : Move → Effect
  typed : Snapshot → Effect
  set_baud : ℕ → Effect

abbrev pub Outcome : Type 0
Outcome = Ferrum × List Effect

abbrev pub crlf : List ℕ
crlf = b'\r' ∷ b'\n' ∷ []

abbrev pub emit_bool : Bool → List Effect
emit_bool v = reply ((if v then b'1' else b'0') ∷ crlf) ∷ []

abbrev pub emit_pair : ℤ → ℤ → List Effect
emit_pair x y =
    reply ((b'(' ∷ []) ++ format_int x ++ (b',' ∷ b' ' ∷ []) ++ format_int y ++ (b')' ∷ []) ++ crlf)
    ∷ []

unfoldable pub emit_catch_result : Ferrum → Outcome
emit_catch_result f = (
  record f { catch = record f.catch { accum_x = pos 0; accum_y = pos 0 } },
  emit_pair f.catch.accum_x f.catch.accum_y,
)

abbrev pub with_mouse : Ferrum → Mouse × List Move → Outcome
with_mouse f q = (record f { actions = record f.actions { mouse = q.0 } }, map moved q.1)

abbrev pub with_keys : Ferrum → Keyboard × List Snapshot → Outcome
with_keys f q = (record f { actions = record f.actions { keyboard = q.0 } }, map typed q.1)

-- A command that takes one number.
abbrev pub with_int : Ferrum → List (List ℕ) → (ℤ → Outcome) → Outcome
with_int f (a ∷ []) go = elim (parse_int a) [ none ↦ (f, []) | some k ↦ go k ]
with_int f _ go = (f, [])

-- A command that reads a flag without a number, and sets it with 0 or 1.
abbrev pub with_flag : Ferrum → List (List ℕ) → Bool → (Bool → Outcome) → Outcome
with_flag f [] on go = (f, emit_bool on)
with_flag f (a ∷ args) on go =
    with_int f (a ∷ args)
      λ s. if is_zero s then go false else if int_eq s (pos 1) then go true else (f, [])

unfoldable pub cmd_version : Ferrum → Outcome
cmd_version f = (
  f,
  reply (
        (b'k' ∷ b'm' ∷ b'b' ∷ b'o' ∷ b'x' ∷ b':' ∷ b' ' ∷ [])
        ++ (b'F' ∷ b'e' ∷ b'r' ∷ b'r' ∷ b'u' ∷ b'm' ∷ [])
        ++ crlf)
      ∷ [],
)

-- `filter` is the streaming filter of src/actions.c, if one is set.
unfoldable pub cmd_move : Option (ℤ × ℤ → ℤ × ℤ) → Ferrum → List (List ℕ) → Outcome
cmd_move filter f (a ∷ b ∷ []) = elim (parse_int a) [
  | none ↦ (f, [])
  | some x ↦ elim (parse_int b) [
    | none ↦ (f, [])
    | some y ↦ with_mouse f (act_move filter f.actions.mouse (clamp 0x7fff x) (clamp 0x7fff y))
  ]
]
cmd_move filter f _ = (f, [])

unfoldable pub cmd_button : Ferrum → ℕ → List (List ℕ) → Outcome
cmd_button f mask args = with_flag f args (not (bit_and f.actions.mouse.buttons mask == 0)) λ on.
    let q = act_button_set f.actions.mouse mask (if on then 1 else 0) in with_mouse f (q.0, q.1)

unfoldable pub cmd_click : Ferrum → List (List ℕ) → ℕ → Outcome
cmd_click f args now = with_int f args λ b.
    if lt_int b (pos 0) || lt_int (pos 4) b
    then (f, [])
    else with_mouse f (act_click f.actions.mouse (to_word 8 b + 1) 1 0 now)

unfoldable pub cmd_wheel : Ferrum → List (List ℕ) → Outcome
cmd_wheel f args = with_int f args λ n. (
  f,
  moved (record { dx = pos 0; dy = pos 0; buttons = f.actions.mouse.buttons; wheel = clamp 0x7f n })
      ∷ [],
)

unfoldable pub cmd_lock : Ferrum → ℕ → List (List ℕ) → Outcome
cmd_lock f bit args =
    let mask = 2 ^ bit in
    with_flag f args (not (bit_and f.actions.lock_mask mask == 0)) λ on. (
      record f {
        actions = record f.actions {
          lock_mask =
              if on
              then bit_or f.actions.lock_mask mask
              else bit_and f.actions.lock_mask (0xffff - mask);
        };
      },
      [],
    )

-- The duration is cut to a second; a request that is still open is answered first.
unfoldable pub catch_for : Ferrum → ℤ → ℕ → Outcome
catch_for f dur now =
    let ms =
      if lt_int dur (pos 0) then 0 else if lt_int (pos 1000) dur then 1000 else to_word 32 dur in
    (
      record f {
        catch = record {
          active = true;
          deadline = (now + ms) % 2 ^ 32;
          accum_x = pos 0;
          accum_y = pos 0;
        };
      },
      if f.catch.active then (emit_catch_result f).1 else [],
    )

unfoldable pub cmd_catch_xy : Ferrum → List (List ℕ) → ℕ → Outcome
cmd_catch_xy f (a ∷ []) now = with_int f (a ∷ []) λ dur. catch_for f dur now
cmd_catch_xy f (a ∷ b ∷ []) now =
    with_int f (a ∷ []) λ dur. elim (parse_bool b) [ none ↦ (f, []) | some _ ↦ catch_for f dur now ]
cmd_catch_xy f _ now = (f, [])

abbrev pub press_delay : ℕ → ℕ
press_delay now = 75 + now % 51

-- What the three keyboard commands do with a key.
pub data KeyOp : Type 0 where
  key_down key_up key_press : KeyOp

unfoldable pub key_op : KeyOp → Ferrum → ℤ → ℕ → Outcome
key_op key_down f k now =
    let q = act_kb_down f.actions.keyboard (to_word 8 k) in with_keys f (q.0, q.1)
key_op key_up f k now = with_keys f (act_kb_up f.actions.keyboard (to_word 8 k))
key_op key_press f k now =
    with_keys f (act_kb_press f.actions.keyboard (to_word 8 k) (press_delay now) now)

-- `cmd_kb_down`, `cmd_kb_up` and `cmd_kb_press`
unfoldable pub cmd_kb : KeyOp → Ferrum → List (List ℕ) → ℕ → Outcome
cmd_kb op f args now = with_int f args λ k. key_op op f k now

-- All arguments are numbers.
unfoldable pub parse_all : List (List ℕ) → Option (List ℤ)
parse_all [] = some []
parse_all (a ∷ args) = elim (parse_int a) [
  | none ↦ none
  | some k ↦ elim (parse_all args) [ none ↦ none | some ks ↦ some (k ∷ ks) ]
]

unfoldable pub each_key : KeyOp → Ferrum → List ℤ → ℕ → Outcome
each_key op f [] now = (f, [])
each_key op f (k ∷ ks) now =
    let (f1, out) = key_op op f k now in let (f2, rest) = each_key op f1 ks now in (f2, out ++ rest)

-- Nothing is done where one of them is no number.
unfoldable pub cmd_kb_multi : KeyOp → Ferrum → List (List ℕ) → ℕ → Outcome
cmd_kb_multi op f args now =
    if (length args == 0) || ltb 6 (length args)
    then (f, [])
    else elim (parse_all args) [ none ↦ (f, []) | some ks ↦ each_key op f ks now ]

unfoldable pub cmd_kb_isdown : Ferrum → List (List ℕ) → Outcome
cmd_kb_isdown f args =
    with_int f args λ k. (f, emit_bool (act_kb_isdown f.actions.keyboard (to_word 8 k)))

unfoldable pub cmd_kb_mask : Ferrum → List (List ℕ) → Outcome
cmd_kb_mask f (a ∷ b ∷ []) = with_int f (a ∷ []) λ k. with_int f (b ∷ []) λ s. (
  record f {
    actions = record f.actions { masks = act_kb_mask f.actions.masks (to_word 8 k) (to_word 8 s) };
  },
  [],
)
cmd_kb_mask f args =
    with_int f args λ k. (f, emit_bool (not (act_kb_mask_get f.actions.masks (to_word 8 k) == 0)))

unfoldable pub cmd_init : Ferrum → Outcome
cmd_init f =
    let cleared = act_init f.actions in
    with_keys (record f { actions = cleared }) (act_kb_init cleared.keyboard)

-- `cmd_cb_toggle` for the three flags; `km.keys` also makes the next key report a new one.
unfoldable pub toggle_buttons : Ferrum → List (List ℕ) → Outcome
toggle_buttons f args = with_flag f args f.cb_buttons λ on. (record f { cb_buttons = on }, [])

unfoldable pub toggle_axes : Ferrum → List (List ℕ) → Outcome
toggle_axes f args = with_flag f args f.cb_axes λ on. (record f { cb_axes = on }, [])

unfoldable pub toggle_keys : Ferrum → List (List ℕ) → Outcome
toggle_keys f args =
    with_flag f args f.cb_keys λ on. (record f { cb_keys = on; last_keys = replicate 6 0xff }, [])

unfoldable pub cmd_baud : Ferrum → List (List ℕ) → Outcome
cmd_baud f args =
    with_int f args λ n. if lt_int (pos 0) n then (f, set_baud (to_word 32 n) ∷ []) else (f, [])
