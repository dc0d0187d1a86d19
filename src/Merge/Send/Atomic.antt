-- ===== src/Merge/Send/Atomic.antt =====
-- A report that is not sent leaves nothing behind.
use hurra_v.Base.{
  ℕ, ◌≡◌, inl, inr, refl, ap, ap₂, sym, subst, arith, Bool, true, false, not, ◌&&◌, Bool-cases,
}
use hurra_v.Base.{List, ◌==◌, if◌then◌else◌}
use hurra_v.Merge.{Merge}
use hurra_v.Merge.Report.{
  usb_merge_take_injection, settle, usb_merge_report_fast, usb_merge_report_slow, merge_mouse,
}
use hurra_v.Merge.Send.{
  UsbDevice, usb_merge_report, mouse_tx_checkpoint_save, mouse_tx_checkpoint_restore,
  usb_merge_forward_report,
}

-- All that a merge of a mouse report may change is what a checkpoint keeps.
abbrev Undone : Merge → Merge → Type 0
Undone m after = mouse_tx_checkpoint_restore after (mouse_tx_checkpoint_save m) ≡ m

fast-Undone : (m : Merge) (report : List ℕ) → Undone m (usb_merge_report_fast m report).0
unfolding usb_merge_report_fast settle usb_merge_take_injection mouse_tx_checkpoint_save
    mouse_tx_checkpoint_restore
fast-Undone m report = refl

slow-Undone :
    (m : Merge) (report : List ℕ) (len rid doff : ℕ)
    → Undone m (usb_merge_report_slow m report len rid doff).0
unfolding usb_merge_report_slow settle usb_merge_take_injection mouse_tx_checkpoint_save
    mouse_tx_checkpoint_restore
slow-Undone m report len rid doff = refl

same-Undone : (m : Merge) → Undone m m
unfolding mouse_tx_checkpoint_save mouse_tx_checkpoint_restore
same-Undone m = refl

choose : {A : Type 0} (P : A → Type 0) (b : Bool) (x y : A) → P x → P y → P (if b then x else y)
choose P true x y p q = p
choose P false x y p q = q

merge-Undone : (m : Merge) (report : List ℕ) (len : ℕ) → Undone m (merge_mouse m report len).0
unfolding merge_mouse
merge-Undone m report len =
    choose (λ (q : Merge × List ℕ). Undone m q.0) _ _ _
      (choose (λ (q : Merge × List ℕ). Undone m q.0) _ _ _ (fast-Undone m report)
        (slow-Undone m report len _ m.layout.data_off))
      (same-Undone m)

clean_mouse :
    (m : Merge) (report : List ℕ) (len : ℕ)
    → m.inject.mouse_dirty ≡ false
    → merge_mouse m report len ≡ (m, report)
unfolding merge_mouse
clean_mouse m report len d = rw d (ground arith)

-- But for the length of the first mouse report, and with the two variables of the cadence put back.
abbrev put_back : Merge → Merge → Merge
put_back m after = record after {
  merged_this_cycle = m.merged_this_cycle;
  last_merge_ms = m.last_merge_ms;
  report_len = m.report_len;
}

-- What is left of the merged state when it is unwound, with or without a checkpoint.
abbrev unwound : Bool → ℕ → Merge → List ℕ → ℕ → ℕ → Merge
unwound checkpointed iface_protocol m report len now =
    let merged = (usb_merge_report iface_protocol m report len now).0 in
    if checkpointed then mouse_tx_checkpoint_restore merged (mouse_tx_checkpoint_save m) else merged

unwinds_dirty :
    (p : ℕ) (m : Merge) (report : List ℕ) (len now : ℕ)
    → (p == 2) ≡ true
    → put_back m (unwound true p m report len now) ≡ m
unfolding usb_merge_report mouse_tx_checkpoint_save mouse_tx_checkpoint_restore
unwinds_dirty p m report len now e =
    let seen : Merge = record m {
      last_merge_ms = now;
      report_len = if m.report_len == 0 then len else m.report_len;
    } in
    rw e (ap (put_back m) (merge-Undone seen _ len))

unwinds_clean :
    (p : ℕ) (m : Merge) (report : List ℕ) (len now : ℕ)
    → (p == 2) ≡ true
    → m.inject.mouse_dirty ≡ false
    → put_back m (unwound false p m report len now) ≡ m
unfolding usb_merge_report
unwinds_clean p m report len now e d =
    let seen : Merge = record m {
      last_merge_ms = now;
      report_len = if m.report_len == 0 then len else m.report_len;
    } in
    rw e (ap (λ (q : Merge × List ℕ). put_back m q.0) (clean_mouse seen _ len d))

unwinds_other :
    (p : ℕ) (m : Merge) (report : List ℕ) (len now : ℕ)
    → (p == 2) ≡ false
    → put_back m (unwound false p m report len now) ≡ m
unfolding usb_merge_report
unwinds_other p m report len now e = rw e (
    choose (λ (q : Merge × List ℕ). put_back m q.0 ≡ m) ((p == 1) && m.inject.kb_dirty) _ _ refl
      refl)

unwinds :
    (p : ℕ) (m : Merge) (report : List ℕ) (len now : ℕ)
    → put_back m (unwound ((p == 2) && m.inject.mouse_dirty) p m report len now) ≡ m
unwinds p m report len now =
    let P : Bool → Type 0 = λ c. put_back m (unwound c p m report len now) ≡ m in
    elim (Bool-cases (p == 2)) [
      | inr e ↦
          subst P (sym (ap (λ (b : Bool). b && m.inject.mouse_dirty) e))
            (unwinds_other p m report len now e)
      | inl e ↦ elim (Bool-cases m.inject.mouse_dirty) [
        | inl d ↦ subst P (sym (ap₂ (◌&&◌) e d)) (unwinds_dirty p m report len now e)
        | inr d ↦ subst P (sym (ap₂ (◌&&◌) e d)) (unwinds_clean p m report len now e d)
      ]
    ]

-- A conditional that answers false, where its second branch answers true.
refuse :
    {A : Type 0} (says : A → Bool) (P : A → Type 0) (busy taken : Bool) (x y z : A)
    → says y ≡ true
    → P x
    → P z
    → says (if busy then x else if taken then y else z) ≡ false
    → P (if busy then x else if taken then y else z)
refuse says P true taken x y z e p q h = p
refuse says P false false x y z e p q h = q
refuse says P false true x y z e p q h = absurd (clash (says y) e h)
  where
    clash : (b : Bool) → b ≡ true → b ≡ false → ⊥
    clash true e h = ground (arith, h)
    clash false e h = ground (arith, e)

module _ {D : Type 0} (usb : UsbDevice D) where
  -- Whatever the USB device answers: where a report was not forwarded, since the endpoint was busy or the
  -- report was refused, the state of the merge is the one before, but for the length of mouse reports,
  -- which is noted once; no injected input is spent.
  pub forward_refused :
      (m : Merge) (d : D) (dev_ep p : ℕ) (report : List ℕ) (len now : ℕ)
      → (usb_merge_forward_report usb m d dev_ep p report len now).2 ≡ false
      → record (usb_merge_forward_report usb m d dev_ep p report len now).0 {
        report_len = m.report_len;
      }
        ≡ m
  unfolding usb_merge_forward_report
  forward_refused m d dev_ep p report len now h =
      let merged = usb_merge_report p m report len now in
      let answer = usb.send_report d dev_ep merged.1 len in
      let back = unwound ((p == 2) && m.inject.mouse_dirty) p m report len now in
      refuse (λ (q : Merge × D × Bool). q.2)
        (λ (q : Merge × D × Bool). record (q.0) { report_len = m.report_len } ≡ m)
        (not (usb.in_ep_free d dev_ep)) answer.1 (m, d, false) (merged.0, answer.0, true)
        (
          record back { merged_this_cycle = m.merged_this_cycle; last_merge_ms = m.last_merge_ms },
          answer.0,
          false,
        )
        refl refl (unwinds p m report len now) h
