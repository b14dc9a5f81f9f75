-- ===== src/Composing/Summaries.antt =====
-- CPPAFKComposingSession.cpp, `select`: the summary of an item, with the summary that is in use.
use asyncflow_cpp.Common.{
  ◌≡◌, ap, sym, ◌≢◌, ◌==◌, if◌then◌else◌, true, false, List, ◌++◌, arith, Ptr, null, ptr_item,
}
use asyncflow_cpp.Session
use asyncflow_cpp.Session.{Session, slot, lambda_only, switch}
use asyncflow_cpp.Composing.Turn.{UserCode, Turn, collect, if_item}
use asyncflow_cpp.Composing.Select.{summarise}

-- What a summary gives the collector for a result, and, where there is none, the result.
abbrev pub summed : (Ptr → Ptr) → Ptr → List Ptr
summed g r = if g r == r then if_item r else if_item r ++ if_item (g r)

module _ {C : Type 0} (code : UserCode C) where
  -- What the summary at `z` makes of a result.
  abbrev pub Summarises : Ptr → (Ptr → List Ptr) → Type 0
  Summarises z m =
      (item : Ptr) (t : Turn C)
      → t.state.sum_hnds.reload ≡ false
      → slot t.state.sum_hnds t.state.sum_hnds.index_r ≡ z
      → t.state.autodelete ≡ true
      → summarise code item t ≡ collect (m item) t

  pub null-Summarises : Summarises null if_item
  unfolding summarise Session.switch_summary_handlers switch
  null-Summarises item t r e d = ground (arith, r, e, d)

  pub summed-Summarises :
      (z : Ptr) (g : Ptr → Ptr)
      → z ≢ null
      → code.summary z ≡ (λ x c. (c, g x))
      → Summarises z (summed g)
  unfolding summarise Session.switch_summary_handlers switch collect
  summed-Summarises z g n e item t r s d =
      let full : ptr_item.truthy z ≡ true = ground (arith, n) in
      let called = ap (λ k. k item t.state.cblk) e in
      simp (r, s, full, called, d)
        (ap
          (λ b. collect (summed g item) (record t { state = record (t.state) { autodelete = b } }))
          (sym d))
