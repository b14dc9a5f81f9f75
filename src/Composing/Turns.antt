-- ===== src/Composing/Turns.antt =====
-- CPPAFKComposingSession.cpp, `select`: that a turn comes back, and what it has made of the items.
use asyncflow_cpp.Common.{
  ℕ, zero, suc, ◌<◌, ◌≡◌, ◌≢◌, null, refl, ap, sym, ◌∙◌, false, List, [], ◌∷◌, ◌++◌, arith, length,
  sign_bit, sle, Ptr, Outcome, done, ◌>>=◌, append_assoc, append-nil, Bool-cases, inl, inr,
}
use asyncflow_cpp.Batching.Wf.{items}
use asyncflow_cpp.ThreadpoolQueue.{minus_one, new_status}
use asyncflow_cpp.Hybrid.{Hybrid}
use asyncflow_cpp.Hybrid.Pulling.{pull_and_occupy_still}
use asyncflow_cpp.Hybrid.Order.{IsOrdered}
use asyncflow_cpp.Session
use asyncflow_cpp.Session.{Session}
use asyncflow_cpp.Composing.{QueueGarbage}
use asyncflow_cpp.Composing.Turn.{UserCode, Turn, if_item}
use asyncflow_cpp.Composing.Pipeline.{Runs}
use asyncflow_cpp.Composing.Select.{Status, has_none, ended, round, rounds, select, wake_up}
use asyncflow_cpp.Composing.Summaries.{summed, Summarises, null-Summarises, summed-Summarises}
use asyncflow_cpp.Composing.Serving.{
  IsAtWork, IsServing, made_with, behind, take_routines_none, round_next,
}

pub wake_up_none :
    {C : Type 0} (s : Session C) → s.paused ≡ false → s.queue_zero.its_q ≡ [] → wake_up s ≡ s
unfolding wake_up Session.adopt_data_from_zero_queue
wake_up_none s p e = simp (p, e)

module _ {C : Type 0} (code : UserCode C) (f : Ptr → Ptr → Ptr) where
  -- What goes to the collector for a list of items.
  abbrev pub all_made_with : (Ptr → List Ptr) → List Ptr → List Ptr → List Ptr
  all_made_with m us [] = []
  all_made_with m us (x ∷ xs) = made_with code f m us x ++ all_made_with m us xs

  abbrev pub all_made : List Ptr → List Ptr → List Ptr
  all_made us xs = all_made_with if_item us xs

  pub round_none :
      {z : Ptr} {n : ℕ} (g : QueueGarbage) (ii : ℕ) (us : List Ptr) (t : Turn C) (h : Hybrid)
      → IsServing z n us t.state h
      → h.occupant ≡ minus_one
      → items h.reg_q ≡ []
      → (h' : Hybrid) × (round code g ii t
          ≡ done (ended (record t { state = record (t.state) { data_queues = h' ∷ [] } }) has_none))
        × IsOrdered n h'
        × (h'.occupant ≡ minus_one)
        × (items h'.reg_q ≡ [])
  unfolding round
  round_none g ii us t h v free e =
      let (got, pulled, invalid, empty, ordered, nobody, nil) =
        pull_and_occupy_still ii h new_status v.ordered (ground (arith, free)) e in
      let routines = take_routines_none code f g t.state v.settled in
      (
        got.state,
        simp (v.not_asked, v.not_flushed, routines, v.one_queue, pulled, invalid, empty),
        ordered,
        nobody ∙ free,
        nil,
      )

  -- What the loop leaves.
  abbrev pub FinishesWith :
      (Ptr → List Ptr) → List Ptr → List Ptr → Turn C → Outcome (Turn C × Status) → Type 0
  FinishesWith m us xs t r =
      (u : Turn C) × (h' : Hybrid) × (r ≡ done (u, has_none))
      × (u.user_data ≡ t.user_data ++ all_made_with m us xs)
      × (u.state.data_queues ≡ h' ∷ [])
      × (items h'.reg_q ≡ [])
      × (u.calls ≡ t.calls)

  abbrev pub Finishes : List Ptr → List Ptr → Turn C → Outcome (Turn C × Status) → Type 0
  Finishes us xs t r = FinishesWith if_item us xs t r

  -- The same, and what is left of the session: all but its data queue and a count.
  abbrev pub Leaves :
      (Ptr → List Ptr) → ℕ → List Ptr → List Ptr → Turn C → Outcome (Turn C × Status) → Type 0
  Leaves m n us xs t r =
      (u : Turn C) × (h' : Hybrid) × (k : ℕ) × (r ≡ done (u, has_none))
      × (u.user_data ≡ t.user_data ++ all_made_with m us xs)
      × (u.state ≡ record (t.state) { data_queues = h' ∷ []; busy_count = k })
      × IsOrdered n h'
      × (h'.occupant ≡ minus_one)
      × (items h'.reg_q ≡ [])
      × (u.calls ≡ t.calls)

  rounds_lem :
      {z : Ptr} (m : Ptr → List Ptr) {n : ℕ} (g : QueueGarbage) (ii fuel : ℕ) (us : List Ptr)
      (t : Turn C) (h : Hybrid) (xs : List Ptr)
      → n < sign_bit
      → Runs code f
      → Summarises code z m
      → IsServing z n us t.state h
      → h.occupant ≡ minus_one
      → items h.reg_q ≡ xs
      → length xs < fuel
      → Leaves m n us xs t (rounds code g ii fuel t)
  unfolding rounds
  rounds_lem m g ii zero us t h xs lt runs sm v free e l = absurd (omega (arith, l))
  rounds_lem m g ii (suc fuel) us t h [] lt runs sm v free e l =
      let (h', last, ordered, nobody, nil) = round_none g ii us t h v free e in
      (
        record t { state = record (t.state) { data_queues = h' ∷ [] } },
        h',
        t.state.busy_count,
        rw (last, ◌>>=◌),
        sym (append-nil t.user_data),
        refl,
        ordered,
        nobody,
        nil,
        refl,
      )
  rounds_lem m g ii (suc fuel) us t h (x ∷ xs) lt runs sm v free e l =
      let (h', one, v', free', left) = round_next code f m g ii us t h x xs lt runs sm v free e in
      let (u, k, c, rest, made, same, ordered, nobody, nil, calls) =
        rounds_lem m g ii fuel us (behind code f m us x h' t) h' xs lt runs sm v' free' left
          (omega (arith, l)) in
      (
        u,
        k,
        c,
        rw (one, ◌>>=◌) rest,
        made ∙ append_assoc t.user_data (made_with code f m us x) (all_made_with m us xs),
        same,
        ordered,
        nobody,
        nil,
        calls,
      )

  pub starts :
      {z : Ptr} {n : ℕ} (g : QueueGarbage) (ii fuel : ℕ) (us : List Ptr) (t : Turn C) (h : Hybrid)
      → IsServing z n us t.state h
      → t.state.paused ≡ false
      → t.state.is_stopped ≡ false
      → t.state.queue_zero.its_q ≡ []
      → select code g ii fuel t ≡ rounds code g ii fuel t
  unfolding select
  starts g ii fuel us t h v p st e =
      let awake = wake_up_none t.state p e in
      elim (Bool-cases (sle t.state.busy_count 0))
        as (λ _. select code g ii fuel t ≡ rounds code g ii fuel t) [
          | inl idle ↦ simp (awake, st, v.not_asked, v.no_condition, idle)
          | inr busy ↦ simp (awake, st, v.not_asked, busy)
        ]

  -- What a turn leaves, by what the summary in use gives the collector.
  pub leaves :
      {z : Ptr} (m : Ptr → List Ptr) {n : ℕ} (g : QueueGarbage) (ii fuel : ℕ) (us : List Ptr)
      (t : Turn C) (h : Hybrid)
      → n < sign_bit
      → Runs code f
      → Summarises code z m
      → IsServing z n us t.state h
      → h.occupant ≡ minus_one
      → t.state.paused ≡ false
      → t.state.is_stopped ≡ false
      → t.state.queue_zero.its_q ≡ []
      → length (items h.reg_q) < fuel
      → Leaves m n us (items h.reg_q) t (select code g ii fuel t)
  leaves m g ii fuel us t h lt runs sm v free p st e l =
      let (u, k, c, rest, made, same, ordered, nobody, nil, calls) =
        rounds_lem m g ii fuel us t h (items h.reg_q) lt runs sm v free refl l in
      (u, k, c, starts g ii fuel us t h v p st e ∙ rest, made, same, ordered, nobody, nil, calls)

  finishes :
      (m : Ptr → List Ptr) {n : ℕ} (us xs : List Ptr) (t : Turn C) (r : Outcome (Turn C × Status))
      → Leaves m n us xs t r
      → FinishesWith m us xs t r
  finishes m us xs t r (u, k, c, turned, made, same, _, _, nil, calls) =
      (u, k, turned, made, ap (λ s. s.data_queues) same, nil, calls)

  -- A turn returns, with more rounds allowed than there are items, where the session is at work,
  -- not paused and not stopped, its first queue is empty, nobody occupies its data queue, and its
  -- routines leave the control block alone. It has taken every item through the routines, one
  -- after the other and oldest first, has given the collector each item that a routine replaced
  -- and then the last result (none for a null pointer), and leaves no item; it calls no handler.
  pub select_lem :
      {n : ℕ} (g : QueueGarbage) (ii fuel : ℕ) (us : List Ptr) (t : Turn C) (h : Hybrid)
      → n < sign_bit
      → Runs code f
      → IsAtWork n us t.state h
      → h.occupant ≡ minus_one
      → t.state.paused ≡ false
      → t.state.is_stopped ≡ false
      → t.state.queue_zero.its_q ≡ []
      → length (items h.reg_q) < fuel
      → Finishes us (items h.reg_q) t (select code g ii fuel t)
  select_lem g ii fuel us t h lt runs v free p st e l =
      finishes if_item us (items h.reg_q) t (select code g ii fuel t)
        (leaves if_item g ii fuel us t h lt runs (null-Summarises code) v free p st e l)

  -- A turn returns, with more rounds allowed than there are items, where the session is at work with
  -- a summary, not paused and not stopped, its first queue is empty, nobody occupies its data queue,
  -- and its routines and the summary leave the control block alone. It has taken every item through
  -- the routines and the last result through the summary, oldest first; the collector gets each item
  -- that a routine replaced, then the last result, and then the summary's result where it is another
  -- one (none for a null pointer). It leaves no item, and calls no handler.
  pub select_with_summary :
      {n : ℕ} (g : QueueGarbage) (ii fuel : ℕ) (z : Ptr) (s : Ptr → Ptr) (us : List Ptr)
      (t : Turn C) (h : Hybrid)
      → n < sign_bit
      → Runs code f
      → z ≢ null
      → code.summary z ≡ (λ x c. (c, s x))
      → IsServing z n us t.state h
      → h.occupant ≡ minus_one
      → t.state.paused ≡ false
      → t.state.is_stopped ≡ false
      → t.state.queue_zero.its_q ≡ []
      → length (items h.reg_q) < fuel
      → FinishesWith (summed s) us (items h.reg_q) t (select code g ii fuel t)
  select_with_summary g ii fuel z s us t h lt runs full same v free p st e l =
      finishes (summed s) us (items h.reg_q) t (select code g ii fuel t) (
        leaves (summed s) g ii fuel us t h lt runs (summed-Summarises code z s full same) v free p
          st e l)
