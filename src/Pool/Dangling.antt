-- ===== src/Pool/Dangling.antt =====
-- CPPAFKThreadpool.cpp: a session that is cancelled between a worker's choice of it and its turn.
use mathlib.Core.List.{Mem}
use mathlib.Core.Option.{some-injective}
use asyncflow_cpp.Common.{
  ℕ, ◌<◌, ◌≡◌, ◌≢◌, inl, inr, ap, sym, ◌∙◌, true, false, List, arith, length, get_elem?, Ptr, some,
  done, sign_bit,
}
use asyncflow_cpp.Hybrid.{Hybrid}
use asyncflow_cpp.Session
use asyncflow_cpp.Session.{Session}
use asyncflow_cpp.Pool.{Pool}
use asyncflow_cpp.Pool.Scheduling.{Choice, idle, cancelled, paused, selects, turn}
use asyncflow_cpp.Pool.Control.{cancel_session}
use asyncflow_cpp.Pool.Shares.{get_elem-some}
use asyncflow_cpp.Pool.Turns.{Answers, turn_lem}
use asyncflow_cpp.Pool.Worker.{Setting, clean_up, serve_session}
use asyncflow_cpp.Pool.Deleting.{disposed}
use asyncflow_cpp.Pool.Dooming.{IsCancellable, Keeps-IsCancellable, served_cancelled}

module _ {C : Type 0} where
  -- A session that a worker is about to choose.
  pub record IsChosen (n id selector : ℕ) (a : Ptr) (h : Hybrid) (p : Pool C) : Type 0 where
    pub counted : p.tpcfg.required_threads_count ≢ 0
    pub listed : get_elem? p.online_sessions selector ≡ some a
    pub not_asked : Session.cancellation_requested (p.store a) ≡ false
    pub cancellable : IsCancellable n id a h p

  -- The worker does choose it.
  chosen :
      {n id selector : ℕ} {a : Ptr} {h : Hybrid} (p q : Pool C) (c : Choice)
      → IsChosen n id selector a h p
      → Answers selector p q c
      → (c ≡ selects a) × (q.online_sessions ≡ p.online_sessions)
  chosen p q idle v (inl none_left, same) = absurd (v.counted none_left)
  chosen {selector = selector} {a = a} p q idle v (inr beyond, same) =
      absurd (omega (arith, beyond, get_elem-some p.online_sessions selector a v.listed))
  chosen {a = a} p q (cancelled b) v (listed, asked, _) =
      let one = some-injective b a (sym listed ∙ v.listed) in
      let here = ap (λ x. Session.cancellation_requested (p.store x)) one in
      absurd (ground (arith, asked, v.not_asked, here))
  chosen {a = a} p q (paused b) v (listed, not_asked, stopped, same) =
      let one = some-injective b a (sym listed ∙ v.listed) in
      let here = ap (λ x. (p.store x).paused) one in
      absurd (ground (arith, stopped, v.cancellable.not_paused, here))
  chosen {a = a} p q (selects b) v (listed, not_asked, running, same) =
      (ap selects (some-injective b a (sym listed ∙ v.listed)), same)

  -- The next worker at the index takes it too.
  taken_again :
      (selector : ℕ) (a : Ptr) (p q : Pool C) (c : Choice)
      → p.tpcfg.required_threads_count ≢ 0
      → get_elem? p.online_sessions selector ≡ some a
      → Session.cancellation_requested (p.store a) ≡ true
      → Answers selector p q c
      → c ≡ cancelled a
  taken_again selector a p q idle n l asked (inl none_left, same) = absurd (n none_left)
  taken_again selector a p q idle n l asked (inr beyond, same) =
      absurd (omega (arith, beyond, get_elem-some p.online_sessions selector a l))
  taken_again selector a p q (cancelled b) n l asked (listed, _, _) =
      ap cancelled (some-injective b a (sym listed ∙ l))
  taken_again selector a p q (paused b) n l asked (listed, not_asked, _, _) =
      let one = some-injective b a (sym listed ∙ l) in
      let here = ap (λ x. Session.cancellation_requested (p.store x)) one in
      absurd (ground (arith, asked, not_asked, here))
  taken_again selector a p q (selects b) n l asked (listed, not_asked, _, _) =
      let one = some-injective b a (sym listed ∙ l) in
      let here = ap (λ x. Session.cancellation_requested (p.store x)) one in
      absurd (ground (arith, asked, not_asked, here))

  -- A worker chooses a session that nobody has asked to stop; before its turn, another thread cancels the
  -- session. The turn empties the session's queue and marks it for the collector; the next worker
  -- that looks for what to do first disposes, and so deletes the session, and then, at an index at
  -- which the session still stands in the list of those to serve, reads the flags of the deleted
  -- object.
  pub cancelled_dangles :
      {n : ℕ} (w : Setting C) (id selector slot : ℕ) (a : Ptr) (p : Pool C) (h : Hybrid)
      → n < sign_bit
      → IsChosen n id selector a h p
      → (q : Pool C) × (s : ℕ) × (turn selector slot p ≡ done (q, s, selects a))
        × ((r : Pool C) × (serve_session w a (cancel_session id q).0 ≡ done r)
            × ((m : Pool C) × (freed : List Ptr) × (clean_up r ≡ done (m, freed))
                × Mem a freed
                × ((t : Pool C) × (k : ℕ) × (turn selector s m ≡ done (t, k, cancelled a)))))
  cancelled_dangles w id selector slot a p h lt v =
      let (q, s, c, turned, answers, keeps) = turn_lem selector slot p v.cancellable.running in
      let (picked, same_list) = chosen p q c v answers in
      let (r, served, doomed) =
        served_cancelled w id a h q lt (Keeps-IsCancellable p q keeps v.cancellable) in
      let (m, freed, cleaned, gone, same_store, same_online, same_cfg, still) =
        disposed r a q.gc.killed_sessions.its_q doomed.plain doomed.nobody doomed.killed
          (Keeps-IsCancellable p q keeps v.cancellable).few doomed.marked in
      let (t, k, c', turned', answers', _) = turn_lem selector s m (still doomed.running) in
      let list : m.online_sessions ≡ p.online_sessions = same_online ∙ doomed.listed ∙ same_list in
      let listed : get_elem? m.online_sessions selector ≡ some a =
        ap (λ xs. get_elem? xs selector) list ∙ v.listed in
      let counted : m.tpcfg.required_threads_count ≡ length p.online_sessions =
        ap (λ g. g.required_threads_count) (same_cfg ∙ doomed.counted)
        ∙ keeps.counted
        ∙ ap length same_list in
      let some_left : m.tpcfg.required_threads_count ≢ 0 =
        λ e. omega (arith, counted, e, get_elem-some p.online_sessions selector a v.listed) in
      let again =
        taken_again selector a m t c' some_left listed
          (ap (λ f. Session.cancellation_requested (f a)) same_store ∙ doomed.asked) answers' in
      (
        q,
        s,
        turned ∙ ap (λ x. done (q, s, x)) picked,
        (r, served, (m, freed, cleaned, gone, (t, k, turned' ∙ ap (λ x. done (t, k, x)) again))),
      )
