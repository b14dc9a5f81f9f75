-- ===== src/Pool/Leaks.antt =====
-- CPPAFKThreadpool.cpp: what becomes of a session that is cancelled.
use mathlib.Core.Path.{subst}
use asyncflow_cpp.Common.{
  ℕ, ◌≡◌, ◌≢◌, sym, ap, ◌∙◌, true, List, [], ◌∷◌, ◌++◌, Bool-cases, inl, inr, arith, Ptr, done,
  bind-done, done-inj,
}
use asyncflow_cpp.Session
use asyncflow_cpp.Session.{Session}
use asyncflow_cpp.Composing.{Flushed}
use asyncflow_cpp.Composing.Turn.{Turn}
use asyncflow_cpp.Composing.Select.{Status, select}
use asyncflow_cpp.Batching.{Wrap}
use asyncflow_cpp.Pool.{Pool}
use asyncflow_cpp.Pool.Scheduling.{Choice, idle, cancelled, paused, selects, turn}
use asyncflow_cpp.Pool.Control.{collect}
use asyncflow_cpp.Pool.Turns.{IsRunning, Answers, turn_lem}
use asyncflow_cpp.Pool.Lifecycle.{IsAbsent}
use asyncflow_cpp.Pool.Worker.{
  Setting, clean_up, serve_session, serve_chosen, chosen, Workers, Step, disposes, calls, looks,
  serves, Works, rests, works,
}
use asyncflow_cpp.Pool.Calling.{IsLost, IsLost-store, Calls-IsLost}
use asyncflow_cpp.Pool.Cleaning.{IsAbsent-append, clean_up_lem}

IsAbsent-split :
    (a b : Ptr) (xs ys : List Ptr) → IsAbsent a (xs ++ b ∷ ys) → (b ≢ a) × IsAbsent a (xs ++ ys)
IsAbsent-split a b [] ys h = h
IsAbsent-split a b (x ∷ xs) ys h =
    let (other, others) = IsAbsent-split a b xs ys h.1 in (other, (h.0, others))

module _ {C : Type 0} where
  clean_up-IsLost :
      (a : Ptr) (p q : Pool C) (freed : List Ptr)
      → IsLost a p
      → clean_up p ≡ done (q, freed)
      → IsAbsent a freed × IsLost a q
  clean_up-IsLost a p q freed v e =
      let w = clean_up_lem p q freed e in
      (
        w.frees a v.unmarked,
        IsLost-store a p q v (ap (λ g. g a) w.same_store) (w.keeps_running v.running),
      )

  pub collect-other :
      (address : Wrap Ptr → Ptr) (a b : Ptr) (p : Pool C) (f : Flushed C)
      → b ≢ a
      → (collect address b f p).store a ≡ p.store a
  unfolding collect
  collect-other address a b p f h = ground (arith, h)

  pub collect-IsRunning :
      (address : Wrap Ptr → Ptr) (b : Ptr) (p : Pool C) (f : Flushed C)
      → IsRunning p
      → IsRunning (collect address b f p)
  unfolding collect
  collect-IsRunning address b p f v = record { some_cpu = v.some_cpu; agree = v.agree }

  serve_session-IsLost :
      (v : Setting C) (a b : Ptr) (p q : Pool C)
      → IsLost a p
      → b ≢ a
      → serve_session v b p ≡ done q
      → IsLost a q
  unfolding serve_session
  serve_session-IsLost v a b p q lost other e =
      let begun : Turn C = record {
        state = p.store b;
        user_data = [];
        wrappers = [];
        calls = [];
      } in
      let left : Turn C × Status → Pool C = λ t.
        collect v.address b
          (record { state = t.0.state; user_data = t.0.user_data; wrappers = t.0.wrappers }) p in
      let (t, _, e') =
        bind-done (select v.code v.garbage 0 v.fuel begun) (λ t. done (left t)) q e in
      subst (IsLost a) (done-inj (left t) q e') (
        IsLost-store a p (left t) lost (collect-other v.address a b p _ other)
          (collect-IsRunning v.address b p _ lost.running))

  serve_chosen-IsLost :
      (v : Setting C) (a b : Ptr) (p q : Pool C)
      → IsLost a p
      → b ≢ a
      → serve_chosen v b p ≡ done q
      → IsLost a q
  unfolding serve_chosen
  serve_chosen-IsLost v a b p q lost other e = elim (Bool-cases (Session.is_paused (p.store b))) [
    | inl stopped ↦
        let still : serve_chosen v b p ≡ done p = simp stopped in
        subst (IsLost a) (done-inj p q (sym still ∙ e)) lost
    | inr running ↦
        let served : serve_chosen v b p ≡ serve_session v b p = simp running in
        serve_session-IsLost v a b p q lost other (sym served ∙ e)
  ]

  -- No worker chooses a session that is asked to stop.
  chosen-IsAbsent :
      (a : Ptr) (selector : ℕ) (p q : Pool C) (c : Choice)
      → Answers selector p q c
      → Session.cancellation_requested (p.store a) ≡ true
      → IsAbsent a (chosen c)
  unfolding chosen
  chosen-IsAbsent a selector p q idle h asked = tt
  chosen-IsAbsent a selector p q (cancelled b) h asked = tt
  chosen-IsAbsent a selector p q (paused b) h asked =
      ((λ e. absurd (ground (arith, h, asked, e))), tt)
  chosen-IsAbsent a selector p q (selects b) h asked =
      ((λ e. absurd (ground (arith, h, asked, e))), tt)

  -- The session is lost, and no worker has chosen it.
  abbrev pub IsForgotten : Ptr → Workers C → Type 0
  IsForgotten a s = IsLost a s.pool × IsAbsent a s.waiting

  turn-IsForgotten :
      (a : Ptr) (selector slot next : ℕ) (s : Workers C) (q : Pool C) (c : Choice)
      → IsForgotten a s
      → turn selector slot s.pool ≡ done (q, next, c)
      → IsForgotten a (record { pool = q; waiting = s.waiting ++ chosen c })
  turn-IsForgotten a selector slot next s q c (lost, absent) e =
      let (r, k, d, turned, answers, keeps) = turn_lem selector slot s.pool lost.running in
      let none_more = chosen-IsAbsent a selector s.pool r d answers lost.asked in
      subst (λ z. IsForgotten a (record { pool = z.0; waiting = s.waiting ++ chosen z.2 }))
        (done-inj (r, k, d) (q, next, c) (sym turned ∙ e))
        (
          IsLost-store a s.pool r lost (ap (λ g. g a) keeps.same_store) keeps.still,
          IsAbsent-append a s.waiting (chosen d) absent none_more,
        )

  Step-IsForgotten :
      (v : Setting C) (a : Ptr) (s : Workers C) (freed : List Ptr) (t : Workers C)
      → IsForgotten a s
      → Step v s freed t
      → IsAbsent a freed × IsForgotten a t
  Step-IsForgotten v a s _ _ (lost, absent) (disposes {q} {freed} e) =
      let (spared, still) = clean_up-IsLost a s.pool q freed lost e in (spared, (still, absent))
  Step-IsForgotten v a s _ _ (lost, absent) (calls {q} c) =
      (tt, (Calls-IsLost a s.pool q lost c, absent))
  Step-IsForgotten v a s _ _ h (looks {q} {c} selector slot next e) =
      (tt, turn-IsForgotten a selector slot next s q c h e)
  Step-IsForgotten v a s _ _ (lost, absent) (serves {q} b before after e served) =
      let (other, others) = IsAbsent-split a b before after (subst (IsAbsent a) e absent) in
      (tt, (serve_chosen-IsLost v a b s.pool q lost other served, others))

  -- A session of a running pool that someone asked to cancel, that no turn of its own has marked, and
  -- that no worker has chosen and not served yet, is never deleted, however the workers interleave in
  -- disposing, choosing sessions and serving them, and callers in pausing, resuming, cancelling and
  -- casting to any session: it stays unmarked, since no worker chooses it any more, and so no disposal
  -- deletes it.
  pub Works-IsForgotten :
      (v : Setting C) (a : Ptr) (s t : Workers C) (freed : List Ptr)
      → IsForgotten a s
      → Works v s freed t
      → IsAbsent a freed × IsForgotten a t
  Works-IsForgotten v a s _ _ h rests = (tt, h)
  Works-IsForgotten v a s u _ h (works {fs} {gs} {t} before now) =
      let (spared, h1) = Works-IsForgotten v a s t fs h before in
      let (spared', h2) = Step-IsForgotten v a t gs u h1 now in
      (IsAbsent-append a fs gs spared spared', h2)
