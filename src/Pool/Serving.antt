-- ===== src/Pool/Serving.antt =====
-- CPPAFKThreadpool.cpp, tworker: what a turn of a session leaves of the pool.
use mathlib.Core.Path.{subst}
use asyncflow_cpp.Common.{
  ℕ, suc, ◌+◌, ◌-◌, ◌≤◌, ◌<◌, ◌≡◌, refl, ap, sym, ◌∙◌, List, [], ◌∷◌, ◌++◌, arith, length, Ptr,
  ptr_item, done, ◌>>=◌, sign_bit, append-nil, append_assoc, length-append,
}
use asyncflow_cpp.Batching.Wf.{items}
use asyncflow_cpp.Queue
use asyncflow_cpp.Queue.{Queue}
use asyncflow_cpp.Hybrid.{Hybrid}
use asyncflow_cpp.ThreadpoolQueue.{minus_one}
use asyncflow_cpp.Session.{Session}
use asyncflow_cpp.Batching.{Wrap}
use asyncflow_cpp.Composing.{Flushed}
use asyncflow_cpp.Composing.Turn.{Turn, if_item}
use asyncflow_cpp.Composing.Select.{Status, has_none, select}
use asyncflow_cpp.Composing.Pipeline.{Runs}
use asyncflow_cpp.Composing.Turns.{all_made, select_lem, leaves}
use asyncflow_cpp.Composing.Serving.{at_work}
use asyncflow_cpp.Composing.Summaries.{null-Summarises}
use asyncflow_cpp.Composing.Starting.{IsFresh, IsReady, first_turn}
use asyncflow_cpp.Composing.Early.{early_turn}
use asyncflow_cpp.Pool.{Pool}
use asyncflow_cpp.Pool.Control.{cast_all, collect}
use asyncflow_cpp.Pool.Worker.{Setting, serve_session}
use asyncflow_cpp.Pool.Store.{write_self}

-- A queue of the collector with room for `n` items more.
pub record HasRoom (n : ℕ) (q : Queue Ptr) : Type 0 where
  pub room : length q.its_q + n ≤ q.max_q_size
  pub bounded : q.max_q_size < sign_bit

pub cast_room :
    (x : Ptr) (n : ℕ) (q : Queue Ptr)
    → HasRoom (suc n) q
    → ((Queue.cast_object x q).0.its_q ≡ q.its_q ++ x ∷ []) × HasRoom n (Queue.cast_object x q).0
unfolding Queue.cast_object
cast_room x n q v = ground (arith, length-append q.its_q (x ∷ []))

cast_all_lem :
    (xs : List Ptr) (q : Queue Ptr)
    → HasRoom (length xs) q
    → ((cast_all xs q).its_q ≡ q.its_q ++ xs)
unfolding cast_all
cast_all_lem [] q v = sym (append-nil q.its_q)
cast_all_lem (x ∷ xs) q v =
    let (put, more) = cast_room x (length xs) q v in
    cast_all_lem xs (Queue.cast_object x q).0 more
    ∙ ap (λ ys. ys ++ xs) put
    ∙ append_assoc q.its_q (x ∷ []) xs

cast_all-nil : (q : Queue Ptr) → cast_all [] q ≡ q
unfolding cast_all
cast_all-nil q = refl

module _ {C : Type 0} where
  pub serve_lem :
      (v : Setting C) (a : Ptr) (p : Pool C) (t : Turn C) (status : Status)
      → select v.code v.garbage 0 v.fuel
          (record { state = p.store a; user_data = []; wrappers = []; calls = [] })
        ≡ done (t, status)
      → serve_session v a p
        ≡ done (
            collect v.address a
              (record { state = t.state; user_data = t.user_data; wrappers = t.wrappers })
              p)
  unfolding serve_session
  serve_lem v a p t status e = rw (e, ◌>>=◌)

  pub collect_lem :
      (address : Wrap Ptr → Ptr) (a : Ptr) (f : Flushed C) (p : Pool C)
      → ((collect address a f p).store a ≡ f.state)
        × ((collect address a f p).all_sessions ≡ p.all_sessions)
        × ((collect address a f p).gc.user_data_collection
            ≡ cast_all f.user_data p.gc.user_data_collection)
  unfolding collect
  collect_lem address a f p = (write_self a f.state p.store, refl, refl)

  -- The pool behind the first turn of a session.
  pub first_served :
      (v : Setting C) (u : Ptr) (us : List Ptr) (a : Ptr) (q : Pool C)
      → 0 < v.fuel
      → v.garbage.occupant ≡ minus_one
      → IsFresh (u ∷ us) (q.store a)
      → (r : Pool C) × (h : Hybrid) × (serve_session v a q ≡ done r)
        × IsReady 0 (u ∷ us) [] (q.store a) (r.store a) h
        × (r.gc.user_data_collection ≡ q.gc.user_data_collection)
        × (r.all_sessions ≡ q.all_sessions)
  first_served v u us a q some_fuel nobody fresh =
      let t0 : Turn C = record { state = q.store a; user_data = []; wrappers = []; calls = [] } in
      let (s, h, turned, ready) = first_turn v.code v.garbage 0 (v.fuel - 1) u us t0 fresh nobody in
      let enough : suc (v.fuel - 1) ≡ v.fuel = omega arith in
      let selected : select v.code v.garbage 0 v.fuel t0
          ≡ done (record t0 { state = s }, has_none) =
        subst (λ k. select v.code v.garbage 0 k t0 ≡ done (record t0 { state = s }, has_none))
          enough turned in
      let left : Flushed C = record { state = s; user_data = []; wrappers = [] } in
      let (stored, sessions, gc) = collect_lem v.address a left q in
      (
        collect v.address a left q,
        h,
        serve_lem v a q (record t0 { state = s }) has_none selected,
        subst (λ r. IsReady 0 (u ∷ us) [] (q.store a) r h) (sym stored) ready,
        gc ∙ cast_all-nil _,
        sessions,
      )

  -- A session that is ready is ready behind its turn, with no item left.
  pub next_left :
      (v : Setting C) (f : Ptr → Ptr → Ptr) (us xs : List Ptr) (a : Ptr) {n : ℕ} (p : Pool C)
      (s : Session C) (h : Hybrid)
      → Runs v.code f
      → n < sign_bit
      → length xs < v.fuel
      → s.queue_zero.its_q ≡ []
      → IsReady n us xs s (p.store a) h
      → (r : Pool C) × (k : Hybrid) × (serve_session v a p ≡ done r)
        × IsReady n us [] s (r.store a) k
  next_left v f us xs a {n} p s h runs lt fuel zero w =
      let t0 : Turn C = record { state = p.store a; user_data = []; wrappers = []; calls = [] } in
      let (t, k, c, turned, _, same, ordered, nobody, nil, _) =
        leaves v.code f if_item v.garbage 0 v.fuel us t0 h lt runs (null-Summarises v.code)
          w.at_work w.nobody w.running w.goes_on (ap (λ z. z.its_q) w.early ∙ zero)
          (omega (arith, fuel, ap length w.holds)) in
      let left : Flushed C = record {
        state = t.state;
        user_data = t.user_data;
        wrappers = t.wrappers;
      } in
      let (kept, _, _) = collect_lem v.address a left p in
      (
        collect v.address a left p,
        k,
        serve_lem v a p t has_none turned,
        subst (λ r. IsReady n us [] s r k) (sym (kept ∙ same))
            (record {
              at_work = at_work v.code f us (p.store a) h k c w.at_work ordered;
              nobody = nobody;
              holds = nil;
              running = w.running;
              goes_on = w.goes_on;
              unmarked = w.unmarked;
              early = w.early;
            }),
      )

  -- The pool behind a turn of a session that is ready.
  pub next_served :
      (v : Setting C) (f : Ptr → Ptr → Ptr) (us xs : List Ptr) (a : Ptr) {n : ℕ} (p : Pool C)
      (s : Session C) (h : Hybrid)
      → Runs v.code f
      → n < sign_bit
      → length xs < v.fuel
      → s.queue_zero.its_q ≡ []
      → IsReady n us xs s (p.store a) h
      → HasRoom (length (all_made v.code f us xs)) p.gc.user_data_collection
      → (r : Pool C) × (k : Hybrid) × (serve_session v a p ≡ done r)
        × (r.gc.user_data_collection.its_q
            ≡ p.gc.user_data_collection.its_q ++ all_made v.code f us xs)
        × ((r.store a).data_queues ≡ k ∷ [])
        × (items k.reg_q ≡ [])
  next_served v f us xs a p s h runs lt fuel zero w room =
      let t0 : Turn C = record { state = p.store a; user_data = []; wrappers = []; calls = [] } in
      let (t, k, turned, out, queue, nil, _) =
        select_lem v.code f v.garbage 0 v.fuel us t0 h lt runs w.at_work w.nobody w.running
          w.goes_on (ap (λ z. z.its_q) w.early ∙ zero) (omega (arith, fuel, ap length w.holds)) in
      let left : Flushed C = record {
        state = t.state;
        user_data = t.user_data;
        wrappers = t.wrappers;
      } in
      let (kept, _, collected) = collect_lem v.address a left p in
      let made : t.user_data ≡ all_made v.code f us xs = out ∙ ap (all_made v.code f us) w.holds in
      (
        collect v.address a left p,
        k,
        serve_lem v a p t has_none turned,
        ap (λ z. z.its_q) (collected ∙ ap (λ ys. cast_all ys p.gc.user_data_collection) made)
            ∙ cast_all_lem (all_made v.code f us xs) p.gc.user_data_collection room,
        ap (λ z. z.data_queues) kept ∙ queue,
        nil,
      )

  -- The pool behind a turn of a session that holds items in its first queue alone.
  pub early_served :
      (v : Setting C) (us : List Ptr) (a : Ptr) {n : ℕ} (s : Session C) (p : Pool C) (h : Hybrid)
      → 0 < v.fuel
      → IsReady n us [] s (p.store a) h
      → 0 < length (p.store a).queue_zero.its_q
      → (r : Pool C) × (k : Hybrid) × (serve_session v a p ≡ done r)
        × ((r.store a).queue_zero.its_q ≡ [])
        × ((r.store a).data_queues ≡ k ∷ [])
        × (items k.reg_q ≡ [])
        × (r.gc.user_data_collection ≡ p.gc.user_data_collection)
  early_served v us a s p h some_fuel ready l =
      let t0 : Turn C = record { state = p.store a; user_data = []; wrappers = []; calls = [] } in
      let (r, k, turned, zero, queue, nil) =
        early_turn v.code v.garbage 0 (v.fuel - 1) us s t0 h ready l in
      let enough : suc (v.fuel - 1) ≡ v.fuel = omega arith in
      let selected : select v.code v.garbage 0 v.fuel t0
          ≡ done (record t0 { state = r }, has_none) =
        subst (λ j. select v.code v.garbage 0 j t0 ≡ done (record t0 { state = r }, has_none))
          enough turned in
      let left : Flushed C = record { state = r; user_data = []; wrappers = [] } in
      let (stored, _, gc) = collect_lem v.address a left p in
      (
        collect v.address a left p,
        k,
        serve_lem v a p (record t0 { state = r }) has_none selected,
        ap (λ z. z.queue_zero.its_q) stored ∙ zero,
        ap (λ z. z.data_queues) stored ∙ queue,
        nil,
        gc ∙ cast_all-nil _,
      )
