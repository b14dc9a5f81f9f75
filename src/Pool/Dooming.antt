-- ===== src/Pool/Dooming.antt =====
-- CPPAFKThreadpool.cpp: the turn of a session that was cancelled when a worker had chosen it.
use mathlib.Core.Path.{subst}
use asyncflow_cpp.Common.{
  ℕ, ◌<◌, ◌≡◌, refl, ap, sym, ◌∙◌, true, false, List, [], ◌∷◌, ◌++◌, length, Ptr, Option, none,
  some, done, sign_bit,
}
use asyncflow_cpp.Registry.{find}
use asyncflow_cpp.ControlBlock
use asyncflow_cpp.Batching.{Wrap}
use asyncflow_cpp.Hybrid.{Hybrid}
use asyncflow_cpp.Collector.{data_releasing_batch_size}
use asyncflow_cpp.Collector.Disposal.{IsCollector}
use asyncflow_cpp.Session
use asyncflow_cpp.Session.{Session}
use asyncflow_cpp.Composing
use asyncflow_cpp.Composing.{Flushed}
use asyncflow_cpp.Composing.Turn.{Turn}
use asyncflow_cpp.Composing.Flushing.{IsFlushable}
use asyncflow_cpp.Composing.Select.{was_cancelled}
use asyncflow_cpp.Composing.Cancelling.{select_cancelled_full, cancel_asks}
use asyncflow_cpp.Pool.{Pool}
use asyncflow_cpp.Pool.Control.{cancel_session, collect}
use asyncflow_cpp.Pool.Turns.{IsRunning, Keeps}
use asyncflow_cpp.Pool.Worker.{Setting, serve_session}
use asyncflow_cpp.Pool.Serving.{HasRoom, serve_lem, collect_lem}
use asyncflow_cpp.Pool.Lifecycle.{cancel_store, cancel_session-IsRunning}
use asyncflow_cpp.Pool.Leaks.{collect-IsRunning}
use asyncflow_cpp.Pool.Deleting.{collect-IsCollector, cancel_session-killed}

module _ {C : Type 0} where
  cancel-IsFlushable :
      {n : ℕ} (s : Session C) (h : Hybrid)
      → IsFlushable n s h
      → IsFlushable n (Composing.cancel s) h
  unfolding Composing.cancel
  cancel-IsFlushable s h v = record {
    one_queue = v.one_queue;
    ordered = v.ordered;
    free = v.free;
    data_items = v.data_items;
    paired = v.paired;
    zero_free = v.zero_free;
    zero_items = v.zero_items;
  }

  cancel_leaves :
      (s : Session C)
      → ((Composing.cancel s).paused ≡ s.paused)
        × ((Composing.cancel s).is_stopped ≡ s.is_stopped)
        × ((Composing.cancel s).queue_zero ≡ s.queue_zero)
  unfolding Composing.cancel
  cancel_leaves s = (refl, refl, refl)

  -- A registered session with one data queue that can be flushed, in a running pool in which nobody
  -- disposes at the moment and whose collector has room.
  pub record IsCancellable (n id : ℕ) (a : Ptr) (h : Hybrid) (p : Pool C) : Type 0 where
    pub running : IsRunning p
    pub registered : find id p.all_sessions ≡ some a
    pub not_paused : (p.store a).paused ≡ false
    pub not_stopped : (p.store a).is_stopped ≡ false
    pub first_nil : (p.store a).queue_zero.its_q ≡ []
    pub queues : IsFlushable n (p.store a) h
    pub plain : IsCollector p.gc
    pub nobody : p.gc.active ≡ false
    pub few : length p.gc.killed_sessions.its_q < data_releasing_batch_size
    pub room : HasRoom 1 p.gc.killed_sessions

  pub Keeps-IsCancellable :
      {n id : ℕ} {a : Ptr} {h : Hybrid} (p q : Pool C)
      → Keeps p q
      → IsCancellable n id a h p
      → IsCancellable n id a h q
  Keeps-IsCancellable {n} {id} {a} {h} p q k v = record {
    running = k.still;
    registered = ap (find id) k.same_sessions ∙ v.registered;
    not_paused = ap (λ f. (f a).paused) k.same_store ∙ v.not_paused;
    not_stopped = ap (λ f. (f a).is_stopped) k.same_store ∙ v.not_stopped;
    first_nil = ap (λ f. (f a).queue_zero.its_q) k.same_store ∙ v.first_nil;
    queues = subst (λ f. IsFlushable n (f a) h) (sym k.same_store) v.queues;
    plain = subst IsCollector (sym k.same_collector) v.plain;
    nobody = ap (λ g. g.active) k.same_collector ∙ v.nobody;
    few =
        subst (λ g. length g.killed_sessions.its_q < data_releasing_batch_size)
          (sym k.same_collector) v.few;
    room = subst (λ g. HasRoom 1 g.killed_sessions) (sym k.same_collector) v.room;
  }

  -- What the turn of a session leaves that was cancelled before it.
  pub record IsDoomed (a : Ptr) (xs : List Ptr) (q r : Pool C) : Type 0 where
    pub running : IsRunning r
    pub plain : IsCollector r.gc
    pub nobody : r.gc.active ≡ false
    pub killed : r.gc.killed_sessions.its_q ≡ xs ++ a ∷ []
    pub listed : r.online_sessions ≡ q.online_sessions
    pub marked : (r.store a).cancelled ≡ true
    pub asked : Session.cancellation_requested (r.store a) ≡ true
    pub counted : r.tpcfg ≡ q.tpcfg

  cancel_session-tpcfg : (id : ℕ) (p : Pool C) → (cancel_session id p).0.tpcfg ≡ p.tpcfg
  unfolding cancel_session
  cancel_session-tpcfg id p = go (find id p.all_sessions) refl
    where
      go : (o : Option Ptr) → find id p.all_sessions ≡ o → (cancel_session id p).0.tpcfg ≡ p.tpcfg
      go none e = rw (e, cancel_session) refl
      go (some a) e = rw (e, cancel_session) refl

  collect-tpcfg :
      (address : Wrap Ptr → Ptr) (a : Ptr) (f : Flushed C) (p : Pool C)
      → (collect address a f p).tpcfg ≡ p.tpcfg
  unfolding collect
  collect-tpcfg address a f p = refl

  pub served_cancelled :
      {n : ℕ} (w : Setting C) (id : ℕ) (a : Ptr) (h : Hybrid) (q : Pool C)
      → n < sign_bit
      → IsCancellable n id a h q
      → (r : Pool C) × (serve_session w a (cancel_session id q).0 ≡ done r)
        × IsDoomed a q.gc.killed_sessions.its_q q r
  unfolding Session.cancellation_requested
  served_cancelled {n} w id a h q lt v =
      let p = (cancel_session id q).0 in
      let s = q.store a in
      let stored : p.store a ≡ Composing.cancel s = cancel_store id a q v.registered in
      let (plain, killed, active, list) =
        cancel_session-killed id a q v.registered v.plain v.room in
      let (kept_paused, kept_stopped, kept_first) = cancel_leaves s in
      let t0 : Turn C = record { state = p.store a; user_data = []; wrappers = []; calls = [] } in
      let (u, k, selected, marked, _, _, _, _, asks) =
        select_cancelled_full w.code w.garbage 0 w.fuel t0 h lt
          (subst (λ x. IsFlushable n x h) (sym stored) (cancel-IsFlushable s h v.queues))
          (ap (λ x. ControlBlock.cancellation_requested x.cblk) stored ∙ cancel_asks s)
          (ap (λ x. x.paused) stored ∙ kept_paused ∙ v.not_paused)
          (ap (λ x. x.is_stopped) stored ∙ kept_stopped ∙ v.not_stopped)
          (ap (λ x. x.queue_zero.its_q) stored ∙ ap (λ z. z.its_q) kept_first ∙ v.first_nil) in
      let f : Flushed C = record {
        state = u.state;
        user_data = u.user_data;
        wrappers = u.wrappers;
      } in
      let (left, _, _) = collect_lem w.address a f p in
      let (plain', same, still, list') = collect-IsCollector w.address a f p plain in
      (
        collect w.address a f p,
        serve_lem w a p u was_cancelled selected,
        record {
          running = collect-IsRunning w.address a p f (cancel_session-IsRunning id q v.running);
          plain = plain';
          nobody = still ∙ active ∙ v.nobody;
          killed = ap (λ g. g.its_q) same ∙ killed;
          listed = list' ∙ list;
          marked = ap (λ x. x.cancelled) left ∙ marked;
          asked = ap (λ x. ControlBlock.cancellation_requested x.cblk) left ∙ asks;
          counted = collect-tpcfg w.address a f p ∙ cancel_session-tpcfg id q;
        },
      )
