-- ===== src/Pool/Among.antt =====
-- CPPAFKThreadpool.cpp: a session among others, from its creation to what its routines made of its items,
-- whatever the other sessions, the workers and the callers do in between.
use mathlib.Core.Path.{subst}
use asyncflow_cpp.Common.{
  ℕ, suc, ◌<◌, ◌≡◌, ◌≢◌, ap, sym, ◌∙◌, List, [], ◌∷◌, ◌++◌, arith, length, Ptr, ptr_item, some,
  done, sign_bit, done-inj,
}
use asyncflow_cpp.ControlBlock
use asyncflow_cpp.Batching.Wf.{items}
use asyncflow_cpp.Hybrid.{Hybrid}
use asyncflow_cpp.ThreadpoolQueue.{minus_one}
use asyncflow_cpp.Session.{Session}
use asyncflow_cpp.Composing
use asyncflow_cpp.Composing.Pipeline.{Runs}
use asyncflow_cpp.Composing.Turns.{all_made}
use asyncflow_cpp.Composing.Starting.{IsFresh, IsReady}
use asyncflow_cpp.Composing.Posting.{post_one}
use asyncflow_cpp.Pool.{Pool, write}
use asyncflow_cpp.Pool.Store.{IsNew, write_self}
use asyncflow_cpp.Pool.Specification.{IsSound}
use asyncflow_cpp.Pool.Sessions.{Params, Fresh, create_composing_session, cast_object_for_session}
use asyncflow_cpp.Pool.Turns.{IsRunning}
use asyncflow_cpp.Pool.Configuring.{IsSimple}
use asyncflow_cpp.Pool.Creation.{IsNewcomer, create_composing_session_lem}
use asyncflow_cpp.Pool.Registering.{create_seen}
use asyncflow_cpp.Pool.Worker.{Setting, serve_session}
use asyncflow_cpp.Pool.Casting.{cast_one}
use asyncflow_cpp.Pool.Serving.{next_left, HasRoom, first_served, next_served}
use asyncflow_cpp.Pool.Lifecycle.{IsAbsent}
use asyncflow_cpp.Pool.Cleaning.{IsAbsent-append}
use asyncflow_cpp.Pool.Frames.{IsHeld}
use asyncflow_cpp.Pool.Sparing.{serve_session-IsHeld}
use asyncflow_cpp.Pool.Interleaving.{
  takes, Others, Others-Spares, Others-IsAbsent, Feeds, idles, feeds,
}

module _ {C : Type 0} (v : Setting C) (id : ℕ) (a : Ptr) where
  cast-IsHeld :
      (x : Ptr) (q : Pool C)
      → id ≢ 0
      → IsHeld id a q
      → let r = (cast_object_for_session id x q).0 in
        IsHeld id a r × (r.store a ≡ (Composing.post_data x (q.store a)).0)
  cast-IsHeld x q n h =
      let s = (Composing.post_data x (q.store a)).0 in
      let next = record q { store = write a s q.store } in
      subst (λ r. IsHeld id a r.0 × (r.0.store a ≡ s)) (sym (cast_one id a x q n h.registered))
        (
          record {
            registered = h.registered;
            sound = record { distinct = h.sound.distinct; keyed = h.sound.keyed };
            running = record { some_cpu = h.running.some_cpu; agree = h.running.agree };
          },
          write_self a s q.store,
        )

  Holds : ℕ → List Ptr → List Ptr → Session C → Pool C → Type 0
  Holds n us xs s r = (k : Hybrid) × IsReady n us xs s (r.store a) k × IsHeld id a r

  spared :
      (n : ℕ) (us xs : List Ptr) (s : Session C) (p : Pool C) (fs : List Ptr) (q : Pool C)
      → Holds n us xs s p
      → Others v id a p fs q
      → IsAbsent a fs × Holds n us xs s q
  unfolding Holds
  spared n us xs s p fs q (k, ready, held) others =
      let w = Others-Spares v id a p fs q held others in
      (
        Others-IsAbsent v id a p fs q held ready.unmarked others,
        (k, subst (λ t. IsReady n us xs s t k) (sym w.same) ready, w.held),
      )

  fed :
      (x : Ptr) {n : ℕ} (us xs : List Ptr) (s : Session C) (q : Pool C)
      → id ≢ 0
      → suc n < sign_bit
      → Holds n us xs s q
      → Holds (suc n) us (xs ++ x ∷ []) s (cast_object_for_session id x q).0
  unfolding Holds
  fed x {n} us xs s q real lt (k, ready, held) =
      let (j, _, next) = post_one x us xs s (q.store a) k lt ready in
      let (held', stored) = cast-IsHeld x q real held in
      (j, subst (λ t. IsReady (suc n) us (xs ++ x ∷ []) s t j) (sym stored) next, held')

  -- A turn of the session, whatever waits.
  taken :
      (f : Ptr → Ptr → Ptr) {n : ℕ} (us xs : List Ptr) (s : Session C) (q r : Pool C)
      → Runs v.code f
      → s.queue_zero.its_q ≡ []
      → n < sign_bit
      → length xs < v.fuel
      → Holds n us xs s q
      → serve_session v a q ≡ done r
      → Holds n us [] s r
  unfolding Holds
  taken f {n} us xs s q r runs zero lt fuel (k, ready, held) e =
      let (r', j, served, next) = next_left v f us xs a q s k runs lt fuel zero ready in
      let same : r' ≡ r = done-inj r' r (sym served ∙ e) in
      (
        j,
        subst (λ x. IsReady n us [] s (x.store a) j) same next,
        serve_session-IsHeld id a v a q r held e,
      )

  module _ (f : Ptr → Ptr → Ptr) (us : List Ptr) (s : Session C) (p : Pool C) (runs : Runs v.code f)
      (real : id ≢ 0) (zero : s.queue_zero.its_q ≡ []) where
    feed_lem :
        (n : ℕ) (xs fs : List Ptr) (r : Pool C)
        → n < sign_bit
        → Holds 0 us [] s p
        → Feeds v id a p n xs fs r
        → IsAbsent a fs × Holds n us xs s r
    feed_lem _ _ fs r lt h (idles others) = spared 0 us [] s p fs r h others
    feed_lem _ _ _ r lt h (feeds {n} {xs} {fs} {gs} {q} x before others) =
        let (safe, holds) = feed_lem n xs fs q (omega (arith, lt)) h before in
        let next = fed x us xs s q real lt holds in
        let (safe', still) =
          spared (suc n) us (xs ++ x ∷ []) s (cast_object_for_session id x q).0 gs r next others in
        (IsAbsent-append a fs gs safe safe', still)
    feed_lem _ _ _ t lt h (takes {n} {xs} {fs} {gs} {q} {r} before fuel e others) =
        let (safe, holds) = feed_lem n xs fs q lt h before in
        let next = taken f us xs s q r runs zero lt fuel holds e in
        let (safe', still) = spared n us [] s r gs t next others in
        (IsAbsent-append a fs gs safe safe', still)

module _ {C : Type 0} where
  -- A session is created under the conditions of `delivered` (its control block asks for nothing,
  -- and no routine touches one), in a running pool that registers nothing twice and has no other
  -- session at its address. Then comes a turn of the session, and then fewer than 2 ^ 63 calls that
  -- cast an item to it, and turns of the session, with fuel for each. Before, between and after
  -- these, in any order and number, other sessions are created at unused addresses, cast to, given
  -- routines, paused, resumed, cancelled, flushed and served, and workers choose sessions and
  -- dispose of others. Where the collector then has room for what the waiting items make, the
  -- session's next turn returns; whatever the others did, it takes exactly the items that were cast
  -- to it since its last turn through the routines, in their order: the collector gets what they
  -- made of them behind what it held when the turn began, and the session holds no item. None of
  -- the disposals deletes the session.
  pub delivered_among :
      (v : Setting C) (f : Ptr → Ptr → Ptr) (u : Ptr) (us : List Ptr) (params : Params C)
      (fresh : Fresh) (p q r t : Pool C) (n : ℕ) (xs fs gs : List Ptr)
      → let id = ControlBlock.get_session_id fresh.block in
        let a = fresh.address in
        Runs v.code f
        → v.garbage.occupant ≡ minus_one
        → IsSimple u us params
        → IsNewcomer fresh p
        → id ≢ 0
        → IsSound p
        → IsRunning p
        → IsNew a p.all_sessions
        → Others v id a (create_composing_session (some params) fresh p).0 fs q
        → serve_session v a q ≡ done r
        → Feeds v id a r n xs gs t
        → length xs < v.fuel
        → n < sign_bit
        → HasRoom (length (all_made v.code f (u ∷ us) xs)) t.gc.user_data_collection
        → (w : Pool C) × (h : Hybrid) × (serve_session v a t ≡ done w)
          × (w.gc.user_data_collection.its_q
              ≡ t.gc.user_data_collection.its_q ++ all_made v.code f (u ∷ us) xs)
          × ((w.store a).data_queues ≡ h ∷ [])
          × (items h.reg_q ≡ [])
          × IsAbsent a (fs ++ gs)
  unfolding Holds
  delivered_among v f u us params fresh p q r t n xs fs gs runs nobody simple new real sound running
        apart others first feeding fuel lt room =
      let id = ControlBlock.get_session_id fresh.block in
      let a = fresh.address in
      let (c, made, created) = create_composing_session_lem u us params fresh p simple new in
      let held : IsHeld id a c = record {
        registered = created.found;
        sound = subst (λ x. IsSound x.0) made (create_seen params fresh p new.real apart sound).0;
        running = record {
          some_cpu = rw (created.same_cpus) running.some_cpu;
          agree =
              ap (λ g. g.actual_threads_count) created.same_config
              ∙ running.agree
              ∙ sym created.same_cpus;
        };
      } in
      let from : Others v id a c fs q = subst (λ x. Others v id a x.0 fs q) made others in
      let w = Others-Spares v id a c fs q held from in
      let safe = Others-IsAbsent v id a c fs q held created.fresh.unmarked from in
      let (r', h, served, ready, _, _) =
        first_served v u us a q (omega (arith, fuel)) nobody
          (subst (IsFresh (u ∷ us)) (sym w.same) created.fresh) in
      let same : r' ≡ r = done-inj r' r (sym served ∙ first) in
      let holds : Holds v id a 0 (u ∷ us) [] (q.store a) r = (
        h,
        subst (λ x. IsReady 0 (u ∷ us) [] (q.store a) (x.store a) h) same ready,
        serve_session-IsHeld id a v a q r w.held first,
      ) in
      let zero = ap (λ x. x.queue_zero.its_q) w.same ∙ created.empty in
      let (safe', (k, full, _)) =
        feed_lem v id a f (u ∷ us) (q.store a) r runs real zero n xs gs t lt holds feeding in
      let (z, j, next, made_all, queued, left) =
        next_served v f (u ∷ us) xs a t (q.store a) k runs lt fuel zero full room in
      (z, j, next, made_all, queued, left, IsAbsent-append a fs gs safe safe')
