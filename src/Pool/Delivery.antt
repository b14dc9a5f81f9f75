-- ===== src/Pool/Delivery.antt =====
-- CPPAFKThreadpool.cpp and below: from the call that creates a session to what its routines made of the
-- items that were cast to it, by the methods of the pool and the turns of a worker.
use mathlib.Core.Path.{subst}
use asyncflow_cpp.Common.{
  ◌+◌, ◌<◌, ◌≡◌, ◌≢◌, ap, sym, ◌∙◌, true, false, List, [], ◌∷◌, ◌++◌, arith, length, Ptr, ptr_item,
  some, done, sign_bit,
}
use asyncflow_cpp.Registry.{find}
use asyncflow_cpp.ControlBlock
use asyncflow_cpp.Batching.Wf.{items}
use asyncflow_cpp.Hybrid.{Hybrid}
use asyncflow_cpp.ThreadpoolQueue.{minus_one}
use asyncflow_cpp.Composing.Pipeline.{Runs}
use asyncflow_cpp.Composing.Turns.{all_made}
use asyncflow_cpp.Composing.Starting.{IsFresh, IsReady}
use asyncflow_cpp.Composing.Posting.{posted_lem}
use asyncflow_cpp.Composing.Early.{refused_lem}
use asyncflow_cpp.Pool.{Pool}
use asyncflow_cpp.Pool.Sessions.{Params, Fresh, create_composing_session}
use asyncflow_cpp.Pool.Configuring.{IsSimple}
use asyncflow_cpp.Pool.Creation.{IsNewcomer, create_composing_session_lem}
use asyncflow_cpp.Pool.Worker.{Setting, serve_session}
use asyncflow_cpp.Pool.Casting.{cast, Takes, cast_lem}
use asyncflow_cpp.Pool.Serving.{HasRoom, first_served, next_served, early_served}

module _ {C : Type 0} where
  -- A session is created with automatic deletion, no summary and no expiration, under an identifier
  -- that is new and not 0, and with a control block that asks neither to cancel nor to flush; the
  -- user's routines all leave the control block alone; a new data queue comes with no occupant,
  -- fewer than 2 ^ 63 items are cast, with fuel for them, and the collector has room for what they
  -- make. Once a worker has served it, every item that is cast to it is accepted, and the worker's
  -- next turn takes them all through the routines: the collector gets, behind what it held, the
  -- items that a routine replaced and the last results, item by item in the order of the casts, and
  -- the session holds no item.
  pub delivered :
      (v : Setting C) (f : Ptr → Ptr → Ptr) (u : Ptr) (us : List Ptr) (params : Params C)
      (fresh : Fresh) (p : Pool C) (xs : List Ptr)
      → Runs v.code f
      → v.garbage.occupant ≡ minus_one
      → IsSimple u us params
      → IsNewcomer fresh p
      → ControlBlock.get_session_id fresh.block ≢ 0
      → length xs < v.fuel
      → length xs < sign_bit
      → HasRoom (length (all_made v.code f (u ∷ us) xs)) p.gc.user_data_collection
      → let id = ControlBlock.get_session_id fresh.block in
        (q : Pool C) × (r : Pool C) × (s : Pool C) × (h : Hybrid) × (create_composing_session
            (some params)
            fresh
            p
          ≡ (q, id))
        × (serve_session v fresh.address q ≡ done r)
        × Takes id xs true r
        × (serve_session v fresh.address (cast id xs r) ≡ done s)
        × (s.gc.user_data_collection.its_q
            ≡ p.gc.user_data_collection.its_q ++ all_made v.code f (u ∷ us) xs)
        × ((s.store fresh.address).data_queues ≡ h ∷ [])
        × (items h.reg_q ≡ [])
  delivered v f u us params fresh p xs runs nobody simple new n fuel lt room =
      let id = ControlBlock.get_session_id fresh.block in
      let a = fresh.address in
      let (q, made, c) = create_composing_session_lem u us params fresh p simple new in
      let (r, h, first, ready, same, sessions) =
        first_served v u us a q (omega arith) nobody c.fresh in
      let found : find id r.all_sessions ≡ some a = ap (find id) sessions ∙ c.found in
      let (k, accepted, w) =
        posted_lem xs (u ∷ us) [] (q.store a) (r.store a) h (omega arith) ready in
      let (takes, stored, gc) = cast_lem true id a xs r n found accepted in
      let now = subst (λ t. IsReady (0 + length xs) (u ∷ us) xs (q.store a) t k) (sym stored) w in
      let collector : (cast id xs r).gc.user_data_collection ≡ p.gc.user_data_collection =
        ap (λ g. g.user_data_collection) gc
        ∙ same
        ∙ ap (λ g. g.user_data_collection) c.same_collector in
      let (s, j, last, out, queue, nil) =
        next_served v f (u ∷ us) xs a (cast id xs r) (q.store a) k runs (omega arith) fuel c.empty
          now (subst (HasRoom (length (all_made v.code f (u ∷ us) xs))) (sym collector) room) in
      (
        q,
        r,
        s,
        j,
        made,
        first,
        takes,
        last,
        out ∙ ap (λ g. g.its_q ++ all_made v.code f (u ∷ us) xs) collector,
        queue,
        nil,
      )

  -- What is cast to such a session before a worker has served it is lost: each cast is answered with
  -- false, and after the worker's first two turns the session's queues are empty, while the collector
  -- got nothing.
  pub early_casts_lost :
      (v : Setting C) (u : Ptr) (us : List Ptr) (params : Params C) (fresh : Fresh) (p : Pool C)
      (x : Ptr) (xs : List Ptr)
      → v.garbage.occupant ≡ minus_one
      → IsSimple u us params
      → IsNewcomer fresh p
      → ControlBlock.get_session_id fresh.block ≢ 0
      → 0 < v.fuel
      → let id = ControlBlock.get_session_id fresh.block in
        (q : Pool C) × (r : Pool C) × (s : Pool C) × (h : Hybrid) × (create_composing_session
            (some params)
            fresh
            p
          ≡ (q, id))
        × Takes id (x ∷ xs) false q
        × (serve_session v fresh.address (cast id (x ∷ xs) q) ≡ done r)
        × (serve_session v fresh.address r ≡ done s)
        × (s.gc.user_data_collection ≡ p.gc.user_data_collection)
        × ((s.store fresh.address).queue_zero.its_q ≡ [])
        × ((s.store fresh.address).data_queues ≡ h ∷ [])
        × (items h.reg_q ≡ [])
  early_casts_lost v u us params fresh p x xs nobody simple new n fuel =
      let id = ControlBlock.get_session_id fresh.block in
      let a = fresh.address in
      let (q, made, c) = create_composing_session_lem u us params fresh p simple new in
      let (refused, waiting, kept) = refused_lem (x ∷ xs) (u ∷ us) (q.store a) c.fresh in
      let (takes, stored, gc) = cast_lem false id a (x ∷ xs) q n c.found refused in
      let m = cast id (x ∷ xs) q in
      let (r, h, first, ready, same, _) =
        first_served v u us a m fuel nobody (subst (IsFresh (u ∷ us)) (sym stored) waiting) in
      let held : (r.store a).queue_zero.its_q ≡ x ∷ xs =
        ap (λ z. z.its_q) ready.early
        ∙ ap (λ z. z.queue_zero.its_q) stored
        ∙ kept
        ∙ ap (λ ys. ys ++ x ∷ xs) c.empty in
      let (s, k, last, zero, queue, nil, quiet) =
        early_served v (u ∷ us) a (m.store a) r h fuel ready (omega (arith, ap length held)) in
      (
        q,
        r,
        s,
        k,
        made,
        takes,
        first,
        last,
        quiet
            ∙ same
            ∙ ap (λ g. g.user_data_collection) gc
            ∙ ap (λ g. g.user_data_collection) c.same_collector,
        zero,
        queue,
        nil,
      )
