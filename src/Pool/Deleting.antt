-- ===== src/Pool/Deleting.antt =====
-- CPPAFKThreadpool.cpp: which sessions a worker's disposal deletes.
use mathlib.Core.List.{Mem, Memᴰ}
use asyncflow_cpp.Common.{
  ℕ, zero, suc, ◌<◌, ◌≡◌, inl, inr, refl, ◌∙◌, Bool, true, false, List, [], ◌∷◌, ◌++◌, arith,
  length, Ptr, some, done, ◌>>=◌, map, Bool-cases,
}
use asyncflow_cpp.Registry.{find}
use asyncflow_cpp.Queue
use asyncflow_cpp.Queue.{Queue}
use asyncflow_cpp.Batching.{Wrap}
use asyncflow_cpp.Collector
use asyncflow_cpp.Collector.{Collector, cancelled_of, data_releasing_batch_size}
use asyncflow_cpp.Collector.Disposal.{IsPlain, IsCollector, with_items, take, drop, dispose_lem}
use asyncflow_cpp.Composing.{Flushed}
use asyncflow_cpp.Pool.{Pool}
use asyncflow_cpp.Pool.Control.{cancel_session, cast_all, collect}
use asyncflow_cpp.Pool.Turns.{IsRunning}
use asyncflow_cpp.Pool.Worker.{is_marked, clean_up}
use asyncflow_cpp.Pool.Serving.{HasRoom, cast_room}

cast_object-IsPlain : (x : Ptr) (q : Queue Ptr) → IsPlain q → IsPlain (Queue.cast_object x q).0
unfolding Queue.cast_object
cast_object-IsPlain x q v = ground (arith, v)

cast_all-IsPlain : (xs : List Ptr) (q : Queue Ptr) → IsPlain q → IsPlain (cast_all xs q)
unfolding cast_all
cast_all-IsPlain [] q v = v
cast_all-IsPlain (x ∷ xs) q v =
    cast_all-IsPlain xs (Queue.cast_object x q).0 (cast_object-IsPlain x q v)

-- What is last in a queue that is not long is taken, and deleted if it is marked.
taken_last :
    (marked : Ptr → Bool) (a : Ptr) (n : ℕ) (xs : List Ptr)
    → marked a ≡ true
    → length xs < n
    → Memᴰ a (cancelled_of marked (take n (xs ++ a ∷ [])))
taken_last marked a zero xs h l = absurd (omega (arith, l))
taken_last marked a (suc n) [] h l = rw h (Memᴰ.head refl)
taken_last marked a (suc n) (x ∷ xs) h l =
    let rest = taken_last marked a n xs h (omega (arith, l)) in
    elim (Bool-cases (marked x)) [ inl goes ↦ rw goes (Memᴰ.tail rest) | inr stays ↦ rw stays rest ]

module _ {C : Type 0} where
  pub collect-IsCollector :
      (address : Wrap Ptr → Ptr) (a : Ptr) (f : Flushed C) (p : Pool C)
      → IsCollector p.gc
      → let r = collect address a f p in
        IsCollector r.gc
        × (r.gc.killed_sessions ≡ p.gc.killed_sessions)
        × (r.gc.active ≡ p.gc.active)
        × (r.online_sessions ≡ p.online_sessions)
  unfolding collect
  collect-IsCollector address a f p v = (
    record {
      data_plain = cast_all-IsPlain f.user_data p.gc.user_data_collection v.data_plain;
      wrappers_plain =
          cast_all-IsPlain (map address f.wrappers) p.gc.wrapper_collection v.wrappers_plain;
      sessions_plain = v.sessions_plain;
    },
    refl,
    refl,
    refl,
  )

  -- The session is put in the collector's queue, and stays in the list of those to serve.
  pub cancel_session-killed :
      (id : ℕ) (a : Ptr) (p : Pool C)
      → find id p.all_sessions ≡ some a
      → IsCollector p.gc
      → HasRoom 1 p.gc.killed_sessions
      → let q = (cancel_session id p).0 in
        IsCollector q.gc
        × (q.gc.killed_sessions.its_q ≡ p.gc.killed_sessions.its_q ++ a ∷ [])
        × (q.gc.active ≡ p.gc.active)
        × (q.online_sessions ≡ p.online_sessions)
  unfolding cancel_session
  cancel_session-killed id a p e v room =
      rw (e, cancel_session)
        (
          record {
            data_plain = v.data_plain;
            wrappers_plain = v.wrappers_plain;
            sessions_plain = cast_object-IsPlain a p.gc.killed_sessions v.sessions_plain;
          },
          (cast_room a 0 p.gc.killed_sessions room).0,
          refl,
          refl,
        )

  pub disposed :
      (p : Pool C) (a : Ptr) (xs : List Ptr)
      → IsCollector p.gc
      → p.gc.active ≡ false
      → p.gc.killed_sessions.its_q ≡ xs ++ a ∷ []
      → length xs < data_releasing_batch_size
      → is_marked p a ≡ true
      → (m : Pool C) × (freed : List Ptr) × (clean_up p ≡ done (m, freed))
        × Mem a freed
        × (m.store ≡ p.store)
        × (m.online_sessions ≡ p.online_sessions)
        × (m.tpcfg ≡ p.tpcfg)
        × (IsRunning p → IsRunning m)
  unfolding clean_up
  disposed p a xs v free e few marked =
      let n = data_releasing_batch_size in
      let c = p.gc in
      let left : Collector = record c {
        active = false;
        user_data_collection =
            with_items c.user_data_collection (drop n c.user_data_collection.its_q);
        wrapper_collection = with_items c.wrapper_collection (drop n c.wrapper_collection.its_q);
        killed_sessions = with_items c.killed_sessions (drop n c.killed_sessions.its_q);
      } in
      (
        record p { gc = left },
        cancelled_of (is_marked p) (take n (c.killed_sessions.its_q)),
        cleared free ∙ rw (dispose_lem (is_marked p) p.gc v, ◌>>=◌) refl,
        ∣ rw e (taken_last (is_marked p) a n xs marked few) ∣₁,
        refl,
        refl,
        refl,
        λ r. record { some_cpu = r.some_cpu; agree = r.agree },
      )
    where
      cleared :
          p.gc.active ≡ false
          → clean_up p ≡ (do
            d ← Collector.dispose (is_marked p) p.gc
            done (record p { gc = record (d.collector) { active = false } }, d.sessions))
      cleared off = simp off
