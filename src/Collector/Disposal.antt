-- ===== src/Collector/Disposal.antt =====
-- CPPAFKThreadpool.cpp, CPPAFKGarbageCollector: what a round of disposal deletes.
use asyncflow_cpp.Common.{
  ℕ, zero, suc, ◌<◌, ◌≡◌, refl, Bool, true, false, List, [], ◌∷◌, arith, length, Ptr, ptr_item,
  Outcome, done, ◌>>=◌,
}
use asyncflow_cpp.Queue.{Queue}
use asyncflow_cpp.Collector.{
  Collector, Taken, release_batch, release_every, pull_now, dispose, dispose_all, cancelled_of,
  gather, data_releasing_batch_size,
}

abbrev pub take : ℕ → List Ptr → List Ptr
take zero xs = []
take (suc n) [] = []
take (suc n) (x ∷ xs) = x ∷ take n xs

abbrev pub drop : ℕ → List Ptr → List Ptr
drop zero xs = xs
drop (suc n) [] = []
drop (suc n) (x ∷ xs) = drop n xs

-- A queue of the collector: not paused, no lower limit, reads and writes that do not block.
pub record IsPlain (q : Queue Ptr) : Type 0 where
  pub running : q.paused ≡ false
  pub no_min : q.min_q_size ≡ 0
  pub no_block : q.blocking_r ≡ false
  pub no_wait : q.blocking_w ≡ false

abbrev pub with_items : Queue Ptr → List Ptr → Queue Ptr
with_items q xs = record q { its_q = xs }

pull_now-nil :
    (q : Queue Ptr) → IsPlain q → pull_now (with_items q []) ≡ done (with_items q [], 0, false)
unfolding pull_now
pull_now-nil q v = ground (arith, v)

pull_now-cons :
    (q : Queue Ptr) (x : Ptr) (xs : List Ptr)
    → IsPlain q
    → pull_now (with_items q (x ∷ xs)) ≡ done (with_items q xs, x, true)
unfolding pull_now
pull_now-cons q x xs v = ground (arith, v)

release_batch_lem :
    (n : ℕ) (q : Queue Ptr) (xs : List Ptr)
    → IsPlain q
    → release_batch n (with_items q xs) ≡ done (with_items q (drop n xs), take n xs)
unfolding release_batch
release_batch_lem zero q xs v = refl
release_batch_lem (suc n) q [] v = rw (pull_now-nil q v, ◌>>=◌)
release_batch_lem (suc n) q (x ∷ xs) v =
    rw (pull_now-cons q x xs v, ◌>>=◌) (rw (release_batch_lem n q xs v))

release_every_lem :
    (n : ℕ) (q : Queue Ptr) (xs : List Ptr)
    → IsPlain q
    → length xs < n
    → release_every n (with_items q xs) ≡ done (with_items q [], xs)
unfolding release_every
release_every_lem zero q xs v h = absurd (omega arith)
release_every_lem (suc n) q [] v h = rw (pull_now-nil q v, ◌>>=◌)
release_every_lem (suc n) q (x ∷ xs) v h =
    rw (pull_now-cons q x xs v, ◌>>=◌) (rw (release_every_lem n q xs v (omega arith)))

pub record IsCollector (c : Collector) : Type 0 where
  pub data_plain : IsPlain c.user_data_collection
  pub wrappers_plain : IsPlain c.wrapper_collection
  pub sessions_plain : IsPlain c.killed_sessions

gather_lem :
    (is_cancelled : Ptr → Bool) (c : Collector) (release : Queue Ptr → Outcome Taken)
    (u w k : Taken)
    → release c.user_data_collection ≡ done u
    → release c.wrapper_collection ≡ done w
    → release c.killed_sessions ≡ done k
    → gather is_cancelled c release
      ≡ done (record {
        collector = record c {
          user_data_collection = u.0;
          wrapper_collection = w.0;
          killed_sessions = k.0;
        };
        user_data = u.1;
        wrappers = w.1;
        sessions = cancelled_of is_cancelled k.1;
      })
unfolding gather
gather_lem is_cancelled c release u w k d e f = rw (d, ◌>>=◌) (rw (e, ◌>>=◌) (rw (f, ◌>>=◌)))

-- A round of disposal returns; it takes at most a thousand entries off the front of each queue and
-- keeps the rest in order. It deletes the data and wrappers it took, and of the sessions those
-- that are cancelled; the other sessions it took are in no queue any more and were not deleted.
pub dispose_lem :
    (is_cancelled : Ptr → Bool) (c : Collector)
    → IsCollector c
    → let n = data_releasing_batch_size in
      dispose is_cancelled c
      ≡ done (record {
        collector = record c {
          user_data_collection =
              with_items c.user_data_collection (drop n (c.user_data_collection.its_q));
          wrapper_collection =
              with_items c.wrapper_collection (drop n (c.wrapper_collection.its_q));
          killed_sessions = with_items c.killed_sessions (drop n (c.killed_sessions.its_q));
        };
        user_data = take n (c.user_data_collection.its_q);
        wrappers = take n (c.wrapper_collection.its_q);
        sessions = cancelled_of is_cancelled (take n (c.killed_sessions.its_q));
      })
unfolding dispose
dispose_lem is_cancelled c v =
    let n = data_releasing_batch_size in
    gather_lem is_cancelled c (release_batch n) _ _ _
      (release_batch_lem n c.user_data_collection _ v.data_plain)
      (release_batch_lem n c.wrapper_collection _ v.wrappers_plain)
      (release_batch_lem n c.killed_sessions _ v.sessions_plain)

-- The disposal at shutdown returns and empties the three queues, however long they are.
pub dispose_all_lem :
    (is_cancelled : Ptr → Bool) (c : Collector)
    → IsCollector c
    → dispose_all is_cancelled c
      ≡ done (record {
        collector = record c {
          user_data_collection = with_items c.user_data_collection [];
          wrapper_collection = with_items c.wrapper_collection [];
          killed_sessions = with_items c.killed_sessions [];
        };
        user_data = c.user_data_collection.its_q;
        wrappers = c.wrapper_collection.its_q;
        sessions = cancelled_of is_cancelled (c.killed_sessions.its_q);
      })
unfolding dispose_all
dispose_all_lem is_cancelled c v =
    gather_lem is_cancelled c (λ q. release_every (suc (length q.its_q)) q) _ _ _
      (release_every_lem _ c.user_data_collection _ v.data_plain (omega arith))
      (release_every_lem _ c.wrapper_collection _ v.wrappers_plain (omega arith))
      (release_every_lem _ c.killed_sessions _ v.sessions_plain (omega arith))
