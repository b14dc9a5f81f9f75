-- ===== src/Pool/Interleaving.antt =====
-- CPPAFKThreadpool.cpp: what may happen in a pool besides the calls and turns of one session.
use asyncflow_cpp.Common.{
  suc, length, ◌<◌, ℕ, ◌≡◌, ◌≢◌, refl, List, [], ◌∷◌, ◌++◌, false, ap, ◌∙◌, Ptr, ptr_item, done,
  some, null, Bool,
}
use asyncflow_cpp.Pool.{Pool}
use asyncflow_cpp.Pool.Sessions.{
  cast_object_for_session, cast_vector_for_session, set_routines_in_session, Params, Fresh,
  create_composing_session,
}
use asyncflow_cpp.Pool.Control.{pause_session, resume_session, cancel_session, flush_session}
use asyncflow_cpp.Pool.Scheduling.{Choice, turn}
use asyncflow_cpp.Pool.Worker.{Setting, clean_up, serve_session}
use asyncflow_cpp.Pool.Frames.{
  IsHeld, Spares, Spares-trans, cast_object-Spares, pause_session-Spares, resume_session-Spares,
  cancel_session-Spares, cast_vector-Spares, set_routines-Spares,
}
use asyncflow_cpp.Pool.Arriving.{create_composing_session-Spares}
use asyncflow_cpp.Pool.Sparing.{
  flush_session-Spares, serve_session-Spares, clean_up-Spares, turn-Spares,
}
use asyncflow_cpp.Session
use asyncflow_cpp.Pool.Lifecycle.{IsAbsent}
use asyncflow_cpp.Pool.Cleaning.{IsAbsent-append, clean_up_lem}
use asyncflow_cpp.Pool.Store.{IsNew}

module _ {C : Type 0} (v : Setting C) (id : ℕ) (a : Ptr) where
  -- With the sessions that are deleted meanwhile: what happens to a pool that is not about the session: turns of the workers, disposals, turns of
  -- other sessions, calls about other identifiers, and sessions that are created at a new address.
  pub data Others (p : Pool C) : List Ptr → Pool C → Type 0 where
    rests : Others p [] p
    casts :
        {fs : List Ptr} {q : Pool C} (j : ℕ) (x : Ptr)
        → Others p fs q
        → j ≢ id
        → Others p fs (cast_object_for_session j x q).0
    vectors :
        {fs : List Ptr} {q : Pool C} (j : ℕ) (xs : List Ptr)
        → Others p fs q
        → j ≢ id
        → Others p fs (cast_vector_for_session j xs q).0
    routines :
        {fs : List Ptr} {q : Pool C} (j : ℕ) (rs : List Ptr)
        → Others p fs q
        → j ≢ id
        → Others p fs (set_routines_in_session j rs q).0
    creates :
        {fs : List Ptr} {q : Pool C} (params : Params C) (fresh : Fresh)
        → Others p fs q
        → fresh.address ≢ null
        → IsNew fresh.address q.all_sessions
        → Others p fs (create_composing_session (some params) fresh q).0
    flushes :
        {fs : List Ptr} {q r : Pool C} (j : ℕ) (ok : Bool)
        → Others p fs q
        → j ≢ id
        → flush_session v.address j q ≡ done (r, ok)
        → Others p fs r
    pauses :
        {fs : List Ptr} {q : Pool C} (j : ℕ)
        → Others p fs q
        → j ≢ id
        → Others p fs (pause_session j q).0
    resumes :
        {fs : List Ptr} {q : Pool C} (j : ℕ)
        → Others p fs q
        → j ≢ id
        → Others p fs (resume_session j q).0
    cancels :
        {fs : List Ptr} {q : Pool C} (j : ℕ)
        → Others p fs q
        → j ≢ id
        → Others p fs (cancel_session j q).0
    serves :
        {fs : List Ptr} {q r : Pool C} (b : Ptr)
        → Others p fs q
        → b ≢ a
        → serve_session v b q ≡ done r
        → Others p fs r
    cleans :
        {fs freed : List Ptr} {q r : Pool C}
        → Others p fs q
        → clean_up q ≡ done (r, freed)
        → Others p (fs ++ freed) r
    turns :
        {fs : List Ptr} {q r : Pool C} (selector slot next : ℕ) (c : Choice)
        → Others p fs q
        → turn selector slot q ≡ done (r, next, c)
        → Others p fs r

  pub Others-Spares :
      (p : Pool C) (fs : List Ptr) (q : Pool C) → IsHeld id a p → Others p fs q → Spares id a p q
  Others-Spares p _ _ h rests = record { same = refl; held = h }
  Others-Spares p fs _ h (casts {q} j x before n) =
      let w = Others-Spares p fs q h before in
      Spares-trans id a p q _ w (cast_object-Spares id a j x q w.held n)
  Others-Spares p fs _ h (vectors {q} j xs before n) =
      let w = Others-Spares p fs q h before in
      Spares-trans id a p q _ w (cast_vector-Spares id a j xs q w.held n)
  Others-Spares p fs _ h (routines {q} j rs before n) =
      let w = Others-Spares p fs q h before in
      Spares-trans id a p q _ w (set_routines-Spares id a j rs q w.held n)
  Others-Spares p fs _ h (creates {q} params fresh before real new) =
      let w = Others-Spares p fs q h before in
      Spares-trans id a p q _ w
        (create_composing_session-Spares id a params fresh q w.held real new)
  Others-Spares p fs r h (flushes {q} j ok before n e) =
      let w = Others-Spares p fs q h before in
      Spares-trans id a p q r w (flush_session-Spares id a v.address j ok q r w.held n e)
  Others-Spares p fs _ h (pauses {q} j before n) =
      let w = Others-Spares p fs q h before in
      Spares-trans id a p q _ w (pause_session-Spares id a j q w.held n)
  Others-Spares p fs _ h (resumes {q} j before n) =
      let w = Others-Spares p fs q h before in
      Spares-trans id a p q _ w (resume_session-Spares id a j q w.held n)
  Others-Spares p fs _ h (cancels {q} j before n) =
      let w = Others-Spares p fs q h before in
      Spares-trans id a p q _ w (cancel_session-Spares id a j q w.held n)
  Others-Spares p fs r h (serves {q} b before n e) =
      let w = Others-Spares p fs q h before in
      Spares-trans id a p q r w (serve_session-Spares id a v b q r w.held n e)
  Others-Spares p _ r h (cleans {fs} {freed} {q} before e) =
      let w = Others-Spares p fs q h before in
      Spares-trans id a p q r w (clean_up-Spares id a q r freed w.held e)
  Others-Spares p fs r h (turns {q} selector slot next c before e) =
      let w = Others-Spares p fs q h before in
      Spares-trans id a p q r w (turn-Spares id a selector slot next c q r w.held e)

  -- No disposal deletes the session, where it is not marked.
  pub Others-IsAbsent :
      (p : Pool C) (fs : List Ptr) (q : Pool C)
      → IsHeld id a p
      → Session.is_cancelled (p.store a) ≡ false
      → Others p fs q
      → IsAbsent a fs
  Others-IsAbsent p _ _ h m rests = tt
  Others-IsAbsent p _ r h m (cleans {fs} {freed} {q} before e) =
      let w = Others-Spares p fs q h before in
      IsAbsent-append a fs freed (Others-IsAbsent p fs q h m before)
        ((clean_up_lem q r freed e).frees a (ap Session.is_cancelled w.same ∙ m))
  Others-IsAbsent p fs _ h m (casts {q} j x before n) = Others-IsAbsent p fs q h m before
  Others-IsAbsent p fs _ h m (vectors {q} j xs before n) = Others-IsAbsent p fs q h m before
  Others-IsAbsent p fs _ h m (routines {q} j rs before n) = Others-IsAbsent p fs q h m before
  Others-IsAbsent p fs _ h m (creates {q} params fresh before real new) =
      Others-IsAbsent p fs q h m before
  Others-IsAbsent p fs r h m (flushes {q} j ok before n e) = Others-IsAbsent p fs q h m before
  Others-IsAbsent p fs _ h m (pauses {q} j before n) = Others-IsAbsent p fs q h m before
  Others-IsAbsent p fs _ h m (resumes {q} j before n) = Others-IsAbsent p fs q h m before
  Others-IsAbsent p fs _ h m (cancels {q} j before n) = Others-IsAbsent p fs q h m before
  Others-IsAbsent p fs r h m (serves {q} b before n e) = Others-IsAbsent p fs q h m before
  Others-IsAbsent p fs r h m (turns {q} selector slot next c before e) =
      Others-IsAbsent p fs q h m before

  -- Items are cast to the session, and it has turns, with other things before, between and after:
  -- how many items were cast, those that came since its last turn, and the sessions deleted meanwhile.
  pub data Feeds (p : Pool C) : ℕ → List Ptr → List Ptr → Pool C → Type 0 where
    idles : {fs : List Ptr} {q : Pool C} → Others p fs q → Feeds p 0 [] fs q
    feeds :
        {n : ℕ} {xs fs gs : List Ptr} {q r : Pool C} (x : Ptr)
        → Feeds p n xs fs q
        → Others (cast_object_for_session id x q).0 gs r
        → Feeds p (suc n) (xs ++ x ∷ []) (fs ++ gs) r
    takes :
        {n : ℕ} {xs fs gs : List Ptr} {q r s : Pool C}
        → Feeds p n xs fs q
        → length xs < v.fuel
        → serve_session v a q ≡ done r
        → Others r gs s
        → Feeds p n [] (fs ++ gs) s
