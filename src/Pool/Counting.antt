-- ===== src/Pool/Counting.antt =====
-- CPPAFKThreadpool.cpp: the count of paused sessions.
use native.Mathlib.Decide.{ℕ_discrete}
use asyncflow_cpp.Common.{
  ℕ, ◌+◌, ◌≤◌, ◌<◌, ◌≡◌, ◌≢◌, refl, ap, Bool, true, false, List, [], ◌∷◌, arith, length, sub64, Ptr,
  Option, none, some, if◌then◌else◌, word_mod,
}
use asyncflow_cpp.Registry.{find, erase}
use asyncflow_cpp.Session
use asyncflow_cpp.Session.{Session}
use asyncflow_cpp.Composing
use asyncflow_cpp.Pool.{Pool, write}
use asyncflow_cpp.Pool.Store.{IsNew, IsDistinct, find-IsNew, erase-IsDistinct, write_self}
use asyncflow_cpp.Pool.Control.{
  pause_session, resume_session, cancel_session, pause_at, resume_at, is_paused_session,
}

abbrev pub one_if : Bool → ℕ
one_if true = 1
one_if false = 0

length-erase : (id : ℕ) (m : List (ℕ × Ptr)) → length (erase id m) ≤ length m
length-erase id [] = omega arith
length-erase id ((j, c) ∷ m) = ground (arith, length-erase id m)

module _ {C : Type 0} where
  abbrev pub number_paused : (Ptr → Session C) → List (ℕ × Ptr) → ℕ
  number_paused store [] = 0
  number_paused store ((_, a) ∷ m) = one_if (Session.is_paused (store a)) + number_paused store m

  write_new :
      (a : Ptr) (s : Session C) (store : Ptr → Session C) (m : List (ℕ × Ptr))
      → IsNew a m
      → number_paused (write a s store) m ≡ number_paused store m
  write_new a s store [] d = refl
  write_new a s store ((id, b) ∷ m) d = ground (arith, d, write_new a s store m d.1)

  write_found :
      (id : ℕ) (a : Ptr) (s : Session C) (store : Ptr → Session C) (m : List (ℕ × Ptr))
      → IsDistinct m
      → find id m ≡ some a
      → number_paused (write a s store) m + one_if (Session.is_paused (store a))
        ≡ number_paused store m + one_if (Session.is_paused s)
  write_found id a s store [] d e = absurd (ground (arith, e))
  write_found id a s store ((j, b) ∷ m) d e = elim (ℕ_discrete j id) [
    | yes here ↦
        let same : b ≡ a = ground (arith, here, e) in
        let old : flag store b ≡ flag store a = ap (flag store) same in
        let new : flag (write a s store) b ≡ one_if (Session.is_paused s) = ground (arith, same) in
        let rest = write_new a s store m (rw same at d.0) in omega (arith, old, new, rest)
    | no there ↦
        let found : find id m ≡ some a = ground (arith, there, e) in
        let other : b ≢ a = find-IsNew b id a m d.0 found in
        let kept : flag (write a s store) b ≡ flag store b = ground (arith, other) in
        let rest = write_found id a s store m d.1 found in omega (arith, kept, rest)
  ]
    where
      flag : (Ptr → Session C) → Ptr → ℕ
      flag f c = one_if (Session.is_paused (f c))

  erase_found_paused :
      (id : ℕ) (a : Ptr) (store : Ptr → Session C) (m : List (ℕ × Ptr))
      → find id m ≡ some a
      → number_paused store (erase id m) + one_if (Session.is_paused (store a))
        ≡ number_paused store m
  erase_found_paused id a store [] e = absurd (ground (arith, e))
  erase_found_paused id a store ((j, b) ∷ m) e = elim (ℕ_discrete j id) [
    | yes here ↦
        let same : b ≡ a = ground (arith, here, e) in
        let old : one_if (Session.is_paused (store b)) ≡ one_if (Session.is_paused (store a)) =
          ap (λ c. one_if (Session.is_paused (store c))) same in
        ground (arith, here, old)
    | no there ↦
        let rest = erase_found_paused id a store m (ground (arith, there, e)) in
        ground (arith, there, rest)
  ]

recount :
    {n m k : ℕ} (b was : Bool)
    → b ≡ was
    → m + one_if was ≡ n
    → k ≡ n
    → n < word_mod
    → (if b then sub64 k 1 else k) ≡ m
recount true was f e g h = omega (arith, e, g, h, ap one_if f)
recount false was f e g h = omega (arith, e, g, ap one_if f)

pub data Op : Type 0 where
  pauses resumes cancels : ℕ → Op

module _ {C : Type 0} where
  pub step : Op → Pool C → Pool C
  unfolding pause_session resume_session cancel_session
  step (pauses id) p = (pause_session id p).0
  step (resumes id) p = (resume_session id p).0
  step (cancels id) p = (cancel_session id p).0

  -- A session that is paused is not paused again, nor one resumed that is not paused.
  abbrev pub IsFair : Op → Pool C → Type 0
  IsFair (pauses id) p = is_paused_session id p ≡ false
  IsFair (resumes id) p = is_paused_session id p ≡ true
  IsFair (cancels id) p = Unit

  pub record Counts (p : Pool C) : Type 0 where
    pub distinct : IsDistinct p.all_sessions
    pub counted : p.count_paused ≡ number_paused p.store p.all_sessions
    pub fits : length p.all_sessions < word_mod

  number_paused_bound :
      (store : Ptr → Session C) (m : List (ℕ × Ptr)) → number_paused store m ≤ length m
  number_paused_bound store [] = omega arith
  number_paused_bound store ((j, a) ∷ m) = ground (arith, number_paused_bound store m)

  pause_at-Counts :
      (id : ℕ) (a : Ptr) (p : Pool C)
      → find id p.all_sessions ≡ some a
      → Session.is_paused (p.store a) ≡ false
      → Counts p
      → Counts (pause_at a p)
  unfolding pause_at Session.pause
  pause_at-Counts id a p e was v =
      let s = Session.pause (p.store a) in
      let moved = write_found id a s p.store p.all_sessions v.distinct e in
      let bound = number_paused_bound (write a s p.store) p.all_sessions in
      record {
        distinct = v.distinct;
        counted = omega (arith, moved, bound, v.counted, v.fits, ap one_if was);
        fits = v.fits;
      }

  resume_at-Counts :
      (id : ℕ) (a : Ptr) (p : Pool C)
      → find id p.all_sessions ≡ some a
      → Session.is_paused (p.store a) ≡ true
      → Counts p
      → Counts (resume_at a p)
  unfolding resume_at Session.resume
  resume_at-Counts id a p e was v =
      let s = Session.resume (p.store a) in
      let moved = write_found id a s p.store p.all_sessions v.distinct e in
      let bound = number_paused_bound p.store p.all_sessions in
      record {
        distinct = v.distinct;
        counted = omega (arith, moved, bound, v.counted, v.fits, ap one_if was);
        fits = v.fits;
      }

  cancel_session-Counts : (id : ℕ) (p : Pool C) → Counts p → Counts (cancel_session id p).0
  unfolding cancel_session Composing.cancel
  cancel_session-Counts id p v = go (find id p.all_sessions) refl
    where
      go : (o : Option Ptr) → find id p.all_sessions ≡ o → Counts (cancel_session id p).0
      go none e = rw (e, cancel_session) v
      go (some a) e =
          let s = Composing.cancel (p.store a) in
          let moved = write_found id a s p.store p.all_sessions v.distinct e in
          let gone = erase_found_paused id a (write a s p.store) p.all_sessions e in
          let bound = number_paused_bound p.store p.all_sessions in
          let now : one_if (Session.is_paused (write a s p.store a))
              ≡ one_if (Session.is_paused (p.store a)) =
            ap (λ t. one_if (Session.is_paused t)) (write_self a s p.store) in
          rw (e, cancel_session)
            (record {
              distinct = erase-IsDistinct id p.all_sessions v.distinct;
              counted =
                  recount (p.store a).paused (p.store a).paused refl
                    (omega (arith, moved, gone, now, bound, v.fits)) v.counted
                    (omega (arith, bound, v.fits));
              fits = omega (arith, length-erase id p.all_sessions, v.fits);
            })

  -- If no session has two identifiers, a session that is paused is not paused again, and one that is
  -- not paused is not resumed, then pausing, resuming and cancelling keep `countPaused` the number
  -- of registered sessions that are paused.
  pub step-Counts : (o : Op) (p : Pool C) → IsFair o p → Counts p → Counts (step o p)
  unfolding step pause_session resume_session is_paused_session
  step-Counts (pauses id) p fair v = go (find id p.all_sessions) refl
    where
      go : (o : Option Ptr) → find id p.all_sessions ≡ o → Counts (step (pauses id) p)
      go none e = rw (e, step, pause_session) v
      go (some a) e =
          rw (e, step, pause_session)
            (pause_at-Counts id a p e (rw (e, is_paused_session) at fair) v)
  step-Counts (resumes id) p fair v = go (find id p.all_sessions) refl
    where
      go : (o : Option Ptr) → find id p.all_sessions ≡ o → Counts (step (resumes id) p)
      go none e = rw (e, step, resume_session) v
      go (some a) e =
          rw (e, step, resume_session)
            (resume_at-Counts id a p e (rw (e, is_paused_session) at fair) v)
  step-Counts (cancels id) p fair v = cancel_session-Counts id p v
