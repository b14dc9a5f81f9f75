-- ===== src/Pool/Frames.antt =====
-- CPPAFKThreadpool.cpp: what the pool's methods and workers leave of a session that they are not about.
use asyncflow_cpp.Common.{
  ℕ, ◌≡◌, ◌≢◌, ◌==◌, refl, ap, sym, ◌∙◌, Bool, List, length, ◌||◌, arith, Ptr, Option, none, some,
  Bool-cases, inl, inr,
}
use asyncflow_cpp.Registry.{find}
use asyncflow_cpp.Session
use asyncflow_cpp.Session.{Session}
use asyncflow_cpp.Composing
use asyncflow_cpp.Composing.{Flushed}
use asyncflow_cpp.Pool.{Pool, write}
use asyncflow_cpp.Pool.Store.{erase-IsDistinct, write_other}
use asyncflow_cpp.Pool.Views.{find_once, find-erase, erase-IsKeyed}
use asyncflow_cpp.Pool.Specification.{IsSound}
use asyncflow_cpp.Pool.Sessions.{
  in_session, cast_object_for_session, post_data, cast_vector_for_session, post_data_as_vector,
  set_routines_in_session,
}
use asyncflow_cpp.Pool.Control.{pause_session, resume_session, cancel_session, pause_at, resume_at}
use asyncflow_cpp.Pool.Turns.{IsRunning}

module _ {C : Type 0} (id : ℕ) (a : Ptr) where
  -- The session at `a` is registered under `id`, in a running pool that registers nothing twice.
  pub record IsHeld (p : Pool C) : Type 0 where
    pub registered : find id p.all_sessions ≡ some a
    pub sound : IsSound p
    pub running : IsRunning p

  -- The session is as it was, and still there.
  pub record Spares (p q : Pool C) : Type 0 where
    pub same : q.store a ≡ p.store a
    pub held : IsHeld q

  pub Spares-trans : (p q r : Pool C) → Spares p q → Spares q r → Spares p r
  Spares-trans p q r v w = record { same = w.same ∙ v.same; held = w.held }

  pub other_address :
      (j : ℕ) (b : Ptr) (p : Pool C) → IsHeld p → j ≢ id → find j p.all_sessions ≡ some b → b ≢ a
  other_address j b p v n e same =
      n (find_once id j a p.all_sessions v.sound.distinct v.registered (e ∙ ap some same))

  written :
      (b : Ptr) (s : Session C) (p q : Pool C)
      → IsHeld p
      → b ≢ a
      → q.store ≡ write b s p.store
      → q.all_sessions ≡ p.all_sessions
      → IsRunning q
      → Spares p q
  written b s p q v n store all r = record {
    same = ap (λ f. f a) store ∙ write_other b a s p.store (λ e. n (sym e));
    held = record {
      registered = ap (find id) all ∙ v.registered;
      sound = record { distinct = rw all v.sound.distinct; keyed = rw all v.sound.keyed };
      running = r;
    };
  }

  pub stays : (p : Pool C) → IsHeld p → Spares p p
  stays p v = record { same = refl; held = v }

  in_session-Spares :
      (j : ℕ) (f : Session C → Session C × Bool) (p : Pool C)
      → IsHeld p
      → j ≢ id
      → Spares p (in_session j f p).0
  unfolding in_session
  in_session-Spares j f p v n = go (find j p.all_sessions) refl
    where
      go : (o : Option Ptr) → find j p.all_sessions ≡ o → Spares p (in_session j f p).0
      go none e = rw (e, in_session) (stays p v)
      go (some b) e =
          rw (e, in_session)
            (written b (f (p.store b)).0 p _ v (other_address j b p v n e) refl refl
              (record { some_cpu = v.running.some_cpu; agree = v.running.agree }))

  pub cast_object-Spares :
      (j : ℕ) (x : Ptr) (p : Pool C)
      → IsHeld p
      → j ≢ id
      → Spares p (cast_object_for_session j x p).0
  unfolding cast_object_for_session post_data
  cast_object-Spares j x p v n = elim (Bool-cases (j == 0)) [
    | inl zero_id ↦ rw (zero_id, cast_object_for_session) (stays p v)
    | inr real ↦
        rw (real, cast_object_for_session) (in_session-Spares j (Composing.post_data x) p v n)
  ]

  pub cast_vector-Spares :
      (j : ℕ) (xs : List Ptr) (p : Pool C)
      → IsHeld p
      → j ≢ id
      → Spares p (cast_vector_for_session j xs p).0
  unfolding cast_vector_for_session post_data_as_vector
  cast_vector-Spares j xs p v n = elim (Bool-cases (length xs == 0 || (j == 0))) [
    | inl refused ↦ rw (refused, cast_vector_for_session) (stays p v)
    | inr real ↦
        rw (real, cast_vector_for_session)
          (in_session-Spares j (Composing.post_data_as_vector xs) p v n)
  ]

  pub set_routines-Spares :
      (j : ℕ) (rs : List Ptr) (p : Pool C)
      → IsHeld p
      → j ≢ id
      → Spares p (set_routines_in_session j rs p).0
  unfolding set_routines_in_session
  set_routines-Spares j rs p v n = in_session-Spares j (Composing.set_routines rs) p v n

  pub pause_session-Spares :
      (j : ℕ) (p : Pool C) → IsHeld p → j ≢ id → Spares p (pause_session j p).0
  unfolding pause_session pause_at
  pause_session-Spares j p v n = go (find j p.all_sessions) refl
    where
      go : (o : Option Ptr) → find j p.all_sessions ≡ o → Spares p (pause_session j p).0
      go none e = rw (e, pause_session) (stays p v)
      go (some b) e =
          rw (e, pause_session)
            (written b (Session.pause (p.store b)) p _ v (other_address j b p v n e) refl refl
              (record { some_cpu = v.running.some_cpu; agree = v.running.agree }))

  pub resume_session-Spares :
      (j : ℕ) (p : Pool C) → IsHeld p → j ≢ id → Spares p (resume_session j p).0
  unfolding resume_session resume_at
  resume_session-Spares j p v n = go (find j p.all_sessions) refl
    where
      go : (o : Option Ptr) → find j p.all_sessions ≡ o → Spares p (resume_session j p).0
      go none e = rw (e, resume_session) (stays p v)
      go (some b) e =
          rw (e, resume_session)
            (written b (Session.resume (p.store b)) p _ v (other_address j b p v n e) refl refl
              (record { some_cpu = v.running.some_cpu; agree = v.running.agree }))

  pub cancel_session-Spares :
      (j : ℕ) (p : Pool C) → IsHeld p → j ≢ id → Spares p (cancel_session j p).0
  unfolding cancel_session
  cancel_session-Spares j p v n = go (find j p.all_sessions) refl
    where
      go : (o : Option Ptr) → find j p.all_sessions ≡ o → Spares p (cancel_session j p).0
      go none e = rw (e, cancel_session) (stays p v)
      go (some b) e =
          let m = p.all_sessions in
          let away = other_address j b p v n e in
          rw (e, cancel_session)
            (record {
              same = write_other b a (Composing.cancel (p.store b)) p.store (λ g. away (sym g));
              held = record {
                registered = find-erase j id m v.sound.keyed ∙ ground (arith, n, v.registered);
                sound = record {
                  distinct = erase-IsDistinct j m v.sound.distinct;
                  keyed = erase-IsKeyed j m v.sound.keyed;
                };
                running = record { some_cpu = v.running.some_cpu; agree = v.running.agree };
              };
            })
