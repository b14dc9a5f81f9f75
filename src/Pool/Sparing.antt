-- ===== src/Pool/Sparing.antt =====
-- CPPAFKThreadpool.cpp, threadFunc and flushSession: what the rounds of the workers and the flushes of
-- other sessions leave of a session.
use mathlib.Core.Path.{subst}
use asyncflow_cpp.Common.{
  ℕ, ◌≡◌, ◌≢◌, refl, ap, sym, ◌∙◌, Bool, true, false, List, [], Ptr, Option, none, some, Outcome,
  done, ◌>>=◌, bind-done, done-inj,
}
use asyncflow_cpp.Registry.{find}
use asyncflow_cpp.Batching.{Wrap}
use asyncflow_cpp.Composing
use asyncflow_cpp.Composing.{Flushed}
use asyncflow_cpp.Composing.Turn.{Turn}
use asyncflow_cpp.Composing.Select.{Status, select}
use asyncflow_cpp.Pool.{Pool}
use asyncflow_cpp.Pool.Control.{collect, flush_session}
use asyncflow_cpp.Pool.Scheduling.{Choice, turn}
use asyncflow_cpp.Pool.Turns.{turn_lem}
use asyncflow_cpp.Pool.Worker.{Setting, clean_up, serve_session}
use asyncflow_cpp.Pool.Serving.{collect_lem}
use asyncflow_cpp.Pool.Frames.{IsHeld, Spares, stays, other_address}
use asyncflow_cpp.Pool.Cleaning.{clean_up_lem}
use asyncflow_cpp.Pool.Leaks.{collect-other, collect-IsRunning}

module _ {C : Type 0} (id : ℕ) (a : Ptr) where
  pub collect-IsHeld :
      (address : Wrap Ptr → Ptr) (b : Ptr) (p : Pool C) (f : Flushed C)
      → IsHeld id a p
      → IsHeld id a (collect address b f p)
  collect-IsHeld address b p f h =
      let (_, sessions, _) = collect_lem address b f p in
      record {
        registered = ap (find id) sessions ∙ h.registered;
        sound = record {
          distinct = rw sessions h.sound.distinct;
          keyed = rw sessions h.sound.keyed;
        };
        running = collect-IsRunning address b p f h.running;
      }

  -- A flush of another session that returns.
  pub flush_session-Spares :
      (address : Wrap Ptr → Ptr) (j : ℕ) (ok : Bool) (p q : Pool C)
      → IsHeld id a p
      → j ≢ id
      → flush_session address j p ≡ done (q, ok)
      → Spares id a p q
  unfolding flush_session
  flush_session-Spares address j ok p q v n = go (find j p.all_sessions) refl
    where
      left : Ptr → Flushed C → Outcome (Pool C × Bool)
      left b f = done (collect address b f p, true)

      go :
          (o : Option Ptr)
          → find j p.all_sessions ≡ o
          → flush_session address j p ≡ done (q, ok)
          → Spares id a p q
      go none e f =
          let kept : flush_session address j p ≡ done (p, false) = rw (e, flush_session) refl in
          subst (λ r. Spares id a p r.0) (done-inj (p, false) (q, ok) (sym kept ∙ f))
            (stays id a p v)
      go (some b) e f =
          let begun : flush_session address j p ≡ (Composing.flush (p.store b) >>= left b) =
            rw (e, flush_session) refl in
          let (g, _, f') =
            bind-done (Composing.flush (p.store b)) (left b) (q, ok) (sym begun ∙ f) in
          subst (λ r. Spares id a p r.0) (done-inj (collect address b g p, true) (q, ok) f')
            (record {
              same = collect-other address a b p g (other_address id a j b p v n e);
              held = collect-IsHeld address b p g v;
            })

  -- What a turn of a session leaves, as `serve_session` composes it.
  served_as :
      (v : Setting C) (b : Ptr) (p q : Pool C)
      → serve_session v b p ≡ done q
      → (f : Flushed C) × (collect v.address b f p ≡ q)
  unfolding serve_session
  served_as v b p q e =
      let begun : Turn C = record {
        state = p.store b;
        user_data = [];
        wrappers = [];
        calls = [];
      } in
      let flushed : Turn C × Status → Flushed C =
        λ t. record { state = t.0.state; user_data = t.0.user_data; wrappers = t.0.wrappers } in
      let (t, _, e') =
        bind-done (select v.code v.garbage 0 v.fuel begun)
          (λ t. done (collect v.address b (flushed t) p)) q e in
      (flushed t, done-inj (collect v.address b (flushed t) p) q e')

  pub serve_session-IsHeld :
      (v : Setting C) (b : Ptr) (p q : Pool C)
      → IsHeld id a p
      → serve_session v b p ≡ done q
      → IsHeld id a q
  serve_session-IsHeld v b p q h e =
      let (f, same) = served_as v b p q e in
      subst (IsHeld id a) same (collect-IsHeld v.address b p f h)

  pub serve_session-Spares :
      (v : Setting C) (b : Ptr) (p q : Pool C)
      → IsHeld id a p
      → b ≢ a
      → serve_session v b p ≡ done q
      → Spares id a p q
  serve_session-Spares v b p q h n e =
      let (f, same) = served_as v b p q e in
      subst (Spares id a p) same (record {
        same = collect-other v.address a b p f n;
        held = collect-IsHeld v.address b p f h;
      })

  pub clean_up-Spares :
      (p q : Pool C) (freed : List Ptr)
      → IsHeld id a p
      → clean_up p ≡ done (q, freed)
      → Spares id a p q
  clean_up-Spares p q freed v e =
      let w = clean_up_lem p q freed e in
      record {
        same = ap (λ g. g a) w.same_store;
        held = record {
          registered = ap (find id) w.same_sessions ∙ v.registered;
          sound = record {
            distinct = rw (w.same_sessions) v.sound.distinct;
            keyed = rw (w.same_sessions) v.sound.keyed;
          };
          running = w.keeps_running v.running;
        };
      }

  pub turn-Spares :
      (selector slot next : ℕ) (c : Choice) (p q : Pool C)
      → IsHeld id a p
      → turn selector slot p ≡ done (q, next, c)
      → Spares id a p q
  turn-Spares selector slot next c p q v e =
      let (r, s, d, turned, _, keeps) = turn_lem selector slot p v.running in
      subst (λ x. Spares id a p x.0) (done-inj (r, s, d) (q, next, c) (sym turned ∙ e))
        (record {
          same = ap (λ f. f a) keeps.same_store;
          held = record {
            registered = ap (find id) keeps.same_sessions ∙ v.registered;
            sound = record {
              distinct = rw (keeps.same_sessions) v.sound.distinct;
              keyed = rw (keeps.same_sessions) v.sound.keyed;
            };
            running = keeps.still;
          };
        })
