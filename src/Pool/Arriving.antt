-- ===== src/Pool/Arriving.antt =====
-- CPPAFKThreadpool.cpp, createComposingSession: what it leaves of the sessions that are there.
use asyncflow_cpp.Common.{ℕ, ◌≡◌, ◌≢◌, refl, ap, sym, ◌∙◌, null, arith, Ptr, Option, none, some}
use asyncflow_cpp.Registry.{find}
use asyncflow_cpp.Composing
use asyncflow_cpp.Composing.{Flushed}
use asyncflow_cpp.Pool.{Pool, write}
use asyncflow_cpp.Pool.Store.{IsNew, find-IsNew, write_other}
use asyncflow_cpp.Pool.Views.{insert-IsKeyed, insert-IsDistinct}
use asyncflow_cpp.Pool.Sessions.{create_composing_session, add_session, configure, Params, Fresh}
use asyncflow_cpp.Pool.Creation.{add_session_new}
use asyncflow_cpp.ControlBlock
use asyncflow_cpp.Registry.Laws.{find-insert}
use asyncflow_cpp.Pool.Frames.{IsHeld, Spares, stays}

module _ {C : Type 0} (id : ℕ) (a : Ptr) where
  -- An object at an address that the pool does not have is registered under an identifier that it
  -- does not have, or refused.
  pub create_composing_session-Spares :
      (params : Params C) (fresh : Fresh) (p : Pool C)
      → IsHeld id a p
      → fresh.address ≢ null
      → IsNew fresh.address p.all_sessions
      → Spares id a p (create_composing_session (some params) fresh p).0
  unfolding create_composing_session add_session
  create_composing_session-Spares params fresh p v n new =
      go (find (ControlBlock.get_session_id fresh.block) p.all_sessions) refl
    where
      j : ℕ
      j = ControlBlock.get_session_id fresh.block

      m : Pool C
      m = record p { store = write fresh.address (configure params fresh) p.store }

      away : a ≢ fresh.address
      away e = find-IsNew fresh.address id a p.all_sessions new v.registered (sym e)

      go :
          (o : Option Ptr)
          → find j p.all_sessions ≡ o
          → Spares id a p (create_composing_session (some params) fresh p).0
      go (some other) e = rw (e, add_session) (stays id a p v)
      go none e =
          let s = Composing.deploy fresh.queue_garbage (m.store fresh.address) in
          let distinct : j ≢ id =
            λ same. ground (arith, ap (λ k. find k p.all_sessions) same, e, v.registered) in
          rw (add_session_new fresh.queue_garbage fresh.address j m n e) (record {
            same =
                write_other fresh.address a s m.store away
                ∙ write_other fresh.address a (configure params fresh) p.store away;
            held = record {
              registered =
                  find-insert j id fresh.address p.all_sessions
                  ∙ ground (arith, distinct, v.registered);
              sound = record {
                distinct = insert-IsDistinct j fresh.address p.all_sessions new v.sound.distinct;
                keyed = insert-IsKeyed j fresh.address p.all_sessions v.sound.keyed;
              };
              running = record { some_cpu = v.running.some_cpu; agree = v.running.agree };
            };
          })
