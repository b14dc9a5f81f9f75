-- ===== src/Pool/Creation.antt =====
-- CPPAFKThreadpool.cpp, createComposingSession: the session that it registers.
use asyncflow_cpp.Common.{
  ℕ, ◌≡◌, ◌≢◌, refl, ap, ◌∙◌, true, false, List, [], ◌∷◌, ◌++◌, arith, Ptr, null, ptr_item, none,
  some,
}
use asyncflow_cpp.Registry.{find, insert}
use asyncflow_cpp.Registry.Laws.{find-insert}
use asyncflow_cpp.ControlBlock
use asyncflow_cpp.Composing
use asyncflow_cpp.Composing.{QueueGarbage}
use asyncflow_cpp.Composing.Starting.{IsFresh}
use asyncflow_cpp.Pool.{Pool, write}
use asyncflow_cpp.Pool.Store.{write_self}
use asyncflow_cpp.Pool.Sessions.{Params, Fresh, configure, add_session, create_composing_session}
use asyncflow_cpp.Pool.Configuring.{IsSimple, configure-IsFresh, deploy-IsFresh}

module _ {C : Type 0} where
  -- What a new object finds: a control block that asks for nothing, and a registry without its id.
  pub record IsNewcomer (fresh : Fresh) (p : Pool C) : Type 0 where
    pub not_asked : ControlBlock.cancellation_requested fresh.block ≡ false
    pub not_flushed : fresh.block.flushed ≡ false
    pub real : fresh.address ≢ null
    pub unused : find (ControlBlock.get_session_id fresh.block) p.all_sessions ≡ none

  -- What a session that was just made starts from.
  pub record IsCreated (u : Ptr) (us : List Ptr) (a : Ptr) (id : ℕ) (p q : Pool C) : Type 0 where
    pub found : find id q.all_sessions ≡ some a
    pub fresh : IsFresh (u ∷ us) (q.store a)
    pub empty : (q.store a).queue_zero.its_q ≡ []
    pub same_collector : q.gc ≡ p.gc
    pub last : q.online_sessions ≡ p.online_sessions ++ a ∷ []
    pub same_config : q.tpcfg ≡ p.tpcfg
    pub same_cpus : q.num_cpus ≡ p.num_cpus

  abbrev pub registered : QueueGarbage → Ptr → ℕ → Pool C → Pool C
  registered g a id p = record p {
    all_sessions = insert id a p.all_sessions;
    online_sessions = p.online_sessions ++ a ∷ [];
    store = write a (Composing.deploy g (p.store a)) p.store;
  }

  pub add_session_new :
      (g : QueueGarbage) (a : Ptr) (id : ℕ) (p : Pool C)
      → a ≢ null
      → find id p.all_sessions ≡ none
      → add_session g a id p ≡ (registered g a id p, true)
  unfolding add_session
  add_session_new g a id p n e = rw (e, add_session) (ground (arith, n))

  -- Creating a session of this kind under an identifier that is not in use answers with it. The
  -- session is found under it and is the last to be served.
  pub create_composing_session_lem :
      (u : Ptr) (us : List Ptr) (params : Params C) (fresh : Fresh) (p : Pool C)
      → IsSimple u us params
      → IsNewcomer fresh p
      → let id = ControlBlock.get_session_id fresh.block in
        (q : Pool C) × (create_composing_session (some params) fresh p ≡ (q, id))
        × IsCreated u us fresh.address id p q
  unfolding create_composing_session
  create_composing_session_lem u us params fresh p v n =
      let id = ControlBlock.get_session_id fresh.block in
      let s = configure params fresh in
      let m = record p { store = write fresh.address s p.store } in
      let (ready, zero) = configure-IsFresh u us params fresh v n.not_asked n.not_flushed in
      let (deployed, kept) = deploy-IsFresh fresh.queue_garbage (u ∷ us) s ready in
      let here = write_self fresh.address s p.store in
      let there =
        write_self fresh.address (Composing.deploy fresh.queue_garbage (m.store fresh.address))
          m.store in
      let stored : (registered fresh.queue_garbage fresh.address id m).store fresh.address
          ≡ Composing.deploy fresh.queue_garbage s =
        there ∙ ap (Composing.deploy fresh.queue_garbage) here in
      (
        registered fresh.queue_garbage fresh.address id m,
        rw (add_session_new fresh.queue_garbage fresh.address id m n.real n.unused),
        record {
          found = find-insert id id fresh.address p.all_sessions ∙ ground arith;
          fresh = rw stored deployed;
          empty = ap (λ r. r.queue_zero.its_q) stored ∙ ap (λ q. q.its_q) kept ∙ zero;
          same_collector = refl;
          last = refl;
          same_config = refl;
          same_cpus = refl;
        },
      )
