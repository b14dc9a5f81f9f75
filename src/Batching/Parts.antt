-- ===== src/Batching/Parts.antt =====
-- CPPAFKBase.hpp, the wrapper of a batch; CPPAFKBatchingQueue.hpp, the fields, and the loop that
-- disposes of wrappers which nobody needs.
use asyncflow_cpp.Common.{
  ℕ, zero, suc, ◌≡◌, sym, Bool, true, false, List, [], ◌∷◌, ◌++◌, if◌then◌else◌, length, append-nil,
  append_assoc,
}
use asyncflow_cpp.Queue.{Queue}

pub record Wrap {ℓ} (A : Type ℓ) : Type ℓ where
  pub cond_pred_w : Bool
  pub discarded : Bool
  pub many : List A
  pub wait_until_read : Bool

module _ {ℓ} {A : Type ℓ} where
  unfoldable pub new_wrap : List A → Wrap A
  new_wrap many = record {
    cond_pred_w = false;
    discarded = false;
    many = many;
    wait_until_read = false;
  }

  pub release : Wrap A → Wrap A
  release w = record w { cond_pred_w = false; discarded = true }

pub record Batching {ℓ} (A : Type ℓ) : Type ℓ where
  pub queue : Queue A
  pub open queue use *
  pub batch_limit_upper : ℕ
  pub batch_limit_lower : ℕ
  pub net_count : ℕ
  pub temp : Wrap A
  pub its_bq : List (Wrap A)
  pub relaxing : List (Wrap A)

module _ {ℓ} {A : Type ℓ} where
  -- The loop turns the queue once round: the front is deleted, or goes to the back.
  clear_loop : ℕ → List (Wrap A) → List (Wrap A)
  clear_loop zero ws = ws
  clear_loop (suc c) [] = []
  clear_loop (suc c) (w ∷ ws) = clear_loop c (if w.discarded then ws else ws ++ w ∷ [])

  unfoldable pub clear_relax_q : Batching A → Batching A
  unfolding clear_loop
  clear_relax_q b = record b { relaxing = clear_loop (length b.relaxing) b.relaxing }

  unfoldable pub send_to_relaxation : Wrap A → Batching A → Batching A
  send_to_relaxation w b = record b { relaxing = b.relaxing ++ w ∷ [] }

  -- The wrappers whose writer still waits or holds them.
  abbrev pub kept : List (Wrap A) → List (Wrap A)
  kept [] = []
  kept (w ∷ ws) = if w.discarded then kept ws else w ∷ kept ws

  clear_loop_lem : (ws vs : List (Wrap A)) → clear_loop (length ws) (ws ++ vs) ≡ vs ++ kept ws
  unfolding clear_loop
  clear_loop_lem [] vs = sym (append-nil vs)
  clear_loop_lem (w ∷ ws) vs =
      elim w.discarded
        as (λ d.
          clear_loop (length ws) (if d then ws ++ vs else (ws ++ vs) ++ w ∷ [])
          ≡ vs ++ (if d then kept ws else w ∷ kept ws)) [
            | true ↦ clear_loop_lem ws vs
            | false ↦
                rw (append_assoc ws vs (w ∷ []), clear_loop_lem ws (vs ++ w ∷ []))
                  (append_assoc vs (w ∷ []) (kept ws))
          ]

  -- One round of the disposal loop deletes exactly the wrappers marked as discarded, keeps the
  -- others in their order, and changes nothing else of the queue.
  pub clear_relax_q_lem :
      (b : Batching A) → clear_relax_q b ≡ record b { relaxing = kept b.relaxing }
  unfolding clear_relax_q
  clear_relax_q_lem b =
      let turned : clear_loop (length b.relaxing) b.relaxing ≡ kept b.relaxing =
        rw (append-nil b.relaxing) at (clear_loop_lem b.relaxing []) in
      rw turned
