-- ===== src/Composing/Posting.antt =====
-- CPPAFKComposingSession.cpp, postData: items that are posted to a session one after the other.
use asyncflow_cpp.Common.{
  ℕ, suc, ◌+◌, ◌<◌, ◌≡◌, refl, ap, ◌∙◌, true, false, Bool, List, [], ◌∷◌, ◌++◌, arith, length,
  sign_bit, Ptr, append_assoc, append-nil,
}
use asyncflow_cpp.Hybrid
use asyncflow_cpp.Hybrid.{Hybrid, Spec, CallMode, no_block, wait_for_first, wait_for_last}
use asyncflow_cpp.Hybrid.Order.{cast_object-IsOrdered}
use asyncflow_cpp.Session.{Session}
use asyncflow_cpp.Composing.{post_data}
use asyncflow_cpp.Composing.Serving.{IsAtWork-moved}
use asyncflow_cpp.Composing.Starting.{IsReady}

occupant-cast_object : (x : Ptr) (h : Hybrid) → (Hybrid.cast_object x 0 h).0.occupant ≡ h.occupant
unfolding Hybrid.cast_object
occupant-cast_object x h = refl

module _ {C : Type 0} where
  -- Items posted one after the other.
  abbrev pub posted : List Ptr → Session C → Session C
  posted [] s = s
  posted (x ∷ xs) s = posted xs (post_data x s).0

  -- Each of them is answered like this.
  abbrev pub Answered : Bool → List Ptr → Session C → Type 0
  Answered b [] s = Unit
  Answered b (x ∷ xs) s = ((post_data x s).1 ≡ b) × Answered b xs (post_data x s).0

  post_data_ready :
      (x : Ptr) (s : Session C) (h : Hybrid)
      → s.cblk.flushed ≡ false
      → s.data_queues ≡ h ∷ []
      → post_data x s ≡ (
        record s { data_queues = (Hybrid.cast_object x 0 h).0 ∷ [] },
        (Hybrid.cast_object x 0 h).1,
      )
  unfolding post_data
  post_data_ready x s h f e = simp (f, e)

  pub post_one :
      (x : Ptr) {n : ℕ} (us ys : List Ptr) (s r : Session C) (h : Hybrid)
      → suc n < sign_bit
      → IsReady n us ys s r h
      → (k : Hybrid) × ((post_data x r).1 ≡ true)
        × IsReady (suc n) us (ys ++ x ∷ []) s (post_data x r).0 k
  post_one x us ys s r h lt v =
      let (ordered, last, accepted) = cast_object-IsOrdered x 0 h lt v.at_work.ordered in
      rw (post_data_ready x r h v.at_work.not_flushed v.at_work.one_queue) (
        (Hybrid.cast_object x 0 h).0,
        accepted,
        record {
          at_work = IsAtWork-moved us r h (Hybrid.cast_object x 0 h).0 v.at_work ordered;
          nobody = occupant-cast_object x h ∙ v.nobody;
          holds = last ∙ ap (λ zs. zs ++ x ∷ []) v.holds;
          running = v.running;
          goes_on = v.goes_on;
          unmarked = v.unmarked;
          early = v.early;
        },
      )

  -- Items posted to a session that is ready are accepted, and wait in their order behind the others.
  pub posted_lem :
      (xs : List Ptr) {n : ℕ} (us ys : List Ptr) (s r : Session C) (h : Hybrid)
      → n + length xs < sign_bit
      → IsReady n us ys s r h
      → (k : Hybrid) × Answered true xs r × IsReady (n + length xs) us (ys ++ xs) s (posted xs r) k
  posted_lem [] {n} us ys s r h lt v =
      let none_more : n + 0 ≡ n = omega arith in (h, tt, rw (append-nil ys, none_more) v)
  posted_lem (x ∷ xs) {n} us ys s r h lt v =
      let (k, yes_one, w) = post_one x us ys s r h (omega arith) v in
      let (j, others, u) = posted_lem xs us (ys ++ x ∷ []) s (post_data x r).0 k (omega arith) w in
      let one_more : n + suc (length xs) ≡ suc n + length xs = omega arith in
      (j, (yes_one, others), rw (one_more, ← append_assoc ys (x ∷ []) xs) u)
