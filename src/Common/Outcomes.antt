-- ===== src/Common/Outcomes.antt =====
-- What a call that need not come back does: it returns, it waits for ever (it locks a std::mutex
-- that it holds, or sleeps with a lock that its waker needs), it leaves defined behaviour (`front`
-- or `pop_front` of an empty deque, a pointer that is not valid), or it ends the program (an
-- exception that nothing catches, as of the call of an empty std::function).
use mathlib.Core.Path.{◌≡◌, refl}

pub data Outcome {ℓ} (A : Type ℓ) : Type ℓ where
  done : A → Outcome A
  stuck undefined terminated : Outcome A

infixl 5 ◌>>=◌
abbrev pub ◌>>=◌ {ℓ κ} : {A : Type ℓ} {B : Type κ} → Outcome A → (A → Outcome B) → Outcome B
done a >>= f = f a
stuck >>= f = stuck
undefined >>= f = undefined
terminated >>= f = terminated

pub bind-done {ℓ κ} :
    {A : Type ℓ} {B : Type κ} (m : Outcome A) (f : A → Outcome B) (b : B)
    → (m >>= f) ≡ done b
    → (a : A) × (m ≡ done a) × (f a ≡ done b)
bind-done (done a) f b e = (a, refl, e)
bind-done stuck f b e = absurd (cc)
bind-done undefined f b e = absurd (cc)
bind-done terminated f b e = absurd (cc)

pub done-inj {ℓ} : {A : Type ℓ} (a b : A) → done a ≡ done b → a ≡ b
done-inj a b e = cc
