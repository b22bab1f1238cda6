-- ===== src/Base/Outcomes.antt =====
-- Calls into code that may panic, over a state that stands for all that such code can change.
use mathlib.Core.Path.{◌≡◌, refl}

pub data Outcome {ℓ} (A : Type ℓ) : Type ℓ where
  returned : A → Outcome A
  panicked : Outcome A

-- A call that changes the state and then returns or panics.
abbrev pub Call : Type 0 → Type 0 → Type 0
Call S A = S → Outcome A × S

module _ {S A B : Type 0} where
  -- What follows a call: nothing, if it panicked.
  abbrev pub follow : (A → Call S B) → Outcome A × S → Outcome B × S
  follow f (returned a, s) = f a s
  follow f (panicked, s) = (panicked, s)

  infixl 5 ◌>>=◌
  abbrev pub ◌>>=◌ : Call S A → (A → Call S B) → Call S B
  ◌>>=◌ m f s = follow f (m s)

abbrev pub pure : {S A : Type 0} → A → Call S A
pure a s = (returned a, s)

module _ {S A B : Type 0} where
  -- A sequence that returned is one whose first call returned.
  pub >>=-returned :
      (m : Call S A) (f : A → Call S B) (s s' : S) (b : B)
      → (m >>= f) s ≡ (returned b, s')
      → (a : A) × (s1 : S) × (m s ≡ (returned a, s1)) × (f a s1 ≡ (returned b, s'))
  >>=-returned m f s s' b h = go (m s) refl h
    where
      go :
          (r : Outcome A × S)
          → m s ≡ r
          → follow f r ≡ (returned b, s')
          → (a : A) × (s1 : S) × (m s ≡ (returned a, s1)) × (f a s1 ≡ (returned b, s'))
      go (returned a, s1) e k = (a, s1, e, k)
      go (panicked, s1) e k = cc
