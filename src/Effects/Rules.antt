-- ===== src/Effects/Rules.antt =====
-- Postconditions of actions, and the rules by which a proof follows a `do` block.
use wow_server_sim.Common.{◌≡◌, refl, Bool, true, false, if◌then◌else◌}
use mathlib.Core.Path.{subst}
use wow_server_sim.Effects.{Error, Outcome, ok, raise, spent, Act, continue, ◌>>=◌}

-- `P` where the action returns, `E` where it raises, `F` where its fuel runs out.
module _ {S A : Type 0} (P : A → S → Type 0) (E F : S → Type 0) where
  abbrev pub Holds : Outcome A → S → Type 0
  Holds (ok a) s = P a s
  Holds (raise e) s = E s
  Holds spent s = F s

module _ {S A B : Type 0} (P : A → S → Type 0) (Q : B → S → Type 0) (E F : S → Type 0) where
  Holds-continue :
      (f : A → Act S B) (r : Outcome A) (s : S)
      → Holds P E F r s
      → ((a : A) (s' : S) → P a s' → Holds Q E F (f a s').0 (f a s').1)
      → Holds Q E F (continue r f s).0 (continue r f s).1
  Holds-continue f (ok a) s h next = next a s h
  Holds-continue f (raise e) s h next = h
  Holds-continue f spent s h next = h

  pub Holds-bind :
      (m : Act S A) (f : A → Act S B) (s : S)
      → Holds P E F (m s).0 (m s).1
      → ((a : A) (s' : S) → P a s' → Holds Q E F (f a s').0 (f a s').1)
      → Holds Q E F ((m >>= f) s).0 ((m >>= f) s).1
  Holds-bind m f s h next = Holds-continue f (m s).0 (m s).1 h next

-- The action of a test, with the test known on either branch.
module _ {S A : Type 0} (P : A → S → Type 0) (E F : S → Type 0) where
  pub Holds-if :
      (c : Bool) (m n : Act S A) (s : S)
      → (c ≡ true → Holds P E F (m s).0 (m s).1)
      → (c ≡ false → Holds P E F (n s).0 (n s).1)
      → Holds P E F ((if c then m else n) s).0 ((if c then m else n) s).1
  Holds-if true m n s pos neg = pos refl
  Holds-if false m n s pos neg = neg refl

-- Weaker postconditions of errors and of spent fuel.
module _ {S A : Type 0} (P : A → S → Type 0) (E F E' F' : S → Type 0) (error : (s : S) → E s → E' s)
    (fuel : (s : S) → F s → F' s) where
  pub Holds-weaken : (r : Outcome A) (s : S) → Holds P E F r s → Holds P E' F' r s
  Holds-weaken (ok a) s h = h
  Holds-weaken (raise x) s h = error s h
  Holds-weaken spent s h = fuel s h

-- From equations about an action to its postcondition.
module _ {S A : Type 0} (P : A → S → Type 0) (E F : S → Type 0) where
  Holds-cases :
      (r : Outcome A) (s : S)
      → ((a : A) → r ≡ ok a → P a s)
      → ((e : Error) → r ≡ raise e → E s)
      → (r ≡ spent → F s)
      → Holds P E F r s
  Holds-cases (ok a) s p e f = p a refl
  Holds-cases (raise x) s p e f = e x refl
  Holds-cases spent s p e f = f refl

  pub Holds-of :
      (m : Act S A) (s : S)
      → ((a : A) → (m s).0 ≡ ok a → P a (m s).1)
      → ((e : Error) → (m s).0 ≡ raise e → E (m s).1)
      → ((m s).0 ≡ spent → F (m s).1)
      → Holds P E F (m s).0 (m s).1
  Holds-of m s p e f = Holds-cases (m s).0 (m s).1 p e f

  pub of-Holds : (r : Outcome A) (s : S) (a : A) → Holds P E F r s → r ≡ ok a → P a s
  of-Holds (ok b) s a h e = let same : b ≡ a = cc in subst (λ x. P x s) same h
  of-Holds (raise x) s a h e = cc
  of-Holds spent s a h e = cc

-- One postcondition for every way to end.
module _ {S A : Type 0} (Q : S → Type 0) where
  pub Holds-always : (r : Outcome A) (s : S) → Q s → Holds (λ _. Q) Q Q r s
  Holds-always (ok a) s q = q
  Holds-always (raise e) s q = q
  Holds-always spent s q = q

  pub always-Holds : (r : Outcome A) (s : S) → Holds (λ _. Q) Q Q r s → Q s
  always-Holds (ok a) s h = h
  always-Holds (raise e) s h = h
  always-Holds spent s h = h
