-- ===== src/Pipeline/Run/Finishes.antt =====
-- Actions that come to an end, with the clock readings that they leave.
use wow_server_sim.Common.{ℕ, ◌≡◌, ◌≢◌, Bool, true, false, if◌then◌else◌}
use wow_server_sim.Effects.{Session, Exec, Outcome, ok, raise, spent, ◌>>=◌}
use wow_server_sim.Effects.Rules.{Holds, Holds-bind, Holds-if}

-- The action comes to an end, with `k` readings of the clock where it returns.
abbrev pub Ends : {A : Type 0} → ℕ → Exec A → Session → Type 0
Ends k m s = Holds (λ _ s'. s'.readings ≡ k) (λ _. Unit) (λ _. ⊥) (m s).0 (m s).1

-- The action comes to an end.
abbrev pub Finishes : {A : Type 0} → Exec A → Session → Type 0
Finishes m s = Holds (λ _ _. Unit) (λ _. Unit) (λ _. ⊥) (m s).0 (m s).1

pub not_spent :
    {A : Type 0} (r : Outcome A) (s : Session)
    → Holds (λ _ _. Unit {0}) (λ _. Unit {0}) (λ _. ⊥) r s
    → r ≢ spent
not_spent (ok a) s h e = cc
not_spent (raise x) s h e = cc
not_spent spent s h e = h

module _ {A B : Type 0} where
  pub Ends-bind :
      (k l : ℕ) (m : Exec A) (f : A → Exec B) (s : Session)
      → Ends k m s
      → ((a : A) (s' : Session) → s'.readings ≡ k → Ends l (f a) s')
      → Ends l (m >>= f) s
  Ends-bind k l m f s h next =
      Holds-bind (λ _ s'. s'.readings ≡ k) (λ _ s'. s'.readings ≡ l) (λ _. Unit) (λ _. ⊥) m f s h
        next

  pub Finishes-bind :
      (k : ℕ) (m : Exec A) (f : A → Exec B) (s : Session)
      → Ends k m s
      → ((a : A) (s' : Session) → s'.readings ≡ k → Finishes (f a) s')
      → Finishes (m >>= f) s
  Finishes-bind k m f s h next =
      Holds-bind (λ _ s'. s'.readings ≡ k) (λ _ _. Unit) (λ _. Unit) (λ _. ⊥) m f s h next

  pub Finishes-then :
      (m : Exec A) (f : A → Exec B) (s : Session)
      → Finishes m s
      → ((a : A) (s' : Session) → Finishes (f a) s')
      → Finishes (m >>= f) s
  Finishes-then m f s h next =
      Holds-bind (λ _ _. Unit) (λ _ _. Unit) (λ _. Unit) (λ _. ⊥) m f s h (λ a s' _. next a s')

pub Finishes-if :
    {A : Type 0} (b : Bool) (m n : Exec A) (s : Session)
    → (b ≡ true → Finishes m s)
    → (b ≡ false → Finishes n s)
    → Finishes (if b then m else n) s
Finishes-if b m n s = Holds-if (λ _ _. Unit) (λ _. Unit) (λ _. ⊥) b m n s
