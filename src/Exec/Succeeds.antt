-- ===== src/Exec/Succeeds.antt =====
-- What holds behind a call that succeeds: of its value and of the state it leaves.
use ldap_manager.Base.{◌≡◌, refl}
use ldap_manager.Error.{Error}
use ldap_manager.Exec.{Result, ok, err, Exec, raise, rescue, ◌>>=◌, and_then}
use ldap_manager.Exec.Keeps.{Keeps}

-- A call from a state in `P` that returns a value leaves that value and its state in `Q`.
pub record Succeeds {S A : Type 0} (P : S → Type 0) (call : Exec S A) (Q : A → S → Type 0)
    : Type 0 where
  pub behind : (s : S) → P s → (a : A) → (call s).0 ≡ ok a → Q a (call s).1

module _ {S A : Type 0} {P : S → Type 0} where
  pub Succeeds-Keeps : (m : Exec S A) → Keeps P m → Succeeds P m (λ a s. P s)
  Succeeds-Keeps m k = record { behind = λ s p a e. k.after s p }

  -- An error that is handed on has not happened.
  pub Succeeds-rescue :
      (r : Result A) (g : Error → Error)
      → Succeeds P (rescue {S = S} r (λ e. raise (g e))) (λ a s. (r ≡ ok a) × P s)
  unfolding rescue raise
  Succeeds-rescue (ok x) g = record { behind = λ s p a e. (e, p) }
  Succeeds-rescue (err x) g = record { behind = λ s p a e. absurd (cc) }

module _ {S A B : Type 0} {R : A → S → Type 0} {Q : B → S → Type 0} where
  and_then-Succeeds :
      (r : Result A) (f : A → Exec S B) (s : S)
      → ((a : A) → r ≡ ok a → R a s)
      → ((a : A) → Succeeds (R a) (f a) Q)
      → (b : B) → (and_then r f s).0 ≡ ok b
      → Q b (and_then r f s).1
  and_then-Succeeds (ok a) f s h k b e = (k a).behind s (h a refl) b e
  and_then-Succeeds (err x) f s h k b e = absurd (cc)

  module _ {P : S → Type 0} where
    pub Succeeds-bind :
        (m : Exec S A) (f : A → Exec S B)
        → Succeeds P m R
        → ((a : A) → Succeeds (R a) (f a) Q)
        → Succeeds P (m >>= f) Q
    unfolding ◌>>=◌
    Succeeds-bind m f km kf = record {
      behind = λ s p b e. and_then-Succeeds (m s).0 f (m s).1 (km.behind s p) kf b e;
    }
