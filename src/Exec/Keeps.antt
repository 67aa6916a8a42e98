-- ===== src/Exec/Keeps.antt =====
-- Invariants of the server's state: one rule for each way to build a function, so that `search`
-- follows the code.
use ldap_manager.Base.{◌≡◌, refl, Bool, true, false, if◌then◌else◌}
use ldap_manager.Directory.{Request, Env}
use ldap_manager.Error.{Error}
use ldap_manager.Exec.{
  Result, ok, err, Exec, pure, raise, lift, attempt, ◌>>=◌, send, discard, rescue, and_then,
}

-- A call that begins in `P` ends in `P`, whether it returns or fails.
pub record Keeps {S R : Type 0} (P : S → Type 0) (call : Exec S R) : Type 0 where
  pub after : (s : S) → P s → P (call s).1

-- Both branches of a test, each with what the test says.
pub Keeps-if :
    {S R : Type 0} {P : S → Type 0} (test : Bool) (then_call else_call : Exec S R)
    → (test ≡ true → Keeps P then_call)
    → (test ≡ false → Keeps P else_call)
    → Keeps P (if test then then_call else else_call)
Keeps-if true then_call else_call k l = k refl
Keeps-if false then_call else_call k l = l refl

module _ {S R : Type 0} {P : S → Type 0} where
  -- A call that leaves the state alone.
  idle : (r : Result R) → Keeps P (lift {S = S} r)
  unfolding lift
  idle r = record { after = λ s p. p }

  pub Keeps-lift : (r : Result R) → Keeps P (lift {S = S} r)
  Keeps-lift r = idle r

  pub Keeps-raise : (e : Error) → Keeps P (raise {S = S} {A = R} e)
  unfolding lift raise
  Keeps-raise e = idle (err e)

  pub Keeps-pure : (x : R) → Keeps P (pure {S = S} x)
  unfolding lift pure
  Keeps-pure x = idle (ok x)

  pub Keeps-attempt : (call : Exec S R) → Keeps P call → Keeps P (attempt call)
  unfolding attempt
  Keeps-attempt call k = record { after = k.after }

  pub Keeps-rescue :
      (r : Result R) (handler : Error → Exec S R)
      → ((e : Error) → Keeps P (handler e))
      → Keeps P (rescue r handler)
  unfolding rescue
  Keeps-rescue (ok x) handler k = record { after = λ s p. p }
  Keeps-rescue (err e) handler k = k e

module _ {S A B : Type 0} {P : S → Type 0} {Q : A → Type 0} where
  and_then-keeps_ensured :
      (r : Result A) (f : A → Exec S B)
      → ((a : A) → r ≡ ok a → Q a)
      → ((a : A) → Q a → Keeps P (f a))
      → (s : S) → P s
      → P (and_then r f s).1
  and_then-keeps_ensured (ok a) f q k s p = (k a (q a refl)).after s p
  and_then-keeps_ensured (err e) f q k s p = p

  -- What follows may use what the value is known to be, of a call from a state in `P`.
  pub Keeps-bind_known :
      (m : Exec S A) (f : A → Exec S B)
      → Keeps P m
      → ((s : S) → P s → (a : A) → (m s).0 ≡ ok a → Q a)
      → ((a : A) → Q a → Keeps P (f a))
      → Keeps P (m >>= f)
  unfolding ◌>>=◌
  Keeps-bind_known m f km q kf = record {
    after = λ s p. and_then-keeps_ensured (m s).0 f (q s p) kf (m s).1 (km.after s p);
  }

  pub Keeps-bind_ensured :
      (m : Exec S A) (f : A → Exec S B)
      → Keeps P m
      → ((s : S) (a : A) → (m s).0 ≡ ok a → Q a)
      → ((a : A) → Q a → Keeps P (f a))
      → Keeps P (m >>= f)
  Keeps-bind_ensured m f km q kf = Keeps-bind_known m f km (λ s p. q s) kf

module _ {S R T : Type 0} {P : S → Type 0} where
  pub Keeps-bind :
      (first : Exec S R) (next : R → Exec S T)
      → Keeps P first
      → ((x : R) → Keeps P (next x))
      → Keeps P (first >>= next)
  Keeps-bind first next k l =
      Keeps-bind_ensured {Q = λ x. Unit {0}} first next k (λ s x e. tt) (λ x u. l x)

module _ {S A : Type 0} {P : S → Type 0} where
  pub Keeps-discard : (m : Exec S A) → Keeps P m → Keeps P (discard m)
  unfolding discard
  Keeps-discard m k = Keeps-bind m _ k (λ a. Keeps-pure tt)

-- Requests of the kind `Allowed` keep `P`.
pub record Preserves (env : Env) (P : env.State → Type 0) (Allowed : Request → Type 0)
    : Type 0 where
  pub step : (r : Request) → Allowed r → (s : env.State) → P s → P (env.perform r s).1

module _ {env : Env} {P : env.State → Type 0} {Allowed : Request → Type 0} where
  pub Keeps-send : Preserves env P Allowed → (r : Request) → Allowed r → Keeps P (send env r)
  unfolding send
  Keeps-send keep r a = record { after = keep.step r a }

pub ruleset keeps_rules = (
  Keeps-pure, Keeps-raise, Keeps-lift, Keeps-if, Keeps-attempt, Keeps-rescue, Keeps-bind,
  Keeps-discard,
)
