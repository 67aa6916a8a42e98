-- ===== src/Exec/Ensures.antt =====
-- Postconditions of the values that are returned, one rule for each way to build a function, and
-- the inversion of a successful chain.
use ldap_manager.Directory.{ServerError, Answer, entries, failed, Entry}
use ldap_manager.Base.{
  ◌⊎◌, inl, inr, List, ap, ◌≡◌, refl, Bool, true, false, if◌then◌else◌, subst, ◌∙◌,
}
use ldap_manager.Error.{Error}
use ldap_manager.Exec.{
  answered, attempt, rescue, Result, ok, err, Exec, pure, raise, ◌>>=◌, and_then,
}

-- Whenever `m` returns a value, it satisfies `Q`.
pub record Ensures {S A : Type 0} (Q : A → Type 0) (m : Exec S A) : Type 0 where
  pub at : (s : S) (a : A) → (m s).0 ≡ ok a → Q a

module _ {S A : Type 0} {Q : A → Type 0} where
  pub Ensures-pure : (a : A) → Q a → Ensures Q (pure {S = S} a)
  unfolding pure
  Ensures-pure a q = record { at = λ s b e. subst_ok a b q e }
    where
      subst_ok : (a b : A) → Q a → ok a ≡ ok b → Q b
      subst_ok a b q e = let same : a ≡ b = cc in subst Q same q

  pub Ensures-raise : (e : Error) → Ensures Q (raise {S = S} e)
  unfolding raise
  Ensures-raise e = record { at = λ s b h. absurd (cc) }

  pub Ensures-if :
      (b : Bool) (m n : Exec S A)
      → (b ≡ true → Ensures Q m)
      → (b ≡ false → Ensures Q n)
      → Ensures Q (if b then m else n)
  Ensures-if true m n km kn = km refl
  Ensures-if false m n km kn = kn refl

module _ {S A B : Type 0} where
  and_then-eq-ok :
      (r : Result A) (f : A → Exec S B) (s : S) {b : B}
      → (and_then r f s).0 ≡ ok b
      → (a : A) × (r ≡ ok a) × ((f a s).0 ≡ ok b)
  and_then-eq-ok (ok a) f s h = (a, refl, h)
  and_then-eq-ok (err e) f s h = absurd (cc)

  -- A chain that succeeds is two steps that do.
  pub >>=-eq-ok :
      (m : Exec S A) (f : A → Exec S B) (s : S) {b : B}
      → ((m >>= f) s).0 ≡ ok b
      → (a : A) × ((m s).0 ≡ ok a) × ((f a (m s).1).0 ≡ ok b)
  unfolding ◌>>=◌
  >>=-eq-ok m f s h = and_then-eq-ok (m s).0 f (m s).1 h

  pub Ensures-bind :
      {Q : B → Type 0} (m : Exec S A) (f : A → Exec S B)
      → ((a : A) → Ensures Q (f a))
      → Ensures Q (m >>= f)
  Ensures-bind m f k = record {
    at = λ s b h. let (a, e, g) = >>=-eq-ok m f s h in (k a).at (m s).1 b g;
  }

pub ruleset ensures_rules = (Ensures-pure, Ensures-raise, Ensures-if, Ensures-bind)

-- The outcome that is kept is that of the call.
pub attempt-eq-ok :
    {S A : Type 0} (m : Exec S A) (s : S) (r : Result A) → (attempt m s).0 ≡ ok r → (m s).0 ≡ r
unfolding attempt
attempt-eq-ok m s r e = outcome (m s).0 r e
  where
    outcome : {A : Type 0} (q r : Result A) → ok q ≡ ok r → q ≡ r
    outcome q r e = cc

module _ {S A : Type 0} {Q : A → Type 0} where
  -- What a call ensures of its value is known of the outcome that is kept.
  pub Ensures-attempt :
      (m : Exec S A) → Ensures Q m → Ensures (λ r. (a : A) → r ≡ ok a → Q a) (attempt m)
  Ensures-attempt m k = record { at = λ s r e a h. k.at s a (attempt-eq-ok m s r e ∙ h) }

  pub Ensures-rescue :
      (r : Result A) (h : Error → Exec S A)
      → ((a : A) → r ≡ ok a → Q a)
      → ((e : Error) → Ensures Q (h e))
      → Ensures Q (rescue r h)
  unfolding rescue pure
  Ensures-rescue (ok a) h q k = Ensures-pure a (q a refl)
  Ensures-rescue (err e) h q k = k e

module _ {S A B : Type 0} {Q : A → Type 0} {R : B → Type 0} where
  pub Ensures-chain :
      (m : Exec S A) (f : A → Exec S B)
      → Ensures Q m
      → ((a : A) → Q a → Ensures R (f a))
      → Ensures R (m >>= f)
  Ensures-chain m f q k = record {
    at = λ s b h. let (a, e, g) = >>=-eq-ok m f s h in (k a (q.at s a e)).at (m s).1 b g;
  }

-- What a request returns is the server's answer.
pub answered-eq-ok : (a : Answer) (es : List Entry) → answered a ≡ ok es → a ≡ entries es
answered-eq-ok (entries xs) es h = let same : xs ≡ es = cc in ap entries same
answered-eq-ok (failed e) es h = absurd (cc)

pub Answer-cases :
    (a : Answer) → ((es : List Entry) × (a ≡ entries es)) ⊎ ((e : ServerError) × (a ≡ failed e))
Answer-cases (entries es) = inl (es, refl)
Answer-cases (failed e) = inr (e, refl)

pub Result-cases :
    {A : Type 0} (r : Result A) → ((a : A) × (r ≡ ok a)) ⊎ ((e : Error) × (r ≡ err e))
Result-cases (ok a) = inl (a, refl)
Result-cases (err e) = inr (e, refl)
