-- ===== src/Manager/Creation/Stored.antt =====
-- What `NewAccount` has stored when it succeeds.
use ldap_manager.Base.{◌≡◌, refl, sym, false, ap, ◌∙◌, List, [], ◌∷◌, ◌++◌, Bytes, codes}
use ldap_manager.Base.Int.{ℤ}
use ldap_manager.Directory.{Attribute, Env, Entry, Request, add_entry, Answer, entries}
use ldap_manager.Error.{Error}
use ldap_manager.Exec.{discard, Result, ok, Exec, raise, send, attempt, rescue, answered}
use ldap_manager.Exec.Ensures.{answered-eq-ok, attempt-eq-ok, Ensures}
use ldap_manager.Exec.Keeps.{
  Preserves, Keeps-rescue, Keeps-raise, Keeps-attempt, Keeps-if, Keeps-pure,
}
use ldap_manager.Exec.Succeeds.{Succeeds, Succeeds-Keeps, Succeeds-rescue, Succeeds-bind}
use ldap_manager.Exec.Traffic.{answering, exchanged_by}
use ldap_manager.Hash.{HashingAlgorithm}
use ldap_manager.Manager.{Manager, account_named}
use ldap_manager.Manager.Creation.{
  user_attributes, store_account, create_account, new_account, escaped_account,
  is_member_already_exists,
}
use ldap_manager.Manager.Creation.Numbers.{IsAccountNumber, next_uid-Ensures}
use ldap_manager.Manager.Lookup.{update_last_id}
use ldap_manager.Manager.Requests.Creation.{
  IsHashed, table_of, account_table, chosen, hashed_or_error-Ensures,
}
use ldap_manager.Manager.Requests.Groups.{last_id_change, add_group_member-Keeps}
use ldap_manager.Manager.Validation.{Account}

abbrev pub Exchanges : Type 0
Exchanges = List (Request × Answer)

-- The record of requests has this one, and the server took it then.
abbrev pub IsAccepted : Request → Exchanges → Type 0
IsAccepted r log =
    (es : List Entry) × (later : Exchanges) × (earlier : Exchanges) × (log
      ≡ later ++ ((r, entries es) ∷ earlier))

module _ {S A T : Type 0} where
  -- What was known before is known still.
  known : (m : Exec S A) → Succeeds (λ s. T) m (λ a s. T)
  known m = record { behind = λ s p a e. p }

  known_also : {Q : A → Type 0} (m : Exec S A) → Ensures Q m → Succeeds (λ s. T) m (λ a s. T × Q a)
  known_also m q = record { behind = λ s p a e. (p, q.at s a e) }

-- The last request is this one, and the server took it; another was accepted before.
abbrev pub IsCounted : Request → Request → Exchanges → Type 0
IsCounted r last log =
    (es : List Entry) × (before : Exchanges) × (log ≡ (last, entries es) ∷ before)
    × IsAccepted r before

module _ (env : Env) (m : Manager) where
  abbrev E : Env
  E = answering env

  abbrev pub IsStored : Account → HashingAlgorithm → Exchanges → Type 0
  IsStored account algorithm log =
      (uid : ℤ) × (gid : ℤ) × (hashed : Bytes) × (attributes : List Attribute) × IsAccountNumber uid
      × IsHashed env account.password (chosen m algorithm) hashed
      × (table_of attributes ≡ account_table m account uid gid hashed)
      × IsCounted (add_entry (account_named m account.username) attributes)
          (last_id_change m (codes "lastUID") uid) log

  module _ (r : Request) where
    IsAccepted-Preserves : Preserves E (λ s. IsAccepted r s.0) (λ q. Unit {0})
    IsAccepted-Preserves = record {
      step = λ q a s (es, l, e, h).
          (es, (q, (env.perform q s.1).0) ∷ l, e, ap (λ log. (q, (env.perform q s.1).0) ∷ log) h);
    }

    -- What is known of an answer that is kept.
    abbrev IsAnswered : Result (List Entry) → Exchanges → Type 0
    IsAnswered a log =
        (before : Exchanges) × (answer : Answer) × (log ≡ (r, answer) ∷ before)
        × (a ≡ answered answer)

    IsAnswered-IsAccepted :
        (a : Result (List Entry)) (log : Exchanges) (es : List Entry)
        → a ≡ ok es
        → IsAnswered a log
        → IsAccepted r log
    IsAnswered-IsAccepted a log es h (before, answer, l, k) =
        (es, [], before, l ∙ ap (λ x. (r, x) ∷ before) (answered-eq-ok answer es (sym k ∙ h)))

    send-Succeeds : Succeeds (λ s. Unit {0}) (attempt (send E r)) (λ a s. IsAnswered a s.0)
    unfolding attempt send
    send-Succeeds = record {
      behind = λ s p a e. (s.0, (env.perform r s.1).0, refl, sym (attempt-eq-ok (send E r) s a e));
    }

    rescue-Succeeds :
        (added : Result (List Entry)) (g : Error → Error)
        → Succeeds {S = E.State}
            (λ s. IsAnswered added s.0)
            (rescue added (λ e. raise (g e)))
            (λ a s. IsAccepted r s.0)
    rescue-Succeeds added g = record {
      behind = λ s p a e.
          let (k, q) =
            (Succeeds-rescue {S = E.State} {P = λ s. IsAnswered added s.0} added g).behind s p a
              e in
          IsAnswered-IsAccepted added _ a k q;
    }

  module _ (r last : Request) where
    -- The last answer, behind an accepted request.
    abbrev IsLast : Result (List Entry) → Exchanges → Type 0
    IsLast a log =
        (before : Exchanges) × (answer : Answer) × (log ≡ (last, answer) ∷ before)
        × (a ≡ answered answer)
        × IsAccepted r before

    last-Succeeds : Succeeds (λ s. IsAccepted r s.0) (attempt (send E last)) (λ a s. IsLast a s.0)
    unfolding attempt send
    last-Succeeds = record {
      behind = λ s p a e.
          (s.0, (env.perform last s.1).0, refl, sym (attempt-eq-ok (send E last) s a e), p);
    }

    reported-Succeeds :
        (done : Result (List Entry)) (g : Error → Error)
        → Succeeds {S = E.State}
            (λ s. IsLast done s.0)
            (discard (rescue done (λ e. raise (g e))))
            (λ a s. IsCounted r last s.0)
    unfolding discard
    reported-Succeeds done g =
        Succeeds-bind _ _ (Succeeds-rescue {S = E.State} {P = λ s. IsLast done s.0} done g) λ es.
          record {
            behind = λ s (k, (before, answer, l, h, accepted)) a e. (
              es,
              before,
              l ∙ ap (λ x. (last, x) ∷ before) (answered-eq-ok answer es (sym h ∙ k)),
              accepted,
            );
          }

  update_last_id-Succeeds :
      (r : Request) (n : ℤ)
      → Succeeds
          (λ s. IsAccepted r s.0)
          (update_last_id E m (codes "lastUID") n)
          (λ a s. IsCounted r (last_id_change m (codes "lastUID") n) s.0)
  unfolding update_last_id
  update_last_id-Succeeds r n =
      Succeeds-bind _ _ (last-Succeeds r _) λ done. reported-Succeeds r _ done _

  module _ (account : Account) (algorithm : HashingAlgorithm) where
    store_account-Succeeds :
        (uid : ℤ) (group : Bytes) (gid : ℤ) (hashed : Bytes)
        → Succeeds
            (λ s. Unit {0})
            (store_account E m account uid group gid hashed)
            (λ a s.
              IsCounted
                (add_entry
                  (account_named m account.username)
                  (user_attributes E m account uid gid hashed))
                (last_id_change m (codes "lastUID") uid)
                s.0)
    unfolding store_account
    store_account-Succeeds uid group gid hashed =
        let r : Request =
          add_entry (account_named m account.username)
            (user_attributes E m account uid gid hashed) in
        Succeeds-bind _ _ (send-Succeeds r) λ added.
          Succeeds-bind _ _ (rescue-Succeeds r added _) λ x.
            Succeeds-bind _ _
              (Succeeds-Keeps {P = λ s. IsAccepted r s.0} _ (
                Keeps-attempt _
                  (add_group_member-Keeps E m (IsAccepted-Preserves r) (λ q. tt) _ false tt)))
              λ joined.
                Succeeds-bind _ _
                  (Succeeds-Keeps {P = λ s. IsAccepted r s.0} _ (
                    Keeps-rescue joined _ λ e.
                      Keeps-if (is_member_already_exists e) _ _ (λ k. Keeps-pure _)
                        (λ k. Keeps-raise _)))
                  λ y. update_last_id-Succeeds r uid

    create_account-Succeeds :
        Succeeds
          (λ s. Unit {0})
          (create_account E m account algorithm)
          (λ a s. IsStored account algorithm s.0)
    unfolding create_account user_attributes
    create_account-Succeeds = Succeeds-bind _ _ (known _) λ answer. Succeeds-bind _ _ (known _) λ x.
        Succeeds-bind _ _ (known_also _ (next_uid-Ensures E m account.uid)) λ uid.
          Succeeds-bind _ _ (known _) λ place.
            Succeeds-bind _ _ (known_also _ (hashed_or_error-Ensures E m account.password _))
              λ hashed. record {
                behind = λ s p a e. (
                  uid,
                  place.1,
                  hashed,
                  user_attributes E m account uid place.1 hashed,
                  p.0.1,
                  (p.1.0.1, p.1.1),
                  refl,
                  (store_account-Succeeds uid place.0 place.1 hashed).behind s tt a e,
                );
              }

  -- If `NewAccount` succeeds, then it has sent the entry of the account, under the escaped name, with
  -- the listed attributes: its names, address, shell and home, the number of an account (at least
  -- 2000, or the least `int`), a group number, and a hash of the password by the algorithm asked for
  -- or configured. The server has taken that entry, and then, as the last request, the change of the
  -- record of the last user number to the number in the entry.
  pub new_account-IsStored :
      (account : Account) (algorithm : HashingAlgorithm) (s : env.State)
      → (new_account (answering env) m account algorithm ([], s)).0 ≡ ok tt
      → IsStored
          (escaped_account account)
          algorithm
          (exchanged_by (new_account (answering env) m account algorithm) s)
  unfolding new_account
  new_account-IsStored account algorithm s e =
      (Succeeds-bind {Q = λ a t. IsStored (escaped_account account) algorithm t.0} _ _ (known _)
          λ valid. create_account-Succeeds (escaped_account account) algorithm).behind
        ([], s) tt tt e
