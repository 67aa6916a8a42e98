-- ===== src/Exec/Traffic.antt =====
-- The requests that a function sends: a server that also writes down each request it is sent.
use ldap_manager.Base.{List, [], ◌∷◌, All}
use ldap_manager.Directory.{Request, Answer, Env}
use ldap_manager.Exec.{Exec}
use ldap_manager.Exec.Keeps.{Keeps, Preserves}

-- The same server with a record of its requests, the last one first.
abbrev pub recording : Env → Env
recording env = record {
  State = List Request × env.State;
  perform = λ r s. let (a, t) = env.perform r s.1 in (a, (r ∷ s.0, t));
  get_attribute_value = env.get_attribute_value;
  get_attribute_values = env.get_attribute_values;
  capture = env.capture;
  escape_filter = env.escape_filter;
  unicode = env.unicode;
  quote = env.quote;
  digests = env.digests;
  random = λ s n. env.random s.1 n;
}

-- What a function sends when it is called in a state.
abbrev pub sent_by : {S R : Type 0} → (List Request × S → R × (List Request × S)) → S → List Request
sent_by m s = (m ([], s)).1.0

-- The same server with a record of its requests and of its answers to them.
abbrev pub answering : Env → Env
answering env = record {
  State = List (Request × Answer) × env.State;
  perform = λ r s. let (a, t) = env.perform r s.1 in (a, ((r, a) ∷ s.0, t));
  get_attribute_value = env.get_attribute_value;
  get_attribute_values = env.get_attribute_values;
  capture = env.capture;
  escape_filter = env.escape_filter;
  unicode = env.unicode;
  quote = env.quote;
  digests = env.digests;
  random = λ s n. env.random s.1 n;
}

-- What a function sends when it is called in a state, with the answers.
abbrev pub exchanged_by :
    {S R : Type 0}
    → (List (Request × Answer) × S → R × (List (Request × Answer) × S))
    → S
    → List (Request × Answer)
exchanged_by m s = (m ([], s)).1.0

module _ (env : Env) (Allowed : Request → Type 0) where
  -- Every request in the record is allowed.
  abbrev pub IsRecorded : List Request × env.State → Type 0
  IsRecorded s = All Allowed s.0

  pub recording-Preserves : Preserves (recording env) IsRecorded Allowed
  recording-Preserves = record { step = λ r a s p. (a, p) }

module _ (env : Env) (Allowed : Request → Type 0) where
  pub sent_by-All :
      {A : Type 0} (m : Exec (List Request × env.State) A)
      → Keeps (IsRecorded env Allowed) m
      → (s : env.State) → All Allowed (sent_by m s)
  sent_by-All m k s = k.after ([], s) tt
