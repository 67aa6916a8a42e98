-- ===== src/Exec.antt =====
-- Functions that send requests and may fail. What was sent before an error stays sent, so that the
-- server's state comes back beside an error too.
pub mod Keeps
pub mod Ensures
pub mod Traffic
pub mod Succeeds
use ldap_manager.Base.{List, []}
use ldap_manager.Directory.{Entry, Request, Answer, entries, failed, Env}
use ldap_manager.Error.{Error, AppError, app, server}

pub data Result (A : Type 0) : Type 0 where
  ok : A → Result A
  err : Error → Result A

abbrev pub Exec : Type 0 → Type 0 → Type 0
Exec S A = S → Result A × S

module _ {S A : Type 0} where
  unfoldable pub pure : A → Exec S A
  pure a s = (ok a, s)

  unfoldable pub raise : Error → Exec S A
  raise e s = (err e, s)

  -- `return` of an error or of a value that was computed.
  unfoldable pub lift : Result A → Exec S A
  lift r s = (r, s)

  -- `x, err := f()`, with the error at hand.
  unfoldable pub attempt : Exec S A → Exec S (Result A)
  attempt m s = let (r, s') = m s in (ok r, s')

-- `if err := m; err != nil { return handle(err) }`.
unfoldable pub rescue : {S A : Type 0} → Result A → (Error → Exec S A) → Exec S A
rescue (ok a) h s = (ok a, s)
rescue (err e) h s = h e s

module _ {S A B : Type 0} where
  abbrev pub and_then : Result A → (A → Exec S B) → Exec S B
  and_then (ok a) f s = f a s
  and_then (err e) f s = (err e, s)

  infixl 10 ◌>>=◌ ◌>>◌
  -- To open this is to open the other ways to build a function too.
  unfoldable pub ◌>>=◌ : Exec S A → (A → Exec S B) → Exec S B
  unfolding pure raise lift attempt rescue
  ◌>>=◌ m f s = let (r, s') = m s in and_then r f s'

  abbrev pub ◌>>◌ : Exec S A → Exec S B → Exec S B
  m >> n = m >>= λ _. n

-- A call whose result is not read.
unfoldable pub discard : {S A : Type 0} → Exec S A → Exec S (Unit {0})
unfolding ◌>>=◌
discard m = m >>= λ a. pure tt

abbrev pub answered : Answer → Result (List Entry)
answered (entries es) = ok es
answered (failed e) = err (server e)

module _ (env : Env) where
  -- One request, and the server's error as it is.
  unfoldable pub send : Request → Exec env.State (List Entry)
  send r s = let (a, s') = env.perform r s in (answered a, s')
