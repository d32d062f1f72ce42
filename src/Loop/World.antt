-- ===== src/Loop/World.antt =====
-- What a cycle reads and writes: the database session, the venue's state and the result object,
-- `CycleResult` of loop/cycle.py; and what it takes from Python's library.
use auto_trader_claude.Base.{
  ℕ, String, List, [], ◌∷◌, ◌++◌, Option, none, some, ok, Action, Exn, done, ◌>>=◌,
}
use auto_trader_claude.Core.Types.{Mode}
use auto_trader_claude.State.Models.{Position}
use auto_trader_claude.State.Session.{Session, find_position, update_position}

-- `hashlib.sha256(...).hexdigest()`, `str` of an integer and `repr` of an exception and of a
-- text.
pub record Host : Type 0 where
  pub sha256_hex : String → String
  pub str_ℕ : ℕ → String
  pub repr : Exn → String
  pub quote : String → String

pub record CycleResult : Type 0 where
  pub cycle_id : String
  pub mode : Mode
  pub exchange : String
  pub actions : List String
  pub rejections : List String
  pub error : Option String

pub record World (A G : Type 0) : Type 0 where
  pub session : Session A
  pub venue : G
  pub res : CycleResult

module _ {A G : Type 0} where
  -- a call of the gateway
  unfoldable pub call : {X : Type 0} → Action G X → Action (World A G) X
  call m w = let (r, g) = m w.venue in (r, record w { venue = g })

  unfoldable pub query : {X : Type 0} → (Session A → X) → Action (World A G) X
  query f w = (ok (f w.session), w)

  unfoldable pub write : (Session A → Session A) → Action (World A G) (Unit {0})
  write f w = (ok tt, record w { session = f w.session })

  -- a read that may create the row
  unfoldable pub fetch : {X : Type 0} → (Session A → X × Session A) → Action (World A G) X
  fetch f w = let (x, s) = f w.session in (ok x, record w { session = s })

  unfoldable pub add_action : String → Action (World A G) (Unit {0})
  add_action text w =
      (ok tt, record w { res = record (w.res) { actions = w.res.actions ++ (text ∷ []) } })

  unfoldable pub add_rejection : String → Action (World A G) (Unit {0})
  add_rejection text w =
      (ok tt, record w { res = record (w.res) { rejections = w.res.rejections ++ (text ∷ []) } })

  -- assignments to the attributes of a mapped row, flushed
  unfoldable pub assign : ℕ → (Position A → Position A) → Action (World A G) (Unit {0})
  unfolding write
  assign i f = write (λ s. record s { positions = update_position i f s.positions })

  abbrev pub if_found :
      Option (Position A)
      → (Position A → Action (World A G) (Unit {0}))
      → Action (World A G) (Unit {0})
  if_found none body = done
  if_found (some p) body = body p

  -- `body(pos)` for a row that an earlier query returned, as its object is now
  unfoldable pub with_position :
      (Position A → Action (World A G) (Unit {0})) → Position A → Action (World A G) (Unit {0})
  with_position body pos = do
    found ← query (λ s. find_position pos.id s.positions)
    if_found found body
