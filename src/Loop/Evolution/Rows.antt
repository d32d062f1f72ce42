-- ===== src/Loop/Evolution/Rows.antt =====
-- How the tables may change: rows of positions move along the state machine and keep their
-- identity, new rows take the next ids, and the other tables only grow.
use auto_trader_claude.Base.{
  all_distinct, ℕ, suc, true, ◌≡◌, refl, ◌∙◌, sym, ap, String, inl, inr, Bool-cases, List, [], ◌∷◌,
  ◌++◌, Option, some, length, arith, ◌==◌,
}
use Prim.Native.Nat.{◌+◌}
use mathlib.Core.List.{append_assoc, append-nil}
use auto_trader_claude.Core.Types.{Mode}
use auto_trader_claude.Core.Lifecycle.Machine.{Reach, here, Reach-trans}
use auto_trader_claude.State.Models.{
  Position, Trade, BotEvent, RejectedCandidate, ModeState, VenueState, StrategyConfig,
  StrategyConfigPerStrategy, BalanceSnapshot, CapitalFlow,
}
use auto_trader_claude.State.Session.{Session, find_position, update_position}
use auto_trader_claude.Loop.Runner.Flows.{flow_ids}

-- The columns that nothing writes after the insert.
pub record Identity (A : Type 0) : Type 0 where
  pub id : ℕ
  pub mode : Mode
  pub exchange : String
  pub trade_type : String
  pub symbol : String
  pub spot_symbol : String
  pub perp_symbol : String
  pub quantity : A
  pub opened_at : ℕ

module _ {A : Type 0} where
  abbrev pub identity : Position A → Identity A
  identity p = record {
    id = p.id;
    mode = p.mode;
    exchange = p.exchange;
    trade_type = p.trade_type;
    symbol = p.symbol;
    spot_symbol = p.spot_symbol;
    perp_symbol = p.perp_symbol;
    quantity = p.quantity;
    opened_at = p.opened_at;
  }

  pub record Row (p q : Position A) : Type 0 where
    pub same : identity q ≡ identity p
    pub moves : Reach p.status q.status

  -- rows numbered on from `k`
  abbrev pub Numbered : ℕ → List (Position A) → Type 0
  Numbered k [] = Unit
  Numbered k (p ∷ ps) = (p.id ≡ suc k) × Numbered (suc k) ps

  -- the rows of a table before and after, from the row with index `k` on
  abbrev pub Rows : ℕ → List (Position A) → List (Position A) → Type 0
  Rows k [] qs = Numbered k qs
  Rows k (p ∷ ps) [] = ⊥
  Rows k (p ∷ ps) (q ∷ qs) = Row p q × Rows (suc k) ps qs

  pub Row-refl : (p : Position A) → Row p p
  Row-refl p = record { same = refl; moves = here }

  pub Row-trans : (p q r : Position A) → Row p q → Row q r → Row p r
  Row-trans p q r a b = record { same = b.same ∙ a.same; moves = Reach-trans a.moves b.moves }

  pub Rows-refl : (k : ℕ) (ps : List (Position A)) → Rows k ps ps
  Rows-refl k [] = tt
  Rows-refl k (p ∷ ps) = (Row-refl p, Rows-refl (suc k) ps)

  Numbered-Rows : (k : ℕ) (ps qs : List (Position A)) → Numbered k ps → Rows k ps qs → Numbered k qs
  Numbered-Rows k [] qs h r = r
  Numbered-Rows k (p ∷ ps) [] h r = absurd r
  Numbered-Rows k (p ∷ ps) (q ∷ qs) (e, h) (a, r) =
      (ap (λ (i : Identity A). i.id) a.same ∙ e, Numbered-Rows (suc k) ps qs h r)

  pub Rows-trans :
      (k : ℕ) (ps qs rs : List (Position A)) → Rows k ps qs → Rows k qs rs → Rows k ps rs
  Rows-trans k [] qs rs h r = Numbered-Rows k qs rs h r
  Rows-trans k (p ∷ ps) [] rs h r = absurd h
  Rows-trans k (p ∷ ps) (q ∷ qs) [] h r = absurd r
  Rows-trans k (p ∷ ps) (q ∷ qs) (s ∷ rs) (a, h) (b, r) =
      (Row-trans p q s a b, Rows-trans (suc k) ps qs rs h r)

  -- an assignment that moves the row it finds as the state machine allows
  pub update_position-Rows :
      (k i : ℕ) (f : Position A → Position A) (ps : List (Position A))
      → ((p : Position A) → find_position i ps ≡ some p → Row p (f p))
      → Rows k ps (update_position i f ps)
  unfolding find_position update_position
  update_position-Rows k i f [] h = tt
  update_position-Rows k i f (p ∷ ps) h = elim (Bool-cases (p.id == i)) [
    | inl e ↦ rw e (h p (rw e), Rows-refl (suc k) ps)
    | inr e ↦ rw e (Row-refl p, update_position-Rows (suc k) i f ps (λ q found. h q (rw e found)))
  ]

  -- a row behind the last, under the next id
  pub append-Rows :
      (k : ℕ) (ps : List (Position A)) (p : Position A)
      → p.id ≡ suc (k + length ps)
      → Rows k ps (ps ++ (p ∷ []))
  append-Rows k [] p e = (omega arith, tt)
  append-Rows k (q ∷ ps) p e = (Row-refl q, append-Rows (suc k) ps p (omega arith))

-- A table that keeps its rows and gets more at its end.
abbrev pub Grows {ℓ} : {X : Type ℓ} → List X → List X → Type ℓ
Grows {X = X} xs ys = (more : List X) × (ys ≡ xs ++ more)

pub Grows-refl {ℓ} : {X : Type ℓ} (xs : List X) → Grows xs xs
Grows-refl xs = ([], sym (append-nil xs))

pub Grows-trans {ℓ} : {X : Type ℓ} (xs ys zs : List X) → Grows xs ys → Grows ys zs → Grows xs zs
Grows-trans xs ys zs (a, p) (b, q) = (a ++ b, q ∙ ap (λ l. l ++ b) p ∙ append_assoc xs a b)

pub record Evolves {A : Type 0} (s t : Session A) : Type 0 where
  pub positions : Rows 0 s.positions t.positions
  pub trades : Grows s.trades t.trades
  pub events : Grows s.bot_events t.bot_events
  pub rejections : Grows s.rejected_candidates t.rejected_candidates
  pub snapshots : Grows s.balance_snapshots t.balance_snapshots
  pub flows : Grows s.capital_flows t.capital_flows
  pub distinct :
      all_distinct (flow_ids s.capital_flows) ≡ true
      → all_distinct (flow_ids t.capital_flows) ≡ true

module _ {A : Type 0} where
  pub Evolves-refl : (s : Session A) → Evolves s s
  Evolves-refl s = record {
    positions = Rows-refl 0 s.positions;
    trades = Grows-refl s.trades;
    events = Grows-refl s.bot_events;
    rejections = Grows-refl s.rejected_candidates;
    snapshots = Grows-refl s.balance_snapshots;
    flows = Grows-refl s.capital_flows;
    distinct = λ h. h;
  }

  pub Evolves-trans : (s t u : Session A) → Evolves s t → Evolves t u → Evolves s u
  Evolves-trans s t u a b = record {
    positions = Rows-trans 0 _ _ _ a.positions b.positions;
    trades = Grows-trans _ _ _ a.trades b.trades;
    events = Grows-trans _ _ _ a.events b.events;
    rejections = Grows-trans _ _ _ a.rejections b.rejections;
    snapshots = Grows-trans _ _ _ a.snapshots b.snapshots;
    flows = Grows-trans _ _ _ a.flows b.flows;
    distinct = λ h. b.distinct (a.distinct h);
  }

  pub evolve_positions :
      (s : Session A) (ps : List (Position A))
      → Rows 0 s.positions ps
      → Evolves s (record s { positions = ps })
  evolve_positions s ps h = record {
    positions = h;
    trades = Grows-refl s.trades;
    events = Grows-refl s.bot_events;
    rejections = Grows-refl s.rejected_candidates;
    snapshots = Grows-refl s.balance_snapshots;
    flows = Grows-refl s.capital_flows;
    distinct = λ h. h;
  }

  pub evolve_trades :
      (s : Session A) (more : List (Trade A)) → Evolves s (record s { trades = s.trades ++ more })
  evolve_trades s more = record {
    positions = Rows-refl 0 s.positions;
    trades = (more, refl);
    events = Grows-refl s.bot_events;
    rejections = Grows-refl s.rejected_candidates;
    snapshots = Grows-refl s.balance_snapshots;
    flows = Grows-refl s.capital_flows;
    distinct = λ h. h;
  }

  pub evolve_events :
      (s : Session A) (more : List BotEvent)
      → Evolves s (record s { bot_events = s.bot_events ++ more })
  evolve_events s more = record {
    positions = Rows-refl 0 s.positions;
    trades = Grows-refl s.trades;
    events = (more, refl);
    rejections = Grows-refl s.rejected_candidates;
    snapshots = Grows-refl s.balance_snapshots;
    flows = Grows-refl s.capital_flows;
    distinct = λ h. h;
  }

  pub evolve_rejections :
      (s : Session A) (more : List (RejectedCandidate A))
      → Evolves s (record s { rejected_candidates = s.rejected_candidates ++ more })
  evolve_rejections s more = record {
    positions = Rows-refl 0 s.positions;
    trades = Grows-refl s.trades;
    events = Grows-refl s.bot_events;
    rejections = (more, refl);
    snapshots = Grows-refl s.balance_snapshots;
    flows = Grows-refl s.capital_flows;
    distinct = λ h. h;
  }

  -- tables that the relation leaves aside
  pub evolve_settings :
      (s : Session A) (now : ℕ) (config : Option (StrategyConfig A))
      (strategies : List (StrategyConfigPerStrategy A)) (modes : List ModeState)
      (venues : List VenueState)
      → Evolves s (record s {
        now = now;
        strategy_config = config;
        per_strategy = strategies;
        mode_states = modes;
        venue_states = venues;
      })
  evolve_settings s now config strategies modes venues = record {
    positions = Rows-refl 0 s.positions;
    trades = Grows-refl s.trades;
    events = Grows-refl s.bot_events;
    rejections = Grows-refl s.rejected_candidates;
    snapshots = Grows-refl s.balance_snapshots;
    flows = Grows-refl s.capital_flows;
    distinct = λ h. h;
  }

  pub evolve_snapshots :
      (s : Session A) (more : List (BalanceSnapshot A))
      → Evolves s (record s { balance_snapshots = s.balance_snapshots ++ more })
  evolve_snapshots s more = record {
    positions = Rows-refl 0 s.positions;
    trades = Grows-refl s.trades;
    events = Grows-refl s.bot_events;
    rejections = Grows-refl s.rejected_candidates;
    snapshots = (more, refl);
    flows = Grows-refl s.capital_flows;
    distinct = λ h. h;
  }

  pub evolve_flows :
      (s : Session A) (flows : List (CapitalFlow A))
      → Grows s.capital_flows flows
      → all_distinct (flow_ids flows) ≡ true
      → Evolves s (record s { capital_flows = flows })
  evolve_flows s flows g d = record {
    positions = Rows-refl 0 s.positions;
    trades = Grows-refl s.trades;
    events = Grows-refl s.bot_events;
    rejections = Grows-refl s.rejected_candidates;
    snapshots = Grows-refl s.balance_snapshots;
    flows = g;
    distinct = λ _. d;
  }
