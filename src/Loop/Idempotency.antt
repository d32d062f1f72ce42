-- ===== src/Loop/Idempotency.antt =====
-- loop/idempotency.py. The clock and the random suffix of a cycle id come from outside.
use Prim.Native.String.{slice}
use auto_trader_claude.Base.{ℕ, String, ◌<>◌}
use auto_trader_claude.Core.Types.{VenueLeg, Side, leg_text, side_text}
use auto_trader_claude.Loop.World.{Host}

module _ ⦃host : Host⦄ where
  unfoldable pub make_cycle_id : ℕ → String → String
  make_cycle_id epoch_ms suffix = host.str_ℕ epoch_ms <> "-" <> suffix

  unfoldable pub client_order_id : String → String → VenueLeg → Side → String
  client_order_id cycle_id venue_symbol leg side =
      let composite =
        cycle_id <> "|" <> venue_symbol <> "|" <> leg_text leg <> "|" <> side_text side in
      "c" <> slice (host.sha256_hex composite) 0 24
