-- ===== src/Ledger/Bonds.antt =====
-- The creator's bonds, by market: the bond branches of `computePnl` in offchain/app-core/src/pnl.ts.
-- `locked` is an integer, since the source subtracts from it without a test.
pub mod Locked
use cpredict.Prelude.{ℕ, ◌+◌, Bool, true, false, Option, none, some, [], if◌then◌else◌}
use cpredict.Prelude.Int.{ℤ, pos, ◌+ℤ◌, ◌-ℤ◌}
use cpredict.Prelude.Dict.{Dict, get, put, nat_eq}

pub record Bond : Type 0 where
  pub amount : ℕ
  pub settled : Bool

pub record Bonds : Type 0 where
  pub by_market : Dict ℕ Bond
  pub locked : ℤ
  pub credited : ℕ
  pub claimed : ℕ
  pub slashed : ℕ

abbrev pub no_bonds : Bonds
no_bonds = record { by_market = []; locked = pos 0; credited = 0; claimed = 0; slashed = 0 }

unfoldable pub lock_bond : ℕ → ℕ → Bonds → Bonds
unfolding put
lock_bond market value b = record b {
  by_market = put market (record { amount = value; settled = false }) b.by_market;
  locked = b.locked +ℤ pos value;
}

-- `bond.settled = true; bondLocked -= bond.amount;`
unfoldable pub settle_bond : ℕ → Bond → Bonds → Bonds
unfolding put
settle_bond market bond b = record b {
  by_market = put market (record bond { settled = true }) b.by_market;
  locked = b.locked -ℤ pos bond.amount;
}

unfoldable pub credit_bond : ℕ → ℕ → Bonds → Bonds
unfolding get
credit_bond market value b = elim (get market b.by_market) [
  | none ↦ record b { credited = b.credited + value }
  | some bond ↦
      if bond.settled
      then b
      else settle_bond market bond (record b { credited = b.credited + value })
]

unfoldable pub fund_timeout : ℕ → ℕ → Bonds → Bonds
unfolding get
fund_timeout market value b = elim (get market b.by_market) [
  | none ↦ b
  | some bond ↦
      if bond.settled then b else settle_bond market bond (record b { slashed = b.slashed + value })
]

unfoldable pub claim_bond : ℕ → Bonds → Bonds
claim_bond value b = record b { claimed = b.claimed + value }
