-- ===== src/Ledger/Step.antt =====
-- The branches of the loop in `computePnl` (offchain/app-core/src/pnl.ts) for claims, bonds, fees and
-- payments, and the whole loop.
pub mod Keeps
pub mod Window
pub mod Induction
use cpredict.Prelude.{
  ℕ, ◌+◌, ◌≡◌, Bool, true, false, not, ◌&&◌, ◌||◌, Option, none, some, List, [], ◌∷◌, ◌++◌, map,
  String, ltb, ◌==◌, if◌then◌else◌, any, str_eq,
}
use cpredict.Prelude.Sort.{sort_by}
use cpredict.Ledger.Json.{Json, array, object, integer, get_field, to_list}
use cpredict.Ledger.Fact.{
  FactKind, LedgerFact, financial_order, primary_buy, listing_created, listing_filled,
  listing_cancelled, listing_returned, market_resolved, winner_claimed, early_bird_claimed,
  refunded, timeout_claimed, losing_burned, share_transfer, payment_transfer, bond_locked,
  bond_credited, bond_timeout_funded, bond_claimed, fee_accrued, fee_claimed, user_operation,
  coverage_gap,
}
use cpredict.Ledger.Lot.{Disposal, sufficient, lot_after, disposal_of, lot_with}
use cpredict.Ledger.Bonds.{Bonds, no_bonds, lock_bond, credit_bond, fund_timeout, claim_bond}
use cpredict.Ledger.Fees.{FeeCategory, creator, fee_category}
use cpredict.Ledger.State.{
  Query, State, history_coverage_incomplete, before, included, missing, record_entry, touch_lot,
  dispose, lot_at, set_lot, acquire,
}
use cpredict.Ledger.Trades.{
  mine, other, value, units, with_lot, on_coverage_gap, on_primary_buy, on_listing_created,
  on_listing_returned, on_listing_filled, on_share_transfer, on_market_resolved, settle_lots,
  record_losses,
}

-- The parts that a claim burns: the outcome and the units of each, `none` for a part that is not
-- well formed.
abbrev Part : Type 0
Part = Option (ℕ × ℕ)

abbrev pair : Option ℕ → Option ℕ → Part
pair (some o) (some u) = some (o, u)
pair _ _ = none

abbrev part_of : Json → Part
part_of (object fs) = pair (integer (get_field "outcomeId" fs)) (integer (get_field "units" fs))
part_of _ = none

abbrev own_part : LedgerFact → Option ℕ → List Part
own_part f none = []
own_part f (some o) = pair (some o) f.units ∷ []

unfoldable pub consumed : LedgerFact → Option Json → List (Option (ℕ × ℕ))
unfolding integer to_list get_field
consumed f (some (array items)) = map part_of (to_list items)
consumed f _ = own_part f f.outcome_id

-- The locals that the loop over the parts changes.
pub record Burn : Type 0 where
  pub cost : ℕ
  pub burned : ℕ
  pub complete : Bool
  pub reason : Option String

abbrev first_reason : Option String → Option String → Option String
first_reason none r = r
first_reason (some r) _ = some r

abbrev burn_more : Burn → ℕ → Disposal → Burn
burn_more b quantity d = record {
  cost = b.cost + d.cost;
  burned = b.burned + quantity;
  complete = b.complete && d.complete;
  reason = first_reason b.reason d.reason;
}

unfoldable pub burn_parts :
    Query → LedgerFact → ℕ → List (Option (ℕ × ℕ)) → Burn → State → Burn × State
burn_parts q f m [] b s = (b, s)
burn_parts q f m (none ∷ rest) b s = burn_parts q f m rest (record b { complete = false }) s
burn_parts q f m (some (o, quantity) ∷ rest) b s =
    let (s', d) = dispose q f m o quantity false s in
    burn_parts q f m rest (burn_more b quantity d) s'

-- `if (burned !== units)`
abbrev checked : Burn → ℕ → Burn
checked b u =
    if b.burned == u
    then b
    else record b { complete = false; reason = some "burn_movement_missing" }

abbrev disposal_of_burn : Burn → Disposal
disposal_of_burn b = record { cost = b.cost; complete = b.complete; reason = b.reason }

abbrev is_losing : FactKind → Bool
is_losing losing_burned = true
is_losing _ = false

abbrev finish_claim : Query → LedgerFact → Burn → State → State
finish_claim q f b s =
    if is_losing f.kind
    then (if ltb 0 b.cost || not b.complete
        then missing q f "terminal_loss_history_missing" s
        else s)
    else record_entry q f (value f) (disposal_of_burn b) f.outcome_id s

abbrev pub nothing_burned : Burn
nothing_burned = record { cost = 0; burned = 0; complete = true; reason = none }

abbrev claim_at : Query → LedgerFact → Option ℕ → State → State
claim_at q f none s = s
claim_at q f (some m) s =
    let (b, s') = burn_parts q f m (consumed f (get_field "consumed" f.extra)) nothing_burned s in
    finish_claim q f (checked b (units f)) s'

unfoldable pub on_claim : Query → LedgerFact → State → State
on_claim q f s = if mine q f then claim_at q f f.market s else s

unfoldable pub on_bonus : Query → LedgerFact → State → State
on_bonus q f s =
    if mine q f
    then record_entry q f (value f) (record { cost = 0; complete = true; reason = none })
        f.outcome_id s
    else s

abbrev on_bonds : LedgerFact → (ℕ → Bonds → Bonds) → State → State
on_bonds f h s = elim f.market [ none ↦ s | some m ↦ record s { bonds = h m s.bonds } ]

abbrev is_creator : FeeCategory → Bool
is_creator creator = true
is_creator _ = false

module _ (keccak : String → String) (q : Query) where
  unfoldable pub on_fee_accrued : LedgerFact → State → State
  unfolding fee_category get_field
  on_fee_accrued f s =
      if mine q f && included q f && is_creator (fee_category keccak (get_field "feeKind" f.extra))
      then record s { creator_income = s.creator_income + value f }
      else s

  unfoldable pub on_payment_transfer : LedgerFact → State → State
  on_payment_transfer f s =
      if included q f
      then record s {
        payment_out =
            if mine q f && not (other q f) then s.payment_out + value f else s.payment_out;
        payment_in = if other q f && not (mine q f) then s.payment_in + value f else s.payment_in;
      }
      else s

  -- The branch that the kind of the fact selects.
  unfoldable pub handle : FactKind → LedgerFact → State → State
  handle coverage_gap f s = on_coverage_gap q f s
  handle primary_buy f s = on_primary_buy q f s
  handle listing_created f s = on_listing_created q f s
  handle listing_cancelled f s = on_listing_returned q f s
  handle listing_returned f s = on_listing_returned q f s
  handle listing_filled f s = on_listing_filled q f s
  handle share_transfer f s = on_share_transfer q f s
  handle market_resolved f s = on_market_resolved q f s
  handle winner_claimed f s = on_claim q f s
  handle refunded f s = on_claim q f s
  handle losing_burned f s = on_claim q f s
  handle early_bird_claimed f s = on_bonus q f s
  handle timeout_claimed f s = on_bonus q f s
  handle bond_locked f s = if mine q f then on_bonds f (λ m. lock_bond m (value f)) s else s
  handle bond_credited f s = if mine q f then on_bonds f (λ m. credit_bond m (value f)) s else s
  handle bond_timeout_funded f s = on_bonds f (λ m. fund_timeout m (value f)) s
  handle bond_claimed f s =
      if mine q f then record s { bonds = claim_bond (value f) s.bonds } else s
  handle fee_accrued f s = on_fee_accrued f s
  handle fee_claimed f s =
      if mine q f && included q f
      then record s { creator_claimed = s.creator_claimed + value f }
      else s
  handle payment_transfer f s = on_payment_transfer f s
  handle user_operation f s =
      if mine q f && included q f then record s { gas_cost = s.gas_cost + value f } else s
  handle _ f s = s

  -- The lot of the fact is made before any branch looks at it.
  abbrev pub process : LedgerFact → State → State
  process f s = handle f.kind f (with_lot f touch_lot s)

  unfoldable pub step : LedgerFact → State → State
  step f s =
      if any (str_eq f.id) s.seen
      then s
      else let s' = record s { seen = f.id ∷ s.seen } in
        if before q.to f.timestamp then process f s' else s'

  unfoldable pub run : List LedgerFact → State → State
  run [] s = s
  run (f ∷ fs) s = run fs (step f s)

abbrev pub start : Query → State
start q = record {
  lots = [];
  seen = [];
  reasons = if q.coverage_complete then [] else history_coverage_incomplete ∷ [];
  resolved = [];
  entries = [];
  bonds = no_bonds;
  creator_income = 0;
  creator_claimed = 0;
  payment_in = 0;
  payment_out = 0;
  gas_cost = 0;
}

-- The state behind the loop over the facts in financial order.
unfoldable pub run_sorted : (String → String) → Query → List LedgerFact → State
unfolding run step handle sort_by financial_order touch_lot lot_at set_lot missing record_entry
    dispose acquire sufficient lot_after disposal_of lot_with on_coverage_gap on_primary_buy
    on_listing_created on_listing_returned on_listing_filled on_share_transfer on_market_resolved
    settle_lots record_losses on_claim burn_parts consumed get_field integer on_bonus on_fee_accrued
    on_payment_transfer lock_bond credit_bond fund_timeout claim_bond
run_sorted keccak q facts = run keccak q (sort_by financial_order facts) (start q)
