-- ===== src/Indexer/Rollback/Retained.antt =====
-- What a rollback drops of the history, and what it keeps.
use mathlib.Core.List.{Memᴰ}
use cpredict.Prelude.{ℕ, ◌≡◌, ◌≢◌, ◌↔◌, true, not, Option, none, some, arith, ◌==◌, ◌&&◌}
use cpredict.Prelude.Dict.{Dict, Eq, get, delete_if, nat_eq, pair_eq}
use cpredict.Prelude.Members.{Mem-delete_if, Mem-put}
use cpredict.Indexer.Types.{CanonicalBlock, ChainCheckpoint}
use cpredict.Indexer.Memory.{Store, Outside}
use cpredict.Indexer.Memory.Laws.{Keeps, >>-keeps}
use cpredict.Indexer.Rollback.{
  after, drop_history, rebuild_views, ancestor, set_ancestor, rollback_after,
}
use cpredict.Indexer.Rollback.Laws.{Kept}

-- The entries of `t` are those of `s` that are on another chain or not after the limit, where `c` and `n`
-- read the chain and the block of an entry.
abbrev pub Selects :
    {K V : Type 0} → ℕ → Option ℕ → (V → ℕ) → (V → ℕ) → Dict K V → Dict K V → Type 0
Selects {K = K} {V = V} chain limit c n s t =
    (kv : K × V) → Memᴰ kv t ↔ (Memᴰ kv s × (c kv.1 ≡ chain → Kept limit (n kv.1)))

-- The history of `t` is that of `s` less the chain's part after the limit, and the checkpoints of the
-- other chains are the same.
pub record Retains (chain : ℕ) (limit : Option ℕ) (s t : Store) : Type 0 where
  pub ranges : Selects chain limit (λ r. r.chain_id) (λ r. r.to_block) s.ranges t.ranges
  pub blocks : Selects chain limit (λ b. b.chain_id) (λ b. b.block_number) s.blocks t.blocks
  pub events : Selects chain limit (λ e. e.chain_id) (λ e. e.block_number) s.events t.events
  pub checkpoints :
      (kc : ℕ × ChainCheckpoint) → kc.0 ≢ chain → Memᴰ kc t.checkpoints ↔ Memᴰ kc s.checkpoints

not_dropped_iff :
    (chain c n : ℕ) (limit : Option ℕ)
    → (not (c == chain && after limit n) ≡ true) ↔ (c ≡ chain → Kept limit n)
not_dropped_iff chain c n none = (λ h e. ground arith, λ h. ground arith)
not_dropped_iff chain c n (some limit) = (λ h e. ground arith, λ h. ground arith)

delete_if-Selects :
    {K V : Type 0} ⦃e : Eq K⦄ (chain : ℕ) (limit : Option ℕ) (c n : V → ℕ) (d : Dict K V)
    → Selects chain limit c n d (delete_if (λ _ v. c v == chain && after limit (n v)) d)
delete_if-Selects chain limit c n d kv =
    let kept = Mem-delete_if (λ _ v. c v == chain && after limit (n v)) kv d in
    let test = not_dropped_iff chain (c kv.1) (n kv.1) limit in
    (λ m. ((kept.0 m).0, test.0 (kept.0 m).1), λ m. kept.1 (m.0, test.1 m.1))

drop_history-Retains :
    (chain : ℕ) (limit : Option ℕ) (s : Store) → Retains chain limit s (drop_history chain limit s)
drop_history-Retains chain limit s = record {
  ranges = delete_if-Selects chain limit (λ r. r.chain_id) (λ r. r.to_block) s.ranges;
  blocks = delete_if-Selects chain limit (λ b. b.chain_id) (λ b. b.block_number) s.blocks;
  events = delete_if-Selects chain limit (λ e. e.chain_id) (λ e. e.block_number) s.events;
  checkpoints = λ kc other.
      let kept = Mem-delete_if (λ k _. k == chain) kc s.checkpoints in
      let test : not (kc.0 == chain) ≡ true = ground arith in
      (λ m. (kept.0 m).0, λ m. kept.1 (m, test));
}

ancestor-Retains :
    (chain : ℕ) (limit : Option ℕ) (s : Store) (n : ℕ) (found : Option CanonicalBlock)
    → Keeps (Retains chain limit s) (ancestor chain n found)
ancestor-Retains chain limit s n none t h = h
ancestor-Retains chain limit s n (some b) t h = record {
  ranges = h.ranges;
  blocks = h.blocks;
  events = h.events;
  checkpoints = λ kc other.
      let kept =
        Mem-put chain (record { chain_id = chain; block_number = n; block_hash = b.block_hash }) kc
          t.checkpoints other in
      (λ m. (h.checkpoints kc other).0 (kept.0 m), λ m. kept.1 ((h.checkpoints kc other).1 m));
}

set_ancestor-Retains :
    (chain : ℕ) (limit : Option ℕ) (s : Store)
    → Keeps (Retains chain limit s) (set_ancestor chain limit)
set_ancestor-Retains chain none s t h = h
set_ancestor-Retains chain (some n) s t h =
    ancestor-Retains chain (some n) s n (get (chain, n) t.blocks) t h

-- A rollback drops the ranges, blocks and events of the chain that are after the limit, or all of the
-- chain where there is no limit. It keeps every other one, adds none, and leaves the checkpoints of the other
-- chains as they are, whether it returns or throws.
pub rollback_after-Retains :
    (o : Outside) (chain : ℕ) (limit : Option ℕ) (s : Store)
    → Retains chain limit s (rollback_after o chain limit s).1
unfolding rollback_after
rollback_after-Retains o chain limit s =
    >>-keeps (Retains chain limit s) (rebuild_views o chain) (set_ancestor chain limit)
      (λ t h. record {
        ranges = h.ranges;
        blocks = h.blocks;
        events = h.events;
        checkpoints = h.checkpoints;
      })
      (set_ancestor-Retains chain limit s) (drop_history chain limit s)
      (drop_history-Retains chain limit s)
