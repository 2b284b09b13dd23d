-- ===== src/Utils/Transaction.antt =====
-- libs/utils/src/linglong/utils/transaction.h: undo functions that run, the last one first, unless
-- the transaction was committed. What they act on is a state of any type.
pub mod Undo
use mathlib.Core.List.{reverse}
use linglong.Prelude.{List, [], ◌∷◌, ◌++◌}

pub record Transaction {ℓ} (S : Type ℓ) : Type ℓ where
  pub rollbacks : List (S → S)

module _ {ℓ} {S : Type ℓ} where
  unfoldable pub start : Transaction S
  start = record { rollbacks = [] }

  -- `addRollBack`: behind those that are there
  unfoldable pub add_roll_back : Transaction S → (S → S) → Transaction S
  add_roll_back t f = record { rollbacks = t.rollbacks ++ (f ∷ []) }

  unfoldable pub commit : Transaction S → Transaction S
  commit t = record { rollbacks = [] }

  unfoldable pub run_all : List (S → S) → S → S
  run_all [] s = s
  run_all (f ∷ fs) s = run_all fs (f s)

  -- The destructor, which goes from `rbegin` to `rend`.
  unfoldable pub destroy : Transaction S → S → S
  unfolding run_all
  destroy t s = run_all (reverse t.rollbacks) s
