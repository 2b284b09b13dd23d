-- ===== src/Utils/Transaction/Undo.antt =====
-- Transactions of steps with their undo functions, committed or not.
use mathlib.Core.List.{reverse-append}
use linglong.Prelude.{◌≡◌, refl, ap, ◌∙◌, List, [], ◌∷◌}
use linglong.Utils.Transaction.{Transaction, start, add_roll_back, commit, run_all, destroy}

-- One step of a guarded procedure: what it does, and the function that it adds to take it back.
pub record Step {ℓ} (S : Type ℓ) : Type ℓ where
  pub act : S → S
  pub undo : S → S

module _ {ℓ} {S : Type ℓ} where
  -- The function added last runs first.
  pub destroy-add_roll_back :
      (t : Transaction S) (f : S → S) (s : S) → destroy (add_roll_back t f) s ≡ destroy t (f s)
  unfolding destroy add_roll_back
  destroy-add_roll_back t f s = ap (λ fs. run_all fs s) (reverse-append t.rollbacks (f ∷ []))

  pub destroy-commit : (t : Transaction S) (s : S) → destroy (commit t) s ≡ s
  unfolding destroy commit run_all
  destroy-commit t s = refl

  -- A transaction with one function runs it.
  pub destroy-one : (f : S → S) (s : S) → destroy (add_roll_back start f) s ≡ f s
  unfolding start destroy run_all
  destroy-one f s = destroy-add_roll_back start f s

  pub perform : Step S → Transaction S × S → Transaction S × S
  perform p (t, s) = (add_roll_back t p.undo, p.act s)

  pub perform_all : List (Step S) → Transaction S × S → Transaction S × S
  perform_all [] ts = ts
  perform_all (p ∷ ps) ts = perform_all ps (perform p ts)

  -- Each undo function takes back what its step does to the state that it meets.
  abbrev pub TakeBack : List (Step S) → S → Type ℓ
  TakeBack [] s = Unit
  TakeBack (p ∷ ps) s = (p.undo (p.act s) ≡ s) × TakeBack ps (p.act s)

  destroy-perform_all :
      (ps : List (Step S)) (t : Transaction S) (s : S)
      → TakeBack ps s
      → destroy (perform_all ps (t, s)).0 (perform_all ps (t, s)).1 ≡ destroy t s
  unfolding perform_all perform
  destroy-perform_all [] t s h = refl
  destroy-perform_all (p ∷ ps) t s h =
      destroy-perform_all ps (add_roll_back t p.undo) (p.act s) h.1
      ∙ destroy-add_roll_back t p.undo (p.act s)
      ∙ ap (destroy t) h.0

  -- Steps whose undo functions take them back leave the state as it was if the transaction is not
  -- committed, and stay if it is.
  pub destroy_restores :
      (ps : List (Step S)) (s : S)
      → TakeBack ps s
      → (destroy (perform_all ps (start, s)).0 (perform_all ps (start, s)).1 ≡ s)
        × (destroy (commit (perform_all ps (start, s)).0) (perform_all ps (start, s)).1
            ≡ (perform_all ps (start, s)).1)
  unfolding destroy start commit
  destroy_restores ps s h = (destroy-perform_all ps start s h, refl)
