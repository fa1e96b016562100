-- ===== src/Transactions/Inspect.antt =====
-- What `inspectTransaction` reports against what `recoverTransaction` does.
use latchkit.Base.{
  ap, sym, subst, ◌≡◌, String, true, is_empty, Result, ok, err, inl, inr, Option-cases, Bool-cases,
  refl, List, [], ◌∷◌, ◌++◌,
}
use latchkit.Transactions.Model.{
  Disk, ResourceState, before, after, conflict, TransactionJournal, RecoveredState, no_journal,
  finalized, rolled_back, TransactionError, InspectedState, none_pending, pending, committed,
  in_conflict,
}
use latchkit.Transactions.Operations.{
  started, recover_transaction, inspect_transaction, inspected, settled, conflicts, manifest_state,
  manifest_conflict, classify, conflict_paths,
}

-- The state that announces an outcome of the recovery.
abbrev pub announced : Result TransactionError (Disk × RecoveredState) → InspectedState
announced (ok (_, no_journal)) = none_pending
announced (ok (_, finalized)) = committed
announced (ok (_, rolled_back)) = pending
announced (err _) = in_conflict

inspected-announced :
    (digest : String → String) (disk : Disk) (j : TransactionJournal) (xs : List String)
    (s : ResourceState)
    → is_empty (xs ++ manifest_conflict s) ≡ true
    → (inspected digest disk j s).0 ≡ announced (ok (settled digest disk j s))
inspected-announced digest disk j xs before h = refl
inspected-announced digest disk j xs after h = refl
inspected-announced digest disk j [] conflict h = cc
inspected-announced digest disk j (x ∷ xs) conflict h = cc

-- The inspection of a disk announces what a recovery of it does: nothing, keeping the changes, taking
-- them back, or refusing.
pub inspect_transaction-announces :
    (digest : String → String) (disk : Disk)
    → (inspect_transaction digest disk).0 ≡ announced (recover_transaction digest disk)
unfolding inspect_transaction recover_transaction
inspect_transaction-announces digest disk = elim (Option-cases disk.journal) [
  | inl e ↦ rw e refl
  | inr (j, e) ↦
      let marked = started disk j in
      subst (λ d. (inspect_transaction digest d).0 ≡ announced (recover_transaction digest d))
        {x = marked} (ap (λ found. record disk { journal = found }) (sym e))
        (elim (Bool-cases (is_empty (conflicts digest marked j))) [
          | inr bad ↦ rw bad refl
          | inl fits ↦ rw fits (
              inspected-announced digest marked j
                (conflict_paths (classify digest marked j.resources))
                (manifest_state digest marked j) fits)
        ])
]
