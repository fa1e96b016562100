-- ===== src/Transactions/Model.antt =====
-- installer/transactions.ts: the snapshots, the journal, and the disk that they are about.
-- A snapshot keeps the bytes of a file themselves, where the source keeps their base64 text. The
-- journal stands beside the files, since only this code reads and writes its path.
use latchkit.Base.{ℕ, String, List, Option}

pub record File : Type 0 where
  pub bytes : String
  -- The permission bits.
  pub mode : ℕ

pub data Snapshot : Type 0 where
  missing : Snapshot
  present : String → String → ℕ → Snapshot

pub record JournalResource : Type 0 where
  pub resource_id : String
  pub path : String
  pub before : Snapshot
  pub after : Snapshot

pub record TransactionJournal : Type 0 where
  pub transaction_id : String
  pub operation : String
  pub created_at : ℕ
  pub manifest_before : Snapshot
  pub manifest_after : Snapshot
  pub resources : List JournalResource

pub record Disk : Type 0 where
  pub files : String → Option File
  pub journal : Option TransactionJournal

pub data ResourceState : Type 0 where
  before after conflict : ResourceState

pub record ResourceDescriptor : Type 0 where
  pub id : String
  pub path : String

pub record TransactionChange : Type 0 where
  pub resource_id : String
  pub bytes : Option String
  pub mode : Option ℕ

-- The points at which the caller's `faultBoundary` is called, and may throw.
pub data Boundary : Type 0 where
  journal manifest : Boundary
  resource : ℕ → Boundary

pub data TransactionError : Type 0 where
  recovery_required fault : TransactionError
  recovery_conflict : List String → TransactionError
  unknown_resource duplicate_resource file_changed : String → TransactionError
  -- The error, and the one of the recovery that it led to.
  still_pending : TransactionError → TransactionError → TransactionError

pub data RecoveredState : Type 0 where
  no_journal finalized rolled_back : RecoveredState

pub data TransactionAction : Type 0 where
  restore finalize remove : String → TransactionAction

pub data InspectedState : Type 0 where
  none_pending pending committed in_conflict : InspectedState

abbrev pub manifest_path : String
manifest_path = ".latchkit/manifest.json"

abbrev pub journal_path : String
journal_path = ".latchkit/transaction.json"
