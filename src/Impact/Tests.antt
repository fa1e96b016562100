-- ===== src/Impact/Tests.antt =====
-- Two decisions on one criterion, and an observation apart from them.
use latchkit.Base.{
  ◌≡◌, ◌≤◌, refl, String, true, false, List, [], ◌∷◌, none, some, contains, length, arith,
}
use latchkit.Records.Model.{
  TaskRecord, RecordLink, record_link, criterion_link, decision, proposed, direct_user,
}
use latchkit.Impact.Traversal.{
  Links, Traversal, visited_keys, record_edges, start_keys, sort_keys, neighbors, expand, run,
  traverse,
}
use latchkit.Impact.Bounds.{traverse-ends}
use latchkit.Impact.Reach.{IsPath, from_start, extend}
use latchkit.Impact.Complete.{traverse-IsPath, traverse_complete}

abbrev item : String → List RecordLink → TaskRecord
item id links = record {
  id = id;
  kind = decision;
  revision = 1;
  status = proposed;
  text = "Use one lock.";
  provenance = record { kind = direct_user; reference = "issue 7" };
  links = links;
  supersedes = none;
  superseded_by = none;
  history = [];
  created_at = 10;
  updated_at = 10;
}

abbrev edges : Links
edges =
    ("record:a", "criterion:c") ∷ ("record:bb", "criterion:c") ∷ ("record:ddd", "record:eeee") ∷ []

edges_of_records :
    record_edges (
      item "a" (criterion_link "c" 1 ∷ [])
      ∷ item "bb" (criterion_link "c" 1 ∷ [])
      ∷ item "ddd" (record_link "eeee" 1 ∷ [])
      ∷ [])
    ≡ edges
unfolding record_edges
edges_of_records = refl

abbrev starts : List String
starts = "record:a" ∷ []

starts_of_ids : start_keys ("a" ∷ []) [] ≡ starts
unfolding start_keys sort_keys
starts_of_ids = refl

abbrev result : Traversal
result = record {
  visited =
      ("record:a", "record:a" ∷ [])
      ∷ ("criterion:c", "record:a" ∷ "criterion:c" ∷ [])
      ∷ ("record:bb", "record:a" ∷ "criterion:c" ∷ "record:bb" ∷ [])
      ∷ [];
  pending = [];
  truncated = false;
}

traverses : traverse edges starts ≡ some result
unfolding traverse run expand neighbors sort_keys
traverses = refl

traverse-ends_example :
    (r : Traversal) × (traverse edges starts ≡ some r) × (length r.visited ≤ 500)
traverse-ends_example = traverse-ends edges starts 500 (omega arith) (omega arith)

traverse-IsPath_example :
    IsPath edges starts "record:bb" ("record:a" ∷ "criterion:c" ∷ "record:bb" ∷ [])
traverse-IsPath_example = traverse-IsPath edges starts result "record:bb" traverses refl

criterion-IsPath : IsPath edges starts "criterion:c" ("record:a" ∷ "criterion:c" ∷ [])
unfolding neighbors sort_keys
criterion-IsPath = extend (from_start "record:a" refl) "criterion:c" refl

traverse_complete_example : contains (visited_keys result) "criterion:c" ≡ true
traverse_complete_example =
    traverse_complete edges starts result "criterion:c" ("record:a" ∷ "criterion:c" ∷ []) traverses
      refl criterion-IsPath
