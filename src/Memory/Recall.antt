-- ===== src/Memory/Recall.antt =====
-- memory/recall.py: the records that one query may see, in the order of creation.
-- An element of the records that is no MemoryRecord is none. Texts compare by code points.
use Prim.Native.Char.{code}
use synora_agentic_erp.Prelude.{
  String, Bool, true, false, ◌&&◌, ◌||◌, Option, none, some, List, [], ◌∷◌, ltb, nat_eq,
  if◌then◌else◌,
}
use synora_agentic_erp.Prelude.Result.{Result, ok, err, ◌>>=◌}
use synora_agentic_erp.Memory.Contracts.{
  MemoryRecord, MemoryScope, Moment, aware, naive, valid_scope, is_recallable,
}

pub data RecallErrorCode : Type 0 where
  invalid_query store_failure : RecallErrorCode

pub record MemoryRecallError : Type 0 where
  pub code : RecallErrorCode
  pub message : String

pub record MemoryRecallQuery : Type 0 where
  pub scope : MemoryScope
  pub now : Moment

abbrev pub invalid : String → MemoryRecallError
invalid message = record { code = invalid_query; message = message }

abbrev pub is_aware : Moment → Bool
is_aware (aware t) = true
is_aware naive = false

-- _validate_recall_query(value), for a query that may have been built without its validators
unfoldable pub validate_recall_query :
    MemoryRecallQuery → Result MemoryRecallError MemoryRecallQuery
validate_recall_query query =
    if valid_scope query.scope && is_aware query.now
    then ok query
    else err (invalid "recall query is invalid")

-- s <= t
unfoldable pub text_leb : String → String → Bool
text_leb String.[] t = true
text_leb (String.◌∷◌ c s) String.[] = false
text_leb (String.◌∷◌ c s) (String.◌∷◌ d t) =
    ltb (code c) (code d) || nat_eq (code c) (code d) && text_leb s t

-- record.memory_id or ""
abbrev pub id_or_empty : Option String → String
id_or_empty none = ""
id_or_empty (some id) = id

-- The order of the keys (record.created_at, record.memory_id or "").
unfoldable pub key_leb : MemoryRecord → MemoryRecord → Bool
key_leb r s =
    ltb r.created_at s.created_at
    || nat_eq r.created_at s.created_at
      && text_leb (id_or_empty r.memory_id) (id_or_empty s.memory_id)

-- sorted(records, key=...), which keeps the order of records with equal keys
unfoldable pub insert : MemoryRecord → List MemoryRecord → List MemoryRecord
insert r [] = r ∷ []
insert r (s ∷ records) = if key_leb r s then r ∷ s ∷ records else s ∷ insert r records

unfoldable pub sort : List MemoryRecord → List MemoryRecord
sort [] = []
sort (r ∷ records) = insert r (sort records)

-- The loop that fills `visible`.
unfoldable pub visible :
    MemoryRecallQuery → List (Option MemoryRecord) → Result MemoryRecallError (List MemoryRecord)
visible query [] = ok []
visible query (none ∷ records) = err (invalid "memory record is invalid")
visible query (some r ∷ records) = do
  rest ← visible query records
  ok (if is_recallable r query.scope query.now then r ∷ rest else rest)

-- filter_recallable(records, query)
unfoldable pub filter_recallable :
    List (Option MemoryRecord) → MemoryRecallQuery → Result MemoryRecallError (List MemoryRecord)
filter_recallable records query = do
  validated ← validate_recall_query query
  found ← visible validated records
  ok (sort found)
