-- ===== src/Memory/Order.antt =====
-- What the recall of memory/recall.py returns: the records that its query may see, sorted.
use mathlib.Core.List.{Permᴰ}
use mathlib.Core.List.Permᴰ
use synora_agentic_erp.Prelude.{
  ◌≡◌, refl, Bool, true, false, ◌&&◌, some, List, [], ◌∷◌, map, filter, arith, all, String, inl,
  inr, Bool-cases,
}
use synora_agentic_erp.Prelude.Result.{ok}
use synora_agentic_erp.Memory.Contracts.{MemoryRecord, valid_scope, is_recallable}
use synora_agentic_erp.Memory.Recall.{
  MemoryRecallQuery, validate_recall_query, text_leb, key_leb, id_or_empty, insert, sort, visible,
  filter_recallable, is_aware,
}

text_leb_trans : (a b c : String) → text_leb a b ≡ true → text_leb b c ≡ true → text_leb a c ≡ true
unfolding text_leb
text_leb_trans String.[] b c h k = refl
text_leb_trans (String.◌∷◌ x a) String.[] c h k = ground arith
text_leb_trans (String.◌∷◌ x a) (String.◌∷◌ y b) String.[] h k = ground arith
text_leb_trans (String.◌∷◌ x a) (String.◌∷◌ y b) (String.◌∷◌ z c) h k =
    ground (arith, text_leb_trans a b c)

text_leb_total : (a b : String) → text_leb a b ≡ false → text_leb b a ≡ true
unfolding text_leb
text_leb_total String.[] b h = ground arith
text_leb_total (String.◌∷◌ x a) String.[] h = refl
text_leb_total (String.◌∷◌ x a) (String.◌∷◌ y b) h = ground (arith, text_leb_total a b)

key_leb_trans :
    (r s t : MemoryRecord) → key_leb r s ≡ true → key_leb s t ≡ true → key_leb r t ≡ true
unfolding key_leb
key_leb_trans r s t h k = ground (
  arith,
  text_leb_trans (id_or_empty r.memory_id) (id_or_empty s.memory_id) (id_or_empty t.memory_id),
)

key_leb_total : (r s : MemoryRecord) → key_leb r s ≡ false → key_leb s r ≡ true
unfolding key_leb
key_leb_total r s h =
    ground (arith, text_leb_total (id_or_empty r.memory_id) (id_or_empty s.memory_id))

-- Every record comes before all that follow it.
abbrev pub sorted : List MemoryRecord → Bool
sorted [] = true
sorted (r ∷ records) = all (key_leb r) records && sorted records

all-insert :
    (s r : MemoryRecord) (records : List MemoryRecord)
    → key_leb s r ≡ true
    → all (key_leb s) records ≡ true
    → all (key_leb s) (insert r records) ≡ true
unfolding insert
all-insert s r [] h k = ground arith
all-insert s r (t ∷ records) h k = ground (arith, all-insert s r records h)

all_trans :
    (r s : MemoryRecord) (records : List MemoryRecord)
    → key_leb r s ≡ true
    → all (key_leb s) records ≡ true
    → all (key_leb r) records ≡ true
all_trans r s [] h k = refl
all_trans r s (t ∷ records) h k = ground (arith, key_leb_trans r s t, all_trans r s records h)

sorted-insert :
    (r : MemoryRecord) (records : List MemoryRecord)
    → sorted records ≡ true
    → sorted (insert r records) ≡ true
unfolding insert
sorted-insert r [] h = refl
sorted-insert r (s ∷ records) h = ground (
  arith,
  key_leb_total r s,
  all-insert s r records,
  all_trans r s records,
  sorted-insert r records,
)

sorted-sort : (records : List MemoryRecord) → sorted (sort records) ≡ true
unfolding sort
sorted-sort [] = refl
sorted-sort (r ∷ records) = sorted-insert r (sort records) (sorted-sort records)

insert_perm :
    (r : MemoryRecord) (records : List MemoryRecord) → Permᴰ (insert r records) (r ∷ records)
unfolding insert
insert_perm r [] = Permᴰ.refl (r ∷ [])
insert_perm r (s ∷ records) = elim (Bool-cases (key_leb r s)) [
  | inl h ↦ rw h (Permᴰ.refl (r ∷ s ∷ records))
  | inr h ↦ rw h (Permᴰ.trans (Permᴰ.cons refl (insert_perm r records)) (Permᴰ.swap refl refl))
]

sort_perm : (records : List MemoryRecord) → Permᴰ (sort records) records
unfolding sort
sort_perm [] = Permᴰ.nil
sort_perm (r ∷ records) =
    Permᴰ.trans (insert_perm r (sort records)) (Permᴰ.cons refl (sort_perm records))

-- The records among those given that the query may see.
abbrev pub eligible : MemoryRecallQuery → List MemoryRecord → List MemoryRecord
eligible query records = filter (λ r. is_recallable r query.scope query.now) records

visible-eq :
    (query : MemoryRecallQuery) (records : List MemoryRecord)
    → visible query (map some records) ≡ ok (eligible query records)
unfolding visible
visible-eq query [] = refl
visible-eq query (r ∷ records) = ground (arith, visible-eq query records)

-- A valid query over records gets an answer: exactly the records that it may see, each as often as it is
-- among those given, in the order of creation and, among those of one instant, of their ids.
pub recall_sorted_and_exact :
    (records : List MemoryRecord) (query : MemoryRecallQuery)
    → valid_scope query.scope ≡ true
    → is_aware query.now ≡ true
    → (found : List MemoryRecord) × (filter_recallable (map some records) query ≡ ok found)
      × (sorted found ≡ true)
      × Permᴰ found (eligible query records)
unfolding filter_recallable validate_recall_query
recall_sorted_and_exact records query h k = (
  sort (eligible query records),
  rw (h, k, visible-eq query records) refl,
  sorted-sort (eligible query records),
  sort_perm (eligible query records),
)
