-- ===== src/Lifecycle/Table.antt =====
-- Transition tables: a dictionary from a state's name to the set of the names that may follow it.
-- The run, the governed action and the memory record each have one.
use synora_agentic_erp.Prelude.{
  String, ◌==◌, ◌≡◌, eq_iff, Bool, true, false, ◌&&◌, Option, none, some, List, [], ◌∷◌, arith, all,
  elem, if◌then◌else◌,
}

abbrev pub Table : Type 0
Table = List (String × List String)

-- table.get(current)
unfoldable pub targets : String → Table → Option (List String)
targets current [] = none
targets current ((state, ts) ∷ rest) = if state == current then some ts else targets current rest

-- `target in table[current]`, and no for a state that the table lacks
unfoldable pub allowed : Table → String → String → Bool
allowed table current target = elim (targets current table) [
  | none ↦ false
  | some ts ↦ elem target ts
]

-- Every edge of a table passes a test.
abbrev pub all_edges : (String → String → Bool) → Table → Bool
all_edges p [] = true
all_edges p ((state, ts) ∷ rest) = all (p state) ts && all_edges p rest

pub all-elem :
    (p : String → Bool) (t : String) (ts : List String)
    → all p ts ≡ true
    → elem t ts ≡ true
    → p t ≡ true
all-elem p t [] h e = ground arith
all-elem p t (x ∷ ts) h e = ground (arith, eq_iff x t, all-elem p t ts)

-- A test that a table's edges pass holds of every transition that the table allows.
pub all_edges-allowed :
    (p : String → String → Bool) (table : Table) (c t : String)
    → all_edges p table ≡ true
    → allowed table c t ≡ true
    → p c t ≡ true
unfolding allowed targets
all_edges-allowed p [] c t h e = ground arith
all_edges-allowed p ((s, ts) ∷ rest) c t h e =
    ground (arith, eq_iff s c, all-elem (p s) t ts, all_edges-allowed p rest c t)
