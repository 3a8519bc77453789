-- ===== src/Lifecycle/Version.antt =====
-- Version numbers as the compare-and-set gates read them: Python values that ought to be integers.
-- `other` is a value that is no integer, and equal to none.
use synora_agentic_erp.Prelude.{ℕ, suc, Bool, true, false, not, Option, none, some, nat_eq}
use synora_agentic_erp.Prelude.Int.{ℤ, pos, negsuc}

pub data VersionValue : Type 0 where
  int : ℤ → VersionValue
  bool : Bool → VersionValue
  other : VersionValue

-- The integer, unless the value is a boolean, no integer, or less than 1.
abbrev pub positive? : VersionValue → Option ℕ
positive? (int (pos (suc n))) = some (suc n)
positive? _ = none

-- value != version: Python's booleans are the integers 0 and 1.
abbrev pub differs : VersionValue → ℕ → Bool
differs (int (pos n)) v = not (nat_eq n v)
differs (int (negsuc n)) v = true
differs (bool true) v = not (nat_eq 1 v)
differs (bool false) v = not (nat_eq 0 v)
differs other v = true

-- expected is not None and expected != version
abbrev pub stale : Option VersionValue → ℕ → Bool
stale none v = false
stale (some e) v = differs e v
