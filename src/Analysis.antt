-- ===== src/Analysis.antt =====
-- synora_agentic_erp/agent/analysis.py: the deterministic purchasing risk of one item.
-- Quantities are Decimals of one fixed scale, so integers in units of that scale; sums of them are
-- exact. Dates are day numbers. Parts: the definitions here, and what they guarantee in Analysis/Risks.
pub mod Risks
pub mod Examples
use synora_agentic_erp.Prelude.{
  ℕ, String, Bool, true, false, not, ◌&&◌, ◌||◌, Option, none, some, List, [], ◌∷◌, ◌++◌, leb,
  nat_eq, is_none, if◌then◌else◌,
}
use synora_agentic_erp.Prelude.Int.{ℤ, pos, pos_part, neg_part, ltb_ℤ, ◌+ℤ◌, ◌-ℤ◌}

pub data Risk : Type 0 where
  shortage adequate duplicate_risk no_demand needs_input unknown : Risk

-- DemandLine and IncomingLine, which have the same fields
pub record Line : Type 0 where
  pub qty : ℤ
  pub schedule_date : ℕ

pub record ItemInput : Type 0 where
  pub item_code : String
  pub actual_qty : Option ℤ
  pub horizon : ℕ
  pub demand_lines : List Line
  pub incoming_lines : List Line
  pub open_mr_qty : Option ℤ

pub record ItemAnalysis : Type 0 where
  pub item_code : String
  pub risk : Risk
  pub actual_qty : ℤ
  pub demand_qty : ℤ
  pub incoming_qty : ℤ
  pub open_mr_qty : ℤ
  pub net_position : ℤ
  pub shortage_qty : ℤ
  pub unknowns : List String

-- value is not None and value < _ZERO
abbrev pub given_negative : Option ℤ → Bool
given_negative none = false
given_negative (some q) = ltb_ℤ q (pos 0)

abbrev pub has_negative : List Line → Bool
has_negative [] = false
has_negative (line ∷ lines) = ltb_ℤ line.qty (pos 0) || has_negative lines

-- if test: names.append(name)
abbrev pub name_if : Bool → String → List String
name_if test name = if test then name ∷ [] else []

-- _negative_unknowns(inp)
unfoldable pub negative_unknowns : ItemInput → List String
negative_unknowns inp =
    name_if (given_negative inp.actual_qty) "negative_actual_qty"
    ++ name_if (has_negative inp.demand_lines) "negative_demand_qty"
    ++ name_if (has_negative inp.incoming_lines) "negative_incoming_qty"
    ++ name_if (given_negative inp.open_mr_qty) "negative_open_mr_qty"

abbrev pub missing_inputs : ItemInput → List String
missing_inputs inp =
    name_if (is_none inp.actual_qty) "actual_qty" ++ name_if (is_none inp.open_mr_qty) "open_mr_qty"

-- sum((line.qty for line in lines if line.schedule_date <= horizon), _ZERO)
unfoldable pub sum_in_window : ℕ → List Line → ℤ
sum_in_window horizon [] = pos 0
sum_in_window horizon (line ∷ lines) =
    if leb line.schedule_date horizon
    then line.qty +ℤ sum_in_window horizon lines
    else sum_in_window horizon lines

abbrev pub or_zero : Option ℤ → ℤ
or_zero none = pos 0
or_zero (some q) = q

abbrev pub is_zero : ℤ → Bool
is_zero q = nat_eq (pos_part q) (neg_part q)

-- The risk and the shortage that follow from the open requests, the demand and the supply in the
-- window, and the net position.
abbrev pub classify : ℤ → ℤ → ℤ → ℤ → Risk × ℤ
classify open_mr demand incoming net =
    if is_zero demand && is_zero incoming
    then (no_demand, pos 0)
    else if ltb_ℤ net (pos 0)
    then (shortage, pos 0 -ℤ net)
    else if ltb_ℤ (pos 0) open_mr || ltb_ℤ (pos 0) incoming
    then (duplicate_risk, pos 0)
    else (adequate, pos 0)

-- The analysis of an item of which both required quantities are known.
abbrev pub analyze_known : ItemInput → ℤ → ℤ → ItemAnalysis
analyze_known inp actual open_mr =
    let demand = sum_in_window inp.horizon inp.demand_lines in
    let incoming = sum_in_window inp.horizon inp.incoming_lines in
    let net = (actual +ℤ incoming) -ℤ demand in
    let outcome = classify open_mr demand incoming net in
    record {
      item_code = inp.item_code;
      risk = outcome.0;
      actual_qty = actual;
      demand_qty = demand;
      incoming_qty = incoming;
      open_mr_qty = open_mr;
      net_position = net;
      shortage_qty = outcome.1;
      unknowns = [];
    }

-- An analysis without a result: only the risk, two quantities, and the names of what is wrong.
abbrev pub no_analysis : ItemInput → Risk → ℤ → ℤ → List String → ItemAnalysis
no_analysis inp risk actual open_mr unknowns = record {
  item_code = inp.item_code;
  risk = risk;
  actual_qty = actual;
  demand_qty = pos 0;
  incoming_qty = pos 0;
  open_mr_qty = open_mr;
  net_position = pos 0;
  shortage_qty = pos 0;
  unknowns = unknowns;
}

-- if missing: ..., and otherwise the analysis proper
abbrev pub analyze_complete : ItemInput → Option ℤ → Option ℤ → ItemAnalysis
analyze_complete inp (some actual) (some open_mr) = analyze_known inp actual open_mr
analyze_complete inp _ _ = no_analysis inp needs_input (pos 0) (pos 0) (missing_inputs inp)

-- if conflict: ...
abbrev pub analyze_unless : ItemInput → List String → ItemAnalysis
analyze_unless inp [] = analyze_complete inp inp.actual_qty inp.open_mr_qty
analyze_unless inp (name ∷ names) =
    no_analysis inp unknown (or_zero inp.actual_qty) (or_zero inp.open_mr_qty) (name ∷ names)

-- analyze_item(inp)
unfoldable pub analyze_item : ItemInput → ItemAnalysis
analyze_item inp = analyze_unless inp (negative_unknowns inp)
