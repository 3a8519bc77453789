-- ===== src/Analysis/Risks.antt =====
-- What the risk of an item means for its quantities.
use synora_agentic_erp.Prelude.{
  ℕ, ◌≡◌, ◌≢◌, refl, Bool, true, false, ◌||◌, ◌&&◌, ◌⊎◌, inl, inr, Option, none, some, List, [],
  ◌∷◌, ◌++◌, ◌∙◌, ◌↔◌, sym, ap, arith, Bool-cases, filter, leb, String,
}
use synora_agentic_erp.Prelude.Int.{
  ℤ, pos, ◌+ℤ◌, ◌-ℤ◌, ◌≤ℤ◌, ◌<ℤ◌, +ℤ_parts, -ℤ_parts, eq_of_parts, ltb_ℤ,
}
use synora_agentic_erp.Analysis.{
  Risk, shortage, adequate, duplicate_risk, no_demand, needs_input, unknown, Line, ItemInput,
  ItemAnalysis, negative_unknowns, sum_in_window, name_if, analyze_item, analyze_unless,
  analyze_complete, analyze_known, classify, has_negative, given_negative, is_zero,
}

-- What a result of each risk says: a shortage is what is missing to meet the demand in the window,
-- and in the other known cases the stock and the supply in the window meet it.
abbrev pub Means : ItemAnalysis → Risk → Type 0
Means r shortage =
    (pos 0 <ℤ r.shortage_qty)
    × (((r.actual_qty +ℤ r.incoming_qty) +ℤ r.shortage_qty) ≡ r.demand_qty)
Means r adequate =
    (r.shortage_qty ≡ pos 0)
    × (r.demand_qty ≤ℤ (r.actual_qty +ℤ r.incoming_qty))
    × (r.incoming_qty ≤ℤ pos 0)
    × (r.open_mr_qty ≤ℤ pos 0)
Means r duplicate_risk =
    (r.shortage_qty ≡ pos 0)
    × (r.demand_qty ≤ℤ (r.actual_qty +ℤ r.incoming_qty))
    × ((pos 0 <ℤ r.open_mr_qty) ⊎ (pos 0 <ℤ r.incoming_qty))
Means r no_demand = (r.shortage_qty ≡ pos 0) × (r.demand_qty ≡ pos 0) × (r.incoming_qty ≡ pos 0)
Means r needs_input = (r.shortage_qty ≡ pos 0) × (r.unknowns ≢ [])
Means r unknown = (r.shortage_qty ≡ pos 0) × (r.unknowns ≢ [])

is_zero-eq : (q : ℤ) → is_zero q ≡ true → q ≡ pos 0
is_zero-eq q h = ground arith

-- b short of d by their difference
shortage_fills :
    (b d : ℤ)
    → ltb_ℤ (b -ℤ d) (pos 0) ≡ true
    → (pos 0 <ℤ (pos 0 -ℤ (b -ℤ d))) × ((b +ℤ (pos 0 -ℤ (b -ℤ d))) ≡ d)
shortage_fills b d h = (
  ground (arith, -ℤ_parts (pos 0) (b -ℤ d)),
  eq_of_parts (b +ℤ (pos 0 -ℤ (b -ℤ d))) d
      (ground (arith, +ℤ_parts b (pos 0 -ℤ (b -ℤ d)), -ℤ_parts (pos 0) (b -ℤ d), -ℤ_parts b d)),
)

covers : (b d : ℤ) → ltb_ℤ (b -ℤ d) (pos 0) ≡ false → d ≤ℤ b
covers b d h = ground (arith, -ℤ_parts b d)

known-Means :
    (inp : ItemInput) (a o : ℤ) → Means (analyze_known inp a o) (analyze_known inp a o).risk
known-Means inp a o =
    let d = sum_in_window inp.horizon inp.demand_lines in
    let i = sum_in_window inp.horizon inp.incoming_lines in
    let n = (a +ℤ i) -ℤ d in
    elim (Bool-cases (is_zero d && is_zero i)) [
      | inl z ↦ rw z (refl, ground arith, ground arith)
      | inr z ↦ elim (Bool-cases (ltb_ℤ n (pos 0))) [
        | inl s ↦ rw (z, s) (shortage_fills (a +ℤ i) d s)
        | inr s ↦ elim (Bool-cases (ltb_ℤ (pos 0) o || ltb_ℤ (pos 0) i)) [
          | inl c ↦ rw (z, s, c) (refl, covers (a +ℤ i) d s, ground arith)
          | inr c ↦ rw (z, s, c) (refl, covers (a +ℤ i) d s, ground arith, ground arith)
        ]
      ]
    ]

complete-Means :
    (inp : ItemInput) (a o : Option ℤ)
    → a ≡ inp.actual_qty
    → o ≡ inp.open_mr_qty
    → Means (analyze_complete inp a o) (analyze_complete inp a o).risk
complete-Means inp none o e f = (refl, ground arith)
complete-Means inp (some a) none e f = (refl, ground arith)
complete-Means inp (some a) (some o) e f = known-Means inp a o

unless-Means :
    (inp : ItemInput) (names : List String)
    → Means (analyze_unless inp names) (analyze_unless inp names).risk
unless-Means inp [] = complete-Means inp inp.actual_qty inp.open_mr_qty refl refl
unless-Means inp (name ∷ names) = (refl, ground arith)

-- Whatever the input, the quantities of the analysis are those that its risk speaks of: a shortage is
-- positive and is exactly what stock and supply in the window lack of the demand; an adequate or
-- doubly ordered item has its demand met, the one without supply or open requests and the other with
-- some; an item without demand has no supply either; and the two risks without a result name what is
-- wrong.
pub risk-Means : (inp : ItemInput) → Means (analyze_item inp) (analyze_item inp).risk
unfolding analyze_item
risk-Means inp = unless-Means inp (negative_unknowns inp)

-- The lines of the window.
abbrev pub within : ℕ → List Line → List Line
within horizon lines = filter (λ line. leb line.schedule_date horizon) lines

sum_in_window-within :
    (horizon : ℕ) (lines : List Line)
    → sum_in_window horizon (within horizon lines) ≡ sum_in_window horizon lines
unfolding sum_in_window
sum_in_window-within horizon [] = refl
sum_in_window-within horizon (line ∷ lines) = ground (arith, sum_in_window-within horizon lines)

abbrev pub in_window : ItemInput → ItemInput
in_window inp = record inp {
  demand_lines = within inp.horizon inp.demand_lines;
  incoming_lines = within inp.horizon inp.incoming_lines;
}

has_negative-within :
    (horizon : ℕ) (lines : List Line)
    → has_negative lines ≡ false
    → has_negative (within horizon lines) ≡ false
has_negative-within horizon [] h = refl
has_negative-within horizon (line ∷ lines) h = ground (arith, has_negative-within horizon lines)

no_names :
    (a b c d : Bool)
    → (name_if a "negative_actual_qty"
        ++ name_if b "negative_demand_qty"
        ++ name_if c "negative_incoming_qty"
        ++ name_if d "negative_open_mr_qty")
      ≡ []
    → (a ≡ false) × (b ≡ false) × (c ≡ false) × (d ≡ false)
no_names a b c d h = (ground arith, ground arith, ground arith, ground arith)

NoNegatives : ItemInput → Type 0
NoNegatives inp =
    (given_negative inp.actual_qty ≡ false)
    × (has_negative inp.demand_lines ≡ false)
    × (has_negative inp.incoming_lines ≡ false)
    × (given_negative inp.open_mr_qty ≡ false)

negative_unknowns-eq-nil : (inp : ItemInput) → negative_unknowns inp ≡ [] → NoNegatives inp
unfolding negative_unknowns NoNegatives
negative_unknowns-eq-nil inp h = no_names _ _ _ _ h

analyze_item_complete :
    (inp : ItemInput)
    → negative_unknowns inp ≡ []
    → analyze_item inp ≡ analyze_complete inp inp.actual_qty inp.open_mr_qty
unfolding analyze_item
analyze_item_complete inp h = rw h refl

within-NoNegatives :
    (inp : ItemInput) → negative_unknowns inp ≡ [] → negative_unknowns (in_window inp) ≡ []
unfolding negative_unknowns NoNegatives
within-NoNegatives inp h =
    let (a, b, c, d) = negative_unknowns-eq-nil inp h in
    rw
      (
        a,
        has_negative-within inp.horizon inp.demand_lines b,
        has_negative-within inp.horizon inp.incoming_lines c,
        d,
      )
      refl

complete-within :
    (inp : ItemInput) (a o : Option ℤ)
    → analyze_complete (in_window inp) a o ≡ analyze_complete inp a o
complete-within inp none o = refl
complete-within inp (some a) none = refl
complete-within inp (some a) (some o) =
    rw
      (
        sum_in_window-within inp.horizon inp.demand_lines,
        sum_in_window-within inp.horizon inp.incoming_lines,
      )
      refl

-- Unless a quantity is negative, an analysis reads only the lines that fall in its window.
pub analyze_item-in_window :
    (inp : ItemInput) → negative_unknowns inp ≡ [] → analyze_item (in_window inp) ≡ analyze_item inp
analyze_item-in_window inp h =
    analyze_item_complete (in_window inp) (within-NoNegatives inp h)
    ∙ complete-within inp inp.actual_qty inp.open_mr_qty
    ∙ sym (analyze_item_complete inp h)

sum_nonneg :
    (horizon : ℕ) (lines : List Line)
    → has_negative lines ≡ false
    → pos 0 ≤ℤ sum_in_window horizon lines
unfolding sum_in_window
sum_nonneg horizon [] h = omega arith
sum_nonneg horizon (line ∷ lines) h =
    ground (arith, sum_nonneg horizon lines, +ℤ_parts line.qty (sum_in_window horizon lines))

analyze_item-known :
    (inp : ItemInput) (a o : ℤ)
    → negative_unknowns inp ≡ []
    → inp.actual_qty ≡ some a
    → inp.open_mr_qty ≡ some o
    → analyze_item inp ≡ analyze_known inp a o
analyze_item-known inp a o h ea eo = analyze_item_complete inp h ∙ rw (ea, eo) refl

classify_short : (o d i b : ℤ) → (classify o d i (b -ℤ d)).0 ≡ shortage → b <ℤ d
classify_short o d i b h = ground (arith, -ℤ_parts b d)

classify_low : (o d i b : ℤ) → pos 0 ≤ℤ b → b <ℤ d → (classify o d i (b -ℤ d)).0 ≡ shortage
classify_low o d i b k h = ground (arith, -ℤ_parts b d)

stock_nonneg :
    (inp : ItemInput) (a : ℤ)
    → negative_unknowns inp ≡ []
    → inp.actual_qty ≡ some a
    → pos 0 ≤ℤ (a +ℤ sum_in_window inp.horizon inp.incoming_lines)
unfolding NoNegatives
stock_nonneg inp a h e =
    let i = sum_in_window inp.horizon inp.incoming_lines in
    let none_negative = negative_unknowns-eq-nil inp h in
    let low = sum_nonneg inp.horizon inp.incoming_lines none_negative.2 in
    let given = rw e at none_negative.0 in ground (arith, +ℤ_parts a i)

-- An item of which both quantities are given, and nothing is negative, is short just when its stock and
-- the supply in the window are below the demand in the window.
pub risk-eq-shortage_iff :
    (inp : ItemInput) (a o : ℤ)
    → negative_unknowns inp ≡ []
    → inp.actual_qty ≡ some a
    → inp.open_mr_qty ≡ some o
    → ((analyze_item inp).risk ≡ shortage) ↔ (
        (a +ℤ sum_in_window inp.horizon inp.incoming_lines)
        <ℤ sum_in_window inp.horizon inp.demand_lines)
risk-eq-shortage_iff inp a o h ea eo =
    let b = a +ℤ sum_in_window inp.horizon inp.incoming_lines in
    let d = sum_in_window inp.horizon inp.demand_lines in
    let i = sum_in_window inp.horizon inp.incoming_lines in
    let same = ap (λ r. r.risk) (analyze_item-known inp a o h ea eo) in
    (
      λ short. classify_short o d i b (sym same ∙ short),
      λ low. same ∙ classify_low o d i b (stock_nonneg inp a h ea) low,
    )
