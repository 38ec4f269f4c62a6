-- ===== src/Pack.antt =====
-- The answer pack and its byte budget, of crates/polis-core/src/pack.rs. `Item` stands for the entries
-- of the pack's lists, which the budget never looks into; the length of the pack's JSON text is the
-- parameter `size`.
pub mod Arms
pub mod Loops
pub mod Budget
pub mod Enforce
pub mod Tests
use polis_memory.Prelude.{
  ℕ, zero, suc, ◌+◌, ◌-◌, ◌/◌, min, max, ℤ, Bool, true, false, ◌&&◌, Option, none, some, List, [],
  ◌∷◌, ◌++◌, map, any, map_some, unwrap_or, is_some, if◌then◌else◌, length, take, leb, ltb, ◌==◌,
}
use polis_memory.Prelude.Text.{Text, codes, text_eq}

abbrev pub max_context_bytes : ℕ
max_context_bytes = 60000

-- How many leading items fit; `keep` counts those taken so far. Bodies come as their byte lengths.
unfoldable pub count_items : ℕ → ℕ → List (Option ℕ) → ℕ
count_items keep budget [] = keep
count_items keep budget (body ∷ bodies) =
    let cost = 120 + unwrap_or body 0 in
    let rest = count_items (keep + 1) (budget - cost) bodies in
    if ltb 0 keep && ltb budget cost then keep else rest

unfoldable pub budgeted_item_count : List (Option ℕ) → ℕ
budgeted_item_count bodies = count_items 0 max_context_bytes bodies

pub record PackNode (Item : Type 0) : Type 0 where
  pub node : Item
  pub children : List Item
  pub grandchildren : List Item
  pub links : List Item
  pub observations : List Item

pub record ArmCoverage (Item : Type 0) : Type 0 where
  pub arm : Item
  pub ran : Bool
  pub hits : ℕ
  pub absent_because : Option Text

-- `others` stands for the fields that the budget leaves alone.
pub record RetrievalReport (Item : Type 0) : Type 0 where
  pub errors : List Text
  pub others : Item

pub record AnswerPack (Item : Type 0) : Type 0 where
  pub head_seq : ℤ
  pub query : Option Text
  pub node : Option (PackNode Item)
  pub matched_nodes : List Item
  pub notes : List Item
  pub prompt_hits : List Item
  pub browse_hits : List Item
  pub grep_hits : List Item
  pub arm_coverage : List (ArmCoverage Item)
  pub truncated : List Text
  pub shared_hits : List Item
  pub retrieval : RetrievalReport Item
  pub claims : List Item

-- The lists that can be trimmed, in the order of the table `steps`.
pub data Step : Type 0 where
  trim_browse_hits : Step
  trim_prompt_hits : Step
  trim_links : Step
  trim_grep_hits : Step
  trim_claims : Step
  trim_shared_hits : Step
  trim_matched_nodes : Step
  trim_observations : Step
  trim_grandchildren : Step
  trim_children : Step
  trim_notes : Step

abbrev pub steps : List Step
steps =
    trim_browse_hits ∷ trim_prompt_hits ∷ trim_links ∷ trim_grep_hits ∷ trim_claims
    ∷ trim_shared_hits ∷ trim_matched_nodes ∷ trim_observations ∷ trim_grandchildren ∷ trim_children
    ∷ trim_notes ∷ []

abbrev pub name : Step → Text
name trim_browse_hits = codes "browseHits"
name trim_prompt_hits = codes "promptHits"
name trim_links = codes "links"
name trim_grep_hits = codes "grepHits"
name trim_claims = codes "claims"
name trim_shared_hits = codes "sharedHits"
name trim_matched_nodes = codes "matchedNodes"
name trim_observations = codes "observations"
name trim_grandchildren = codes "grandchildren"
name trim_children = codes "children"
name trim_notes = codes "notes"

-- `xs.truncate(xs.len().saturating_sub(n))`.
abbrev pub truncate {ℓ} : {A : Type ℓ} → ℕ → List A → List A
truncate n xs = take (length xs - n) xs

-- Newlines flattened, then clipped with an ellipsis.
unfoldable pub clip_line : Text → ℕ → Text
clip_line s limit =
    let one = map (λ c. if c == 10 then 32 else c) s in
    if leb (length one) limit then one else take limit one ++ 0x2026 ∷ []

module _ {Item : Type 0} where
  abbrev pub count_of : Option (PackNode Item) → (PackNode Item → List Item) → ℕ
  count_of none f = 0
  count_of (some node) f = length (f node)

  abbrev pub len : Step → AnswerPack Item → ℕ
  len trim_browse_hits p = length p.browse_hits
  len trim_prompt_hits p = length p.prompt_hits
  len trim_links p = count_of p.node (λ n. n.links)
  len trim_grep_hits p = length p.grep_hits
  len trim_claims p = length p.claims
  len trim_shared_hits p = length p.shared_hits
  len trim_matched_nodes p = length p.matched_nodes
  len trim_observations p = count_of p.node (λ n. n.observations)
  len trim_grandchildren p = count_of p.node (λ n. n.grandchildren)
  len trim_children p = count_of p.node (λ n. n.children)
  len trim_notes p = length p.notes

  abbrev pub drop : Step → ℕ → AnswerPack Item → AnswerPack Item
  drop trim_browse_hits n p = record p { browse_hits = truncate n p.browse_hits }
  drop trim_prompt_hits n p = record p { prompt_hits = truncate n p.prompt_hits }
  drop trim_links n p = record p {
    node =
        map_some (λ (node : PackNode Item). record node { links = truncate n node.links }) p.node;
  }
  drop trim_grep_hits n p = record p { grep_hits = truncate n p.grep_hits }
  drop trim_claims n p = record p { claims = truncate n p.claims }
  drop trim_shared_hits n p = record p { shared_hits = truncate n p.shared_hits }
  drop trim_matched_nodes n p = record p { matched_nodes = truncate n p.matched_nodes }
  drop trim_observations n p = record p {
    node =
        map_some
          (λ (node : PackNode Item). record node { observations = truncate n node.observations })
          p.node;
  }
  drop trim_grandchildren n p = record p {
    node =
        map_some
          (λ (node : PackNode Item). record node { grandchildren = truncate n node.grandchildren })
          p.node;
  }
  drop trim_children n p = record p {
    node =
        map_some (λ (node : PackNode Item). record node { children = truncate n node.children })
          p.node;
  }
  drop trim_notes n p = record p { notes = truncate n p.notes }

  abbrev pub report : Step → AnswerPack Item → AnswerPack Item
  report s p =
      if any (λ t. text_eq t (name s)) p.truncated
      then p
      else record p { truncated = p.truncated ++ name s ∷ [] }

  -- The inner loop of pass one, and whether it cut anything. It runs at most `len s p` times.
  unfoldable pub trim_loop :
      (AnswerPack Item → ℕ) → ℕ → Step → ℕ → Bool → AnswerPack Item → Bool × AnswerPack Item
  trim_loop size max_bytes s zero cut p = (cut, p)
  trim_loop size max_bytes s (suc fuel) cut p = elim (ltb max_bytes (size p) && ltb 1 (len s p)) [
    | false ↦ (cut, p)
    | true ↦
        let over = len s p - 1 in
        trim_loop size max_bytes s fuel true (drop s (min (max (over / 4) 1) over) p)
  ]

  abbrev pub report_if : Step → Bool × AnswerPack Item → AnswerPack Item
  report_if s (cut, p) = if cut then report s p else p

  unfoldable pub trim_step : (AnswerPack Item → ℕ) → ℕ → Step → AnswerPack Item → AnswerPack Item
  trim_step size max_bytes s p = report_if s (trim_loop size max_bytes s (len s p) false p)

  -- The inner loop of pass two.
  unfoldable pub empty_loop :
      (AnswerPack Item → ℕ) → ℕ → Step → ℕ → AnswerPack Item → AnswerPack Item
  empty_loop size max_bytes s zero p = p
  empty_loop size max_bytes s (suc fuel) p = elim (ltb max_bytes (size p) && ltb 0 (len s p)) [
    | false ↦ p
    | true ↦ empty_loop size max_bytes s fuel (report s (drop s 1 p))
  ]

  unfoldable pub empty_step : (AnswerPack Item → ℕ) → ℕ → Step → AnswerPack Item → AnswerPack Item
  empty_step size max_bytes s p = empty_loop size max_bytes s (len s p) p

  -- A pass over the steps: true when it returned early, within the budget.
  unfoldable pub pass :
      (AnswerPack Item → ℕ)
      → ℕ
      → (Step → AnswerPack Item → AnswerPack Item)
      → List Step
      → AnswerPack Item
      → Bool × AnswerPack Item
  pass size max_bytes step [] p = (false, p)
  pass size max_bytes step (s ∷ ss) p =
      let q = step s p in
      elim (leb (size q) max_bytes) [ true ↦ (true, q) | false ↦ pass size max_bytes step ss q ]

  abbrev pub take_node : (AnswerPack Item → ℕ) → ℕ → AnswerPack Item → AnswerPack Item
  take_node size max_bytes p =
      if ltb max_bytes (size p) && is_some p.node
      then record p { node = none; truncated = p.truncated ++ codes "node" ∷ [] }
      else p

  abbrev pub take_query : (AnswerPack Item → ℕ) → ℕ → AnswerPack Item → AnswerPack Item
  take_query size max_bytes p =
      if ltb max_bytes (size p) && is_some p.query
      then record p { query = none; truncated = p.truncated ++ codes "query" ∷ [] }
      else p

  abbrev pub clip_metadata : (AnswerPack Item → ℕ) → ℕ → AnswerPack Item → AnswerPack Item
  clip_metadata size max_bytes p =
      if ltb max_bytes (size p)
      then record p {
        arm_coverage =
            map
              (λ (arm : ArmCoverage Item). record arm {
                absent_because = map_some (λ s. clip_line s 120) arm.absent_because;
              })
              p.arm_coverage;
        retrieval = record p.retrieval {
          errors = map (λ s. clip_line s 120) (take 8 p.retrieval.errors);
        };
      }
      else p

  abbrev pub after_pass_two : (AnswerPack Item → ℕ) → ℕ → Bool × AnswerPack Item → AnswerPack Item
  after_pass_two size max_bytes (true, p) = p
  after_pass_two size max_bytes (false, p) =
      clip_metadata size max_bytes (take_query size max_bytes (take_node size max_bytes p))

  abbrev pub after_pass_one : (AnswerPack Item → ℕ) → ℕ → Bool × AnswerPack Item → AnswerPack Item
  after_pass_one size max_bytes (true, p) = p
  after_pass_one size max_bytes (false, p) =
      after_pass_two size max_bytes (pass size max_bytes (empty_step size max_bytes) steps p)

  unfoldable pub enforce_pack_budget_bytes :
      (AnswerPack Item → ℕ) → AnswerPack Item → ℕ → AnswerPack Item
  enforce_pack_budget_bytes size p max_bytes =
      if leb (size p) max_bytes
      then p
      else after_pass_one size max_bytes (pass size max_bytes (trim_step size max_bytes) steps p)
