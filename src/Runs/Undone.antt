-- ===== src/Runs/Undone.antt =====
-- The revert of a collapse brings the branch back.
use polis_memory.Prelude.{ℕ, ◌<◌, ◌≡◌, false, Option, none, ◌++◌, ◌==◌, All, unwrap_or}
use polis_memory.Prelude.Tables.{lookup, Distinct}
use polis_memory.Prelude.Text.{Text, codes}
use polis_memory.Catalog.{Catalog, Link, Node, Observation}
use polis_memory.Catalog.Reorg.{link_id, new_node, node_id}
use polis_memory.Catalog.Retire.{Unretired}

-- What the catalog must be before a collapse: ids stand once, links have ids below the next one, the
-- digest's id is new, the run has retired no node, and a live node was retired into nothing.
pub record IsReady (run digest : ℕ) (cat : Catalog) : Type 0 where
  pub links_once : Distinct link_id cat.links
  pub observations_once : Distinct (λ (o : Observation). o.id) cat.observations
  pub below_next : All (λ (l : Link). l.id < cat.next_link) cat.links
  pub no_link : All (λ (l : Link). (l.node_id == digest) ≡ false) cat.links
  pub no_node : lookup node_id digest cat.nodes ≡ none
  pub unretired : All (Unretired run) cat.nodes

abbrev pub digest_of : ℕ → Option Text → Option Text → Text → Node → Node
digest_of digest title summary actor row =
    new_node digest row.parent_id (codes "digest")
      (unwrap_or title (row.title ++ codes " (digest)")) summary actor
