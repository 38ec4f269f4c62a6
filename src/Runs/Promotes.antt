-- ===== src/Runs/Promotes.antt =====
-- The revert of a promotion puts the node back under its parent.
use polis_memory.Prelude.{
  ℕ, ◌≡◌, refl, ap, ◌∙◌, subst, Option, none, some, List, [], ◌∷◌, arith, ◌==◌, ==_iff, Bool-cases,
  inl, inr,
}
use polis_memory.Prelude.Tables.{lookup, update, Distinct, update_missing}
use polis_memory.Ledger.{Hasher}
use polis_memory.Compaction.{Codec}
use polis_memory.Catalog.{Node}
use polis_memory.Catalog.Reorg.{apply_promote, everything, flatten_parent, node_id, set_parent}
use polis_memory.Runs.{Store, in_catalog, invert_image}

cong_cons : {x y : Node} {xs ys : List Node} → x ≡ y → xs ≡ ys → x ∷ xs ≡ y ∷ ys
cong_cons p q = cc

twice :
    (id : ℕ) (f g : Node → Node) (nodes : List Node)
    → lookup node_id id nodes ≡ none
    → update node_id id everything g (update node_id id everything f nodes) ≡ nodes
twice id f g nodes e =
    ap (update node_id id everything g) (update_missing node_id id everything f nodes e)
    ∙ update_missing node_id id everything g nodes e

promote_back :
    (id : ℕ) (new old : Option ℕ) (nodes : List Node)
    → Distinct node_id nodes
    → flatten_parent (lookup node_id id nodes) ≡ old
    → update node_id id everything
        (set_parent old)
        (update node_id id everything (set_parent new) nodes)
      ≡ nodes
unfolding lookup update
promote_back id new old [] d e = refl
promote_back id new old (n ∷ nodes) d e = elim (Bool-cases (n.id == id)) [
  | inl here ↦
      let missing : lookup node_id id nodes ≡ none =
        subst (λ (k : ℕ). lookup node_id k nodes ≡ none) ((==_iff n.id id).0 here) d.0 in
      let parent : n.parent_id ≡ old = ground (arith, here, e) in
      cong_cons (ground (arith, here, parent))
        (twice id (set_parent new) (set_parent old) nodes missing)
  | inr other ↦
      cong_cons (ground (arith, other))
        (promote_back id new old nodes d.1 (ground (arith, other, e)))
]

-- A promotion and the inverse of its image: the catalog is what it was, whatever the new parent,
-- and also where the node is missing.
pub invert-apply_promote :
    (h : Hasher) (codec : Codec) (run by id : ℕ) (parent : Option ℕ) (s : Store)
    → Distinct node_id s.catalog.nodes
    → let a = apply_promote id parent s.catalog in
      invert_image h codec run by a.image (in_catalog s a.catalog) ≡ some s
unfolding invert_image apply_promote
invert-apply_promote h codec run by id parent s d = λ i. some (record s {
  catalog = record s.catalog { nodes = promote_back id parent _ s.catalog.nodes d refl i };
})
