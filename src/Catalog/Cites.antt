-- ===== src/Catalog/Cites.antt =====
-- The citation links of a digest: new rows after the old ones, on the digest, one id each.
use polis_memory.Prelude.{
  ℕ, suc, ◌≤◌, ◌<◌, ◌≡◌, refl, sym, ap, ◌∙◌, true, none, List, [], ◌∷◌, ◌++◌, arith, ◌==◌,
  Bool-cases, inl, inr, All, All-append, append_cons,
}
use polis_memory.Prelude.Tables.{member, Distinct}
use polis_memory.Prelude.Undo.{Distinct-append}
use polis_memory.Catalog.{Catalog, Link}
use polis_memory.Catalog.Reorg.{citation, cite, link_id, taken}

append_nil {ℓ} : {A : Type ℓ} (xs : List A) → xs ++ [] ≡ xs
append_nil [] = refl
append_nil (x ∷ xs) = ap (λ ys. x ∷ ys) (append_nil xs)

weaker :
    (k : ℕ) (links : List Link)
    → All (λ (m : Link). m.id < k) links
    → All (λ (m : Link). m.id < suc k) links
weaker k [] a = tt
weaker k (m ∷ links) a = (omega (arith, a.0), weaker k links a.1)

-- A row that `cite` made.
pub record IsCitation (digest lo : ℕ) (ids : List ℕ) (c : Link) : Type 0 where
  pub listed : member c.id ids ≡ true
  pub on_digest : (c.node_id == digest) ≡ true
  pub unretired : c.retired_by_run ≡ none

later_ids :
    (digest lo k : ℕ) (ids : List ℕ) (cs : List Link)
    → All (IsCitation digest lo ids) cs
    → All (IsCitation digest lo (k ∷ ids)) cs
unfolding member
later_ids digest lo k ids [] a = tt
later_ids digest lo k ids (c ∷ cs) a = (
  record {
    listed = ground (arith, a.0.listed);
    on_digest = a.0.on_digest;
    unretired = a.0.unretired;
  },
  later_ids digest lo k ids cs a.1,
)

-- What citing makes of a catalog.
pub record Cited (digest lo : ℕ) (cat : Catalog) (r : List ℕ × Catalog) : Type 0 where
  pub rows : List Link
  pub links : r.1.links ≡ cat.links ++ rows
  pub nodes : r.1.nodes ≡ cat.nodes
  pub observations : r.1.observations ≡ cat.observations
  pub made : All (IsCitation digest lo r.0) rows
  pub fresh : All (λ (k : ℕ). lo ≤ k) r.0
  pub distinct : Distinct link_id r.1.links

pub cite-Cited :
    (digest lo : ℕ) (seqs : List ℕ) (cat : Catalog)
    → Distinct link_id cat.links
    → All (λ (l : Link). l.id < cat.next_link) cat.links
    → lo ≤ cat.next_link
    → Cited digest lo cat (cite digest seqs cat)
unfolding cite
cite-Cited digest lo [] cat d a le = record {
  rows = [];
  links = sym (append_nil cat.links);
  nodes = refl;
  observations = refl;
  made = tt;
  fresh = tt;
  distinct = d;
}
cite-Cited digest lo (s ∷ seqs) cat d a le =
    let row = citation cat.next_link digest s in
    let added : Catalog = record cat {
      links = cat.links ++ row ∷ [];
      next_link = suc cat.next_link;
    } in
    elim (Bool-cases (taken digest row cat.links)) [
      | inl skip ↦ rw (skip, cite) (cite-Cited digest lo seqs cat d a le)
      | inr new ↦
          let rest =
            cite-Cited digest lo seqs added (Distinct-append link_id cat.links row d a)
              (All-append (λ (l : Link). l.id < suc cat.next_link) cat.links (row ∷ [])
                (weaker cat.next_link cat.links a) (omega arith, tt))
              (omega (arith, le)) in
          rw (new, cite)
            (record {
              rows = row ∷ rest.rows;
              links = rest.links ∙ append_cons cat.links row rest.rows;
              nodes = rest.nodes;
              observations = rest.observations;
              made = (
                record {
                  listed = here cat.next_link (cite digest seqs added).0;
                  on_digest = ground arith;
                  unretired = refl;
                },
                later_ids digest lo cat.next_link (cite digest seqs added).0 rest.rows rest.made,
              );
              fresh = (le, rest.fresh);
              distinct = rest.distinct;
            })
    ]
  where
    here : (k : ℕ) (ids : List ℕ) → member k (k ∷ ids) ≡ true
    here k ids = unfold member in ground arith
