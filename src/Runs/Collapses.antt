-- ===== src/Runs/Collapses.antt =====
-- The rows that a collapse leaves, and what its inverse makes of them.
use polis_memory.Prelude.{
  ℕ, ◌≤◌, ◌<◌, ◌≡◌, ◌≢◌, refl, sym, ap, ◌∙◌, subst, true, false, not, ◌&&◌, Option, none, List, [],
  ◌∷◌, ◌++◌, arith, ◌==◌, All, keep, map,
}
use polis_memory.Prelude.Tables.{
  lookup, keys_where, member, Distinct, update, update_each, update_each-map, update-update,
  updated,
}
use polis_memory.Prelude.Undo.{Only, Only-keys, update_each-Distinct}
use polis_memory.Catalog.{
  Catalog, Link, Node, clear_link, clear_node, live_link, mark_link, marked_by, retire_each,
  retire_node, unmarked,
}
use polis_memory.Catalog.Cites.{IsCitation}
use polis_memory.Catalog.Reorg.{link_id, node_id}
use polis_memory.Runs.{live_node, mark_new_link, retire_new}

-- The citations stand on the digest, and the run has marked no link there.
abbrev pub Apart : ℕ → ℕ → List ℕ → Link → Type 0
Apart run digest cs l =
    ((member l.id cs && not (l.node_id == digest)) ≡ false)
    × ((l.node_id == digest && marked_by run l.retired_by_run) ≡ false)

mark_row-Apart :
    (run digest id : ℕ) (cs ks : List ℕ) (l : Link)
    → (id == digest) ≡ false
    → (member l.id ks && not (live_link id l)) ≡ false
    → Apart run digest cs l
    → Apart run digest cs (updated link_id (λ r. true) (mark_link run) ks l)
mark_row-Apart run digest id cs ks l ne o a = (ground (arith, o, a.0), ground (arith, ne, o, a.1))

marks-Apart :
    (run digest id : ℕ) (cs ks : List ℕ) (links : List Link)
    → (id == digest) ≡ false
    → Only link_id (live_link id) ks links
    → All (Apart run digest cs) links
    → All (Apart run digest cs) (map (λ l. updated link_id (λ r. true) (mark_link run) ks l) links)
marks-Apart run digest id cs ks [] ne o a = tt
marks-Apart run digest id cs ks (l ∷ links) ne o a = (
  mark_row-Apart run digest id cs ks l ne o.0 a.0,
  marks-Apart run digest id cs ks links ne o.1 a.1,
)

pub retire_each-Apart :
    (run digest : ℕ) (into : Option ℕ) (cs ids : List ℕ) (cat : Catalog)
    → member digest ids ≡ false
    → Distinct link_id cat.links
    → All (Apart run digest cs) cat.links
    → All (Apart run digest cs) (retire_each run into ids cat).1.links
unfolding retire_each retire_node member
retire_each-Apart run digest into cs [] cat out d a = a
retire_each-Apart run digest into cs (id ∷ ids) cat out d a =
    let ks = keys_where link_id (live_link id) cat.links in
    retire_each-Apart run digest into cs ids (retire_node run into id cat).1 (ground (arith, out))
      (update_each-Distinct link_id (λ l. true) (mark_link run) (λ r. refl) ks cat.links d)
      (subst (All (Apart run digest cs))
        (sym (
          update_each-map link_id (λ l. true) (mark_link run) (λ r. refl) (λ r. refl) ks cat.links))
        (marks-Apart run digest id cs ks cat.links (ground (arith, out))
          (Only-keys link_id (live_link id) cat.links d) a))

cong_cons {ℓ} : {A : Type ℓ} {x y : A} {xs ys : List A} → x ≡ y → xs ≡ ys → x ∷ xs ≡ y ∷ ys
cong_cons p q = cc

-- Clearing the run's marks and marking the citations do not disturb each other.
swap_row :
    (run by digest : ℕ) (cs ks : List ℕ) (l : Link)
    → run ≢ by
    → Apart run digest cs l
    → updated link_id
        (λ r. marked_by run r.retired_by_run)
        clear_link
        ks
        (updated link_id (λ r. unmarked r.retired_by_run) (mark_new_link by) cs l)
      ≡ updated link_id
          (λ r. unmarked r.retired_by_run)
          (mark_new_link by)
          cs
          (updated link_id (λ r. marked_by run r.retired_by_run) clear_link ks l)
swap_row run by digest cs ks l ne a = ground (arith, ne, a.0, a.1)

swap_rows :
    (run by digest : ℕ) (cs ks : List ℕ) (links : List Link)
    → run ≢ by
    → All (Apart run digest cs) links
    → map
        (λ l. updated link_id (λ r. marked_by run r.retired_by_run) clear_link ks l)
        (map (λ l. updated link_id (λ r. unmarked r.retired_by_run) (mark_new_link by) cs l) links)
      ≡ map
          (λ l. updated link_id (λ r. unmarked r.retired_by_run) (mark_new_link by) cs l)
          (map (λ l. updated link_id (λ r. marked_by run r.retired_by_run) clear_link ks l) links)
swap_rows run by digest cs ks [] ne a = refl
swap_rows run by digest cs ks (l ∷ links) ne a =
    cong_cons (swap_row run by digest cs ks l ne a.0) (swap_rows run by digest cs ks links ne a.1)

pub swap_links :
    (run by digest : ℕ) (cs ks : List ℕ) (links : List Link)
    → run ≢ by
    → All (Apart run digest cs) links
    → update_each link_id ks
        (λ r. marked_by run r.retired_by_run)
        clear_link
        (update_each link_id cs (λ r. unmarked r.retired_by_run) (mark_new_link by) links)
      ≡ update_each link_id cs
          (λ r. unmarked r.retired_by_run)
          (mark_new_link by)
          (update_each link_id ks (λ r. marked_by run r.retired_by_run) clear_link links)
swap_links run by digest cs ks links ne a =
    let clears =
      update_each-map link_id (λ r. marked_by run r.retired_by_run) clear_link (λ r. refl)
        (λ r. refl) ks in
    let marks =
      update_each-map link_id (λ r. unmarked r.retired_by_run) (mark_new_link by) (λ r. refl)
        (λ r. refl) cs in
    clears (update_each link_id cs (λ r. unmarked r.retired_by_run) (mark_new_link by) links)
    ∙ ap (map (λ l. updated link_id (λ r. marked_by run r.retired_by_run) clear_link ks l))
        (marks links)
    ∙ swap_rows run by digest cs ks links ne a
    ∙ sym (
        marks (update_each link_id ks (λ r. marked_by run r.retired_by_run) clear_link links)
        ∙ ap (map (λ l. updated link_id (λ r. unmarked r.retired_by_run) (mark_new_link by) cs l))
            (clears links))

member_below :
    (k lo : ℕ) (ids : List ℕ) → k < lo → All (λ (j : ℕ). lo ≤ j) ids → member k ids ≡ false
unfolding member
member_below k lo [] lt a = refl
member_below k lo (j ∷ ids) lt a = ground (arith, lt, a.0, member_below k lo ids lt a.1)

marked_citations :
    (by digest lo : ℕ) (cs : List ℕ) (rows : List Link)
    → All (IsCitation digest lo cs) rows
    → keep
        (λ (l : Link). unmarked l.retired_by_run)
        (map (λ l. updated link_id (λ r. unmarked r.retired_by_run) (mark_new_link by) cs l) rows)
      ≡ []
unfolding keep
marked_citations by digest lo cs [] a = refl
marked_citations by digest lo cs (c ∷ rows) a =
    ground (arith, a.0.listed, a.0.unretired, marked_citations by digest lo cs rows a.1)

-- The live links, once the citations are marked, are the old ones.
kept_links :
    (by digest lo : ℕ) (cs : List ℕ) (links rows : List Link)
    → All (λ (l : Link). l.id < lo) links
    → All (λ (j : ℕ). lo ≤ j) cs
    → All (IsCitation digest lo cs) rows
    → keep
        (λ (l : Link). unmarked l.retired_by_run)
        (map
          (λ l. updated link_id (λ r. unmarked r.retired_by_run) (mark_new_link by) cs l)
          (links ++ rows))
      ≡ keep (λ (l : Link). unmarked l.retired_by_run) links
unfolding keep
kept_links by digest lo cs [] rows b f a = marked_citations by digest lo cs rows a
kept_links by digest lo cs (l ∷ links) rows b f a =
    ground (arith, member_below l.id lo cs b.0 f, kept_links by digest lo cs links rows b.1 f a)

pub live_links :
    (by digest lo : ℕ) (cs : List ℕ) (links rows : List Link)
    → All (λ (l : Link). l.id < lo) links
    → All (λ (j : ℕ). lo ≤ j) cs
    → All (IsCitation digest lo cs) rows
    → keep
        (λ (l : Link). unmarked l.retired_by_run)
        (update_each link_id cs (λ r. unmarked r.retired_by_run) (mark_new_link by) (links ++ rows))
      ≡ keep (λ (l : Link). unmarked l.retired_by_run) links
live_links by digest lo cs links rows b f a =
    ap (keep (λ (l : Link). unmarked l.retired_by_run)) (
      update_each-map link_id (λ r. unmarked r.retired_by_run) (mark_new_link by) (λ r. refl)
        (λ r. refl) cs (links ++ rows))
    ∙ kept_links by digest lo cs links rows b f a

-- Before the retirement the rows are apart.
pub old-Apart :
    (run digest lo : ℕ) (cs : List ℕ) (links rows : List Link)
    → All (λ (l : Link). l.id < lo) links
    → All (λ (l : Link). (l.node_id == digest) ≡ false) links
    → All (λ (j : ℕ). lo ≤ j) cs
    → All (IsCitation digest lo cs) rows
    → All (Apart run digest cs) (links ++ rows)
old-Apart run digest lo cs [] [] b n f a = tt
old-Apart run digest lo cs [] (c ∷ rows) b n f a = (
  (ground (arith, a.0.on_digest), ground (arith, a.0.unretired)),
  old-Apart run digest lo cs [] rows b n f a.1,
)
old-Apart run digest lo cs (l ∷ links) rows b n f a = (
  (ground (arith, member_below l.id lo cs b.0 f), ground (arith, n.0)),
  old-Apart run digest lo cs links rows b.1 n.1 f a,
)

-- The digest's own row.
pub swap_digest :
    (run by digest : ℕ) (ids : List ℕ) (nodes : List Node)
    → member digest ids ≡ false
    → update_each node_id ids
        (λ n. marked_by run n.retired_by_run)
        clear_node
        (update node_id digest live_node (retire_new by) nodes)
      ≡ update node_id digest live_node
          (retire_new by)
          (update_each node_id ids (λ n. marked_by run n.retired_by_run) clear_node nodes)
unfolding update_each member
swap_digest run by digest [] nodes out = refl
swap_digest run by digest (id ∷ ids) nodes out =
    ap (update_each node_id ids (λ n. marked_by run n.retired_by_run) clear_node) (
      update-update node_id id digest (λ n. marked_by run n.retired_by_run) live_node clear_node
        (retire_new by) (ground (arith, out)) (λ a. refl) (λ a. refl) nodes)
    ∙ swap_digest run by digest ids
        (update node_id id (λ n. marked_by run n.retired_by_run) clear_node nodes)
        (ground (arith, out))

pub live_nodes :
    (by digest : ℕ) (nodes : List Node) (made : Node)
    → lookup node_id digest nodes ≡ none
    → made.id ≡ digest
    → unmarked made.retired_by_run ≡ true
    → keep live_node (update node_id digest live_node (retire_new by) (nodes ++ made ∷ []))
      ≡ keep live_node nodes
unfolding keep update lookup
live_nodes by digest [] made e same live = ground (arith, same, live)
live_nodes by digest (n ∷ nodes) made e same live =
    ground (arith, e, live_nodes by digest nodes made, same, live)
