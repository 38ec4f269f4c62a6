-- ===== src/Catalog/Retire.antt =====
-- Clearing the marks of a retirement gives back the catalog that was retired from.
use polis_memory.Prelude.{
  ℕ, ◌≡◌, refl, ap, ◌∙◌, true, false, Option, none, some, List, [], ◌∷◌, arith, All,
}
use polis_memory.Prelude.Tables.{keys_where, update_each, Distinct, update_each_swap}
use polis_memory.Prelude.Undo.{Undoes, undo_where, undo-All, update_each-Distinct}
use polis_memory.Catalog.{
  Catalog, Link, Node, Observation, clear_link, clear_node, clear_observation, live_link,
  live_observation, mark_link, mark_node, mark_observation, marked_by, retire_each, retire_node,
  retire_node_subtree, unmarked, unretire_locked, walk, walk_limit,
}

mark_none : (m : Option ℕ) → unmarked m ≡ true → m ≡ none
mark_none none e = refl
mark_none (some r) e = cc

marked_same : (run : ℕ) → marked_by run (some run) ≡ true
marked_same run = ground arith

links-Undoes :
    (run id : ℕ)
    → Undoes
        (λ (l : Link). l.id)
        (live_link id)
        (mark_link run)
        (λ l. marked_by run l.retired_by_run)
        clear_link
links-Undoes run id = record {
  mark_key = λ r. refl;
  clear_key = λ r. refl;
  mark_once = λ r. refl;
  mark_hides = λ r. ground arith;
  clear_once = λ r. refl;
  marks = λ r e. marked_same run;
}

observations-Undoes :
    (run id : ℕ)
    → Undoes
        (λ (o : Observation). o.id)
        (live_observation id)
        (mark_observation run)
        (λ o. marked_by run o.retired_by_run)
        clear_observation
observations-Undoes run id = record {
  mark_key = λ r. refl;
  clear_key = λ r. refl;
  mark_once = λ r. refl;
  mark_hides = λ r. ground arith;
  clear_once = λ r. refl;
  marks = λ r e. marked_same run;
}

nodes-Undoes :
    (run : ℕ) (into : Option ℕ)
    → Undoes
        (λ (n : Node). n.id)
        (λ n. unmarked n.retired_by_run)
        (mark_node run into)
        (λ n. marked_by run n.retired_by_run)
        clear_node
nodes-Undoes run into = record {
  mark_key = λ r. refl;
  clear_key = λ r. refl;
  mark_once = λ r. refl;
  mark_hides = λ r. refl;
  clear_once = λ r. refl;
  marks = λ r e. marked_same run;
}

link_clears : (run id : ℕ) (l : Link) → live_link id l ≡ true → clear_link (mark_link run l) ≡ l
link_clears run id l e = ground (arith, mark_none l.retired_by_run)

observation_clears :
    (run id : ℕ) (o : Observation)
    → live_observation id o ≡ true
    → clear_observation (mark_observation run o) ≡ o
observation_clears run id o e = ground (arith, mark_none o.retired_by_run)

All-rows {ℓ κ} : {A : Type ℓ} (P : A → Type κ) (rows : List A) → ((r : A) → P r) → All P rows
All-rows P [] f = tt
All-rows P (r ∷ rows) f = (f r, All-rows P rows f)

pub links_back :
    (run : ℕ) (into : Option ℕ) (ids : List ℕ) (cat : Catalog)
    → Distinct (λ (l : Link). l.id) cat.links
    → let r = retire_each run into ids cat in
      update_each
        (λ (l : Link). l.id)
        r.0.links
        (λ l. marked_by run l.retired_by_run)
        clear_link
        r.1.links
      ≡ cat.links
unfolding retire_each retire_node update_each
links_back run into [] cat d = refl
links_back run into (id ∷ ids) cat d =
    let cat_1 = (retire_node run into id cat).1 in
    let rest = retire_each run into ids cat_1 in
    let first = keys_where (λ (l : Link). l.id) (live_link id) cat.links in
    let q = λ (l : Link). marked_by run l.retired_by_run in
    update_each_swap (λ (l : Link). l.id) q clear_link (λ r. refl) (λ r. refl) first rest.0.links
      rest.1.links
    ∙ ap (update_each (λ (l : Link). l.id) first q clear_link) (
        links_back run into ids cat_1 (
          update_each-Distinct (λ (l : Link). l.id) (λ l. true) (mark_link run) (λ r. refl) first
            cat.links d))
    ∙ undo_where (λ (l : Link). l.id) (live_link id) (mark_link run) q clear_link
        (links-Undoes run id) cat.links d (All-rows _ cat.links (link_clears run id))

pub observations_back :
    (run : ℕ) (into : Option ℕ) (ids : List ℕ) (cat : Catalog)
    → Distinct (λ (o : Observation). o.id) cat.observations
    → let r = retire_each run into ids cat in
      update_each
        (λ (o : Observation). o.id)
        r.0.observations
        (λ o. marked_by run o.retired_by_run)
        clear_observation
        r.1.observations
      ≡ cat.observations
unfolding retire_each retire_node update_each
observations_back run into [] cat d = refl
observations_back run into (id ∷ ids) cat d =
    let cat_1 = (retire_node run into id cat).1 in
    let rest = retire_each run into ids cat_1 in
    let first = keys_where (λ (o : Observation). o.id) (live_observation id) cat.observations in
    let q = λ (o : Observation). marked_by run o.retired_by_run in
    update_each_swap (λ (o : Observation). o.id) q clear_observation (λ r. refl) (λ r. refl) first
      rest.0.observations rest.1.observations
    ∙ ap (update_each (λ (o : Observation). o.id) first q clear_observation) (
        observations_back run into ids cat_1 (
          update_each-Distinct (λ (o : Observation). o.id) (λ o. true) (mark_observation run)
            (λ r. refl) first cat.observations d))
    ∙ undo_where (λ (o : Observation). o.id) (live_observation id) (mark_observation run) q
        clear_observation (observations-Undoes run id) cat.observations d
        (All-rows _ cat.observations (observation_clears run id))

pub retired_nodes :
    (run : ℕ) (into : Option ℕ) (ids : List ℕ) (cat : Catalog)
    → ((retire_each run into ids cat).0.nodes ≡ ids)
      × ((retire_each run into ids cat).1.nodes
          ≡ update_each
              (λ (n : Node). n.id)
              ids
              (λ n. unmarked n.retired_by_run)
              (mark_node run into)
              cat.nodes)
unfolding retire_each retire_node update_each
retired_nodes run into [] cat = (refl, refl)
retired_nodes run into (id ∷ ids) cat =
    let rest = retired_nodes run into ids (retire_node run into id cat).1 in
    (ap (λ (js : List ℕ). id ∷ js) rest.0, rest.1)

same_link :
    (run : ℕ) (into : Option ℕ) (ids : List ℕ) (cat : Catalog)
    → (retire_each run into ids cat).1.next_link ≡ cat.next_link
unfolding retire_each retire_node
same_link run into [] cat = refl
same_link run into (id ∷ ids) cat = same_link run into ids (retire_node run into id cat).1

-- Before a run marks a node: the run has marked none, and a live node was retired into nothing.
abbrev pub Unretired : ℕ → Node → Type 0
Unretired run n =
    (marked_by run n.retired_by_run ≡ false)
    × (unmarked n.retired_by_run ≡ true → n.retired_into ≡ none)

node_clears :
    (run : ℕ) (into : Option ℕ) (n : Node)
    → (unmarked n.retired_by_run ≡ true → n.retired_into ≡ none)
    → unmarked n.retired_by_run ≡ true
    → clear_node (mark_node run into n) ≡ n
node_clears run into n bare e = ground (arith, mark_none n.retired_by_run, bare)

rows_clear :
    (run : ℕ) (into : Option ℕ) (nodes : List Node)
    → All (Unretired run) nodes
    → All
        (λ (n : Node).
          (marked_by run n.retired_by_run ≡ false)
          × (unmarked n.retired_by_run ≡ true → clear_node (mark_node run into n) ≡ n))
        nodes
rows_clear run into [] a = tt
rows_clear run into (n ∷ nodes) a =
    ((a.0.0, node_clears run into n a.0.1), rows_clear run into nodes a.1)

pub nodes_back :
    (run : ℕ) (into : Option ℕ) (ids : List ℕ) (cat : Catalog)
    → All (Unretired run) cat.nodes
    → let r = retire_each run into ids cat in
      update_each
        (λ (n : Node). n.id)
        r.0.nodes
        (λ n. marked_by run n.retired_by_run)
        clear_node
        r.1.nodes
      ≡ cat.nodes
nodes_back run into ids cat a =
    let r = retired_nodes run into ids cat in
    rw (r.0, r.1)
      (undo-All (λ (n : Node). n.id) (λ n. unmarked n.retired_by_run) (mark_node run into)
        (λ n. marked_by run n.retired_by_run) clear_node (nodes-Undoes run into) ids cat.nodes
        (rows_clear run into cat.nodes a))

-- What a run's retirement of any list of nodes marked, and the run clears again, is the catalog as
-- it was, row for row.
pub unretire-retire_each :
    (run : ℕ) (into : Option ℕ) (ids : List ℕ) (cat : Catalog)
    → Distinct (λ (l : Link). l.id) cat.links
    → Distinct (λ (o : Observation). o.id) cat.observations
    → All (Unretired run) cat.nodes
    → let r = retire_each run into ids cat in unretire_locked run r.0 r.1 ≡ cat
unfolding unretire_locked
unretire-retire_each run into ids cat dl dob a = λ i. record {
  nodes = nodes_back run into ids cat a i;
  links = links_back run into ids cat dl i;
  observations = observations_back run into ids cat dob i;
  next_link = same_link run into ids cat i;
}

-- A run that retires a branch and then clears its marks has changed nothing: every node, link and
-- observation is what it was. The run must not have marked a node before, and a live node must be
-- retired into nothing.
pub unretire-retire :
    (id run : ℕ) (into : Option ℕ) (cat : Catalog)
    → Distinct (λ (l : Link). l.id) cat.links
    → Distinct (λ (o : Observation). o.id) cat.observations
    → All (Unretired run) cat.nodes
    → let r = retire_node_subtree id run into cat in unretire_locked run r.0 r.1 ≡ cat
unfolding retire_node_subtree
unretire-retire id run into cat =
    unretire-retire_each run into (walk walk_limit (id ∷ []) cat.nodes) cat
