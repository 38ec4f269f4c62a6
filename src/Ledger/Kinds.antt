-- ===== src/Ledger/Kinds.antt =====
-- `EventKind` of crates/polis-core/src/ledger.rs: the vocabulary of the ledger's `kind` column.
use polis_memory.Prelude.{
  ◌≡◌, refl, ap, sym, ◌∙◌, ◌↔◌, ◌⊎◌, inl, inr, Bool, false, Option, some, List, [], ◌∷◌, arith,
  find, any,
}
use polis_memory.Prelude.Text.{Text, codes, text_eq}

pub data EventKind : Type 0 where
  prompt : EventKind
  revision : EventKind
  resolution : EventKind
  approval : EventKind
  reopen : EventKind
  review_verdict : EventKind
  pin : EventKind
  source_trust : EventKind
  taxonomy_reorg : EventKind
  class_curate : EventKind
  compaction : EventKind
  capture_forgotten : EventKind
  browse_event : EventKind
  session_link : EventKind
  supersede : EventKind
  observation : EventKind
  note : EventKind
  work_file : EventKind
  work_claim : EventKind
  work_close : EventKind
  moot_turn : EventKind
  router_verdict : EventKind
  gardener_revert : EventKind
  gardener_regression : EventKind
  principal_bind : EventKind
  redaction : EventKind

abbrev pub as_str : EventKind → Text
as_str prompt = codes "prompt"
as_str revision = codes "revision"
as_str resolution = codes "resolution"
as_str approval = codes "approval"
as_str reopen = codes "reopen"
as_str review_verdict = codes "review_verdict"
as_str pin = codes "pin"
as_str source_trust = codes "source_trust"
as_str taxonomy_reorg = codes "taxonomy_reorg"
as_str class_curate = codes "class_curate"
as_str compaction = codes "compaction"
as_str capture_forgotten = codes "capture_forgotten"
as_str browse_event = codes "browse_event"
as_str session_link = codes "session_link"
as_str supersede = codes "supersede"
as_str observation = codes "observation"
as_str note = codes "note"
as_str work_file = codes "work_file"
as_str work_claim = codes "work_claim"
as_str work_close = codes "work_close"
as_str moot_turn = codes "moot_turn"
as_str router_verdict = codes "router_verdict"
as_str gardener_revert = codes "gardener_revert"
as_str gardener_regression = codes "gardener_regression"
as_str principal_bind = codes "principal_bind"
as_str redaction = codes "redaction"

-- `EventKind::ALL`, in the order of the source.
abbrev pub all_kinds : List EventKind
all_kinds =
    prompt ∷ revision ∷ resolution ∷ approval ∷ reopen ∷ review_verdict ∷ pin ∷ source_trust
    ∷ taxonomy_reorg ∷ class_curate ∷ compaction ∷ capture_forgotten ∷ browse_event ∷ session_link
    ∷ supersede ∷ observation ∷ note ∷ work_file ∷ work_claim ∷ work_close ∷ moot_turn
    ∷ router_verdict ∷ principal_bind ∷ redaction ∷ []

abbrev pub every_kind : List EventKind
every_kind = gardener_revert ∷ gardener_regression ∷ all_kinds

-- The kind that a wire string names.
unfoldable of_str : Text → Option EventKind
of_str s = find (λ k. text_eq (as_str k) s) every_kind

of_str-as_str : (k : EventKind) → of_str (as_str k) ≡ some k
unfolding of_str text_eq find
of_str-as_str prompt = refl
of_str-as_str revision = refl
of_str-as_str resolution = refl
of_str-as_str approval = refl
of_str-as_str reopen = refl
of_str-as_str review_verdict = refl
of_str-as_str pin = refl
of_str-as_str source_trust = refl
of_str-as_str taxonomy_reorg = refl
of_str-as_str class_curate = refl
of_str-as_str compaction = refl
of_str-as_str capture_forgotten = refl
of_str-as_str browse_event = refl
of_str-as_str session_link = refl
of_str-as_str supersede = refl
of_str-as_str observation = refl
of_str-as_str note = refl
of_str-as_str work_file = refl
of_str-as_str work_claim = refl
of_str-as_str work_close = refl
of_str-as_str moot_turn = refl
of_str-as_str router_verdict = refl
of_str-as_str gardener_revert = refl
of_str-as_str gardener_regression = refl
of_str-as_str principal_bind = refl
of_str-as_str redaction = refl

some_injective : (j k : EventKind) → some j ≡ some k → j ≡ k
some_injective j k q = ground arith

-- Two kinds with the same wire string are the same kind, so a stored `kind` names at most one.
pub as_str_injective : (j k : EventKind) → as_str j ≡ as_str k → j ≡ k
as_str_injective j k q = some_injective j k (sym (of_str-as_str j) ∙ ap of_str q ∙ of_str-as_str k)

unfoldable pub is_listed : EventKind → Bool
is_listed k = any (λ j. text_eq (as_str j) (as_str k)) all_kinds

-- A kind is missing from `EventKind::ALL` exactly when it is one of the two that a revert of a
-- gardener run records.
pub all_kinds_misses :
    (k : EventKind) → (is_listed k ≡ false) ↔ ((k ≡ gardener_revert) ⊎ (k ≡ gardener_regression))
unfolding is_listed text_eq any
all_kinds_misses prompt = (λ q. cc, λ q. elim q [ inl e ↦ cc | inr e ↦ cc ])
all_kinds_misses revision = (λ q. cc, λ q. elim q [ inl e ↦ cc | inr e ↦ cc ])
all_kinds_misses resolution = (λ q. cc, λ q. elim q [ inl e ↦ cc | inr e ↦ cc ])
all_kinds_misses approval = (λ q. cc, λ q. elim q [ inl e ↦ cc | inr e ↦ cc ])
all_kinds_misses reopen = (λ q. cc, λ q. elim q [ inl e ↦ cc | inr e ↦ cc ])
all_kinds_misses review_verdict = (λ q. cc, λ q. elim q [ inl e ↦ cc | inr e ↦ cc ])
all_kinds_misses pin = (λ q. cc, λ q. elim q [ inl e ↦ cc | inr e ↦ cc ])
all_kinds_misses source_trust = (λ q. cc, λ q. elim q [ inl e ↦ cc | inr e ↦ cc ])
all_kinds_misses taxonomy_reorg = (λ q. cc, λ q. elim q [ inl e ↦ cc | inr e ↦ cc ])
all_kinds_misses class_curate = (λ q. cc, λ q. elim q [ inl e ↦ cc | inr e ↦ cc ])
all_kinds_misses compaction = (λ q. cc, λ q. elim q [ inl e ↦ cc | inr e ↦ cc ])
all_kinds_misses capture_forgotten = (λ q. cc, λ q. elim q [ inl e ↦ cc | inr e ↦ cc ])
all_kinds_misses browse_event = (λ q. cc, λ q. elim q [ inl e ↦ cc | inr e ↦ cc ])
all_kinds_misses session_link = (λ q. cc, λ q. elim q [ inl e ↦ cc | inr e ↦ cc ])
all_kinds_misses supersede = (λ q. cc, λ q. elim q [ inl e ↦ cc | inr e ↦ cc ])
all_kinds_misses observation = (λ q. cc, λ q. elim q [ inl e ↦ cc | inr e ↦ cc ])
all_kinds_misses note = (λ q. cc, λ q. elim q [ inl e ↦ cc | inr e ↦ cc ])
all_kinds_misses work_file = (λ q. cc, λ q. elim q [ inl e ↦ cc | inr e ↦ cc ])
all_kinds_misses work_claim = (λ q. cc, λ q. elim q [ inl e ↦ cc | inr e ↦ cc ])
all_kinds_misses work_close = (λ q. cc, λ q. elim q [ inl e ↦ cc | inr e ↦ cc ])
all_kinds_misses moot_turn = (λ q. cc, λ q. elim q [ inl e ↦ cc | inr e ↦ cc ])
all_kinds_misses router_verdict = (λ q. cc, λ q. elim q [ inl e ↦ cc | inr e ↦ cc ])
all_kinds_misses gardener_revert = (λ q. inl refl, λ q. refl)
all_kinds_misses gardener_regression = (λ q. inr refl, λ q. refl)
all_kinds_misses principal_bind = (λ q. cc, λ q. elim q [ inl e ↦ cc | inr e ↦ cc ])
all_kinds_misses redaction = (λ q. cc, λ q. elim q [ inl e ↦ cc | inr e ↦ cc ])
