-- ===== src/Pack/Tests.antt =====
-- A pack of three pages and two notes, measured by its entries.
use polis_memory.Prelude.{ℕ, ◌+◌, ◌*◌, ◌≡◌, refl, ◌⊎◌, pos, none, some, [], ◌∷◌, length, any}
use polis_memory.Prelude.Text.{codes, text_eq}
use polis_memory.Pack.{
  trim_browse_hits, len, AnswerPack, pass, trim_step, trim_loop, empty_step, empty_loop,
  enforce_pack_budget_bytes,
}
use polis_memory.Pack.Loops.{IsReported}
use polis_memory.Pack.Enforce.{
  Fits, enforce_pack_budget_bytes-Fits, enforce_pack_budget_bytes_reports,
}

abbrev pack : AnswerPack ℕ
pack = record {
  head_seq = pos 7;
  query = some (codes "q");
  node = none;
  matched_nodes = [];
  notes = 1 ∷ 2 ∷ [];
  prompt_hits = [];
  browse_hits = 3 ∷ 4 ∷ 5 ∷ [];
  grep_hits = [];
  arm_coverage = [];
  truncated = [];
  shared_hits = [];
  retrieval = record { errors = []; others = 0 };
  claims = [];
}

-- Ten bytes for an entry, one for a name in the report.
abbrev size : AnswerPack ℕ → ℕ
size p = 10 * (length p.browse_hits + length p.notes) + length p.truncated

cut : (enforce_pack_budget_bytes size pack 35).browse_hits ≡ 3 ∷ []
unfolding enforce_pack_budget_bytes pass trim_step trim_loop any
cut = refl

reported : (enforce_pack_budget_bytes size pack 35).truncated ≡ codes "browseHits" ∷ []
unfolding enforce_pack_budget_bytes pass trim_step trim_loop any
reported = refl

-- The name of the last list that pass one trims is reported after its loop and can put the pack over
-- the budget again: pass two then empties the pages, although two notes are left.
abbrev tight : AnswerPack ℕ
tight = record pack { browse_hits = 3 ∷ []; notes = 1 ∷ 2 ∷ 4 ∷ [] }

tight_pages : (enforce_pack_budget_bytes size tight 30).browse_hits ≡ []
unfolding enforce_pack_budget_bytes pass trim_step trim_loop empty_step empty_loop any text_eq
tight_pages = refl

tight_notes : (enforce_pack_budget_bytes size tight 30).notes ≡ 1 ∷ 2 ∷ []
unfolding enforce_pack_budget_bytes pass trim_step trim_loop empty_step empty_loop any text_eq
tight_notes = refl

enforce_pack_budget_bytes-Fits_example : Fits size 35 (enforce_pack_budget_bytes size pack 35)
enforce_pack_budget_bytes-Fits_example = enforce_pack_budget_bytes-Fits size 35 pack

enforce_pack_budget_bytes_reports_example :
    (len trim_browse_hits (enforce_pack_budget_bytes size pack 35) ≡ len trim_browse_hits pack)
    ⊎ IsReported trim_browse_hits (enforce_pack_budget_bytes size pack 35)
enforce_pack_budget_bytes_reports_example =
    enforce_pack_budget_bytes_reports size 35 pack trim_browse_hits
