-- ===== src/Compaction/Restores.antt =====
-- A cold compaction is undone by a restore.
use polis_memory.Compaction.Restore.{hits, restore_prompt_body, rewarm}
use polis_memory.Prelude.{
  ℕ, ◌≡◌, ◌≢◌, refl, sym, ap, ◌∙◌, true, false, none, some, List, length, if◌then◌else◌,
}
use polis_memory.Prelude.Tables.{
  lookup, update, lookup-update_same, lookup-delete_same, lookup-upsert_same,
}
use polis_memory.Prelude.Text.{Text, text_eq, text_eq_refl}
use polis_memory.Dedup.Simhash.{bytes}
use polis_memory.Ledger.{Hasher}
use polis_memory.Compaction.{
  Answers, Archived, Codec, Compaction, Db, Prompt, ok, cold, compact_prompt_body, forget,
  is_forgotten, is_open, swap,
}
use polis_memory.Compaction.Cases.{
  archive_row, archived_db, cold_not_forget, compact_prompt_body-cold, restore_prompt_body_ok,
  select_body-some,
}
use polis_memory.Compaction.Frames.{
  Frame, Frame-trans, compact_prompt_body-Frame, restore_prompt_body-Frame,
}

-- A prompt with its words and no mark of a compaction.
pub record IsWarm (h : Hasher) (p : Prompt) : Type 0 where
  pub committed : h.sha256_hex p.body ≡ p.body_hash
  pub gist : p.gist ≡ none
  pub compacted_at : p.compacted_at ≡ none
  pub original_bytes : p.original_bytes ≡ none
  pub gist_source : p.gist_source ≡ none

warm_open : (h : Hasher) (reason : Text) (p : Prompt) → IsWarm h p → is_open reason p ≡ true
unfolding is_open
warm_open h reason p w = rw w.gist refl

-- Swapped out and rewarmed with its own body, a warm prompt is what it was.
rewarm-swap :
    (h : Hasher) (c : Compaction) (n : ℕ) (p : Prompt)
    → IsWarm h p
    → text_eq c.reason forget ≡ false
    → rewarm p.body (swap c n p) ≡ p
unfolding swap
rewarm-swap h c n p w e = λ i. record p {
  gist = (sym w.gist) i;
  compacted_at = (sym w.compacted_at) i;
  original_bytes = (sym w.original_bytes) i;
  gist_source = (sym w.gist_source) i;
  user_text = if◌then◌else◌ (e i) none p.user_text;
}

swapped_row :
    (h : Hasher) (c : Compaction) (n : ℕ) (p : Prompt) (prompts : List Prompt)
    → IsWarm h p
    → lookup (λ (r : Prompt). r.id) c.prompt_id prompts ≡ some p
    → lookup
        (λ (r : Prompt). r.id)
        c.prompt_id
        (update (λ (r : Prompt). r.id) c.prompt_id (is_open c.reason) (swap c n) prompts)
      ≡ some (swap c n p)
unfolding swap
swapped_row h c n p prompts w found =
    lookup-update_same (λ (r : Prompt). r.id) c.prompt_id (is_open c.reason) (swap c n) (λ a. refl)
      prompts
    ∙ rw (found, warm_open h c.reason p w) refl

hits-swap :
    (c : Compaction) (n : ℕ) (p : Prompt) (prompts : List Prompt)
    → lookup (λ (r : Prompt). r.id) c.prompt_id prompts ≡ some (swap c n p)
    → hits c.prompt_id p.body_hash prompts ≡ true
unfolding hits swap
hits-swap c n p prompts e = rw (e, hits) (text_eq_refl p.body_hash)

rewarmed_row :
    (h : Hasher) (c : Compaction) (n : ℕ) (p : Prompt) (prompts : List Prompt)
    → IsWarm h p
    → text_eq c.reason forget ≡ false
    → lookup (λ (r : Prompt). r.id) c.prompt_id prompts ≡ some (swap c n p)
    → lookup
        (λ (r : Prompt). r.id)
        c.prompt_id
        (update
          (λ (r : Prompt). r.id)
          c.prompt_id
          (λ r. text_eq r.body_hash p.body_hash)
          (rewarm p.body)
          prompts)
      ≡ some p
unfolding swap
rewarmed_row h c n p prompts w keeps e =
    lookup-update_same (λ (r : Prompt). r.id) c.prompt_id
      (λ (r : Prompt). text_eq r.body_hash p.body_hash) (rewarm p.body) (λ a. refl) prompts
    ∙ rw (e, text_eq_refl p.body_hash) (ap some (rewarm-swap h c n p w keeps))

module _ (h : Hasher) (codec : Codec) (answers : Answers) (c : Compaction) (db : Db) (p : Prompt)
    (blob : List ℕ) where
  -- After a cold compaction that wrote its archive row, a restore of the same prompt answers `true`:
  -- the prompt's row is exactly what it was before the compaction, its archive row is gone, and
  -- every other prompt has the rows it had before both.
  pub restore-compact :
      c.reason ≡ cold
      → lookup (λ (r : Prompt). r.id) c.prompt_id db.prompts ≡ some p
      → is_forgotten c.prompt_id db ≡ false
      → IsWarm h p
      → codec.deflate p.body ≡ some blob
      → codec.inflate blob ≡ some p.body
      → answers.archive_write ≡ true
      → (other : ℕ) → other ≢ c.prompt_id
      → let compacted = (compact_prompt_body h codec answers c db).1 in
        let restored = restore_prompt_body h codec c.prompt_id compacted in
        (restored.0 ≡ ok true)
        × (lookup (λ (r : Prompt). r.id) c.prompt_id restored.1.prompts ≡ some p)
        × (lookup (λ (r : Archived). r.prompt_id) c.prompt_id restored.1.archive ≡ none)
        × Frame other db restored.1
  restore-compact is_cold found known warm packs unpacks writes other ne =
      let opened = warm_open h c.reason p warm in
      let selected = select_body-some c.prompt_id c.reason db p found opened known in
      let swap_row = swapped_row h c (length (bytes p.body)) p db.prompts warm found in
      let state = archived_db h c p blob db in
      let restored =
        restore_prompt_body_ok h codec c.prompt_id state (archive_row c p blob) p.body known
          (lookup-upsert_same (λ (a : Archived). a.prompt_id) (archive_row c p blob) db.archive)
          refl unpacks warm.committed
          (hits-swap c (length (bytes p.body)) p state.prompts swap_row) in
      let compacted =
        compact_prompt_body-cold h codec answers c db p blob is_cold selected packs writes in
      (
        rw (compacted, restored) refl,
        rw (compacted, restored)
            (rewarmed_row h c (length (bytes p.body)) p state.prompts warm
              (cold_not_forget c.reason is_cold) swap_row),
        rw (compacted, restored)
            (lookup-delete_same (λ (a : Archived). a.prompt_id) c.prompt_id state.archive),
        let swapped_db = (compact_prompt_body h codec answers c db).1 in
            Frame-trans other db swapped_db (restore_prompt_body h codec c.prompt_id swapped_db).1
              (compact_prompt_body-Frame h codec answers c db other ne)
              (restore_prompt_body-Frame h codec c.prompt_id swapped_db other ne),
      )
