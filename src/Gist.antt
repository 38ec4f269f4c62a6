-- ===== src/Gist.antt =====
-- crates/polis-core/src/gist.rs: what is left of a body that was compacted.
use polis_memory.Prelude.{
  ℕ, ◌+◌, ◌-◌, ◌≤◌, [], ◌∷◌, ◌++◌, arith, length, take, drop, leb, if◌then◌else◌, length-append,
  length-take, length-drop, Bool-cases, inl, inr,
}
use polis_memory.Prelude.Text.{Text, codes, to_string}
use polis_memory.Dedup.Simhash.{bytes, split_whitespace}
use polis_memory.Query.{join}

abbrev gist_head_chars : ℕ
gist_head_chars = 200

abbrev gist_tail_chars : ℕ
gist_tail_chars = 120

-- The ends of a flattened text.
unfoldable head_and_tail : Text → Text
head_and_tail flat =
    if leb (length flat) (gist_head_chars + gist_tail_chars)
    then flat
    else take gist_head_chars flat ++ (32 ∷ 0x2026 ∷ 32 ∷ drop (length flat - gist_tail_chars) flat)

unfoldable deterministic_gist : Text → Text
deterministic_gist body =
    head_and_tail (join (32 ∷ []) (split_whitespace body))
    ++ (0x2026 ∷ codes " [compacted " ++ (to_string (length (bytes body)) ++ codes " bytes]"))

-- Both ends and the mark between them: at most 323 characters, whatever the body.
head_and_tail_bound : (flat : Text) → length (head_and_tail flat) ≤ 323
unfolding head_and_tail
head_and_tail_bound flat =
    elim (Bool-cases (leb (length flat) (gist_head_chars + gist_tail_chars))) [
      | inl short ↦ rw (short, head_and_tail) (ground (arith, short))
      | inr long ↦
          rw (long, head_and_tail)
            (omega (
              arith,
              length-append (take gist_head_chars flat)
                  (32 ∷ 0x2026 ∷ 32 ∷ drop (length flat - gist_tail_chars) flat),
              length-take gist_head_chars flat,
              length-drop (length flat - gist_tail_chars) flat,
            ))
    ]
