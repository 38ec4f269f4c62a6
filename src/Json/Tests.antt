-- ===== src/Json/Tests.antt =====
-- Replies with a brace in a string and after an escape.
use polis_memory.Prelude.{ℕ, ◌+◌, ◌≡◌, refl, none, some, List, [], ◌∷◌, ◌++◌}
use polis_memory.Prelude.Text.{codes}
use polis_memory.Json.{close_brace, matching_brace, open_brace, quote, backslash, scan}
use polis_memory.Json.Objects.{
  Body, char, escape, last_quote, matching_brace_finds, nothing, object, string,
}
use polis_memory.Json.Sound.{Whole, matching_brace_sound}

-- "\"}" and then {}.
abbrev tricky : List ℕ
tricky = quote ∷ backslash ∷ quote ∷ close_brace ∷ quote ∷ open_brace ∷ close_brace ∷ []

tricky-Body : Body tricky
tricky-Body =
    string (backslash ∷ quote ∷ close_brace ∷ quote ∷ []) (open_brace ∷ close_brace ∷ [])
      (escape quote (close_brace ∷ quote ∷ []) (char close_brace (quote ∷ []) refl refl last_quote))
      (object [] [] nothing nothing)

unterminated : matching_brace (codes "{ unterminated") 0 ≡ none
unfolding matching_brace scan
unterminated = refl

matching_brace_finds_example :
    matching_brace (codes "Sure. " ++ (open_brace ∷ (tricky ++ (close_brace ∷ codes " done")))) 6
    ≡ some (6 + 1 + 7)
matching_brace_finds_example =
    matching_brace_finds (codes "Sure. ") tricky (codes " done") tricky-Body

abbrev reply : List ℕ
reply = open_brace ∷ (tricky ++ (close_brace ∷ []))

found : matching_brace reply 0 ≡ some 8
unfolding matching_brace scan
found = refl

matching_brace_sound_example : Whole 0 8 (tricky ++ (close_brace ∷ []))
matching_brace_sound_example =
    matching_brace_sound reply (tricky ++ (close_brace ∷ [])) 0 8 refl found
