-- ===== src/Ledger/Roles.antt =====
-- `PromptSource`, `CorpusRole` and `Origin` of crates/polis-core/src/ledger.rs: what a captured text
-- is and where it came from.
use polis_memory.Prelude.{
  ℕ, ◌+◌, ◌≡◌, refl, Bool, true, false, ◌&&◌, ◌||◌, Option, none, some, List, [], ◌∷◌, map, any,
  leb, if◌then◌else◌,
}
use polis_memory.Prelude.Text.{Text, codes, text_eq, trim, trim_start, is_whitespace}

pub data PromptSource : Type 0 where
  hook : PromptSource
  drafter_launch : PromptSource
  rust_first_turn : PromptSource
  voice_stream : PromptSource
  api : PromptSource

abbrev pub source_str : PromptSource → Text
source_str hook = codes "hook"
source_str drafter_launch = codes "drafter_launch"
source_str rust_first_turn = codes "rust_firstturn"
source_str voice_stream = codes "voice_stream"
source_str api = codes "api"

pub data CorpusRole : Type 0 where
  user : CorpusRole
  assistant : CorpusRole
  agent : CorpusRole
  system : CorpusRole

abbrev pub role_str : CorpusRole → Text
role_str user = codes "user"
role_str assistant = codes "assistant"
role_str agent = codes "agent"
role_str system = codes "system"

abbrev pub ascii_lowercase : ℕ → ℕ
ascii_lowercase c = if leb 65 c && leb c 90 then c + 32 else c

abbrev pub parse_lower : Text → Option CorpusRole
parse_lower t =
    if text_eq t (codes "user") || text_eq t (codes "human")
    then some user
    else if text_eq t (codes "assistant") || text_eq t (codes "ai")
    then some assistant
    else if text_eq t (codes "agent")
    then some agent
    else if text_eq t (codes "system")
    then some system
    else none

unfoldable pub parse : Text → Option CorpusRole
parse value = parse_lower (map ascii_lowercase (trim value))

abbrev pub system_prefixes : List Text
system_prefixes = codes "<task-notification>" ∷ codes "<system-reminder>" ∷ []

unfoldable pub is_prefix : Text → Text → Bool
is_prefix [] s = true
is_prefix (c ∷ p) [] = false
is_prefix (c ∷ p) (d ∷ s) = text_eq (c ∷ []) (d ∷ []) && is_prefix p s

unfoldable pub classify_captured : Text → CorpusRole
classify_captured body =
    let head = trim_start body in
    if any (λ p. is_prefix p head) system_prefixes then system else user

pub data Origin : Type 0 where
  redline : Origin
  external : Origin

abbrev pub origin_str : Origin → Text
origin_str redline = codes "redline"
origin_str external = codes "external"

-- A stored role is parsed back as itself.
parse-role_str : (r : CorpusRole) → parse (role_str r) ≡ some r
unfolding parse trim trim_start is_whitespace text_eq
parse-role_str user = refl
parse-role_str assistant = refl
parse-role_str agent = refl
parse-role_str system = refl

abbrev injected : Text
injected = 10 ∷ 32 ∷ codes "<system-reminder>x"

injected_role : classify_captured injected ≡ system
unfolding classify_captured is_prefix trim_start is_whitespace text_eq any
injected_role = refl
