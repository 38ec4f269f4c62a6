-- ===== src/Ledger/Guard.antt =====
-- `TtlGuard` and the agent-prompt guard of crates/polis-core/src/ledger.rs. The map under the lock
-- is an association list; each call reads the clock, so its readings are arguments.
pub mod Tests
use polis_memory.Prelude.{
  ℕ, ◌+◌, ◌-◌, ◌≡◌, refl, ◌≢◌, ◌≤◌, ◌<◌, inl, inr, Bool, true, false, not, Option, none, some, List,
  [], ◌∷◌, arith, ltb, keep, map_some, if◌then◌else◌, is_some, All, Bool-cases,
}
use polis_memory.Prelude.Text.{Text, text_eq, text_eq_iff, trim}
use polis_memory.Ledger.{Hasher}

pub record Entry {ℓ} (V : Type ℓ) : Type ℓ where
  pub key : Text
  pub value : V
  pub at : ℕ

-- GUARD_TTL, in milliseconds.
abbrev pub guard_ttl : ℕ
guard_ttl = 300000

pub data Call {ℓ} (V : Type ℓ) : Type ℓ where
  registers : ℕ → ℕ → Text → V → Call V
  claims : ℕ → Text → Call V

module _ {ℓ} {V : Type ℓ} where
  unfoldable pub lookup : Text → List (Entry V) → Option (Entry V)
  lookup k [] = none
  lookup k (e ∷ map) = let rest = lookup k map in if text_eq e.key k then some e else rest

  unfoldable pub remove : Text → List (Entry V) → List (Entry V)
  remove k map = keep (λ e. not (text_eq e.key k)) map

  -- `duration_since` saturates at zero.
  unfoldable pub is_live : ℕ → ℕ → Entry V → Bool
  is_live ttl now e = ltb (now - e.at) ttl

  unfoldable pub prune : ℕ → ℕ → List (Entry V) → List (Entry V)
  prune ttl now map = keep (is_live ttl now) map

  -- `now` is read by the prune, `at` by the insertion.
  unfoldable pub register : ℕ → ℕ → ℕ → Text → V → List (Entry V) → List (Entry V)
  register ttl now at key value map =
      record { key = key; value = value; at = at } ∷ remove key (prune ttl now map)

  unfoldable pub claim : ℕ → ℕ → Text → List (Entry V) → Option V × List (Entry V)
  claim ttl now key map =
      let pruned = prune ttl now map in
      (map_some (λ e. e.value) (lookup key pruned), remove key pruned)

  abbrev pub call : ℕ → Call V → List (Entry V) → List (Entry V)
  call ttl (registers now at key value) map = register ttl now at key value map
  call ttl (claims now key) map = (claim ttl now key map).1

  abbrev pub calls : ℕ → List (Call V) → List (Entry V) → List (Entry V)
  calls ttl [] map = map
  calls ttl (c ∷ cs) map = calls ttl cs (call ttl c map)

  -- The call is about another key, before the deadline.
  abbrev pub Spares : Text → ℕ → Call V → Type 0
  Spares k deadline (registers now at key value) = (key ≢ k) × (now < deadline)
  Spares k deadline (claims now key) = (key ≢ k) × (now < deadline)

  abbrev pub NeverRegisters : Text → Call V → Type 0
  NeverRegisters k (registers now at key value) = key ≢ k
  NeverRegisters k (claims now key) = Unit

  lookup-keep :
      (k : Text) (p : Entry V → Bool) (map : List (Entry V)) (e : Entry V)
      → lookup k map ≡ some e
      → p e ≡ true
      → lookup k (keep p map) ≡ some e
  unfolding lookup keep
  lookup-keep k p [] e q live = cc
  lookup-keep k p (x ∷ map) e q live = ground (arith, lookup-keep k p map e)

  lookup-keep-none :
      (k : Text) (p : Entry V → Bool) (map : List (Entry V))
      → lookup k map ≡ none
      → lookup k (keep p map) ≡ none
  unfolding lookup keep
  lookup-keep-none k p [] q = refl
  lookup-keep-none k p (x ∷ map) q = ground (arith, lookup-keep-none k p map)

  lookup-remove : (k : Text) (map : List (Entry V)) → lookup k (remove k map) ≡ none
  unfolding lookup remove keep
  lookup-remove k [] = refl
  lookup-remove k (x ∷ map) = ground (arith, lookup-remove k map)

  kept_other : (k j : Text) (e : Entry V) → j ≢ k → e.key ≡ k → not (text_eq e.key j) ≡ true
  kept_other k j e differ q = ground (arith, text_eq_iff e.key j)

  lookup_key : (k : Text) (map : List (Entry V)) (e : Entry V) → lookup k map ≡ some e → e.key ≡ k
  unfolding lookup
  lookup_key k [] e q = cc
  lookup_key k (x ∷ map) e q = ground (arith, lookup_key k map e, text_eq_iff x.key k)

  -- What another key's call leaves of an entry.
  call-Spares :
      (ttl : ℕ) (k : Text) (c : Call V) (map : List (Entry V)) (e : Entry V)
      → 0 < ttl
      → lookup k map ≡ some e
      → Spares k (e.at + ttl) c
      → lookup k (call ttl c map) ≡ some e
  unfolding register claim remove prune is_live lookup
  call-Spares ttl k (registers now at key value) map e pos q s =
      let pruned = lookup-keep k (is_live ttl now) map e q (ground (arith, s.1, pos)) in
      let kept =
        lookup-keep k (λ x. not (text_eq x.key key)) (prune ttl now map) e pruned
          (kept_other k key e s.0 (lookup_key k map e q)) in
      ground (arith, kept, s.0, text_eq_iff key k)
  call-Spares ttl k (claims now key) map e pos q s =
      lookup-keep k (λ x. not (text_eq x.key key)) (prune ttl now map) e
        (lookup-keep k (is_live ttl now) map e q (ground (arith, s.1, pos)))
        (kept_other k key e s.0 (lookup_key k map e q))

  calls-Spares :
      (ttl : ℕ) (k : Text) (cs : List (Call V)) (map : List (Entry V)) (e : Entry V)
      → 0 < ttl
      → lookup k map ≡ some e
      → All (Spares k (e.at + ttl)) cs
      → lookup k (calls ttl cs map) ≡ some e
  calls-Spares ttl k [] map e pos q s = q
  calls-Spares ttl k (c ∷ cs) map e pos q s =
      calls-Spares ttl k cs (call ttl c map) e pos (call-Spares ttl k c map e pos q s.0) s.1

  call-none :
      (ttl : ℕ) (k : Text) (c : Call V) (map : List (Entry V))
      → lookup k map ≡ none
      → NeverRegisters k c
      → lookup k (call ttl c map) ≡ none
  unfolding register claim remove prune lookup
  call-none ttl k (registers now at key value) map q s =
      let kept =
        lookup-keep-none k (λ x. not (text_eq x.key key)) (prune ttl now map)
          (lookup-keep-none k (is_live ttl now) map q) in
      ground (arith, kept, s, text_eq_iff key k)
  call-none ttl k (claims now key) map q s =
      lookup-keep-none k (λ x. not (text_eq x.key key)) (prune ttl now map)
        (lookup-keep-none k (is_live ttl now) map q)

  calls-none :
      (ttl : ℕ) (k : Text) (cs : List (Call V)) (map : List (Entry V))
      → lookup k map ≡ none
      → All (NeverRegisters k) cs
      → lookup k (calls ttl cs map) ≡ none
  calls-none ttl k [] map q s = q
  calls-none ttl k (c ∷ cs) map q s =
      calls-none ttl k cs (call ttl c map) (call-none ttl k c map q s.0) s.1

  lookup-register :
      (ttl now at : ℕ) (k : Text) (v : V) (map : List (Entry V))
      → lookup k (register ttl now at k v map) ≡ some (record { key = k; value = v; at = at })
  unfolding register lookup
  lookup-register ttl now at k v map = ground (arith, text_eq_iff k k)

  -- A registration is found by a claim of its key that comes before its time to live is over,
  -- whatever calls for other keys came between, if they too came in time; the claim gives its value.
  -- The time to live is not zero.
  pub claim-register :
      (ttl now at moment : ℕ) (k : Text) (v : V) (cs : List (Call V)) (map : List (Entry V))
      → 0 < ttl
      → All (Spares k (at + ttl)) cs
      → moment < at + ttl
      → (claim ttl moment k (calls ttl cs (register ttl now at k v map))).0 ≡ some v
  unfolding claim prune is_live
  claim-register ttl now at moment k v cs map pos s lt =
      let found = calls-Spares ttl k cs _ _ pos (lookup-register ttl now at k v map) s in
      rw (lookup-keep k (is_live ttl moment) _ _ found (ground (arith, lt, pos))) refl

  -- A key that was claimed, found or not, is not found by a later claim, unless it is registered in
  -- between.
  pub claim_once :
      (ttl now moment : ℕ) (k : Text) (cs : List (Call V)) (map : List (Entry V))
      → All (NeverRegisters k) cs
      → (claim ttl moment k (calls ttl cs (claim ttl now k map).1)).0 ≡ none
  unfolding claim prune
  claim_once ttl now moment k cs map s =
      let gone = calls-none ttl k cs _ (lookup-remove k (prune ttl now map)) s in
      rw (lookup-keep-none k (is_live ttl moment) _ gone) refl

module _ (h : Hasher) where
  abbrev pub body_hash : Text → Text
  body_hash body = h.sha256_hex body

  unfoldable pub register_agent_prompt :
      ℕ → ℕ → Text → List (Entry (Unit {0})) → List (Entry (Unit {0}))
  register_agent_prompt now at body guard =
      register guard_ttl now at (body_hash (trim body)) tt guard

  unfoldable pub claim_agent_prompt :
      ℕ → Text → List (Entry (Unit {0})) → Bool × List (Entry (Unit {0}))
  claim_agent_prompt now hash guard = let r = claim guard_ttl now hash guard in (is_some r.0, r.1)

  -- The hook's hash of a payload claims the registration of a body that differs from the payload in
  -- surrounding white space only, within the time to live; a second claim of that hash fails.
  pub claim_agent_prompt_lem :
      (now at moment later : ℕ) (body payload : Text) (guard : List (Entry (Unit {0})))
      → trim payload ≡ trim body
      → moment < at + guard_ttl
      → let first =
          claim_agent_prompt moment
            (body_hash (trim payload))
            (register_agent_prompt now at body guard) in
        (first.0 ≡ true) × ((claim_agent_prompt later (body_hash (trim payload)) first.1).0 ≡ false)
  unfolding claim_agent_prompt register_agent_prompt
  claim_agent_prompt_lem now at moment later body payload guard same lt = (
    rw
        (
          same,
          claim-register guard_ttl now at moment (body_hash (trim body)) tt [] guard (omega arith)
              tt lt,
        )
        refl,
    rw
        (claim_once guard_ttl moment later (body_hash (trim payload)) []
          (register guard_ttl now at (body_hash (trim body)) tt guard) tt)
        refl,
  )
