-- ===== src/Ledger/Guard/Tests.antt =====
-- The guard and the event kinds on concrete calls.
use polis_memory.Prelude.{ℕ, ◌≡◌, none, some, List, [], ◌∷◌, arith}
use polis_memory.Prelude.Text.{codes}
use polis_memory.Ledger.{Hasher}
use polis_memory.Ledger.Guard.{
  Call, registers, claims, calls, register, claim, claim-register, claim_once,
}

abbrev toy : Hasher
toy = record { sha256_hex = λ t. t; to_json = λ e. e.payload_hash }

abbrev others : List (Call ℕ)
others = registers 12 12 (codes "b") 5 ∷ claims 20 (codes "c") ∷ []

claim-register_example :
    (claim 40 30 (codes "a") (calls 40 others (register 40 10 10 (codes "a") 7 []))).0 ≡ some 7
claim-register_example =
    claim-register 40 10 10 30 (codes "a") 7 others [] (omega arith)
      ((λ q. ground (arith, q), omega arith), ((λ q. ground (arith, q), omega arith), tt))
      (omega arith)

claim_once_example :
    (claim 40 30
      (codes "a")
      (calls 40 others (claim 40 11 (codes "a") (register 40 10 10 (codes "a") 7 [])).1)).0
    ≡ none
claim_once_example =
    claim_once 40 11 30 (codes "a") others (register 40 10 10 (codes "a") 7 [])
      ((λ q. ground (arith, q)), (tt, tt))
