-- ===== src/Json/Objects.antt =====
-- The grammar of balanced objects, and what the scan finds.
use polis_memory.Prelude.{
  append_assoc, ℕ, suc, ◌+◌, ◌≡◌, refl, ap, ◌∙◌, false, some, List, [], ◌∷◌, ◌++◌, ◌==◌, arith,
  length, drop, pos, ℤ, length-append,
}
use polis_memory.Json.{
  Mode, backslash, close_brace, inside, matching_brace, open_brace, outside, quote, scan,
}

-- The rest of a string after its opening quote, with its closing quote.
pub data Quoted : List ℕ → Type 0 where
  last_quote : Quoted (quote ∷ [])
  escape : (c : ℕ) (s : List ℕ) → Quoted s → Quoted (backslash ∷ (c ∷ s))
  char :
      (c : ℕ) (s : List ℕ)
      → (c == backslash) ≡ false
      → (c == quote) ≡ false
      → Quoted s
      → Quoted (c ∷ s)

-- What stands between two matching braces: strings, objects, and other bytes.
pub data Body : List ℕ → Type 0 where
  nothing : Body []
  byte :
      (c : ℕ) (bs : List ℕ)
      → (c == quote) ≡ false
      → (c == open_brace) ≡ false
      → (c == close_brace) ≡ false
      → Body bs
      → Body (c ∷ bs)
  string : (s bs : List ℕ) → Quoted s → Body bs → Body (quote ∷ (s ++ bs))
  object :
      (inner bs : List ℕ) → Body inner → Body bs → Body (open_brace ∷ (inner ++ (close_brace ∷ bs)))

shift : (m : Mode) (d : ℤ) (i j : ℕ) (bs : List ℕ) → i ≡ j → scan m d i bs ≡ scan m d j bs
shift m d i j bs e = ap (λ (n : ℕ). scan m d n bs) e

scan-Quoted :
    (d : ℤ) (i : ℕ) (s rest : List ℕ)
    → Quoted s
    → scan inside d i (s ++ rest) ≡ scan outside d (i + length s) rest
unfolding scan
scan-Quoted d i s rest last_quote = shift outside d (suc i) (i + 1) rest (omega arith)
scan-Quoted d i s rest (escape c t q) =
    scan-Quoted d (suc (suc i)) t rest q
    ∙ shift outside d (suc (suc i) + length t) (i + suc (suc (length t))) rest (omega arith)
scan-Quoted d i s rest (char c t nb nq q) =
    rw (nb, nq)
      (scan-Quoted d (suc i) t rest q
        ∙ shift outside d (suc i + length t) (i + suc (length t)) rest (omega arith))

scan-Body :
    (d i : ℕ) (body rest : List ℕ)
    → Body body
    → scan outside (pos (suc d)) i (body ++ rest)
      ≡ scan outside (pos (suc d)) (i + length body) rest
unfolding scan
scan-Body d i body rest nothing = shift outside (pos (suc d)) i (i + 0) rest (omega arith)
scan-Body d i body rest (byte c bs nq nopen nc b) =
    rw (nq, nopen, nc)
      (scan-Body d (suc i) bs rest b
        ∙ shift outside (pos (suc d)) (suc i + length bs) (i + suc (length bs)) rest (omega arith))
scan-Body d i body rest (string s bs q b) =
    ap (scan inside (pos (suc d)) (suc i)) (append_assoc s bs rest)
    ∙ scan-Quoted (pos (suc d)) (suc i) s (bs ++ rest) q
    ∙ scan-Body d (suc i + length s) bs rest b
    ∙ shift outside (pos (suc d)) (suc i + length s + length bs) (i + suc (length (s ++ bs))) rest
        (omega (arith, length-append s bs))
scan-Body d i body rest (object inner bs o b) =
    ap (scan outside (pos (suc (suc d))) (suc i)) (append_assoc inner (close_brace ∷ bs) rest)
    ∙ scan-Body (suc d) (suc i) inner (close_brace ∷ (bs ++ rest)) o
    ∙ scan-Body d (suc (suc i + length inner)) bs rest b
    ∙ shift outside (pos (suc d)) (suc (suc i + length inner) + length bs)
        (i + suc (length (inner ++ (close_brace ∷ bs)))) rest
        (omega (arith, length-append inner (close_brace ∷ bs)))

drop-append : (before after : List ℕ) → drop (length before) (before ++ after) ≡ after
drop-append [] after = refl
drop-append (b ∷ before) after = drop-append before after

-- A balanced object anywhere in a reply is found whole: from its opening brace the scan ends at its
-- own closing brace, whatever strings, escapes and objects stand in it, and whatever follows.
pub matching_brace_finds :
    (before body after : List ℕ)
    → Body body
    → matching_brace (before ++ (open_brace ∷ (body ++ (close_brace ∷ after)))) (length before)
      ≡ some (length before + 1 + length body)
unfolding matching_brace
matching_brace_finds before body after b =
    ap (scan outside (pos 0) (length before))
      (drop-append before (open_brace ∷ (body ++ (close_brace ∷ after))))
    ∙ opened (length before) body after b
  where
    opened :
        (i : ℕ) (body after : List ℕ)
        → Body body
        → scan outside (pos 0) i (open_brace ∷ (body ++ (close_brace ∷ after)))
          ≡ some (i + 1 + length body)
    opened i body after b =
        unfold scan in (scan-Body 0 (suc i) body (close_brace ∷ after) b ∙ ap some (omega arith))
