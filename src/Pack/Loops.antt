-- ===== src/Pack/Loops.antt =====
-- What the inner loops of the byte budget (crates/polis-core/src/pack.rs) do to a pack.
use polis_memory.Prelude.{
  ℕ, zero, suc, ◌-◌, ◌/◌, ◌≤◌, ◌<◌, min, max, ◌≡◌, refl, ap, sym, ◌∙◌, subst, ◌⊎◌, inl, inr, Bool,
  true, false, ◌&&◌, List, [], ◌∷◌, ◌++◌, any, arith, Bool-cases, ltb,
}
use polis_memory.Prelude.Text.{text_eq, text_eq_refl}
use polis_memory.Pack.{
  AnswerPack, Step, name, len, drop, report, report_if, trim_loop, trim_step, empty_loop,
  empty_step,
}
use polis_memory.Pack.Arms.{len-drop, len-drop_other, drop-truncated, len-counts}

pub any-append :
    {A : Type 0} (p : A → Bool) (xs ys : List A) → any p xs ≡ true → any p (xs ++ ys) ≡ true
unfolding any
any-append p [] ys q = cc
any-append p (x ∷ xs) ys q = ground (arith, any-append p xs ys)

any-last :
    {A : Type 0} (p : A → Bool) (xs : List A) (x : A) → p x ≡ true → any p (xs ++ x ∷ []) ≡ true
unfolding any
any-last p [] x q = rw q refl
any-last p (y ∷ xs) x q = ground (arith, any-last p xs x q)

module _ {Item : Type 0} where
  -- The step's name stands in the report.
  abbrev pub IsReported : Step → AnswerPack Item → Type 0
  IsReported t p = any (λ x. text_eq x (name t)) p.truncated ≡ true

  -- No list grows, a list that shrank is reported, and the report only grows.
  pub record Follows (p q : AnswerPack Item) : Type 0 where
    pub shrinks : (t : Step) → len t q ≤ len t p
    pub reports : (t : Step) → (len t q ≡ len t p) ⊎ IsReported t q
    pub remembers : (t : Step) → IsReported t p → IsReported t q

  pub Follows-refl : (p : AnswerPack Item) → Follows p p
  Follows-refl p = record {
    shrinks = λ t. omega arith;
    reports = λ t. inl refl;
    remembers = λ t r. r;
  }

  pub Follows-trans : (p q r : AnswerPack Item) → Follows p q → Follows q r → Follows p r
  Follows-trans p q r f g = record {
    shrinks = λ t. omega (arith, f.shrinks t, g.shrinks t);
    reports = λ t. elim (g.reports t) [
      | inr named ↦ inr named
      | inl same ↦ elim (f.reports t) [
        | inr named ↦ inr (g.remembers t named)
        | inl before ↦ inl (same ∙ before)
      ]
    ];
    remembers = λ t named. g.remembers t (f.remembers t named);
  }

  -- Every list that has an entry keeps one.
  abbrev pub Floors : AnswerPack Item → AnswerPack Item → Type 0
  Floors p q = (t : Step) → min 1 (len t p) ≤ len t q

  report-cases :
      (s : Step) (p : AnswerPack Item)
      → (IsReported s p × (report s p ≡ p))
        ⊎ (report s p ≡ record p { truncated = p.truncated ++ name s ∷ [] })
  report-cases s p = elim (Bool-cases (any (λ x. text_eq x (name s)) p.truncated)) [
    | inl there ↦ inl (there, rw there refl)
    | inr new ↦ inr (rw new refl)
  ]

  pub len-report : (t s : Step) (p : AnswerPack Item) → len t (report s p) ≡ len t p
  len-report t s p = elim (report-cases s p) [
    | inl there ↦ ap (len t) there.1
    | inr new ↦ ap (len t) new ∙ len-counts t _ p refl
  ]

  report-IsReported : (s : Step) (p : AnswerPack Item) → IsReported s (report s p)
  report-IsReported s p = elim (report-cases s p) [
    | inl there ↦ subst (IsReported s) (sym there.1) there.0
    | inr new ↦
        subst (IsReported s) (sym new)
          (any-last (λ x. text_eq x (name s)) p.truncated (name s) (text_eq_refl (name s)))
  ]

  report-remembers : (s t : Step) (p : AnswerPack Item) → IsReported t p → IsReported t (report s p)
  report-remembers s t p named = elim (report-cases s p) [
    | inl there ↦ subst (IsReported t) (sym there.1) named
    | inr new ↦
        subst (IsReported t) (sym new)
          (any-append (λ x. text_eq x (name t)) p.truncated (name s ∷ []) named)
  ]

  -- Dropping and reporting.
  pub report-drop-Follows :
      (s : Step) (n : ℕ) (p : AnswerPack Item) → Follows p (report s (drop s n p))
  report-drop-Follows s n p = record {
    shrinks = λ t. elim (len-drop_other s t n p) [
      | inl own ↦ omega (arith, len-report t s (drop s n p), own.2)
      | inr other ↦ omega (arith, len-report t s (drop s n p), other)
    ];
    reports = λ t. elim (len-drop_other s t n p) [
      | inl own ↦ inr (
          subst (λ x. any (λ y. text_eq y x) (report s (drop s n p)).truncated ≡ true) (sym own.0)
            (report-IsReported s (drop s n p)))
      | inr other ↦ inl (len-report t s (drop s n p) ∙ other)
    ];
    remembers = λ t named.
        report-remembers s t (drop s n p) (
          subst (λ xs. any (λ x. text_eq x (name t)) xs ≡ true) (sym (drop-truncated s n p)) named);
  }

  module _ (size : AnswerPack Item → ℕ) (max_bytes : ℕ) where
    -- What the inner loop of pass one has done so far.
    record Trimmed (s : Step) (cut : Bool) (p : AnswerPack Item) (r : Bool × AnswerPack Item)
        : Type 0 where
      floors : Floors p r.1
      shrinks : (t : Step) → len t r.1 ≤ len t p
      names : (t : Step) → (len t r.1 ≡ len t p) ⊎ ((r.0 ≡ true) × (name t ≡ name s))
      same_report : r.1.truncated ≡ p.truncated
      still_cut : cut ≡ true → r.0 ≡ true

    trim_loop-Trimmed :
        (s : Step) (fuel : ℕ) (cut : Bool) (p : AnswerPack Item)
        → Trimmed s cut p (trim_loop size max_bytes s fuel cut p)
    unfolding trim_loop
    trim_loop-Trimmed s zero cut p = record {
      floors = λ t. omega arith;
      shrinks = λ t. omega arith;
      names = λ t. inl refl;
      same_report = refl;
      still_cut = λ c. c;
    }
    trim_loop-Trimmed s (suc fuel) cut p =
        elim (Bool-cases (ltb max_bytes (size p) && ltb 1 (len s p))) [
          | inr stop ↦
              rw (stop, trim_loop)
                (record {
                  floors = λ t. omega arith;
                  shrinks = λ t. omega arith;
                  names = λ t. inl refl;
                  same_report = refl;
                  still_cut = λ c. c;
                })
          | inl go ↦
              let more : 1 < len s p = ground (arith, go) in
              let n = min (max ((len s p - 1) / 4) 1) (len s p - 1) in
              let rest = trim_loop-Trimmed s fuel true (drop s n p) in
              rw (go, trim_loop)
                (record {
                  floors = λ t. elim (len-drop_other s t n p) [
                    | inl own ↦ omega (arith, rest.floors t, own.2, own.1, more)
                    | inr other ↦ omega (arith, rest.floors t, other)
                  ];
                  shrinks = λ t. elim (len-drop_other s t n p) [
                    | inl own ↦ omega (arith, rest.shrinks t, own.2)
                    | inr other ↦ omega (arith, rest.shrinks t, other)
                  ];
                  names = λ t. elim (rest.names t) [
                    | inr named ↦ inr named
                    | inl same ↦ elim (len-drop_other s t n p) [
                      | inl own ↦ inr (rest.still_cut refl, own.0)
                      | inr other ↦ inl (same ∙ other)
                    ]
                  ];
                  same_report = rest.same_report ∙ drop-truncated s n p;
                  still_cut = λ c. rest.still_cut refl;
                })
        ]

    report_if-Follows :
        (s : Step) (p : AnswerPack Item) (r : Bool × AnswerPack Item)
        → Trimmed s false p r
        → Follows p (report_if s r)
    report_if-Follows s p (true, q) t = record {
      shrinks = λ u. omega (arith, len-report u s q, t.shrinks u);
      reports = λ u. elim (t.names u) [
        | inl same ↦ inl (len-report u s q ∙ same)
        | inr named ↦ inr (
            subst (λ x. any (λ y. text_eq y x) (report s q).truncated ≡ true) (sym named.1)
              (report-IsReported s q))
      ];
      remembers = λ u named.
          report-remembers s u q
            (subst (λ xs. any (λ x. text_eq x (name u)) xs ≡ true) (sym t.same_report) named);
    }
    report_if-Follows s p (false, q) t = record {
      shrinks = λ u. t.shrinks u;
      reports = λ u. elim (t.names u) [ inl same ↦ inl same | inr named ↦ cc ];
      remembers = λ u named.
          subst (λ xs. any (λ x. text_eq x (name u)) xs ≡ true) (sym t.same_report) named;
    }

    len-report_if : (u s : Step) (r : Bool × AnswerPack Item) → len u (report_if s r) ≡ len u r.1
    len-report_if u s (true, q) = len-report u s q
    len-report_if u s (false, q) = refl

    pub trim_step-Follows :
        (s : Step) (p : AnswerPack Item) → Follows p (trim_step size max_bytes s p)
    unfolding trim_step
    trim_step-Follows s p = report_if-Follows s p _ (trim_loop-Trimmed s (len s p) false p)

    pub trim_step-Floors :
        (s : Step) (p : AnswerPack Item) → Floors p (trim_step size max_bytes s p)
    unfolding trim_step
    trim_step-Floors s p t =
        let r = trim_loop size max_bytes s (len s p) false p in
        let done = trim_loop-Trimmed s (len s p) false p in
        omega (arith, len-report_if t s r, done.floors t)

    empty_loop-Follows :
        (s : Step) (fuel : ℕ) (p : AnswerPack Item) → Follows p (empty_loop size max_bytes s fuel p)
    unfolding empty_loop
    empty_loop-Follows s zero p = Follows-refl p
    empty_loop-Follows s (suc fuel) p =
        elim (Bool-cases (ltb max_bytes (size p) && ltb 0 (len s p))) [
          | inr stop ↦ rw (stop, empty_loop) (Follows-refl p)
          | inl go ↦
              rw (go, empty_loop)
                (Follows-trans p (report s (drop s 1 p)) _ (report-drop-Follows s 1 p)
                  (empty_loop-Follows s fuel (report s (drop s 1 p))))
        ]

    pub empty_step-Follows :
        (s : Step) (p : AnswerPack Item) → Follows p (empty_step size max_bytes s p)
    unfolding empty_step
    empty_step-Follows s p = empty_loop-Follows s (len s p) p

    -- With as much fuel as the list is long the loop stops by its own test.
    empty_loop_stops :
        (s : Step) (fuel : ℕ) (p : AnswerPack Item)
        → len s p ≤ fuel
        → max_bytes < size (empty_loop size max_bytes s fuel p)
        → len s (empty_loop size max_bytes s fuel p) ≡ 0
    unfolding empty_loop
    empty_loop_stops s zero p le over = omega (arith, le)
    empty_loop_stops s (suc fuel) p le over =
        elim (Bool-cases (ltb max_bytes (size p) && ltb 0 (len s p))) [
          | inr stop ↦ rw (stop, empty_loop) (stopped (rw (stop, empty_loop) at over) stop)
          | inl go ↦
              let more : 0 < len s p = ground (arith, go) in
              rw (go, empty_loop)
                (empty_loop_stops s fuel (report s (drop s 1 p))
                  (omega (arith, len-report s s (drop s 1 p), len-drop s 1 p, more, le))
                  (rw (go, empty_loop) at over))
        ]
      where
        stopped :
            max_bytes < size p → (ltb max_bytes (size p) && ltb 0 (len s p)) ≡ false → len s p ≡ 0
        stopped big stop = ground (arith, big, stop)

    pub empty_step_stops :
        (s : Step) (p : AnswerPack Item)
        → max_bytes < size (empty_step size max_bytes s p)
        → len s (empty_step size max_bytes s p) ≡ 0
    unfolding empty_step
    empty_step_stops s p over = empty_loop_stops s (len s p) p (omega arith) over
