-- ===== src/Compiler/Verify/Recursion/Rounds.antt =====
-- `reaches_itself` of compiler/src/verify.rs: its outer loop ends, with the right answer.
use llvm_metal.Base.{
  ℕ, zero, suc, ◌+◌, ◌≤◌, ◌≡◌, refl, ◌↔◌, ◌⊎◌, inl, inr, ⊎_elim, Bool, true, false, Option, some,
  List, [], ◌∷◌, Memᴰ, Distinct, length, arith, Bool-cases, Option-cases, length-le_of_Distinct, ap,
}
use mathlib.Core.List.Memᴰ
use llvm_metal.Compiler.Llvm.{Llvm}
use llvm_metal.Compiler.Ir.{functions, instructions, defined}
use llvm_metal.Compiler.Ir.Walks.{length-functions-le, instructions-empty}
use llvm_metal.Compiler.Verify.{Search, scan, search, start, reaches_itself}
use llvm_metal.Compiler.Verify.Laws.{IsModule}
use llvm_metal.Compiler.Verify.Recursion.{
  Names, CallPath, call, then_call, Scanned, scan-none, scan-some, call_target-is_function,
}

List-cases {ℓ} :
    {A : Type ℓ} (xs : List A) → (xs ≡ []) ⊎ ((x : A) × (rest : List A) × (xs ≡ x ∷ rest))
List-cases [] = inl refl
List-cases (x ∷ xs) = inr (x, xs, refl)

module _ (l : Llvm) (laws : IsModule l) where
  open l use {Value}

  Names-defined : (f g : Value) → Names l (instructions l f) g → defined l f ≡ true
  unfolding defined
  Names-defined f g (i, m, e) = elim (Bool-cases (l.is_declaration f)) [
    | inl d ↦
        let empty = instructions-empty l f (laws.declaration_empty f d) in
        absurd (Memᴰ.not-nil (rw empty at m))
    | inr d ↦ rw d
  ]

  Names-listed : (f g : Value) → Names l (instructions l f) g → Memᴰ g (functions l)
  Names-listed f g (i, m, e) = laws.function_listed g (call_target-is_function l i g e)

  record Inv (f : Value) (s : Search l) : Type 0 where
    distinct : Distinct s.seen
    listed : (v : Value) → Memᴰ v s.seen → Memᴰ v (functions l)
    reached : (v : Value) → Memᴰ v s.seen → CallPath l f v
    queued : (v : Value) → Memᴰ v s.pending → (v ≡ f) ⊎ CallPath l f v
    closed :
        (v : Value)
        → (v ≡ f) ⊎ Memᴰ v s.seen
        → Memᴰ v s.pending
          ⊎ ((¬ Names l (instructions l v) f)
              × ((t : Value) → Names l (instructions l v) t → defined l t ≡ true → Memᴰ t s.seen))

  Inv-start : (f : Value) → Inv f (start l f)
  Inv-start f = record {
    distinct = tt;
    listed = λ v m. absurd (Memᴰ.not-nil m);
    reached = λ v m. absurd (Memᴰ.not-nil m);
    queued = λ v m. inl (Memᴰ.eq_of_singleton m);
    closed = λ v. ⊎_elim (λ e. inl (Memᴰ.head e)) (λ m. absurd (Memᴰ.not-nil m));
  }

  extend :
      (f c t : Value) → (c ≡ f) ⊎ CallPath l f c → Names l (instructions l c) t → CallPath l f t
  extend f c t (inl e) n = call (rw e at n)
  extend f c t (inr p) n = then_call p n

  Inv-round :
      (f c : Value) (rest : List Value) (s s' : Search l)
      → s.pending ≡ c ∷ rest
      → Inv f s
      → Scanned l f (instructions l c) (record s { pending = rest }) s'
      → Inv f s'
  Inv-round f c rest s s' e h r =
      let to_c = h.queued c (rw e (Memᴰ.head refl)) in
      let old = λ (v : Value) (m : Memᴰ v rest). h.queued v (rw e (Memᴰ.tail m)) in
      record {
        distinct = r.distinct h.distinct;
        listed = λ v m. ⊎_elim (h.listed v) (Names-listed c v) (r.seen_from v m);
        reached = λ v m. ⊎_elim (h.reached v) (extend f c v to_c) (r.seen_from v m);
        queued = λ v m. ⊎_elim (old v) (λ n. inr (extend f c v to_c n)) (r.pending_from v m);
        closed = λ v.
            ⊎_elim (λ q. kept v (inl q))
              (λ m. ⊎_elim (λ q. kept v (inr q)) inl (r.fresh_pending v m));
      }
    where
      Closed : Search l → Value → Type 0
      Closed u v =
          (¬ Names l (instructions l v) f)
          × ((t : Value) → Names l (instructions l v) t → defined l t ≡ true → Memᴰ t u.seen)

      taken : (v : Value) → v ≡ c → Closed s' v
      taken v p = rw p (r.not_found, r.handled)

      kept : (v : Value) → (v ≡ f) ⊎ Memᴰ v s.seen → Memᴰ v s'.pending ⊎ Closed s' v
      kept v k =
          ⊎_elim
            (λ m.
              ⊎_elim (λ p. inr (taken v p)) (λ q. inl (r.pending_grows v q))
                (Memᴰ.cases_cons (rw e at m)))
            (λ (none_f, all_seen). inr (none_f, λ t n d. r.seen_grows t (all_seen t n d)))
            (h.closed v k)

  -- With nothing pending, what `f` reaches is seen, and no function that is seen calls `f`.
  path-seen :
      (f : Value) (s : Search l)
      → s.pending ≡ []
      → Inv f s
      → {g : Value} → CallPath l f g
      → defined l g ≡ true
      → Memᴰ g s.seen
  path-seen f s e h (call n) d = elim (h.closed f (inl refl)) [
    | inl m ↦ absurd (Memᴰ.not-nil (rw e at m))
    | inr (_, all_seen) ↦ all_seen _ n d
  ]
  path-seen f s e h (then_call {g} p n) d =
      elim (h.closed g (inr (path-seen f s e h p (Names-defined g _ n)))) [
        | inl m ↦ absurd (Memᴰ.not-nil (rw e at m))
        | inr (_, all_seen) ↦ all_seen _ n d
      ]

  no_path : (f : Value) (s : Search l) → s.pending ≡ [] → Inv f s → ¬ CallPath l f f
  no_path f s e h (call n) = elim (h.closed f (inl refl)) [
    | inl m ↦ Memᴰ.not-nil (rw e at m)
    | inr (none_f, _) ↦ none_f n
  ]
  no_path f s e h (then_call {g} p n) =
      elim (h.closed g (inr (path-seen f s e h p (Names-defined g _ n)))) [
        | inl m ↦ Memᴰ.not-nil (rw e at m)
        | inr (none_f, _) ↦ none_f n
      ]

  seen-le : (f : Value) (s : Search l) → Inv f s → length s.seen ≤ l.list_bound
  seen-le f s h =
      omega (
        arith,
        length-le_of_Distinct s.seen (functions l) h.distinct h.listed,
        length-functions-le l,
      )

  abbrev Answers : Value → Option Bool → Type 0
  Answers f r = ((r ≡ some true) × CallPath l f f) ⊎ ((r ≡ some false) × (¬ CallPath l f f))

  -- A round takes one function from `pending`, and what it adds is seen for the first time.
  search-Answers :
      (rounds : ℕ) (f : Value) (s : Search l)
      → Inv f s
      → length s.pending + l.list_bound ≤ rounds + length s.seen
      → Answers f (search l rounds f s)
  unfolding search
  search-Answers zero f s h n = elim (List-cases s.pending) [
    | inl e ↦ inr (rw (e, search), no_path f s e h)
    | inr (c, rest, e) ↦ absurd (omega (arith, seen-le f s h, ap length e))
  ]
  search-Answers (suc left) f s h n = elim (List-cases s.pending) [
    | inl e ↦ inr (rw (e, search), no_path f s e h)
    | inr (c, rest, e) ↦
        let round = scan l f (instructions l c) (record s { pending = rest }) in
        elim (Option-cases round) [
          | inl found ↦ inl (
            rw (e, search, found),
            ⊎_elim (λ p. call (rw p at (scan-none l f _ _ found)))
                (λ p. then_call p (scan-none l f _ _ found)) (h.queued c (rw e (Memᴰ.head refl))),
          )
          | inr (s', next) ↦
              let r = scan-some l f _ _ s' next in
              rw (e, search, next)
                (search-Answers left f s' (Inv-round f c rest s s' e h r)
                  (omega (arith, r.count, ap length e)))
        ]
  ]

  -- The search of `reaches_itself` comes to an answer: a round for each function of the module and
  -- one more are enough.
  pub search_terminates :
      (f : Value) → (b : Bool) × (search l (suc l.list_bound) f (start l f) ≡ some b)
  search_terminates f =
      elim (search-Answers (suc l.list_bound) f (start l f) (Inv-start f) (omega arith)) [
        | inl (e, _) ↦ (true, e)
        | inr (e, _) ↦ (false, e)
      ]

  -- `reaches_itself` holds exactly when calls that name their target lead from the function back to
  -- it, through any number of functions.
  pub reaches_itself_iff : (f : Value) → (reaches_itself l f ≡ true) ↔ CallPath l f f
  unfolding reaches_itself
  reaches_itself_iff f =
      elim (search-Answers (suc l.list_bound) f (start l f) (Inv-start f) (omega arith)) [
        | inl (e, p) ↦ (λ _. p, λ _. rw e)
        | inr (e, np) ↦ (λ t. absurd (cc), λ p. absurd (np p))
      ]
