-- ===== src/Compiler/Verify/Recursion.antt =====
-- `reaches_itself` of compiler/src/verify.rs: the call paths it looks for, and its inner loop.
pub mod Rounds
use llvm_metal.Base.{
  ℕ, zero, suc, ◌+◌, ◌<◌, ◌≤◌, ◌≡◌, ◌≢◌, refl, sym, ◌∙◌, ◌↔◌, ◌⊎◌, inl, inr, ⊎_elim, Bool, true,
  false, not, ◌&&◌, Option, none, some, List, [], ◌∷◌, Memᴰ, Memᴰ-cons, Distinct, length, arith,
  contains_iff, contains, Bool-cases, Option-cases,
}
use mathlib.Core.List.Memᴰ
use llvm_metal.Compiler.Llvm.{Llvm}
use llvm_metal.Compiler.Ir.{instructions, callee, defined}
use llvm_metal.Compiler.Verify.{Search, visit, scan, call_target}

module _ (l : Llvm) where
  open l use {Value}

  -- One of the instructions is a call that names `v`.
  abbrev pub Names : List Value → Value → Type 0
  Names is v = (i : Value) × Memᴰ i is × (call_target l i ≡ some v)

  -- The calls of functions, one after another, that lead from `f`.
  pub data CallPath (f : Value) : Value → Type 0 where
    call : {g : Value} → Names (instructions l f) g → CallPath f g
    then_call : {g h : Value} → CallPath f g → Names (instructions l g) h → CallPath f h

  pub call_target-is_function : (i t : Value) → call_target l i ≡ some t → l.is_a_function t ≡ true
  unfolding call_target callee
  call_target-is_function i t h = ground arith

  pub record Visited (t : Value) (s s' : Search l) : Type 0 where
    pub seen_grows : (v : Value) → Memᴰ v s.seen → Memᴰ v s'.seen
    pub seen_from : (v : Value) → Memᴰ v s'.seen → Memᴰ v s.seen ⊎ (v ≡ t)
    pub pending_grows : (v : Value) → Memᴰ v s.pending → Memᴰ v s'.pending
    pub pending_from : (v : Value) → Memᴰ v s'.pending → Memᴰ v s.pending ⊎ (v ≡ t)
    pub fresh_pending : (v : Value) → Memᴰ v s'.seen → Memᴰ v s.seen ⊎ Memᴰ v s'.pending
    pub handled : defined l t ≡ true → Memᴰ t s'.seen
    pub distinct : Distinct s.seen → Distinct s'.seen
    pub count : length s'.pending + length s.seen ≡ length s.pending + length s'.seen

  visit-Visited-new :
      (t : Value) (s : Search l)
      → ¬ Memᴰ t s.seen
      → Visited t s (record { seen = t ∷ s.seen; pending = t ∷ s.pending })
  visit-Visited-new t s fresh = record {
    seen_grows = λ v m. Memᴰ.tail m;
    seen_from = λ v m. ⊎_elim inr inl (Memᴰ.cases_cons m);
    pending_grows = λ v m. Memᴰ.tail m;
    pending_from = λ v m. ⊎_elim inr inl (Memᴰ.cases_cons m);
    fresh_pending = λ v m. ⊎_elim (λ e. inr (Memᴰ.head e)) inl (Memᴰ.cases_cons m);
    handled = λ _. Memᴰ.head refl;
    distinct = λ d. (fresh, d);
    count = omega arith;
  }

  visit-Visited-same :
      (t : Value) (s : Search l) → (defined l t ≡ true → Memᴰ t s.seen) → Visited t s s
  visit-Visited-same t s old = record {
    seen_grows = λ v m. m;
    seen_from = λ v m. inl m;
    pending_grows = λ v m. m;
    pending_from = λ v m. inl m;
    fresh_pending = λ v m. inl m;
    handled = old;
    distinct = λ d. d;
    count = omega arith;
  }

  pub visit-Visited : (t : Value) (s : Search l) → Visited t s (visit l t s)
  unfolding visit
  visit-Visited t s = elim (Bool-cases (contains l.value_eq t s.seen)) [
    | inl old ↦ elim (Bool-cases (defined l t)) [
      | inl d ↦ rw (d, old) (visit-Visited-same t s (λ _. (contains_iff _ t s.seen).0 old))
      | inr d ↦ rw d (visit-Visited-same t s (λ p. absurd (cc)))
    ]
    | inr new ↦ elim (Bool-cases (defined l t)) [
      | inl d ↦
          rw (d, new) (visit-Visited-new t s (λ m. cc ((contains_iff l.value_eq t s.seen).1 m)))
      | inr d ↦ rw d (visit-Visited-same t s (λ p. absurd (cc)))
    ]
  ]

  -- What the inner loop does to the search when it finds no call of `f`.
  pub record Scanned (f : Value) (is : List Value) (s s' : Search l) : Type 0 where
    pub seen_grows : (v : Value) → Memᴰ v s.seen → Memᴰ v s'.seen
    pub seen_from : (v : Value) → Memᴰ v s'.seen → Memᴰ v s.seen ⊎ Names is v
    pub pending_grows : (v : Value) → Memᴰ v s.pending → Memᴰ v s'.pending
    pub pending_from : (v : Value) → Memᴰ v s'.pending → Memᴰ v s.pending ⊎ Names is v
    pub fresh_pending : (v : Value) → Memᴰ v s'.seen → Memᴰ v s.seen ⊎ Memᴰ v s'.pending
    pub not_found : ¬ Names is f
    pub handled : (v : Value) → Names is v → defined l v ≡ true → Memᴰ v s'.seen
    pub distinct : Distinct s.seen → Distinct s'.seen
    pub count : length s'.pending + length s.seen ≡ length s.pending + length s'.seen

  Names-tail : {i : Value} {is : List Value} {v : Value} → Names is v → Names (i ∷ is) v
  Names-tail (j, m, e) = (j, Memᴰ.tail m, e)

  Names-cons :
      (i : Value) (is : List Value) (v : Value)
      → Names (i ∷ is) v
      → (call_target l i ≡ some v) ⊎ Names is v
  Names-cons i is v (j, Memᴰ.head e, c) = inl (rw (← e) c)
  Names-cons i is v (j, Memᴰ.tail m, c) = inr (j, m, c)

  Scanned-nil : (f : Value) (s : Search l) → Scanned f [] s s
  Scanned-nil f s = record {
    seen_grows = λ v m. m;
    seen_from = λ v m. inl m;
    pending_grows = λ v m. m;
    pending_from = λ v m. inl m;
    fresh_pending = λ v m. inl m;
    not_found = λ n. Memᴰ.not-nil n.1;
    handled = λ v n _. absurd (Memᴰ.not-nil n.1);
    distinct = λ d. d;
    count = omega arith;
  }

  Scanned-skip :
      (f i : Value) (is : List Value) (s s' : Search l)
      → call_target l i ≡ none
      → Scanned f is s s'
      → Scanned f (i ∷ is) s s'
  Scanned-skip f i is s s' e r = record {
    seen_grows = r.seen_grows;
    seen_from = λ v m. ⊎_elim inl (λ n. inr (Names-tail n)) (r.seen_from v m);
    pending_grows = r.pending_grows;
    pending_from = λ v m. ⊎_elim inl (λ n. inr (Names-tail n)) (r.pending_from v m);
    fresh_pending = r.fresh_pending;
    not_found = λ n. ⊎_elim (λ c. cc) r.not_found (Names-cons i is f n);
    handled = λ v n d. ⊎_elim (λ c. absurd (cc)) (λ k. r.handled v k d) (Names-cons i is v n);
    distinct = r.distinct;
    count = r.count;
  }

  Scanned-visit :
      (f i t : Value) (is : List Value) (s s₁ s' : Search l)
      → call_target l i ≡ some t
      → t ≢ f
      → Visited t s s₁
      → Scanned f is s₁ s'
      → Scanned f (i ∷ is) s s'
  Scanned-visit f i t is s s₁ s' e ne a r =
      let here =
        λ (v : Value) (p : v ≡ t). let n : Names (i ∷ is) v = (i, Memᴰ.head refl, rw p e) in n in
      record {
        seen_grows = λ v m. r.seen_grows v (a.seen_grows v m);
        seen_from = λ v m.
            ⊎_elim (λ k. ⊎_elim inl (λ p. inr (here v p)) (a.seen_from v k))
              (λ n. inr (Names-tail n)) (r.seen_from v m);
        pending_grows = λ v m. r.pending_grows v (a.pending_grows v m);
        pending_from = λ v m.
            ⊎_elim (λ k. ⊎_elim inl (λ p. inr (here v p)) (a.pending_from v k))
              (λ n. inr (Names-tail n)) (r.pending_from v m);
        fresh_pending = λ v m.
            ⊎_elim (λ k. ⊎_elim inl (λ p. inr (r.pending_grows v p)) (a.fresh_pending v k)) inr
              (r.fresh_pending v m);
        not_found = λ n. ⊎_elim (λ c. ne (cc)) r.not_found (Names-cons i is f n);
        handled = λ v n d.
            ⊎_elim (λ c. let p : t ≡ v = cc in r.seen_grows v (rw p at (a.handled (rw p d))))
              (λ k. r.handled v k d) (Names-cons i is v n);
        distinct = λ d. r.distinct (a.distinct d);
        count = omega (arith, a.count, r.count);
      }

  pub scan-none : (f : Value) (is : List Value) (s : Search l) → scan l f is s ≡ none → Names is f
  unfolding scan
  scan-none f [] s h = cc
  scan-none f (i ∷ is) s h = elim (Option-cases (call_target l i)) [
    | inl e ↦ Names-tail (scan-none f is s (rw (e, scan) at h))
    | inr (t, e) ↦ elim (l.value_eq t f) as (λ _. Names (i ∷ is) f) [
      | yes p ↦ (i, Memᴰ.head refl, rw (← p) e)
      | no ne ↦ Names-tail (scan-none f is (visit l t s) (ground arith))
    ]
  ]

  pub scan-some :
      (f : Value) (is : List Value) (s s' : Search l) → scan l f is s ≡ some s' → Scanned f is s s'
  unfolding scan
  scan-some f [] s s' h = let e : s ≡ s' = cc in rw (← e) (Scanned-nil f s)
  scan-some f (i ∷ is) s s' h = elim (Option-cases (call_target l i)) [
    | inl e ↦ Scanned-skip f i is s s' e (scan-some f is s s' (rw (e, scan) at h))
    | inr (t, e) ↦ elim (l.value_eq t f) as (λ _. Scanned f (i ∷ is) s s') [
      | yes p ↦ absurd (ground arith)
      | no ne ↦
          Scanned-visit f i t is s (visit l t s) s' e ne (visit-Visited t s)
            (scan-some f is (visit l t s) s' (ground arith))
    ]
  ]
