-- ===== src/Compiler/Panics/Rewritten.antt =====
-- What `rewrite_panics` of compiler/src/select.rs does to a module in which no call of a function that never
-- returns stands behind another in its block: the replacements do not meet.
use mathlib.Core.List.{append_assoc}
use llvm_metal.Base.{
  List, [], ◌∷◌, ◌++◌, ◌≡◌, refl, sym, ap, ◌∙◌, ◌↔◌, ◌⊎◌, inl, inr, true, false, Bool, some, Memᴰ,
  contains, contains_iff, Distinct, flat_map, keep, keep_iff, Bool-cases,
}
use mathlib.Core.List.Memᴰ
use llvm_metal.Compiler.Llvm.{Llvm}
use llvm_metal.Compiler.Ir.{functions, users, callee}
use llvm_metal.Compiler.Panics.{
  PanicEdit, build_panic, erase_instruction, erase, tail_of, calls_it, panics, Progress, alive,
  built_in, panic_edits, replace_calls, panic_calls, replace_all, rewrite_panics,
}
use llvm_metal.Compiler.Panics.Calls.{
  all_calls, whole_edits, calls_it_iff, IsUsed, IsPanicCall, From, IsListed, tail_of_iff,
  all_edits_iff,
}

append-nil : {A : Type 0} (xs : List A) → xs ++ [] ≡ xs
append-nil [] = refl
append-nil (x ∷ xs) = ap (λ (r : List _). x ∷ r) (append-nil xs)

flat_map-append :
    {A B : Type 0} (f : A → List B) (xs ys : List A)
    → flat_map f (xs ++ ys) ≡ flat_map f xs ++ flat_map f ys
unfolding flat_map
flat_map-append f [] ys = refl
flat_map-append f (x ∷ xs) ys =
    ap (λ (r : List _). f x ++ r) (flat_map-append f xs ys) ∙ sym (append_assoc (f x) _ _)

keep-ext :
    {A : Type 0} (p q : A → Bool) (xs : List A) → ((x : A) → p x ≡ q x) → keep p xs ≡ keep q xs
unfolding keep
keep-ext p q [] h = refl
keep-ext p q (x ∷ xs) h = elim (Bool-cases (q x)) [
  | inl e ↦ rw (h x, e, keep-ext p q xs h) refl
  | inr e ↦ rw (h x, e, keep-ext p q xs h) refl
]

keep-Distinct : {A : Type 0} (p : A → Bool) (xs : List A) → Distinct xs → Distinct (keep p xs)
unfolding keep
keep-Distinct p [] d = tt
keep-Distinct p (x ∷ xs) (fresh, d) = elim (Bool-cases (p x)) [
  | inl e ↦ rw e (λ m. fresh ((keep_iff p xs x).0 m).0, keep-Distinct p xs d)
  | inr e ↦ rw e (keep-Distinct p xs d)
]

module _ (l : Llvm) (used : IsUsed l) (listed : IsListed l)
    (alone : (c i : l.Value) → IsPanicCall l c → From l c i → IsPanicCall l i → c ≡ i) where
  open l use {Value, Ty}

  -- What was replaced are calls of functions that never return, and what was erased stands behind them.
  record Keeps (p : Progress l) : Type 0 where
    calls : (c : Value) → Memᴰ c p.replaced → IsPanicCall l c
    behind : (i : Value) → Memᴰ i p.erased → (c : Value) × Memᴰ c p.replaced × From l c i

  not-contains : (x : Value) (xs : List Value) → ¬ Memᴰ x xs → contains l.value_eq x xs ≡ false
  not-contains x xs h = elim (Bool-cases (contains l.value_eq x xs)) [
    | inl e ↦ absurd (h ((contains_iff l.value_eq x xs).0 e))
    | inr e ↦ e
  ]

  alive-whole :
      (rs is : List Value)
      → ((i : Value) → Memᴰ i is → ¬ Memᴰ i rs)
      → (alive l rs is ≡ is) × (built_in l rs is ≡ [])
  unfolding alive built_in
  alive-whole rs [] h = (refl, refl)
  alive-whole rs (i ∷ is) h =
      let e = not-contains i rs (h i (Memᴰ.head refl)) in
      let (a, b) = alive-whole rs is (λ j m. h j (Memᴰ.tail m)) in
      (rw e (ap (λ (r : List Value). i ∷ r) a), rw e b)

  fresh-erased :
      (p : Progress l) (c : Value)
      → Keeps p
      → IsPanicCall l c
      → ¬ Memᴰ c p.replaced
      → ¬ Memᴰ c p.erased
  fresh-erased p c k pc fresh m =
      let (c', mc, behind) = k.behind c m in
      let same = alone c' c (k.calls c' mc) behind pc in fresh (rw same at mc)

  tail-fresh :
      (p : Progress l) (c : Value)
      → Keeps p
      → IsPanicCall l c
      → ¬ Memᴰ c p.replaced
      → (i : Value) → Memᴰ i (tail_of l c)
      → ¬ Memᴰ i p.replaced
  tail-fresh p c k pc fresh i m r =
      let same = alone c i pc ((tail_of_iff l listed c i).0 m) (k.calls i r) in
      fresh (rw (← same) at r)

  panic_edits-whole :
      (rs : List Value) (c : Value)
      → (alive l rs (tail_of l c) ≡ tail_of l c) × (built_in l rs (tail_of l c) ≡ [])
      → panic_edits l rs c ≡ whole_edits l c
  unfolding panic_edits whole_edits
  panic_edits-whole rs c (a, b) = rw (a, b, append-nil (flat_map (erase l) (tail_of l c))) refl

  -- What the loop over the calls of a function does.
  record IsReplaced (p : Progress l) (calls : List Value) (q : Progress l) : Type 0 where
    runs : replace_calls l p calls ≡ some (flat_map (whole_edits l) calls, q)
    keeps : Keeps q
    only : (c : Value) → Memᴰ c q.replaced → Memᴰ c p.replaced ⊎ Memᴰ c calls

  next_of : Progress l → Value → Progress l
  next_of p c = record {
    replaced = c ∷ p.replaced;
    erased = alive l p.replaced (tail_of l c) ++ p.erased;
  }

  next-Keeps :
      (p : Progress l) (c : Value)
      → Keeps p
      → IsPanicCall l c
      → alive l p.replaced (tail_of l c) ≡ tail_of l c
      → Keeps (next_of p c)
  unfolding next_of
  next-Keeps p c k pc whole = record {
    calls = λ d m. elim m [ Memᴰ.head e ↦ rw e pc | Memᴰ.tail n ↦ k.calls d n ];
    behind = λ i m. elim (Memᴰ.append_cases (tail_of l c) (rw whole at m)) [
      | inl n ↦ (c, Memᴰ.head refl, (tail_of_iff l listed c i).0 n)
      | inr n ↦ let (d, md, f) = k.behind i n in (d, Memᴰ.tail md, f)
    ];
  }

  replace_calls_lem :
      (p : Progress l) (calls : List Value)
      → Keeps p
      → ((c : Value) → Memᴰ c calls → IsPanicCall l c × (¬ Memᴰ c p.replaced))
      → Distinct calls
      → (q : Progress l) × IsReplaced p calls q
  unfolding replace_calls flat_map next_of
  replace_calls_lem p [] k h d = (p, record { runs = refl; keeps = k; only = λ c m. inl m })
  replace_calls_lem p (c ∷ calls) k h (fresh, d) =
      let (pc, new) = h c (Memᴰ.head refl) in
      let whole = alive-whole p.replaced (tail_of l c) (tail-fresh p c k pc new) in
      let (q, r) =
        replace_calls_lem (next_of p c) calls (next-Keeps p c k pc whole.0)
          (λ x m. (
            (h x (Memᴰ.tail m)).0,
            λ n. elim n [
              | Memᴰ.head e ↦ fresh (rw e at m)
              | Memᴰ.tail n' ↦ (h x (Memᴰ.tail m)).1 n'
            ],
          ))
          d in
      let here = not-contains c p.erased (fresh-erased p c k pc new) in
      let rest : replace_calls l (next_of p c) calls ≡ some (flat_map (whole_edits l) calls, q) =
        r.runs in
      (
        q,
        record {
          runs = rw (replace_calls, here, rest, panic_edits-whole p.replaced c whole) refl;
          keeps = r.keeps;
          only = λ x m. elim (r.only x m) [
            | inl n ↦ elim n [ Memᴰ.head e ↦ inr (Memᴰ.head e) | Memᴰ.tail n' ↦ inl n' ]
            | inr n ↦ inr (Memᴰ.tail n)
          ];
        },
      )

  -- No call of a function has been replaced yet.
  abbrev IsUntouched : Progress l → Value → Type 0
  IsUntouched p f = (c : Value) → Memᴰ c p.replaced → ¬ (callee l c ≡ some f)

  calls_of : Value → List Value
  calls_of f = keep (calls_it l f) (users l f)

  calls-IsPanicCall :
      (f c : Value)
      → Memᴰ f (functions l)
      → panics l f ≡ true
      → calls_it l f c ≡ true
      → IsPanicCall l c
  calls-IsPanicCall f c mf pf it = let (call, e) = (calls_it_iff l f c).0 it in (f, call, e, mf, pf)

  -- So the users that call it are all still there.
  panic_calls-whole :
      (p : Progress l) (f : Value)
      → Keeps p
      → Memᴰ f (functions l)
      → panics l f ≡ true
      → IsUntouched p f
      → panic_calls l p f ≡ calls_of f
  unfolding panic_calls calls_of
  panic_calls-whole p f k mf pf fresh = keep-ext _ (calls_it l f) (users l f) (λ u.
      elim (Bool-cases (calls_it l f u)) [
        | inr e ↦ rw e refl
        | inl e ↦
            let pc = calls-IsPanicCall f u mf pf e in
            let new : ¬ Memᴰ u p.replaced = λ m. fresh u m ((calls_it_iff l f u).0 e).1 in
            rw (e, not-contains u p.erased (fresh-erased p u k pc new)) refl
      ])

  replace_all_lem :
      (p : Progress l) (fs : List Value)
      → Keeps p
      → Distinct fs
      → ((f : Value)
          → Memᴰ f fs
          → Memᴰ f (functions l) × (panics l f ≡ true) × Distinct (users l f) × IsUntouched p f)
      → replace_all l p fs ≡ some (flat_map (whole_edits l) (all_calls l fs))
  unfolding replace_all all_calls flat_map calls_of
  replace_all_lem p [] k d h = refl
  replace_all_lem p (f ∷ fs) k (fresh, d) h =
      let (mf, pf, du, untouched) = h f (Memᴰ.head refl) in
      let whole = panic_calls-whole p f k mf pf untouched in
      let (q, r) =
        replace_calls_lem p (calls_of f) k
          (λ c m.
            let it = ((keep_iff (calls_it l f) (users l f) c).0 m).1 in
            (calls-IsPanicCall f c mf pf it, λ n. untouched c n ((calls_it_iff l f c).0 it).1))
          (keep-Distinct (calls_it l f) (users l f) du) in
      let later = replace_all_lem q fs r.keeps d (λ g mg.
        let (mg', pg, dg, before) = h g (Memᴰ.tail mg) in
        (
          mg',
          pg,
          dg,
          λ c m e. elim (r.only c m) [
            | inl n ↦ before c n e
            | inr n ↦
                let it = ((keep_iff (calls_it l f) (users l f) c).0 n).1 in
                let named = ((calls_it_iff l f c).0 it).1 in
                let same : g ≡ f = cc in fresh (rw same at mg)
          ],
        )) in
      let ran : replace_calls l p (panic_calls l p f)
          ≡ some (flat_map (whole_edits l) (calls_of f), q) =
        rw whole r.runs in
      rw (replace_all, ran, later)
        (ap some (sym (flat_map-append (whole_edits l) (calls_of f) (all_calls l fs))))

-- Where the uses of a function hold every call that names it, each once, blocks are within the bound, and no call of
-- an undefined function that never returns stands behind another in its block, `rewrite_panics` uses nothing that
-- it has erased. It builds a panic before exactly the calls of undefined functions that never return, and erases
-- exactly the instructions from such a call to the end of its block.
pub rewrite_panics_lem :
    (l : Llvm)
    → IsUsed l
    → IsListed l
    → Distinct (functions l)
    → ((f : l.Value) → Distinct (users l f))
    → ((c i : l.Value) → IsPanicCall l c → From l c i → IsPanicCall l i → c ≡ i)
    → (edits : List (PanicEdit l.Value l.Ty)) × (rewrite_panics l ≡ some edits)
      × ((call : l.Value) → Memᴰ (build_panic call) edits ↔ IsPanicCall l call)
      × ((i : l.Value)
          → Memᴰ (erase_instruction i) edits
            ↔ ((call : l.Value) × IsPanicCall l call × From l call i))
unfolding rewrite_panics
rewrite_panics_lem l used listed distinct once alone =
    let start : Progress l = record { replaced = []; erased = [] } in
    let (builds, erases) = all_edits_iff l used listed in
    (
      flat_map (whole_edits l) (all_calls l (keep (panics l) (functions l))),
      replace_all_lem l used listed alone start (keep (panics l) (functions l))
          (record { calls = λ c m. elim m [ ]; behind = λ i m. elim m [ ] })
          (keep-Distinct (panics l) (functions l) distinct)
          (λ f m.
            let (mf, pf) = (keep_iff (panics l) (functions l) f).0 m in
            (mf, pf, once f, λ c n e. elim n [ ])),
      builds,
      erases,
    )
