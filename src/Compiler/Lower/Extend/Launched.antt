-- ===== src/Compiler/Lower/Extend/Launched.antt =====
-- `extend` of compiler/src/lower/context.rs ends with a launch for each defined function.
use llvm_metal.Base.{
  ℕ, ◌+◌, ◌≡◌, refl, ◌∙◌, ap, some, List, [], ◌∷◌, map, drop, range, length, length-map,
  length-range, length-drop, length-take, length-append, length-replicate, get_elem?-some, take,
  replicate, keep, arith,
}
use llvm_metal.Compiler.Llvm.{Llvm}
use llvm_metal.Compiler.Ir.{functions, defined}
use llvm_metal.Compiler.Lower.{Parameter, types, Launch, launch}
use llvm_metal.Compiler.Lower.Extend.{Extended, replacement, extended, extend_all, extend}

module _ {V : Type 0} where
  launch-total :
      (ps : List V) (buffers : ℕ)
      → length ps ≡ buffers + 4
      → (x : Launch V) × (launch ps buffers ≡ some x) × (length x.buffers ≡ buffers)
  unfolding launch
  launch-total ps buffers h =
      let (a, ea) = get_elem?-some ps buffers (omega arith) in
      let (b, eb) = get_elem?-some ps (buffers + 1) (omega arith) in
      let (c, ec) = get_elem?-some ps (buffers + 2) (omega arith) in
      let (d, ed) = get_elem?-some ps (buffers + 3) (omega arith) in
      (
        record { buffers = take buffers ps; lengths = a; status = b; thread = c; constants = d },
        ground (arith, ea, eb, ec, ed, h),
        length-take buffers ps (omega arith),
      )

pub length-types : (buffers : ℕ) → length (types buffers) ≡ buffers + 4
unfolding types
length-types buffers = omega (
  arith,
  length-append (replicate (buffers + 2) Parameter.device_pointer)
      (Parameter.word32 ∷ Parameter.thread_pointer ∷ []),
  length-replicate (buffers + 2) Parameter.device_pointer,
)

module _ (l : Llvm) (new_of : l.Value → l.Value) (buffers : ℕ) where
  open l use {Value}

  -- Each function in turn, with a launch of so many buffers.
  abbrev pub IsExtended : List Value → List (Extended l) → Type 0
  IsExtended [] [] = Unit
  IsExtended [] (e ∷ es) = ⊥
  IsExtended (f ∷ fs) [] = ⊥
  IsExtended (f ∷ fs) (e ∷ es) =
      (e.old ≡ f)
      × (e.new ≡ new_of f)
      × (launch (drop e.own (map (l.get_param e.new) (range (e.own + length e.added)))) buffers
          ≡ some e.seen)
      × (length e.seen.buffers ≡ buffers)
      × IsExtended fs es

  extend_all-IsExtended :
      (fs : List Value)
      → (es : List (Extended l)) × (extend_all l new_of buffers fs ≡ some es) × IsExtended fs es
  unfolding extend_all extended replacement
  extend_all-IsExtended [] = ([], refl, tt)
  extend_all-IsExtended (f ∷ fs) =
      let own = l.count_params f in
      let values = map (l.get_param (new_of f)) (range (own + length (types buffers))) in
      let many : length values ≡ own + (buffers + 4) =
        length-map (l.get_param (new_of f)) (range (own + length (types buffers)))
        ∙ length-range (own + length (types buffers))
        ∙ ap (λ (k : ℕ). own + k) (length-types buffers) in
      let left = length-drop own values (omega arith) in
      let (x, e, size) = launch-total (drop own values) buffers (omega arith) in
      let (es, rest, all) = extend_all-IsExtended fs in
      (
        replacement l new_of buffers f x ∷ es,
        rw (extend_all, extended, e, rest) refl,
        (refl, refl, e, size, all),
      )

  -- `extend` does not panic; it replaces each defined function by the added one, and the launch that a
  -- function sees is the one `launch` takes off the parameters behind its own.
  pub extend-IsExtended :
      (es : List (Extended l)) × (extend l new_of buffers ≡ some es)
      × IsExtended (keep (defined l) (functions l)) es
  unfolding extend
  extend-IsExtended = extend_all-IsExtended (keep (defined l) (functions l))
