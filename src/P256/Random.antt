-- ===== src/P256/Random.antt =====
-- `fill` and `requests` of examples/p256/src/lib.rs: requests with random numbers whose top limb is clear. The
-- generator is the text of examples/rsa/src/lib.rs, with eight limbs for its count.
mod Examples
use llvm_metal.Base.{
  ℕ, ◌+◌, ◌-◌, ◌*◌, ◌<◌, ◌≤◌, ◌≡◌, refl, ap, ◌∙◌, List, [], ◌∷◌, suc, arith, length, replicate,
  length-replicate, Memᴰ,
}
use mathlib.Core.List.Memᴰ
use llvm_metal.Modular.Residue.{IsReducedLimbs}
use llvm_metal.Rsa.Random.{random_seed, draw}
use llvm_metal.Rsa.Random.Below.{draw-IsReducedLimbs}
use llvm_metal.P256.{limb_count}
use llvm_metal.P256.Curve.{Request, group_order}

-- The loop of `fill`.
pub fill_requests : ℕ → List Request → List Request
fill_requests random [] = []
fill_requests random (request ∷ rest) =
    let z = draw (limb_count - 1) limb_count 0 random in
    let k = draw (limb_count - 1) limb_count 0 z.random in
    record { z = z.limbs; k = k.limbs } ∷ fill_requests k.random rest

pub requests : ℕ → List Request
requests count =
    fill_requests random_seed
      (replicate count (record { z = replicate limb_count 0; k = replicate limb_count 0 }))

-- Limbs of two numbers below the order of the group, as `sign` takes them.
abbrev pub IsRequest : Request → Type 0
IsRequest request = IsReducedLimbs group_order request.z × IsReducedLimbs group_order request.k

fill_requests-IsRequest :
    (old : List Request) (random : ℕ) (request : Request)
    → Memᴰ request (fill_requests random old)
    → IsRequest request
unfolding fill_requests
fill_requests-IsRequest [] random request m = absurd (Memᴰ.not-nil m)
fill_requests-IsRequest (old ∷ rest) random request (Memᴰ.head e) =
    let z = draw (limb_count - 1) limb_count 0 random in
    rw e (
      draw-IsReducedLimbs group_order (limb_count - 1) random refl (omega arith),
      draw-IsReducedLimbs group_order (limb_count - 1) z.random refl (omega arith),
    )
fill_requests-IsRequest (old ∷ rest) random request (Memᴰ.tail later) =
    fill_requests-IsRequest rest _ request later

length-fill_requests :
    (old : List Request) (random : ℕ) → length (fill_requests random old) ≡ length old
unfolding fill_requests
length-fill_requests [] random = refl
length-fill_requests (request ∷ rest) random = ap suc (length-fill_requests rest _)

-- `requests` makes as many requests as asked, and the message and the nonce of each are eight limbs of a number
-- below the order of the group.
pub requests-IsRequest :
    (count : ℕ)
    → (length (requests count) ≡ count)
      × ((request : Request) → Memᴰ request (requests count) → IsRequest request)
unfolding requests
requests-IsRequest count = (
  length-fill_requests (replicate count _) random_seed ∙ length-replicate count _,
  fill_requests-IsRequest (replicate count _) random_seed,
)
