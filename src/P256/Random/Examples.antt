-- ===== src/P256/Random/Examples.antt =====
-- `requests` of examples/p256/src/lib.rs with three requests.
use llvm_metal.Base.{◌≡◌, Memᴰ, length}
use llvm_metal.P256.Curve.{Request}
use llvm_metal.P256.Random.{requests, IsRequest, requests-IsRequest}

requests-IsRequest_example :
    (length (requests 3) ≡ 3)
    × ((request : Request) → Memᴰ request (requests 3) → IsRequest request)
requests-IsRequest_example = requests-IsRequest 3
