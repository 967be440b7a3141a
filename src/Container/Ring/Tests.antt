-- ===== src/Container/Ring/Tests.antt =====
-- A ring of three nodes, another of two, and a chain of two; and the theorems there.
use libfibre.Base.{[], ◌∷◌, arith, ◌==◌, if◌then◌else◌}
use libfibre.Container.Ring.{Links}
use libfibre.Container.Ring.Chains.{IsRing, IsChain}

abbrev links : Links
links = record {
  next = λ a.
      if a == 16
      then 32
      else if a == 32
      then 48
      else if a == 48
      then 16
      else if a == 64
      then 80
      else if a == 96
      then 112
      else if a == 112
      then 96
      else 0;
  prev = λ a.
      if a == 16
      then 48
      else if a == 32
      then 16
      else if a == 48
      then 32
      else if a == 80
      then 64
      else if a == 96
      then 112
      else if a == 112
      then 96
      else 0;
}

three-IsRing : IsRing links 16 (32 ∷ 48 ∷ [])
three-IsRing = ground arith

two-IsRing : IsRing links 96 (112 ∷ [])
two-IsRing = ground arith

pair-IsChain : IsChain links 64 (80 ∷ [])
pair-IsChain = ground arith
