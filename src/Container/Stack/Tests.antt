-- ===== src/Container/Stack/Tests.antt =====
-- A stack of three nodes and a chain of two, and the theorems there.
use libfibre.Base.{[], ◌∷◌, arith, ◌==◌, if◌then◌else◌}
use libfibre.Container.Chains.{sentinel, null, Heap}
use libfibre.Container.Stack.{IsStack}

abbrev links : Heap
links a =
    if a == 16
    then 32
    else if a == 32
    then 48
    else if a == 48
    then sentinel
    else if a == 64
    then 80
    else null

three-IsStack : IsStack 16 links (16 ∷ 32 ∷ 48 ∷ [])
three-IsStack = ground arith
