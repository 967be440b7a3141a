-- ===== src/Container/Queue/Tests.antt =====
-- A queue of three nodes and a chain of two, and the theorems there.
use libfibre.Base.{◌≡◌, some, [], ◌∷◌, arith, ◌==◌, if◌then◌else◌}
use libfibre.Container.Chains.{sentinel, null, Heap, Seg}
use libfibre.Container.Queue.{Queue, pop, IsQueue, pop-IsQueue}

abbrev links : Heap
links a =
    if a == 16
    then 32
    else if a == 32
    then 48
    else if a == 48
    then sentinel
    else if a == 64
    then 80
    else null

abbrev three : Queue
three = record { head = 16; tail = 48 }

three-IsQueue : IsQueue three links (16 ∷ 32 ∷ 48 ∷ [])
three-IsQueue = ground arith

pop-IsQueue_example :
    (q' : Queue) × (h' : Heap) × (pop 2 three links ≡ some ((32, 2), q', h'))
    × IsQueue q' h' (48 ∷ [])
    × Seg h' 16 (16 ∷ 32 ∷ []) null
pop-IsQueue_example = pop-IsQueue links three 16 (32 ∷ 48 ∷ []) 1 three-IsQueue
