-- ===== src/Clients/Examples.antt =====
-- examples/ipc at concrete turns, and the theorems applied.
use tyndall.Base.{List, [], ◌∷◌}
use tyndall.Clients.{Turn, writer_turn, reader_turn}

-- The reader comes too early, misses an entry, and comes twice.
abbrev turns : List Turn
turns =
    reader_turn ∷ writer_turn ∷ writer_turn ∷ reader_turn ∷ reader_turn ∷ writer_turn ∷ reader_turn
    ∷ []
