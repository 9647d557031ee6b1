-- ===== src/Relay/Examples.antt =====
-- A relay between two connections in memory.
use cppsong.Base.{◌≡◌, List, [], ◌∷◌, ◌++◌, arith}
use cppsong.Base.Lists.{replicate}
use cppsong.Connection.Memory.{Memory, in_memory, memory_stream}
use cppsong.Relay.{Turn, there_turn, back_turn, main_turn, spawn_relay, run}
use cppsong.Relay.Copy.{Copies, run-Copies}
use cppsong.Relay.Ending.{run-delivers}

abbrev client : Memory
client = record { pending = 1 ∷ 2 ∷ []; told = 9 ∷ [] }

abbrev server : Memory
server = record { pending = 3 ∷ []; told = [] }

abbrev turns : List Turn
turns = there_turn ∷ back_turn ∷ there_turn ∷ there_turn ∷ main_turn ∷ []

run-Copies_example :
    Copies in_memory in_memory memory_stream memory_stream client server
      (run in_memory in_memory turns (spawn_relay in_memory in_memory client server))
run-Copies_example = run-Copies in_memory in_memory memory_stream memory_stream client server turns

abbrev many_turns : List Turn
many_turns = replicate 5 there_turn ++ replicate 3 back_turn

run-delivers_example :
    ((run in_memory in_memory many_turns (spawn_relay in_memory in_memory client server)).conn2.told
      ≡ 1 ∷ 2 ∷ [])
    × ((run in_memory in_memory many_turns
          (spawn_relay in_memory in_memory client server)).conn1.told
        ≡ 9 ∷ 3 ∷ [])
unfolding memory_stream
run-delivers_example =
    run-delivers in_memory in_memory memory_stream memory_stream client server many_turns
      (omega arith) (omega arith)
