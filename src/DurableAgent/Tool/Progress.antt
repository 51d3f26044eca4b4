-- ===== src/DurableAgent/Tool/Progress.antt =====
-- A process that runs the tool of examples/durable_agent.rs waits for no other.
use zincir.Prelude.{◌≡◌, refl, none, some, Option, List, [], ◌∷◌}
use zincir.Json.{Value}
use zincir.Types.{ToolCall, Result, ok, err, tool}
use zincir.DurableAgent.Tool.{opening, staged, returned, advance, act_on, tool_result_of}

-- After it returned a process does nothing more.
act_on-returned :
    (call : ToolCall) (files : List (Option Value)) (r : Result Value)
    → act_on call files (returned r) ≡ returned r
unfolding act_on advance
act_on-returned call [] r = refl
act_on-returned call (file ∷ files) r = act_on-returned call files r

-- What the process answers from the file of the result as three of its actions find it: `found` where it
-- looks first, `linked` where it makes the hard link, and `reread` where it reads the result again.
abbrev pub answer_of : ToolCall → Option Value → Option Value → Option Value → Result Value
answer_of call (some v) linked again = ok v
answer_of call none none again = ok (tool_result_of call)
answer_of call none (some v) (some w) = ok w
answer_of call none (some v) none = err (tool "result disappeared")

-- A process returns within five of its own actions, whatever the others make of the file between these. It
-- answers the result that it finds first, if any; else its own if its hard link makes the file, which then
-- holds it; else the result that is in the file when it reads again, or an error if that is gone.
pub execute_write_file-finishes :
    (call : ToolCall) (found before linked again last : Option Value) (rest : List (Option Value))
    → (act_on call (found ∷ before ∷ linked ∷ again ∷ last ∷ rest) opening
        ≡ returned (answer_of call found linked again))
      × ((advance call linked (staged (tool_result_of call))).0
          ≡ (elim linked [ none ↦ some (tool_result_of call) | some v ↦ some v ]))
unfolding act_on advance
execute_write_file-finishes call (some v) before none again last rest =
    (act_on-returned call (before ∷ none ∷ again ∷ last ∷ rest) (ok v), refl)
execute_write_file-finishes call (some v) before (some w) again last rest =
    (act_on-returned call (before ∷ some w ∷ again ∷ last ∷ rest) (ok v), refl)
execute_write_file-finishes call none before none again last rest =
    (act_on-returned call rest _, refl)
execute_write_file-finishes call none before (some v) (some w) last rest =
    (act_on-returned call rest _, refl)
execute_write_file-finishes call none before (some v) none last rest =
    (act_on-returned call rest _, refl)
