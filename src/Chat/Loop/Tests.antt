-- ===== src/Chat/Loop/Tests.antt =====
-- Runs of the agentic loop of src/conversations/chat-ai.service.ts with scripted models.
use bolder_vibes_backend.Common.{
  ℕ, ◌+◌, ◌≤◌, String, ◌≡◌, refl, ◌↔◌, true, false, Option, some, List, [], ◌∷◌, any, length, All,
  ltb, if◌then◌else◌,
}
use bolder_vibes_backend.Chat.Loop.{
  ToolInput, Block, text, tool_use, ChatMessage, history, FileOperation, created, Reply, answered,
  Round, stopped, gave_up, run_tools, run_loop, run_agentic_loop,
}
use bolder_vibes_backend.Chat.Loop.Laws.{WellFormed, asked-WellFormed, limit_reached_iff}
use bolder_vibes_backend.Chat.Loop.Laws.Turns.{is_limit_reached, leaves_while}

abbrev answers : Reply → Round
answers r = record { aborted_at_start = false; reply = r; aborted_before_tools = false }

-- A tool that counts its calls.
abbrev count_calls : String → ToolInput → ℕ → (String × Option FileOperation) × ℕ
count_calls name input n = (("File created", some (created input.path input.content n)), n + 1)

abbrev write_app : Block
write_app = tool_use "t" "create_file" (record { path = "App.tsx"; content = "x" })

-- A tool call in each round until the conversation has that many messages, then a closing answer.
abbrev works_until : ℕ → List ChatMessage → Round
works_until n messages = answers (
    if ltb (length messages) n
    then answered [] (write_app ∷ []) false
    else answered ("Done." ∷ []) (text "Done." ∷ []) false)

abbrev asks : List ChatMessage
asks = history true "Build an app" ∷ []

asked-WellFormed_example :
    All (WellFormed asks) (run_agentic_loop (works_until 5) count_calls asks 0).asked
asked-WellFormed_example = asked-WellFormed (works_until 5) count_calls asks 0

limit_reached_iff_example :
    let r = run_agentic_loop (works_until 49) count_calls asks 0 in
    (length r.asked ≤ 25)
    × ((any is_limit_reached r.events ≡ true)
        ↔ ((leaves_while r.ending ≡ true) × (length r.asked ≡ 25)))
limit_reached_iff_example = limit_reached_iff (works_until 49) count_calls asks 0

-- The 25th reply is finished, and the warning follows it.
finished_but_warned :
    let r = run_agentic_loop (works_until 49) count_calls asks 0 in
    (r.ending ≡ stopped) × (any is_limit_reached r.events ≡ true) × (r.state ≡ 24)
finished_but_warned = unfold run_agentic_loop run_loop run_tools in (refl, refl, refl)

finished_in_time :
    let r = run_agentic_loop (works_until 5) count_calls asks 0 in
    (r.ending ≡ stopped) × (any is_limit_reached r.events ≡ false) × (r.state ≡ 2)
finished_in_time = unfold run_agentic_loop run_loop run_tools in (refl, refl, refl)

-- A model that is always cut off is asked four times.
abbrev cut_off : List ChatMessage → Round
cut_off messages = answers (answered ("and so" ∷ []) (text "and so" ∷ []) true)

always_cut_off :
    let r = run_agentic_loop cut_off count_calls asks 0 in
    (r.ending ≡ gave_up) × (length r.asked ≡ 4)
always_cut_off = unfold run_agentic_loop run_loop run_tools in (refl, refl)
