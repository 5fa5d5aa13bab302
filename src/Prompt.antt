-- ===== src/Prompt.antt =====
-- The system prompt and the token estimate: `build_system_prompt` of
-- packages/agent-runtime/src/xymphony_runtime/context_budget.py, and token_estimate.py.
pub mod Length
use xymphony_voice.Base.{
  ℕ, ◌+◌, ◌/◌, ◌≤◌, ◌≡◌, ◌<◌, max, Bool, true, false, not, ◌&&◌, Option, none, some, List, [], ◌∷◌,
  ◌++◌, length, length-append, arith, if◌then◌else◌,
}
use xymphony_voice.Base.Text.{Text, codes, is_empty, strip, join, newline}

abbrev pub summary_section_header : Text
summary_section_header = codes "[Conversation summary]"

abbrev pub knowledge_section_header : Text
knowledge_section_header = codes "[Retrieved context]"

abbrev pub memory_section_header : Text
memory_section_header = codes "[Agent memory]"

-- `if text and text.strip(): sections.append(f"{header}\n{text.strip()}")`
unfoldable pub section : Text → Option Text → List Text
section header none = []
section header (some t) =
    if not (is_empty t) && not (is_empty (strip t)) then (header ++ newline ∷ strip t) ∷ [] else []

unfoldable pub build_system_prompt : Text → Option Text → Option Text → Option Text → Text
unfolding section strip join
build_system_prompt system_instructions summary_text knowledge_text memory_text =
    join (newline ∷ newline ∷ []) (
      (if is_empty (strip system_instructions) then [] else strip system_instructions ∷ [])
      ++ (section memory_section_header memory_text
          ++ (section summary_section_header summary_text
              ++ section knowledge_section_header knowledge_text)))

-- approximate_token_count
unfoldable pub approximate_token_count : Text → ℕ
approximate_token_count t = if is_empty t then 0 else max 1 ((length t + 3) / 4)
