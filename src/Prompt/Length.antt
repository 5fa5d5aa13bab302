-- ===== src/Prompt/Length.antt =====
-- Sizes of prompts and of their estimates.
use xymphony_voice.Base.{
  ◌+◌, ◌*◌, ◌≤◌, ◌<◌, Option, none, List, [], ◌∷◌, ◌++◌, length, length-append, arith,
  if◌then◌else◌,
}
use mathlib.Core.List.{append-nil}
use xymphony_voice.Base.Text.{Text, join, newline, strip, is_empty}
use xymphony_voice.Prompt.{
  build_system_prompt, section, approximate_token_count, summary_section_header,
  knowledge_section_header, memory_section_header,
}

join-append-le :
    (sep : Text) (xs ys : List Text) → length (join sep xs) ≤ length (join sep (xs ++ ys))
unfolding join
join-append-le sep [] ys = omega arith
join-append-le sep (p ∷ []) [] = omega arith
join-append-le sep (p ∷ []) (q ∷ ys) = omega (arith, length-append p (sep ++ join sep (q ∷ ys)))
join-append-le sep (p ∷ q ∷ ps) ys = omega (
  arith,
  length-append p (sep ++ join sep (q ∷ ps)),
  length-append p (sep ++ join sep (q ∷ (ps ++ ys))),
  length-append sep (join sep (q ∷ ps)),
  length-append sep (join sep (q ∷ (ps ++ ys))),
  join-append-le sep (q ∷ ps) ys,
)

-- Optional sections only lengthen the system prompt.
pub bare_prompt_le :
    (instructions : Text) (summary knowledge memory : Option Text)
    → length (build_system_prompt instructions none none none)
      ≤ length (build_system_prompt instructions summary knowledge memory)
unfolding build_system_prompt
bare_prompt_le instructions summary knowledge memory =
    let first : List Text = if is_empty (strip instructions) then [] else strip instructions ∷ [] in
    let rest =
      section memory_section_header memory
      ++ (section summary_section_header summary ++ section knowledge_section_header knowledge) in
    rw (append-nil) (join-append-le (newline ∷ newline ∷ []) first rest)

-- The estimate never charges a longer text less, as the assembler's ladder requires.
pub approximate_token_count_mono :
    (s t : Text) → length s ≤ length t → approximate_token_count s ≤ approximate_token_count t
unfolding approximate_token_count
approximate_token_count_mono [] t h = omega arith
approximate_token_count_mono (a ∷ s) [] h = omega arith
approximate_token_count_mono (a ∷ s) (b ∷ t) h = omega arith

-- The estimate is the ceiling of a quarter of the length: 4 tokens cover the text, and one token
-- fewer would not, except for the empty text, which counts 0.
pub approximate_token_count_ceiling :
    (t : Text)
    → (length t ≤ 4 * approximate_token_count t) × (4 * approximate_token_count t < length t + 4)
unfolding approximate_token_count
approximate_token_count_ceiling [] = omega arith
approximate_token_count_ceiling (a ∷ t) = omega arith
