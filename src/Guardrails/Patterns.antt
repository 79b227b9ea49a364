-- ===== src/Guardrails/Patterns.antt =====
-- `_PATTERNS` of app/domain/guardrails/injection.py. All are compiled with `re.IGNORECASE`.

use ocr_service.Prelude.{not, ◌||◌, List, [], ◌∷◌, ◌==◌, nat_eq}
use ocr_service.Text.{is_space}
use ocr_service.Regex.{seq, Regex, one, star, boundary}
use ocr_service.Regex.Syntax.{same_letter, lit, opt, ◌▸◌, ◌∣◌}

-- `\s*`
abbrev spaces : Regex
spaces = star (one is_space)

-- `\s+`
abbrev gap : Regex
gap = seq (one is_space) spaces

-- `.*`
abbrev anything : Regex
anything = star (one (λ c. not (c == 10)))

-- ignore\s+(all\s+)?(previous|prior|above)\s+instructions
ignore_instructions : Regex
ignore_instructions =
    lit "ignore"
    ▸ gap
    ▸ opt (lit "all" ▸ gap)
    ▸ (lit "previous" ∣ lit "prior" ∣ lit "above")
    ▸ gap
    ▸ lit "instructions"

-- disregard\s+(the\s+)?(system|previous)
disregard_system : Regex
disregard_system = lit "disregard" ▸ gap ▸ opt (lit "the" ▸ gap) ▸ (lit "system" ∣ lit "previous")

-- \b(system|developer)\s*prompt\s*[:=]
system_prompt : Regex
system_prompt =
    boundary
    ▸ (lit "system" ∣ lit "developer")
    ▸ spaces
    ▸ lit "prompt"
    ▸ spaces
    ▸ one (λ c. c == b':' || c == b'=')

-- you\s+are\s+now\s+(a|an|in)\b
you_are_now : Regex
you_are_now =
    lit "you" ▸ gap ▸ lit "are" ▸ gap ▸ lit "now" ▸ gap ▸ (lit "a" ∣ lit "an" ∣ lit "in") ▸ boundary

-- \bact\s+as\s+(a|an)\b.*\b(jailbreak|DAN|unrestricted)\b
act_as : Regex
act_as =
    boundary
    ▸ lit "act"
    ▸ gap
    ▸ lit "as"
    ▸ gap
    ▸ (lit "a" ∣ lit "an")
    ▸ boundary
    ▸ anything
    ▸ boundary
    ▸ (lit "jailbreak" ∣ lit "dan" ∣ lit "unrestricted")
    ▸ boundary

-- <\s*/?\s*(system|assistant|instructions?)\s*>
role_tag : Regex
role_tag =
    lit "<"
    ▸ spaces
    ▸ opt (lit "/")
    ▸ spaces
    ▸ (lit "system" ∣ lit "assistant" ∣ (lit "instruction" ▸ opt (lit "s")))
    ▸ spaces
    ▸ lit ">"

-- reveal\s+(your\s+)?(system\s+)?prompt
reveal_prompt : Regex
reveal_prompt =
    lit "reveal" ▸ gap ▸ opt (lit "your" ▸ gap) ▸ opt (lit "system" ▸ gap) ▸ lit "prompt"

unfoldable pub patterns : List Regex
unfolding ignore_instructions disregard_system system_prompt you_are_now act_as role_tag
    reveal_prompt same_letter
patterns =
    ignore_instructions ∷ disregard_system ∷ system_prompt ∷ you_are_now ∷ act_as ∷ role_tag
    ∷ reveal_prompt ∷ []
