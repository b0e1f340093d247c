-- ===== src/Memory/Compression/Tests.antt =====
-- A conversation, and the theorems of compression on it.
use suiban.Prelude.{true, ℕ, ◌+◌, ◌↔◌, ◌+◌, ◌≡◌, refl, some, List, [], ◌∷◌, String, is_some}
use suiban.Memory.Compression.{
  Message, whole, CompressionResult, keep_recent_messages, should_compress, estimate_tokens,
  estimate_message_tokens, message_text, is_protected, is_system, starts_summary, head_of, body_of,
  split, summary_message, fold_middle, compress,
}
use suiban.Memory.Compression.Fold.{
  Is70Percent, Window, HasFree, Folds, compress-Folds, compress_answers,
}

abbrev said : String → String → Message
said role text = record { role = some role; content = whole text; tool_calls = [] }

abbrev recent_turns : List Message
recent_turns =
    said "user" "three" ∷ said "assistant" "four" ∷ said "user" "five" ∷ said "assistant" "six" ∷ []

abbrev conversation : List Message
conversation = said "system" "be brief" ∷ said "user" "one" ∷ said "assistant" "two" ∷ recent_turns

abbrev condense : String → String
condense transcript = "one, two"

abbrev condensed : CompressionResult
condensed = record {
  messages =
      said "system" "be brief"
      ∷ said "system" "Rolling conversation summary (older turns condensed):\none, two"
      ∷ recent_turns;
  messages_summarized = 2;
}

one_fold : compress conversation 20 condense ≡ some condensed
unfolding compress should_compress estimate_tokens estimate_message_tokens message_text
    keep_recent_messages split head_of body_of is_protected is_system starts_summary fold_middle
    summary_message
one_fold = refl

compress-Folds_example : Folds conversation 20 condense condensed
compress-Folds_example = compress-Folds conversation 20 condense condensed one_fold

compress_answers_example : (is_some (compress conversation 20 condense) ≡ true) ↔ (
    Is70Percent conversation 20 × ((kept : ℕ) × (Window 20 kept × HasFree (kept + 2) conversation)))
compress_answers_example = compress_answers conversation 20 condense
