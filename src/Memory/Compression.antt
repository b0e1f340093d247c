-- ===== src/Memory/Compression.antt =====
-- In-context compression (src/suiban/memory/compression.py). A tool call of a message is the text that
-- `str` gives of it, the answer of the summarizing model is an argument, and the percentage that a
-- result reports for display is left out.
use Prim.Native.Char.{Char}
use Prim.Native.String.{◌++◌ as append, count}
use suiban.Prelude.{
  ℕ, zero, suc, ◌+◌, ◌-◌, ◌*◌, ◌/◌, Bool, true, false, not, ◌&&◌, ◌||◌, Option, none, some, List,
  [], ◌∷◌, ◌++◌, String, min, ltb, leb, length, sum_of, take, drop, if◌then◌else◌,
}
use text.Mathlib.Text.{◌==◌ as str_eq, starts_with}
mod Fold
mod Tests

pub data Part : Type 0 where
  text_part : String → Part
  image_url other_part : Part

pub data Content : Type 0 where
  whole : String → Content
  parts : List Part → Content
  other_content : Content

pub record Message : Type 0 where
  pub role : Option String
  pub content : Content
  pub tool_calls : List String

unfoldable pub keep_recent_messages : ℕ → ℕ
keep_recent_messages slot_ctx =
    if leb 32768 slot_ctx then 8 else if leb 16384 slot_ctx then 6 else 4

abbrev pub summary_prefix : String
summary_prefix = "Rolling conversation summary (older turns condensed):"

-- `"\n".join(texts)`
unfoldable pub join_lines : List String → String
join_lines [] = ""
join_lines (t ∷ []) = t
join_lines (t ∷ u ∷ rest) = append t (append "\n" (join_lines (u ∷ rest)))

part_texts : List Part → List String
part_texts [] = []
part_texts (text_part t ∷ ps) = t ∷ part_texts ps
part_texts (image_url ∷ ps) = "[image]" ∷ part_texts ps
part_texts (other_part ∷ ps) = part_texts ps

unfoldable pub message_text : Content → String
unfolding part_texts
message_text (whole t) = t
message_text (parts ps) = join_lines (part_texts ps)
message_text other_content = ""

unfoldable pub estimate_message_tokens : Message → ℕ
estimate_message_tokens m =
    count (message_text m.content) / 4 + 4 + sum_of (λ call. count call / 4) m.tool_calls

unfoldable pub estimate_tokens : List Message → ℕ
estimate_tokens messages = sum_of estimate_message_tokens messages

-- `estimate / slot_ctx >= 0.70`
unfoldable pub should_compress : List Message → ℕ → Bool
should_compress messages slot_ctx =
    if leb slot_ctx 0 then false else leb (7 * slot_ctx) (10 * estimate_tokens messages)

unfoldable pub is_system : Option String → Bool
is_system none = false
is_system (some role) = str_eq role "system"

-- Only a text can start with the prefix: `str` of a list or of `None` does not.
unfoldable pub starts_summary : Content → Bool
starts_summary (whole t) = starts_with t summary_prefix
starts_summary (parts ps) = false
starts_summary other_content = false

unfoldable pub is_protected : Message → Bool
is_protected m = is_system m.role && not (starts_summary m.content)

-- `messages[:head_end]`
unfoldable pub head_of : List Message → List Message
head_of [] = []
head_of (m ∷ ms) = let rest = head_of ms in if is_protected m then m ∷ rest else []

-- `messages[head_end:]`
unfoldable pub body_of : List Message → List Message
body_of [] = []
body_of (m ∷ ms) = let rest = body_of ms in if is_protected m then rest else m ∷ ms

pub record Split : Type 0 where
  pub head : List Message
  pub middle : List Message
  pub tail : List Message

-- `_split`
unfoldable pub split : List Message → ℕ → Split
split messages keep_recent =
    let body = body_of messages in
    let kept = min keep_recent (length body) in
    record {
      head = head_of messages;
      middle = take (length body - kept) body;
      tail = drop (length body - kept) body;
    }

pub record CompressionResult : Type 0 where
  pub messages : List Message
  pub messages_summarized : ℕ

unfoldable pub wrap_fold_input : String → String
wrap_fold_input transcript = append "<transcript>\n" (
    append transcript
      "\n</transcript>\nCondense the transcript above now. Keep every concrete fact verbatim (names, numbers, dates, amounts, versions, paths, URLs, errors, decisions, [ids]). Reply with ONLY the condensed result.")

or_unknown : Option String → String
or_unknown none = "?"
or_unknown (some role) = role

unfoldable pub transcript_of : List Message → List String
unfolding or_unknown
transcript_of [] = []
transcript_of (m ∷ ms) =
    append (or_unknown m.role) (append ": " (message_text m.content)) ∷ transcript_of ms

unfoldable pub summary_message : String → Message
summary_message summary = record {
  role = some "system";
  content = whole (append summary_prefix (append "\n" summary));
  tool_calls = [];
}

-- What `compress` does once the messages are split.
unfoldable pub fold_middle : Split → (String → String) → Option CompressionResult
fold_middle s summarize =
    if ltb (length s.middle) 2
    then none
    else some (record {
      messages =
          s.head
          ++ summary_message (summarize (wrap_fold_input (join_lines (transcript_of s.middle))))
            ∷ s.tail;
      messages_summarized = length s.middle;
    })

-- `summarize` is the model's answer, stripped.
unfoldable pub compress : List Message → ℕ → (String → String) → Option CompressionResult
compress messages slot_ctx summarize =
    let folded = fold_middle (split messages (keep_recent_messages slot_ctx)) summarize in
    if should_compress messages slot_ctx then folded else none
