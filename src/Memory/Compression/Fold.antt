-- ===== src/Memory/Compression/Fold.antt =====
-- What compression does to a conversation (src/suiban/memory/compression.py).
use suiban.Prelude.{
  is_some, zero, suc, ◌<◌, ◌*◌, ◌↔◌, ◌⊎◌, sym, sum_of, take, ℕ, ◌+◌, ◌-◌, ◌≤◌, ◌≡◌, refl, ap, subst,
  ◌∙◌, true, false, ◌&&◌, some, List, [], ◌∷◌, ◌++◌, String, arith, min, leb, ltb, length, All,
  take-append-drop, length-drop, length-take, Bool-cases, inl, inr,
}
use text.Mathlib.TextPositions.{starts_with-append}
use suiban.Memory.Compression.{
  estimate_message_tokens, estimate_tokens, Message, Split, CompressionResult, keep_recent_messages,
  should_compress, is_system, starts_summary, is_protected, head_of, body_of, split,
  summary_message, transcript_of, join_lines, wrap_fold_input, fold_middle, compress,
  summary_prefix,
}

append-head-body : (ms : List Message) → head_of ms ++ body_of ms ≡ ms
unfolding head_of body_of
append-head-body [] = refl
append-head-body (m ∷ ms) = elim (Bool-cases (is_protected m)) [
  | inl held ↦ rw held (ap (λ t. m ∷ t) (append-head-body ms))
  | inr free ↦ rw free
]

abbrev pub Protected : List Message → Type 0
Protected ms = All (λ m. is_protected m ≡ true) ms

head-Protected : (ms : List Message) → Protected (head_of ms)
unfolding head_of
head-Protected [] = tt
head-Protected (m ∷ ms) = elim (Bool-cases (is_protected m)) [
  | inl held ↦ rw held (held, head-Protected ms)
  | inr free ↦ rw free tt
]

is_protected-summary_message : (summary : String) → is_protected (summary_message summary) ≡ false
unfolding is_protected is_system starts_summary summary_message
is_protected-summary_message summary = rw (starts_with-append summary_prefix _)

head-append :
    (head tail : List Message) (m : Message)
    → Protected head
    → is_protected m ≡ false
    → head_of (head ++ m ∷ tail) ≡ head
unfolding head_of
head-append [] tail m p free = rw free
head-append (h ∷ head) tail m p free = rw p.0 (ap (λ t. h ∷ t) (head-append head tail m p.1 free))

body-append :
    (head tail : List Message) (m : Message)
    → Protected head
    → is_protected m ≡ false
    → body_of (head ++ m ∷ tail) ≡ m ∷ tail
unfolding body_of
body-append [] tail m p free = rw free
body-append (h ∷ head) tail m p free = rw p.0 (body-append head tail m p.1 free)

-- The messages at the end that are kept as they are, for a slot's context.
abbrev pub Window : (slot_ctx kept : ℕ) → Type 0
Window slot_ctx kept =
    ((slot_ctx < 16384) × (kept ≡ 4))
    ⊎ (((16384 ≤ slot_ctx) × ((slot_ctx < 32768) × (kept ≡ 6))) ⊎ ((32768 ≤ slot_ctx) × (kept ≡ 8)))

keep_recent_messages-Window : (slot_ctx : ℕ) → Window slot_ctx (keep_recent_messages slot_ctx)
unfolding keep_recent_messages
keep_recent_messages-Window slot_ctx = elim (Bool-cases (leb 32768 slot_ctx)) [
  | inl large ↦ rw large (inr (inr (ground arith, refl)))
  | inr not_large ↦ elim (Bool-cases (leb 16384 slot_ctx)) [
    | inl medium ↦ rw (not_large, medium) (inr (inl (ground arith, (ground arith, refl))))
    | inr small ↦ rw (not_large, small) (inl (ground arith, refl))
  ]
]

-- A list whose first message is not protected.
abbrev pub StartsFree : List Message → Type 0
StartsFree [] = ⊥
StartsFree (m ∷ ms) = is_protected m ≡ false

-- What a compression that folds something leaves of the conversation `messages`.
pub record Folds (messages : List Message) (slot_ctx : ℕ) (summarize : String → String)
    (r : CompressionResult) : Type 0 where
  pub head : List Message
  pub middle : List Message
  pub tail : List Message
  pub parts : head ++ (middle ++ tail) ≡ messages
  pub folded :
      r.messages
      ≡ head
        ++ summary_message (summarize (wrap_fold_input (join_lines (transcript_of middle)))) ∷ tail
  pub protected : Protected head
  pub free : StartsFree middle
  pub recent : Window slot_ctx (length tail)
  pub counted : r.messages_summarized ≡ length middle
  pub several : 2 ≤ r.messages_summarized

body-StartsFree : (ms : List Message) → 1 ≤ length (body_of ms) → StartsFree (body_of ms)
unfolding body_of
body-StartsFree [] h = absurd (omega arith)
body-StartsFree (m ∷ ms) h = elim (Bool-cases (is_protected m)) [
  | inl held ↦ rw held (body-StartsFree ms (rw held at h))
  | inr open_ ↦ rw open_ open_
]

take-StartsFree :
    (n : ℕ) (ms : List Message) → 1 ≤ length (take n ms) → StartsFree ms → StartsFree (take n ms)
take-StartsFree zero ms h f = absurd (omega arith)
take-StartsFree (suc n) [] h f = absurd (omega arith)
take-StartsFree (suc n) (m ∷ ms) h f = f

split-StartsFree :
    (messages : List Message) (kept : ℕ)
    → 1 ≤ length (split messages kept).middle
    → StartsFree (split messages kept).middle
unfolding split
split-StartsFree messages kept h =
    let body = body_of messages in
    let n = length body - min kept (length body) in
    take-StartsFree n body h (body-StartsFree messages (omega (arith, h, length-take n body)))

split-append :
    (messages : List Message) (kept : ℕ)
    → let s = split messages kept in s.head ++ (s.middle ++ s.tail) ≡ messages
unfolding split
split-append messages kept =
    ap (λ t. head_of messages ++ t) (take-append-drop _ (body_of messages))
    ∙ append-head-body messages

split-recent :
    (messages : List Message) (kept : ℕ)
    → 2 ≤ length (split messages kept).middle
    → length (split messages kept).tail ≡ kept
unfolding split
split-recent messages kept h =
    let body = body_of messages in
    let n = length body - min kept (length body) in
    omega (arith, length-take n body, length-drop n body)

abbrev pub from_middle : Split → (String → String) → CompressionResult
from_middle s summarize = record {
  messages =
      s.head
      ++ summary_message (summarize (wrap_fold_input (join_lines (transcript_of s.middle))))
        ∷ s.tail;
  messages_summarized = length s.middle;
}

fold_middle_result :
    (s : Split) (summarize : String → String) (r : CompressionResult)
    → fold_middle s summarize ≡ some r
    → (2 ≤ length s.middle) × (from_middle s summarize ≡ r)
unfolding fold_middle
fold_middle_result s summarize r h = elim (Bool-cases (ltb (length s.middle) 2)) [
  | inl few ↦ ground arith
  | inr many ↦ (ground arith, ground arith)
]

split-Protected : (messages : List Message) (kept : ℕ) → Protected (split messages kept).head
unfolding split
split-Protected messages kept = head-Protected messages

from_middle-Folds :
    (messages : List Message) (slot_ctx kept : ℕ) (summarize : String → String)
    → Window slot_ctx kept
    → 2 ≤ length (split messages kept).middle
    → Folds messages slot_ctx summarize (from_middle (split messages kept) summarize)
from_middle-Folds messages slot_ctx kept summarize window several = record {
  head = (split messages kept).head;
  middle = (split messages kept).middle;
  tail = (split messages kept).tail;
  parts = split-append messages kept;
  folded = refl;
  protected = split-Protected messages kept;
  free = split-StartsFree messages kept (omega arith);
  recent = subst (Window slot_ctx) (sym (split-recent messages kept several)) window;
  counted = refl;
  several = several;
}

compress_folds :
    (messages : List Message) (slot_ctx : ℕ) (summarize : String → String) (r : CompressionResult)
    → compress messages slot_ctx summarize ≡ some r
    → fold_middle (split messages (keep_recent_messages slot_ctx)) summarize ≡ some r
unfolding compress
compress_folds messages slot_ctx summarize r h = ground arith

-- A conversation that `compress` answers is its protected head, as long as it goes, at least two messages
-- after it, and a tail of 4, 6 or 8 messages, by the context of the slot; the answer keeps the head and the
-- tail as they are, has one message in place of the rest, with the summary of its transcript, and counts
-- what it replaced.
pub compress-Folds :
    (messages : List Message) (slot_ctx : ℕ) (summarize : String → String) (r : CompressionResult)
    → compress messages slot_ctx summarize ≡ some r
    → Folds messages slot_ctx summarize r
compress-Folds messages slot_ctx summarize r h =
    let e = fold_middle_result _ summarize r (compress_folds messages slot_ctx summarize r h) in
    subst (Folds messages slot_ctx summarize) e.1
      (from_middle-Folds messages slot_ctx _ summarize (keep_recent_messages-Window slot_ctx) e.0)

length-split :
    (messages : List Message) (kept : ℕ)
    → length (split messages kept).middle ≡ length (body_of messages) - kept
unfolding split
length-split messages kept =
    let body = body_of messages in
    omega (arith, length-take (length body - min kept (length body)) body)

-- The slot has a context, and the estimate has reached 70% of it.
abbrev pub Is70Percent : List Message → ℕ → Type 0
Is70Percent messages slot_ctx =
    (1 ≤ slot_ctx) × (70 * slot_ctx ≤ 100 * sum_of estimate_message_tokens messages)

compress_answers_bool :
    (messages : List Message) (slot_ctx : ℕ) (summarize : String → String)
    → is_some (compress messages slot_ctx summarize) ≡ (
        should_compress messages slot_ctx
        && leb (keep_recent_messages slot_ctx + 2) (length (body_of messages)))
unfolding compress fold_middle
compress_answers_bool messages slot_ctx summarize =
    ground (arith, length-split messages (keep_recent_messages slot_ctx))

-- The messages split after their protected head, with at least `n` from the first that is not protected.
abbrev pub HasFree : ℕ → List Message → Type 0
HasFree n messages =
    (head : List Message) × ((body : List Message) × ((head ++ body ≡ messages)
        × (Protected head × (StartsFree body × (n ≤ length body)))))

should_compress-Is70Percent :
    (messages : List Message) (slot_ctx : ℕ)
    → (should_compress messages slot_ctx ≡ true) ↔ Is70Percent messages slot_ctx
unfolding should_compress estimate_tokens
should_compress-Is70Percent messages slot_ctx =
    ((λ h. (ground arith, ground arith)), λ h. ground arith)

Window-same : (slot_ctx kept : ℕ) → Window slot_ctx kept → kept ≡ keep_recent_messages slot_ctx
unfolding keep_recent_messages
Window-same slot_ctx kept (inl h) = ground arith
Window-same slot_ctx kept (inr (inl h)) = ground arith
Window-same slot_ctx kept (inr (inr h)) = ground arith

HasFree-body :
    (n : ℕ) (messages : List Message) → HasFree n messages → n ≤ length (body_of messages)
HasFree-body n messages (head, ([], (e, (held, (free, long))))) = absurd free
HasFree-body n messages (head, (m ∷ body, (e, (held, (free, long))))) =
    subst (λ ms. n ≤ length (body_of ms)) e (rw (body-append head body m held free) long)

-- `compress` answers exactly where the slot has a context, the estimate has reached 70% of it, and after the
-- protected head, as long as it goes, at least two messages more stand than the 4, 6 or 8, by the context of
-- the slot, that are kept as they are.
pub compress_answers :
    (messages : List Message) (slot_ctx : ℕ) (summarize : String → String)
    → (is_some (compress messages slot_ctx summarize) ≡ true) ↔ (
        Is70Percent messages slot_ctx
        × ((kept : ℕ) × (Window slot_ctx kept × HasFree (kept + 2) messages)))
compress_answers messages slot_ctx summarize =
    let kept = keep_recent_messages slot_ctx in
    let e = compress_answers_bool messages slot_ctx summarize in
    (
      (λ h.
          let full : should_compress messages slot_ctx ≡ true = ground arith in
          let long : kept + 2 ≤ length (body_of messages) = ground arith in
          (
            (should_compress-Is70Percent messages slot_ctx).0 full,
            (
              kept,
              (
                keep_recent_messages-Window slot_ctx,
                (
                  head_of messages,
                  (
                    body_of messages,
                    (
                      append-head-body messages,
                      (head-Protected messages, (body-StartsFree messages (omega arith), long)),
                    ),
                  ),
                ),
              ),
            ),
          )),
      λ h.
          let full = (should_compress-Is70Percent messages slot_ctx).1 h.0 in
          let same = Window-same slot_ctx h.1.0 h.1.1.0 in
          let long = HasFree-body (h.1.0 + 2) messages h.1.1.1 in ground arith,
    )

refold :
    (messages : List Message) (kept : ℕ) (summarize : String → String)
    → let s = split messages kept in
      let r = from_middle s summarize in
      (head_of r.messages ≡ s.head)
      × ((summary : String) × (body_of r.messages ≡ summary_message summary ∷ s.tail))
unfolding split
refold messages kept summarize = (
  head-append (head_of messages) _ _ (head-Protected messages) (is_protected-summary_message _),
  (
    _,
    body-append (head_of messages) _ _ (head-Protected messages) (is_protected-summary_message _),
  ),
)

-- The next compression does not stack a second summary: it finds the same protected head, and right
-- after it the summary, first of the messages that it may fold.
head-compress :
    (messages : List Message) (slot_ctx : ℕ) (summarize : String → String) (r : CompressionResult)
    → compress messages slot_ctx summarize ≡ some r
    → let s = split messages (keep_recent_messages slot_ctx) in
      (head_of r.messages ≡ s.head)
      × ((summary : String) × (body_of r.messages ≡ summary_message summary ∷ s.tail))
head-compress messages slot_ctx summarize r h =
    let s = split messages (keep_recent_messages slot_ctx) in
    let e = fold_middle_result s summarize r (compress_folds messages slot_ctx summarize r h) in
    subst
      (λ r.
        (head_of r.messages ≡ s.head)
        × ((summary : String) × (body_of r.messages ≡ summary_message summary ∷ s.tail)))
      e.1 (refold messages _ summarize)
