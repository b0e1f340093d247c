-- ===== src/Research/Distinct.antt =====
-- The sources that searches find are distinct (`_select_sources` of src/suiban/research/engine.py).
use text.Mathlib.TextPositions.{eq_refl}
use suiban.Prelude.{
  ◌⊎◌, true, String, ap, sym, All, ℕ, zero, suc, ◌≡◌, inl, inr, refl, ◌∙◌, false, ◌||◌, List, [],
  ◌∷◌, ◌++◌, String, take, str_eq_sym, any-append, arith, Bool-cases,
}
use mathlib.Core.List.{append_assoc, append-nil}
use text.Mathlib.Text.{◌==◌ as str_eq}
use suiban.Research.{results_per_query, Source, Searched, search_failed, results}
use suiban.Research.Sources.{has_url, pick_one, pick_all, Searches, note_searched, search_each}

-- Each source has a URL, and no two the same.
abbrev pub AreDistinct : List Source → Type 0
AreDistinct [] = Unit
AreDistinct (s ∷ ss) = (str_eq s.url "" ≡ false) × ((has_url s.url ss ≡ false) × AreDistinct ss)

has_url-append :
    (url : String) (xs ys : List Source)
    → has_url url (xs ++ ys) ≡ (has_url url xs || has_url url ys)
has_url-append url xs ys = any-append (λ (s : Source). str_eq s.url url) xs ys

AreDistinct-end :
    (ss : List Source) (s : Source)
    → AreDistinct ss
    → str_eq s.url "" ≡ false
    → has_url s.url ss ≡ false
    → AreDistinct (ss ++ s ∷ [])
AreDistinct-end [] s h named fresh = (named, (refl, tt))
AreDistinct-end (x ∷ ss) s h named fresh =
    let other : str_eq x.url s.url ≡ false = ground arith in
    let later : has_url s.url ss ≡ false = ground arith in
    (
      h.0,
      (
        has_url-append x.url ss (s ∷ []) ∙ rw (h.1.0, str_eq_sym s.url x.url, other) refl,
        AreDistinct-end ss s h.1.1 named later,
      ),
    )

pick_one-AreDistinct :
    (picked : List Source) (s : Source) → AreDistinct picked → AreDistinct (pick_one picked s)
unfolding pick_one
pick_one-AreDistinct picked s h = elim (Bool-cases (str_eq s.url "")) [
  | inl empty ↦ rw empty h
  | inr named ↦ elim (Bool-cases (has_url s.url picked)) [
    | inl seen ↦ rw (named, seen) h
    | inr fresh ↦ rw (named, fresh) (AreDistinct-end picked s h named fresh)
  ]
]

pub pick_all-AreDistinct :
    (picked ss : List Source) → AreDistinct picked → AreDistinct (pick_all picked ss)
unfolding pick_all
pick_all-AreDistinct picked [] h = h
pick_all-AreDistinct picked (s ∷ ss) h =
    pick_all-AreDistinct (pick_one picked s) ss (pick_one-AreDistinct picked s h)

-- What the searches for `qs` find, in order, from the world `w` on.
abbrev pub found_in : Searched → List Source
found_in (search_failed exc) = []
found_in (results ss) = ss

abbrev pub found_by :
    {World : Type 0} → (World → String → ℕ → Searched × World) → List String → World → List Source
found_by search [] w = []
found_by search (q ∷ qs) w =
    found_in (search w q results_per_query).0 ++ found_by search qs (search w q results_per_query).1

pick_all-append :
    (picked xs ys : List Source) → pick_all picked (xs ++ ys) ≡ pick_all (pick_all picked xs) ys
unfolding pick_all
pick_all-append picked [] ys = refl
pick_all-append picked (x ∷ xs) ys = pick_all-append (pick_one picked x) xs ys

note_searched_picked :
    {World : Type 0} (s : Searches World) (answer : Searched) (w : World)
    → (note_searched s answer w).picked ≡ pick_all s.picked (found_in answer)
unfolding note_searched pick_all
note_searched_picked s (search_failed exc) w = refl
note_searched_picked s (results ss) w = refl

note_searched_world :
    {World : Type 0} (s : Searches World) (answer : Searched) (w : World)
    → (note_searched s answer w).world ≡ w
unfolding note_searched
note_searched_world s (search_failed exc) w = refl
note_searched_world s (results ss) w = refl

pub search_each_picked :
    {World : Type 0} (search : World → String → ℕ → Searched × World) (qs : List String)
    (s : Searches World)
    → (search_each search qs s).picked ≡ pick_all s.picked (found_by search qs s.world)
unfolding search_each pick_all
search_each_picked search [] s = refl
search_each_picked search (q ∷ qs) s =
    let answer = search s.world q results_per_query in
    let next = note_searched s answer.0 answer.1 in
    search_each_picked search qs next
    ∙ ap (λ v. pick_all next.picked (found_by search qs v))
        (note_searched_world s answer.0 answer.1)
    ∙ ap (λ ps. pick_all ps (found_by search qs answer.1))
        (note_searched_picked s answer.0 answer.1)
    ∙ sym (pick_all-append s.picked (found_in answer.0) (found_by search qs answer.1))

-- Some of these, in their order.
abbrev pub AreSome : List Source → List Source → Type 0
AreSome [] found = Unit
AreSome (x ∷ xs) [] = ⊥
AreSome (x ∷ xs) (y ∷ ys) = ((x ≡ y) × AreSome xs ys) ⊎ AreSome (x ∷ xs) ys

AreSome-later : (xs ys : List Source) (y : Source) → AreSome xs ys → AreSome xs (y ∷ ys)
AreSome-later [] ys y h = tt
AreSome-later (x ∷ xs) ys y h = inr h

abbrev Adds : List Source → List Source → List Source → Type 0
Adds picked ss now = (added : List Source) × ((now ≡ picked ++ added) × AreSome added ss)

pub pick_all-Adds : (picked ss : List Source) → Adds picked ss (pick_all picked ss)
unfolding pick_all pick_one
pick_all-Adds picked [] = ([], (sym (append-nil picked), tt))
pick_all-Adds picked (s ∷ ss) = elim (Bool-cases (str_eq s.url "")) [
  | inl empty ↦ rw empty (skipped (pick_all-Adds picked ss))
  | inr named ↦ elim (Bool-cases (has_url s.url picked)) [
    | inl seen ↦ rw (named, seen) (skipped (pick_all-Adds picked ss))
    | inr fresh ↦ rw (named, fresh) (taken (pick_all-Adds (picked ++ s ∷ []) ss))
  ]
]
  where
    skipped : {now : List Source} → Adds picked ss now → Adds picked (s ∷ ss) now
    skipped (added, (e, h)) = (added, (e, AreSome-later added ss s h))

    taken : {now : List Source} → Adds (picked ++ s ∷ []) ss now → Adds picked (s ∷ ss) now
    taken (added, (e, h)) = (s ∷ added, (e ∙ append_assoc picked (s ∷ []) added, inl (refl, h)))

pick_one_grows :
    (url : String) (picked : List Source) (s : Source)
    → has_url url picked ≡ true
    → has_url url (pick_one picked s) ≡ true
unfolding pick_one
pick_one_grows url picked s h = elim (Bool-cases (str_eq s.url "")) [
  | inl empty ↦ rw empty h
  | inr named ↦ elim (Bool-cases (has_url s.url picked)) [
    | inl seen ↦ rw (named, seen) h
    | inr fresh ↦ rw (named, fresh) (has_url-append url picked (s ∷ []) ∙ rw h refl)
  ]
]

pick_all_grows :
    (url : String) (picked ss : List Source)
    → has_url url picked ≡ true
    → has_url url (pick_all picked ss) ≡ true
unfolding pick_all
pick_all_grows url picked [] h = h
pick_all_grows url picked (s ∷ ss) h =
    pick_all_grows url (pick_one picked s) ss (pick_one_grows url picked s h)

-- A source without a URL, or with one that is picked.
abbrev pub IsCovered : List Source → Source → Type 0
IsCovered picked s = (str_eq s.url "" ≡ true) ⊎ (has_url s.url picked ≡ true)

pick_one-IsCovered : (picked : List Source) (s : Source) → IsCovered (pick_one picked s) s
unfolding pick_one
pick_one-IsCovered picked s = elim (Bool-cases (str_eq s.url "")) [
  | inl empty ↦ inl empty
  | inr named ↦ elim (Bool-cases (has_url s.url picked)) [
    | inl seen ↦ rw (named, seen) (inr seen)
    | inr fresh ↦
        rw (named, fresh)
          (inr (has_url-append s.url picked (s ∷ []) ∙ rw (fresh, eq_refl s.url) refl))
  ]
]

pub pick_all-IsCovered : (picked ss : List Source) → All (IsCovered (pick_all picked ss)) ss
unfolding pick_all
pick_all-IsCovered picked [] = tt
pick_all-IsCovered picked (s ∷ ss) = (
  elim (pick_one-IsCovered picked s) [
    | inl empty ↦ inl empty
    | inr there ↦ inr (pick_all_grows s.url (pick_one picked s) ss there)
  ],
  pick_all-IsCovered (pick_one picked s) ss,
)

has_url-take :
    (n : ℕ) (url : String) (ss : List Source)
    → has_url url ss ≡ false
    → has_url url (take n ss) ≡ false
has_url-take zero url ss h = refl
has_url-take (suc n) url [] h = refl
has_url-take (suc n) url (s ∷ ss) h =
    let other : str_eq s.url url ≡ false = ground arith in
    let later : has_url url ss ≡ false = ground arith in
    rw (other, has_url-take n url ss later) refl

pub take-AreDistinct : (n : ℕ) (ss : List Source) → AreDistinct ss → AreDistinct (take n ss)
take-AreDistinct zero ss h = tt
take-AreDistinct (suc n) [] h = tt
take-AreDistinct (suc n) (s ∷ ss) h =
    (h.0, (has_url-take n s.url ss h.1.0, take-AreDistinct n ss h.1.1))
