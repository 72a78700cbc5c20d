-- ===== src/Llm/Text.antt =====
-- The text form that the records of mokv/llm/store.hpp share: lines of fields with tabs between them.
use moyuan_kv.Prelude.{
  ◌==◌, Option-cases, All, All-append, Bytes, ◌≡◌, refl, sym, ap, ◌∙◌, ◌≢◌, inl, inr, Bool, true,
  false, not, ◌&&◌, Option, none, some, List, [], ◌∷◌, ◌++◌, append-nil, append_assoc, arith,
}
use moyuan_kv.Codec.{split, get_lines, lines_from, newline, tab}
use moyuan_kv.Codec.Splitting.{join_with, split-join_with, Lacks}
use moyuan_kv.Codec.Escaping.{IsPlain}

-- `out << … << '\t' << … << '\n'` for each line.
unfoldable pub text : List (List Bytes) → Bytes
text [] = []
text (fields ∷ lines) = join_with tab fields ++ newline ∷ text lines

-- The loop `while (std::getline(stream, line))` over a text, with the fields of each line. A round
-- returns nothing where the source returns `std::nullopt`.
unfoldable pub parse_lines {ℓ} :
    {A : Type ℓ} → (A → List Bytes → Option A) → A → List Bytes → Option A
parse_lines step record' [] = some record'
parse_lines step record' (line ∷ lines) = elim (step record' (split line tab)) [
  | none ↦ none
  | some next ↦ parse_lines step next lines
]

-- The rounds on lines that are split already.
unfoldable pub run_lines {ℓ} :
    {A : Type ℓ} → (A → List Bytes → Option A) → A → List (List Bytes) → Option A
run_lines step record' [] = some record'
run_lines step record' (fields ∷ lines) = elim (step record' fields) [
  | none ↦ none
  | some next ↦ run_lines step next lines
]

-- A line with a field, and no tab and no newline inside of one.
abbrev pub IsLine : List Bytes → Type 0
IsLine [] = ⊥
IsLine (f ∷ fs) = All (All IsPlain) (f ∷ fs)

pub lines_from-append :
    (acc l rest : Bytes)
    → Lacks newline l
    → lines_from acc (l ++ newline ∷ rest) ≡ (acc ++ l) ∷ lines_from [] rest
unfolding lines_from
lines_from-append [] [] rest h = refl
lines_from-append (a ∷ acc) [] rest h =
    ap (λ l. l ∷ lines_from [] rest) (sym (append-nil (a ∷ acc)))
lines_from-append [] (ch ∷ l) rest h =
    let apart : (ch == newline) ≡ false = ground (arith, h.0) in
    rw (apart, lines_from) (lines_from-append (ch ∷ []) l rest h.1)
lines_from-append (a ∷ acc) (ch ∷ l) rest h =
    let apart : (ch == newline) ≡ false = ground (arith, h.0) in
    rw (apart, lines_from)
      (lines_from-append (a ∷ (acc ++ ch ∷ [])) l rest h.1
        ∙ ap (λ t. (a ∷ t) ∷ lines_from [] rest) (append_assoc acc (ch ∷ []) l))

Lacks-tab : (t : Bytes) → All IsPlain t → Lacks tab t
Lacks-tab [] h = tt
Lacks-tab (ch ∷ t) h = (h.0.1, Lacks-tab t h.1)

pub Lacks-newline : (t : Bytes) → All IsPlain t → Lacks newline t
Lacks-newline [] h = tt
Lacks-newline (ch ∷ t) h = (h.0.0, Lacks-newline t h.1)

Lacks-join_with : (fs : List Bytes) → All (All IsPlain) fs → Lacks newline (join_with tab fs)
Lacks-join_with [] h = tt
Lacks-join_with (f ∷ []) h = Lacks-newline f h.0
Lacks-join_with (f ∷ g ∷ fs) h =
    All-append (λ ch. ch ≢ newline) f _ (Lacks-newline f h.0)
      (omega arith, Lacks-join_with (g ∷ fs) h.1)

Lacks-fields : (fs : List Bytes) → All (All IsPlain) fs → All (Lacks tab) fs
Lacks-fields [] h = tt
Lacks-fields (f ∷ fs) h = (Lacks-tab f h.0, Lacks-fields fs h.1)

split-line : (fs : List Bytes) → IsLine fs → split (join_with tab fs) tab ≡ fs
split-line [] h = absurd h
split-line (f ∷ fs) h = split-join_with tab f fs (Lacks-fields (f ∷ fs) h)

line_Lacks : (fs : List Bytes) → IsLine fs → Lacks newline (join_with tab fs)
line_Lacks [] h = absurd h
line_Lacks (f ∷ fs) h = Lacks-join_with (f ∷ fs) h

parse_round {ℓ} :
    {A : Type ℓ} (step : A → List Bytes → Option A) (a : A) (line : Bytes) (fields : List Bytes)
    (ls : List Bytes) (lines : List (List Bytes))
    → split line tab ≡ fields
    → ((b : A) → parse_lines step b ls ≡ run_lines step b lines)
    → parse_lines step a (line ∷ ls) ≡ run_lines step a (fields ∷ lines)
unfolding parse_lines run_lines
parse_round step a line fields ls lines e h =
    rw (e, parse_lines)
      (elim (Option-cases (step a fields)) [
        | inl n ↦ rw (n, run_lines) refl
        | inr (b, n) ↦ rw (n, run_lines) (h b)
      ])

get_lines-text :
    (l : List Bytes) (lines : List (List Bytes))
    → IsLine l
    → get_lines (text (l ∷ lines)) ≡ join_with tab l ∷ get_lines (text lines)
unfolding get_lines text
get_lines-text l lines h = lines_from-append [] (join_with tab l) (text lines) (line_Lacks l h)

-- Reading a text runs over the fields that were written, line by line.
pub parse_lines-text {ℓ} :
    {A : Type ℓ} (step : A → List Bytes → Option A) (a : A) (lines : List (List Bytes))
    → All IsLine lines
    → parse_lines step a (get_lines (text lines)) ≡ run_lines step a lines
unfolding parse_lines run_lines text get_lines lines_from
parse_lines-text step a [] h = refl
parse_lines-text step a (l ∷ lines) h =
    ap (parse_lines step a) (get_lines-text l lines h.0)
    ∙ parse_round step a (join_with tab l) l (get_lines (text lines)) lines (split-line l h.0)
        (λ b. parse_lines-text step b lines h.1)

-- The test for a text without newline and tab.
unfoldable pub is_plain : Bytes → Bool
is_plain [] = true
is_plain (ch ∷ t) = not (ch == newline) && not (ch == tab) && is_plain t

pub is_plain-IsPlain : (t : Bytes) → is_plain t ≡ true → All IsPlain t
unfolding is_plain
is_plain-IsPlain [] h = tt
is_plain-IsPlain (ch ∷ t) h = (ground (arith, h), is_plain-IsPlain t (ground (arith, h)))
