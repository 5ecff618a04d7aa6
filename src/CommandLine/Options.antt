-- ===== src/CommandLine/Options.antt =====
-- Shared/Common/CommandLineParser.cpp: how `--name=value` is read.
use helianthus.Prelude.{
  ◌≡◌, refl, sym, ap, ◌∙◌, ◌≢◌, inl, inr, false, none, some, [], ◌∷◌, ◌++◌, arith, Name, same_name,
  same_name→eq, find, if◌then◌else◌, Bool-cases,
}
use helianthus.CommandLine.{
  Argument, Arguments, is_empty, cut_at_equals, option_of, is_flag, text_true, is_help, Word,
  word_of,
}

-- A setting as a word of the command line.
abbrev pub written : Name → Name → Name
written name value = 45 ∷ 45 ∷ (name ++ (61 ∷ value))

cut_at_equals-written :
    (name value : Name)
    → cut_at_equals name ≡ none
    → cut_at_equals (name ++ (61 ∷ value)) ≡ some (name, value)
unfolding cut_at_equals
cut_at_equals-written [] value h = refl
cut_at_equals-written (c ∷ s) value h = ground (arith, cut_at_equals-written s value)

abbrev text_help : Name
text_help = 104 ∷ 101 ∷ 108 ∷ 112 ∷ []

written-help :
    (name value : Name)
    → cut_at_equals name ≡ none
    → same_name (name ++ (61 ∷ value)) text_help ≡ false
unfolding cut_at_equals
written-help name value h = elim (Bool-cases (same_name (name ++ (61 ∷ value)) text_help)) [
  | inl e ↦
      let p = same_name→eq (name ++ (61 ∷ value)) text_help e in
      let q : cut_at_equals text_help ≡ some (name, value) =
        ap cut_at_equals (sym p) ∙ cut_at_equals-written name value h in
      cc
  | inr e ↦ e
]

is_help-written :
    (name value : Name) → cut_at_equals name ≡ none → is_help (written name value) ≡ false
unfolding same_name
is_help-written name value plain = written-help name value plain

option_of-written :
    (name value : Name) (known : Arguments)
    → cut_at_equals name ≡ none
    → option_of (written name value) known ≡ (name, value)
unfolding option_of same_name
option_of-written name value known plain =
    ap (λ o. elim o [ none ↦ (name ++ (61 ∷ value), []) | some option ↦ option ])
      (cut_at_equals-written name value plain)

-- A written setting of an argument that takes values is its value.
pub word_of-written :
    (name value : Name) (a : Argument) (known : Arguments)
    → cut_at_equals name ≡ none
    → value ≢ []
    → find name known ≡ some a
    → is_flag a.arg_type ≡ false
    → word_of (written name value) known ≡ Word.given name value a
unfolding word_of
word_of-written name value a known plain filled declared takes =
    let e1 = is_help-written name value plain in
    let e2 = option_of-written name value known plain in
    let e3 : is_empty value ≡ false = by_value value filled in
    let judge : Argument → Word = λ x.
      if is_flag x.arg_type
      then Word.given name text_true x
      else if is_empty value
      then Word.awaiting name x
      else Word.given name value x in
    let look : Name × Name → Word = λ o. elim (find o.0 known) [
      | none ↦ Word.unknown o.0
      | some x ↦
          if is_flag x.arg_type
          then Word.given o.0 text_true x
          else if is_empty o.1
          then Word.awaiting o.0 x
          else Word.given o.0 o.1 x
    ] in
    ap (λ b. if b then Word.help else look (option_of (written name value) known)) e1
    ∙ ap look e2
    ∙ ap (λ o. elim o [ none ↦ Word.unknown name | some x ↦ judge x ]) declared
    ∙ ap
        (λ b.
          if b
          then Word.given name text_true a
          else if is_empty value
          then Word.awaiting name a
          else Word.given name value a)
        takes
    ∙ ap (λ b. if b then Word.awaiting name a else Word.given name value a) e3
  where
    by_value : (v : Name) → v ≢ [] → is_empty v ≡ false
    by_value [] ne = absurd (ne refl)
    by_value (c ∷ s) ne = refl
