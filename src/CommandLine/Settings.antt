-- ===== src/CommandLine/Settings.antt =====
-- Shared/Common/CommandLineParser.cpp: settings that are written as `--name=value` are read back.
use mathlib.Core.Bool.{false≢true}
use mathlib.Core.List.{append_assoc, append-nil}
use helianthus.Prelude.{
  ◌≡◌, refl, sym, ap, ◌∙◌, ◌≢◌, Bool, true, false, not, Option, none, some, List, [], ◌∷◌, ◌++◌,
  arith, Name, same_name, same_name→eq, eq→same_name, find, if◌then◌else◌,
}
use helianthus.CommandLine.{
  Argument, ParseError, Arguments, CommandLineParser, cut_at_equals, is_flag, Word, word_of, give,
  set_error, parse_args, take_value, set_error, ParseError,
}
use helianthus.CommandLine.Fields.{
  short_of, long_of, takes_value, values_at, observe-give, values_at-give, values_at-give_ne,
}
use helianthus.CommandLine.Options.{written, word_of-written}

abbrev pub Setting : Type 0
Setting = Name × Name

unfoldable pub written_all : List Setting → List Name
written_all [] = []
written_all ((name, value) ∷ settings) = written name value ∷ written_all settings

-- The values of a name, in their order.
unfoldable pub values_of : Name → List Setting → List Name
values_of j [] = []
values_of j ((name, value) ∷ settings) =
    if same_name name j then value ∷ values_of j settings else values_of j settings

-- A long name: it has an argument that takes values and calls it so, and is the short name of none.
pub record IsLong (name : Name) (known : Arguments) : Type 0 where
  pub takes : takes_value name known ≡ true
  pub long : long_of name known ≡ name
  pub apart : (j : Name) → short_of j known ≢ name

-- Each setting has a long name without `=`, and a value.
unfoldable pub AreSettings : List Setting → Arguments → Type 0
AreSettings [] known = Unit
AreSettings ((name, value) ∷ settings) known =
    IsLong name known × (cut_at_equals name ≡ none) × (value ≢ []) × AreSettings settings known

give-IsLong :
    (name value j : Name) (a : Argument) (known : Arguments)
    → find name known ≡ some a
    → IsLong j known
    → IsLong j (give name value a known)
give-IsLong name value j a known h l = record {
  takes =
      observe-give (λ o. elim o [ none ↦ false | some x ↦ not (is_flag x.arg_type) ]) (λ vs x. refl)
        name j value a known h
      ∙ l.takes;
  long =
      observe-give (λ o. elim o [ none ↦ [] | some x ↦ x.long_name ]) (λ vs x. refl) name j value a
        known h
      ∙ l.long;
  apart = λ k e. l.apart k (
      sym (
        observe-give (λ o. elim o [ none ↦ [] | some x ↦ x.short_name ]) (λ vs x. refl) name k value
          a known h)
      ∙ e);
}

give-AreSettings :
    (name value : Name) (a : Argument) (known : Arguments) (settings : List Setting)
    → find name known ≡ some a
    → AreSettings settings known
    → AreSettings settings (give name value a known)
unfolding AreSettings
give-AreSettings name value a known [] h s = tt
give-AreSettings name value a known ((n, v) ∷ settings) h s = (
  give-IsLong name value n a known h s.0,
  s.1,
  s.2,
  give-AreSettings name value a known settings h s.3,
)

-- What is known of an argument under a long name.
entry_of :
    (name : Name) (known : Arguments)
    → IsLong name known
    → (a : Argument) × (find name known ≡ some a)
      × (is_flag a.arg_type ≡ false)
      × (a.long_name ≡ name)
entry_of name known l = by_entry (find name known) refl l.takes l.long
  where
    by_entry :
        (o : Option Argument)
        → find name known ≡ o
        → elim o [ none ↦ false | some x ↦ not (is_flag x.arg_type) ] ≡ true
        → elim o [ none ↦ [] | some x ↦ x.long_name ] ≡ name
        → (a : Argument) × (find name known ≡ some a)
          × (is_flag a.arg_type ≡ false)
          × (a.long_name ≡ name)
    by_entry none h t e = cc
    by_entry (some a) h t e = (a, h, ground arith, e)

short_of-found :
    (name : Name) (a : Argument) (known : Arguments)
    → find name known ≡ some a
    → short_of name known ≡ a.short_name
short_of-found name a known h = ap (λ o. elim o [ none ↦ [] | some x ↦ x.short_name ]) h

values_at-step :
    (name value j : Name) (a : Argument) (known : Arguments)
    → find name known ≡ some a
    → a.long_name ≡ name
    → IsLong name known
    → IsLong j known
    → values_at j (give name value a known)
      ≡ values_at j known ++ (if same_name name j then value ∷ [] else [])
values_at-step name value j a known h e l lj = by_test (same_name name j) refl
  where
    by_test :
        (b : Bool)
        → same_name name j ≡ b
        → values_at j (give name value a known)
          ≡ values_at j known ++ (if b then value ∷ [] else [])
    by_test true q =
        ap (λ n. values_at n (give name value a known)) (sym (same_name→eq name j q))
        ∙ values_at-give name value a known e
            (λ r. l.apart name (short_of-found name a known h ∙ r)) h
        ∙ ap (λ n. values_at n known ++ (value ∷ [])) (same_name→eq name j q)
    by_test false q =
        values_at-give_ne name value a known e
          (λ r. l.apart name (short_of-found name a known h ∙ r)) j
          (λ r. false≢true (sym q ∙ eq→same_name name j r))
          (λ r. lj.apart name (short_of-found name a known h ∙ r))
        ∙ sym (append-nil (values_at j known))

parse_args-given :
    (word name value : Name) (a : Argument) (words : List Name) (p : CommandLineParser)
    → word_of word p.arguments ≡ Word.given name value a
    → parse_args (word ∷ words) p
      ≡ parse_args words (record p { arguments = give name value a p.arguments })
unfolding parse_args
parse_args-given word name value a words p e =
    ap
      (λ w. elim w as (λ x. Bool × CommandLineParser) [
        | Word.nothing ↦ parse_args words p
        | Word.help ↦ (false, p)
        | Word.positional s ↦
            parse_args words (record p { positional_args = p.positional_args ++ (s ∷ []) })
        | Word.unknown n ↦ (false, set_error (ParseError.unknown_option n) p)
        | Word.given n v b ↦ parse_args words (record p { arguments = give n v b p.arguments })
        | Word.awaiting n b ↦ take_value n b words p
      ])
      e

values_of-step :
    (name value j : Name) (settings : List Setting)
    → values_of j ((name, value) ∷ settings)
      ≡ (if same_name name j then value ∷ [] else []) ++ values_of j settings
unfolding values_of
values_of-step name value j settings = ground arith

parse_args-nil :
    (p : CommandLineParser) (j : Name)
    → (let r = parse_args [] p in
        (r.0 ≡ true)
        × (values_at j r.1.arguments ≡ values_at j p.arguments ++ values_of j [])
        × (r.1.positional_args ≡ p.positional_args))
unfolding parse_args values_of
parse_args-nil p j = (refl, sym (append-nil (values_at j p.arguments)), refl)

pub parse_args-written_all :
    (settings : List Setting) (p : CommandLineParser) (j : Name)
    → IsLong j p.arguments
    → AreSettings settings p.arguments
    → (let r = parse_args (written_all settings) p in
        (r.0 ≡ true)
        × (values_at j r.1.arguments ≡ values_at j p.arguments ++ values_of j settings)
        × (r.1.positional_args ≡ p.positional_args))
unfolding written_all AreSettings
parse_args-written_all [] p j l s = parse_args-nil p j
parse_args-written_all ((name, value) ∷ settings) p j l s =
    let (a, h, takes, long) = entry_of name p.arguments s.0 in
    let known = give name value a p.arguments in
    let w = word_of-written name value a p.arguments s.1 s.2 h takes in
    let step = parse_args-given (written name value) name value a (written_all settings) p w in
    let (x, y, z) =
      parse_args-written_all settings (record p { arguments = known }) j
        (give-IsLong name value j a p.arguments h l)
        (give-AreSettings name value a p.arguments settings h s.3) in
    (
      ap (λ r. r.0) step ∙ x,
      ap (λ r. values_at j r.1.arguments) step
          ∙ y
          ∙ ap (λ vs. vs ++ values_of j settings)
              (values_at-step name value j a p.arguments h long s.0 l)
          ∙ append_assoc (values_at j p.arguments) (if same_name name j then value ∷ [] else [])
              (values_of j settings)
          ∙ ap (λ vs. values_at j p.arguments ++ vs) (sym (values_of-step name value j settings)),
      ap (λ r. r.1.positional_args) step ∙ z,
    )
