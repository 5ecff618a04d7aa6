-- ===== src/CommandLine/Parsing.antt =====
-- Shared/Common/CommandLineParser.cpp: Parse on settings.
use helianthus.Prelude.{
  ◌≡◌, refl, sym, ap, ◌∙◌, Bool, true, false, not, Option, none, some, List, [], ◌∷◌, ◌++◌, arith,
  Name, find, if◌then◌else◌,
}
use helianthus.CommandLine.{
  Argument, ParseError, Arguments, CommandLineParser, cleared, is_flag, set_error, missing,
  parse_args, validate_arguments, finished, restarted, parse, get_multi,
}
use helianthus.CommandLine.Fields.{values_at, with_values, IsBlind}
use helianthus.CommandLine.Settings.{
  Setting, written_all, values_of, IsLong, AreSettings, parse_args-written_all,
}

find-cleared :
    (j : Name) (known : Arguments)
    → find j (cleared known)
      ≡ elim (find j known) [ none ↦ none | some a ↦ some (with_values [] a) ]
unfolding find cleared
find-cleared j [] = refl
find-cleared j ((k, a) ∷ known) = let r = find-cleared j known in ground arith

observe-cleared {ℓ} :
    {X : Type ℓ} (observe : Option Argument → X)
    → IsBlind observe
    → (j : Name) (known : Arguments) → observe (find j (cleared known)) ≡ observe (find j known)
observe-cleared observe blind j known = ap observe (find-cleared j known) ∙ by_entry (find j known)
  where
    by_entry :
        (o : Option Argument)
        → observe (elim o [ none ↦ none | some a ↦ some (with_values [] a) ]) ≡ observe o
    by_entry none = refl
    by_entry (some a) = blind [] a

values_at-cleared : (j : Name) (known : Arguments) → values_at j (cleared known) ≡ []
values_at-cleared j known =
    ap (λ o. elim o [ none ↦ [] | some a ↦ a.values ]) (find-cleared j known)
    ∙ by_entry (find j known)
  where
    by_entry :
        (o : Option Argument)
        → elim (elim o as (λ x. Option Argument) [ none ↦ none | some a ↦ some (with_values [] a) ])
            as (λ x. List Name) [ none ↦ [] | some a ↦ a.values ]
          ≡ []
    by_entry none = refl
    by_entry (some a) = refl

cleared-IsLong : (name : Name) (known : Arguments) → IsLong name known → IsLong name (cleared known)
cleared-IsLong name known l = record {
  takes =
      observe-cleared (λ o. elim o [ none ↦ false | some x ↦ not (is_flag x.arg_type) ])
        (λ vs x. refl) name known
      ∙ l.takes;
  long =
      observe-cleared (λ o. elim o [ none ↦ [] | some x ↦ x.long_name ]) (λ vs x. refl) name known
      ∙ l.long;
  apart = λ k e. l.apart k (
      sym
        (observe-cleared (λ o. elim o [ none ↦ [] | some x ↦ x.short_name ]) (λ vs x. refl) k known)
      ∙ e);
}

cleared-AreSettings :
    (settings : List Setting) (known : Arguments)
    → AreSettings settings known
    → AreSettings settings (cleared known)
unfolding AreSettings
cleared-AreSettings [] known s = tt
cleared-AreSettings ((name, value) ∷ settings) known s =
    (cleared-IsLong name known s.0, s.1, s.2, cleared-AreSettings settings known s.3)

-- After a loop that succeeded: the arguments stay, and the answer is whether none is missing.
finished-arguments :
    (r : Bool × CommandLineParser)
    → r.0 ≡ true
    → ((finished r).0 ≡ elim (missing (finished r).1.arguments) [ none ↦ true | some name ↦ false ])
      × ((finished r).1.arguments ≡ r.1.arguments)
      × ((finished r).1.positional_args ≡ r.1.positional_args)
unfolding finished validate_arguments
finished-arguments (false, p) h = cc
finished-arguments (true, p) h = by_missing (missing p.arguments) refl
  where
    outcome : Option Name → Bool × CommandLineParser
    outcome o =
        let v : Bool × CommandLineParser = elim o [
          | none ↦ (true, p)
          | some name ↦ (false, set_error (ParseError.is_missing name) p)
        ] in
        (v.0, if v.0 then record v.1 { valid = true } else v.1)

    by_missing :
        (o : Option Name)
        → missing p.arguments ≡ o
        → ((outcome o).0
            ≡ elim (missing (outcome o).1.arguments) [ none ↦ true | some name ↦ false ])
          × ((outcome o).1.arguments ≡ p.arguments)
          × ((outcome o).1.positional_args ≡ p.positional_args)
    by_missing none q = (rw q refl, refl, refl)
    by_missing (some name) q = (rw q refl, refl, refl)

-- Settings are written as `--name=value`, each with a value that is not empty and a name without
-- `=`. If each name is the long name of a declared argument that takes values, not a flag, and is
-- the short name of no argument, then any such name has the values that the settings give it, in
-- their order, no word is positional, and the answer is whether no required argument is missing.
pub parse-written_all :
    (settings : List Setting) (p : CommandLineParser) (name : Name)
    → IsLong name p.arguments
    → AreSettings settings p.arguments
    → (let r = parse (written_all settings) p in
        (get_multi name r.1 ≡ values_of name settings)
        × (r.1.positional_args ≡ [])
        × (r.0 ≡ elim (missing r.1.arguments) [ none ↦ true | some n ↦ false ]))
unfolding parse get_multi
parse-written_all settings p name l s =
    let (x, y, z) =
      parse_args-written_all settings (restarted p) name (cleared-IsLong name p.arguments l)
        (cleared-AreSettings settings p.arguments s) in
    let (a, b, c) = finished-arguments (parse_args (written_all settings) (restarted p)) x in
    (
      ap (values_at name) b
          ∙ y
          ∙ ap (λ vs. vs ++ values_of name settings) (values_at-cleared name p.arguments),
      c ∙ z,
      a,
    )
