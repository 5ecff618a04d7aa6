-- ===== src/CommandLine.antt =====
-- Shared/Common/CommandLineParser.cpp: the options of a program. A text is the list of its characters;
-- an error is named, where the source words it. The help, which is printed, is left out.
use helianthus.Prelude.{
  ℕ, Bool, true, false, not, ◌&&◌, Option, none, some, List, [], ◌∷◌, ◌++◌, Name, same_name, find,
  put, drop, take, ◌==◌, if◌then◌else◌,
}
pub mod Fields
pub mod Options
pub mod Settings
pub mod Parsing
mod Tests

pub data ArgType : Type 0 where
  flag string integer float multi : ArgType

pub record Argument : Type 0 where
  pub short_name : Name
  pub long_name : Name
  pub arg_type : ArgType
  pub required : Bool
  pub default_value : Name
  pub values : List Name

pub data ParseError : Type 0 where
  no_error : ParseError
  unknown_option requires_a_value is_missing : Name → ParseError

abbrev pub Arguments : Type 0
Arguments = List (Name × Argument)

pub record CommandLineParser : Type 0 where
  pub arguments : Arguments
  pub positional_args : List Name
  pub valid : Bool
  pub last_error : ParseError

abbrev pub is_empty : Name → Bool
is_empty [] = true
is_empty (c ∷ s) = false

-- The description is only for the help.
unfoldable pub add_argument :
    Name → Name → ArgType → Bool → Name → CommandLineParser → CommandLineParser
add_argument short long t required default p =
    let a : Argument = record {
      short_name = short;
      long_name = long;
      arg_type = t;
      required = required;
      default_value = default;
      values = [];
    } in
    let known1 = if is_empty long then p.arguments else put long a p.arguments in
    record p { arguments = if is_empty short then known1 else put short a known1 }

unfoldable pub cleared : Arguments → Arguments
cleared [] = []
cleared ((k, a) ∷ known) = (k, record a { values = [] }) ∷ cleared known

-- Cuts a text at its first `=`.
unfoldable pub cut_at_equals : Name → Option (Name × Name)
cut_at_equals [] = none
cut_at_equals (c ∷ s) =
    if c == 61
    then some ([], s)
    else elim (cut_at_equals s) [ none ↦ none | some (name, value) ↦ some (c ∷ name, value) ]

-- The name and the value of an option with one dash: a first letter that is declared takes the rest.
unfoldable pub short_option : Name → Arguments → Name × Name
short_option (c ∷ d ∷ s) known =
    if d == 45
    then (c ∷ d ∷ s, [])
    else elim (find (c ∷ []) known) [ none ↦ (c ∷ d ∷ s, []) | some a ↦ (c ∷ [], d ∷ s) ]
short_option name known = (name, [])

unfoldable pub option_of : Name → Arguments → Name × Name
unfolding cut_at_equals short_option
option_of arg known =
    if same_name (take 2 arg) (45 ∷ 45 ∷ [])
    then elim (cut_at_equals (drop 2 arg)) [ none ↦ (drop 2 arg, []) | some option ↦ option ]
    else short_option (drop 1 arg) known

abbrev pub is_flag : ArgType → Bool
is_flag ArgType.flag = true
is_flag _ = false

abbrev pub text_true : Name
text_true = 116 ∷ 114 ∷ 117 ∷ 101 ∷ []

abbrev pub is_help : Name → Bool
is_help arg =
    if same_name arg (45 ∷ 104 ∷ [])
    then true
    else same_name arg (45 ∷ 45 ∷ 104 ∷ 101 ∷ 108 ∷ 112 ∷ [])

-- What a word of the command line asks for.
pub data Word : Type 0 where
  nothing help : Word
  positional unknown : Name → Word
  given : Name → Name → Argument → Word
  awaiting : Name → Argument → Word

unfoldable pub word_of : Name → Arguments → Word
unfolding option_of
word_of [] known = Word.nothing
word_of (c ∷ s) known =
    if is_help (c ∷ s)
    then Word.help
    else if not (c == 45)
    then Word.positional (c ∷ s)
    else let (name, value) = option_of (c ∷ s) known in
      elim (find name known) [
        | none ↦ Word.unknown name
        | some a ↦
            if is_flag a.arg_type
            then Word.given name text_true a
            else if is_empty value
            then Word.awaiting name a
            else Word.given name value a
      ]

-- Copies the values to the other name of the argument.
unfoldable pub copied : Name → List Name → Arguments → Arguments
copied name values known = elim (find name known) [
  | none ↦ known
  | some b ↦ put name (record b { values = values }) known
]

-- Appends a value and copies the values.
unfoldable pub give : Name → Name → Argument → Arguments → Arguments
unfolding copied
give name value a known =
    let values = a.values ++ (value ∷ []) in
    let known1 = put name (record a { values = values }) known in
    if same_name name a.short_name && not (is_empty a.long_name)
    then copied a.long_name values known1
    else if same_name name a.long_name && not (is_empty a.short_name)
    then copied a.short_name values known1
    else known1

abbrev pub set_error : ParseError → CommandLineParser → CommandLineParser
set_error e p = record p { last_error = e; valid = false }

-- The loop, and the loop after an option that takes the next word as its value.
unfoldable mutual
  unfolding word_of give

  pub parse_args : List Name → CommandLineParser → Bool × CommandLineParser
  parse_args [] p = (true, p)
  parse_args (arg ∷ args) p = elim (word_of arg p.arguments) [
    | Word.nothing ↦ parse_args args p
    | Word.help ↦ (false, p)
    | Word.positional s ↦
        parse_args args (record p { positional_args = p.positional_args ++ (s ∷ []) })
    | Word.unknown name ↦ (false, set_error (ParseError.unknown_option name) p)
    | Word.given name value a ↦
        parse_args args (record p { arguments = give name value a p.arguments })
    | Word.awaiting name a ↦ take_value name a args p
  ]

  pub take_value : Name → Argument → List Name → CommandLineParser → Bool × CommandLineParser
  take_value name a [] p = (false, set_error (ParseError.requires_a_value name) p)
  take_value name a (value ∷ args) p =
      parse_args args (record p { arguments = give name value a p.arguments })

-- The first argument that is required and neither given nor preset.
unfoldable pub missing : Arguments → Option Name
missing [] = none
missing ((k, a) ∷ known) =
    if same_name k a.long_name
      && (not (is_empty a.long_name) && (a.required && is_empty a.default_value))
    then elim a.values [ [] ↦ some a.long_name | v ∷ vs ↦ missing known ]
    else missing known

unfoldable pub validate_arguments : CommandLineParser → Bool × CommandLineParser
unfolding missing
validate_arguments p = elim (missing p.arguments) [
  | none ↦ (true, p)
  | some name ↦ (false, set_error (ParseError.is_missing name) p)
]

-- What follows the loop.
unfoldable pub finished : Bool × CommandLineParser → Bool × CommandLineParser
unfolding validate_arguments
finished (false, p) = (false, p)
finished (true, p) =
    let (complete, p1) = validate_arguments p in
    (complete, if complete then record p1 { valid = true } else p1)

abbrev pub restarted : CommandLineParser → CommandLineParser
restarted p = record {
  arguments = cleared p.arguments;
  positional_args = [];
  valid = false;
  last_error = ParseError.no_error;
}

unfoldable pub parse : List Name → CommandLineParser → Bool × CommandLineParser
unfolding parse_args finished cleared
parse args p = finished (parse_args args (restarted p))

unfoldable pub get_multi : Name → CommandLineParser → List Name
get_multi name p = elim (find name p.arguments) [ none ↦ [] | some a ↦ a.values ]

unfoldable pub has_flag : Name → CommandLineParser → Bool
has_flag name p = elim (find name p.arguments) [
  | none ↦ false
  | some a ↦ elim a.values [ [] ↦ false | v ∷ vs ↦ true ]
]

-- Of a name that is not declared the source reads the default through an empty optional: `none`.
unfoldable pub get_string : Name → CommandLineParser → Option Name
get_string name p = elim (find name p.arguments) [
  | none ↦ none
  | some a ↦ elim a.values [ [] ↦ some a.default_value | v ∷ vs ↦ some v ]
]
