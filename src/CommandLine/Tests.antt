-- ===== src/CommandLine/Tests.antt =====
-- Shared/Common/CommandLineParser.cpp: an application at a server's options.
use helianthus.Prelude.{
  ◌≡◌, refl, true, false, none, some, List, [], ◌∷◌, arith, Name, same_name, find, put,
}
use helianthus.CommandLine.{
  ArgType, ParseError, CommandLineParser, add_argument, cut_at_equals, missing, parse, get_multi,
}
use helianthus.CommandLine.Settings.{Setting, written_all, values_of, IsLong, AreSettings}
use helianthus.CommandLine.Parsing.{parse-written_all}

abbrev port : Name
port = 112 ∷ 111 ∷ 114 ∷ 116 ∷ []

abbrev dirs : Name
dirs = 100 ∷ 105 ∷ 114 ∷ 115 ∷ []

abbrev server : CommandLineParser
server = add_argument (100 ∷ []) dirs ArgType.multi false [] (
    add_argument (112 ∷ []) port ArgType.integer true [] (record {
      arguments = [];
      positional_args = [];
      valid = false;
      last_error = ParseError.no_error;
    }))

abbrev choices : List Setting
choices = (dirs, 97 ∷ []) ∷ (port, 56 ∷ 48 ∷ []) ∷ (dirs, 98 ∷ 61 ∷ []) ∷ []

port-IsLong : IsLong port server.arguments
unfolding add_argument put find same_name
port-IsLong = record { takes = refl; long = refl; apart = λ j e. ground arith }

dirs-IsLong : IsLong dirs server.arguments
unfolding add_argument put find same_name
dirs-IsLong = record { takes = refl; long = refl; apart = λ j e. ground arith }

parse-written_all_example :
    (let r = parse (written_all choices) server in
      (get_multi dirs r.1 ≡ values_of dirs choices)
      × (r.1.positional_args ≡ [])
      × (r.0 ≡ elim (missing r.1.arguments) [ none ↦ true | some n ↦ false ]))
unfolding AreSettings cut_at_equals
parse-written_all_example = parse-written_all choices server dirs dirs-IsLong (
  dirs-IsLong,
  refl,
  (λ e. cc),
  (port-IsLong, refl, (λ e. cc), (dirs-IsLong, refl, (λ e. cc), tt)),
)
