-- ===== src/CommandLine/Fields.antt =====
-- Shared/Common/CommandLineParser.cpp: what a value that is given changes, and what it leaves.
use helianthus.Prelude.{
  ◌≡◌, refl, sym, ap, ◌∙◌, ◌≢◌, Bool, true, false, not, ◌&&◌, Option, none, some, List, [], ◌∷◌,
  ◌++◌, Name, same_name, same_name→eq, same_name_self, ne→same_name, find, put, find-put,
  if◌then◌else◌,
}
use helianthus.CommandLine.{Argument, Arguments, is_empty, is_flag, copied, give}

abbrev pub short_of : Name → Arguments → Name
short_of k known = elim (find k known) [ none ↦ [] | some a ↦ a.short_name ]

abbrev pub long_of : Name → Arguments → Name
long_of k known = elim (find k known) [ none ↦ [] | some a ↦ a.long_name ]

-- An argument that takes values is declared.
abbrev pub takes_value : Name → Arguments → Bool
takes_value k known = elim (find k known) [ none ↦ false | some a ↦ not (is_flag a.arg_type) ]

abbrev pub values_at : Name → Arguments → List Name
values_at k known = elim (find k known) [ none ↦ [] | some a ↦ a.values ]

abbrev pub with_values : List Name → Argument → Argument
with_values values a = record a { values = values }

-- What does not depend on the values of an argument.
abbrev pub IsBlind {ℓ} : {X : Type ℓ} → (Option Argument → X) → Type ℓ
IsBlind observe =
    (values : List Name) (a : Argument) → observe (some (with_values values a)) ≡ observe (some a)

module _ {ℓ} {X : Type ℓ} (observe : Option Argument → X) (blind : IsBlind observe) where
  observe-replaced :
      (k j : Name) (values : List Name) (a : Argument) (known : Arguments)
      → find k known ≡ some a
      → observe (find j (put k (with_values values a) known)) ≡ observe (find j known)
  observe-replaced k j values a known h =
      ap observe (find-put k j (with_values values a) known) ∙ by_test (same_name k j) refl
    where
      by_test :
          (b : Bool)
          → same_name k j ≡ b
          → observe (if b then some (with_values values a) else find j known)
            ≡ observe (find j known)
      by_test true q =
          blind values a
          ∙ ap observe (sym h)
          ∙ ap (λ n. observe (find n known)) (same_name→eq k j q)
      by_test false q = refl

  observe-copied :
      (k j : Name) (values : List Name) (known : Arguments)
      → observe (find j (copied k values known)) ≡ observe (find j known)
  unfolding copied
  observe-copied k j values known = by_entry (find k known) refl
    where
      by_entry :
          (o : Option Argument)
          → find k known ≡ o
          → observe (find j (elim o [ none ↦ known | some b ↦ put k (with_values values b) known ]))
            ≡ observe (find j known)
      by_entry none h = refl
      by_entry (some b) h = observe-replaced k j values b known h

  pub observe-give :
      (name j value : Name) (a : Argument) (known : Arguments)
      → find name known ≡ some a
      → observe (find j (give name value a known)) ≡ observe (find j known)
  unfolding give
  observe-give name j value a known h =
      by_tests (same_name name a.short_name && not (is_empty a.long_name))
        (same_name name a.long_name && not (is_empty a.short_name))
    where
      by_tests :
          (short long : Bool)
          → (let values = a.values ++ (value ∷ []) in
              let known1 = put name (with_values values a) known in
              observe (
                find j (
                  if short
                  then copied a.long_name values known1
                  else if long
                  then copied a.short_name values known1
                  else known1))
              ≡ observe (find j known))
      by_tests true long =
          observe-copied a.long_name j (a.values ++ (value ∷ []))
            (put name (with_values (a.values ++ (value ∷ [])) a) known)
          ∙ observe-replaced name j (a.values ++ (value ∷ [])) a known h
      by_tests false true =
          observe-copied a.short_name j (a.values ++ (value ∷ []))
            (put name (with_values (a.values ++ (value ∷ [])) a) known)
          ∙ observe-replaced name j (a.values ++ (value ∷ [])) a known h
      by_tests false false = observe-replaced name j (a.values ++ (value ∷ [])) a known h

-- Copying leaves what stands under another name.
find-copied_ne :
    (k j : Name) (values : List Name) (known : Arguments)
    → k ≢ j
    → find j (copied k values known) ≡ find j known
unfolding copied
find-copied_ne k j values known ne = by_entry (find k known)
  where
    by_entry :
        (o : Option Argument)
        → find j (elim o [ none ↦ known | some b ↦ put k (with_values values b) known ])
          ≡ find j known
    by_entry none = refl
    by_entry (some b) =
        find-put k j (with_values values b) known
        ∙ ap (λ t. if t then some (with_values values b) else find j known) (ne→same_name k j ne)

-- A value that is given under a long name stands at its end, and no third name is touched.
module _ (name value : Name) (a : Argument) (known : Arguments) (is_long : a.long_name ≡ name)
    (apart : a.short_name ≢ name) where
  find-give :
      (j : Name)
      → a.short_name ≢ j
      → find j (give name value a known)
        ≡ find j (put name (with_values (a.values ++ (value ∷ [])) a) known)
  unfolding give
  find-give j ne =
      by_tests (same_name name a.short_name && not (is_empty a.long_name))
        (same_name name a.long_name && not (is_empty a.short_name))
        (ap (λ t. t && not (is_empty a.long_name))
          (ne→same_name name a.short_name (λ e. apart (sym e))))
    where
      by_tests :
          (short long : Bool)
          → short ≡ false
          → (let values = a.values ++ (value ∷ []) in
              let known1 = put name (with_values values a) known in
              find j (
                if short
                then copied a.long_name values known1
                else if long
                then copied a.short_name values known1
                else known1)
              ≡ find j known1)
      by_tests true long q = cc
      by_tests false true q =
          find-copied_ne a.short_name j (a.values ++ (value ∷ []))
            (put name (with_values (a.values ++ (value ∷ [])) a) known) ne
      by_tests false false q = refl

  pub values_at-give :
      find name known ≡ some a
      → values_at name (give name value a known) ≡ values_at name known ++ (value ∷ [])
  values_at-give h =
      let of : Option Argument → List Name = λ o. elim o [ none ↦ [] | some x ↦ x.values ] in
      let new = with_values (a.values ++ (value ∷ [])) a in
      ap of (
        find-give name apart
        ∙ find-put name name new known
        ∙ ap (λ t. if t then some new else find name known) (same_name_self name))
      ∙ ap (λ o. of o ++ (value ∷ [])) (sym h)

  pub values_at-give_ne :
      (j : Name)
      → name ≢ j
      → a.short_name ≢ j
      → values_at j (give name value a known) ≡ values_at j known
  values_at-give_ne j ne ne2 =
      let of : Option Argument → List Name = λ o. elim o [ none ↦ [] | some x ↦ x.values ] in
      let new = with_values (a.values ++ (value ∷ [])) a in
      ap of (
        find-give j ne2
        ∙ find-put name j new known
        ∙ ap (λ t. if t then some new else find j known) (ne→same_name name j ne))
